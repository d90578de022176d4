-- ===== src/Pacer/Order.antt =====
-- The order of the pacers in a composite: an exponential pacer behind a linear one.
use Prim.Native.Nat.{min as min_ℕ}
use mathlib.Core.List.{
  Perm, Nodup, Nodup-cons, Nodup-nil, not-mem-nil, Mem, mem-cons_self, mem-cons_of_mem,
}
use mathlib.Core.List.Perm
use straggler.Base.{
  suc, ◌-◌, ◌%◌, ◌<◌, ◌≡◌, ◌≢◌, ◌∙◌, refl, sym, ap, subst, List, [], ◌∷◌, String, Bool, false,
  length, arith, filter_by, string_eq, string_dec, take,
}
use straggler.Base.Float.{FloatOps, IsIeee}
use straggler.Base.Int.{pos, leb_ℤ, eqb_ℤ}
use straggler.Base.Result.{ok}
use straggler.Base.Sorting.{IsSort, length-perm}
use straggler.Kube.{Pod}
use straggler.Pacer.{PodClassification, Fits}
use straggler.Pacer.Exponential as Exponential
use straggler.Pacer.Exponential.Laws.{target, oldest_first, calculate_allowed_count_lem, pace_below}
use straggler.Pacer.Linear as Linear
use straggler.Pacer.Linear.Laws.{pace_allows, gap, sub64-rem64}
use straggler.Pacer.Composite.{new_composite}
use straggler.Pacer.Composite.Counting.{uids, named_by_all}
use straggler.Pacer.Composite.Laws.{pace-Runs, perm-Fits}

-- No pod has the UIDs of two.
two_named :
    (x y : Pod) (zs : List Pod)
    → x.uid ≢ y.uid
    → filter_by (named_by_all ((x ∷ []) ∷ (y ∷ []) ∷ [])) zs ≡ []
two_named x y [] differ = refl
two_named x y (z ∷ zs) differ = ground (arith, two_named x y zs differ, differ)

fresh_named :
    (y : Pod) (zs : List Pod)
    → ¬ Mem y.uid (uids zs)
    → filter_by (named_by_all ((y ∷ []) ∷ (y ∷ []) ∷ [])) zs ≡ []
fresh_named y [] fresh = refl
fresh_named y (z ∷ zs) fresh =
    let later = fresh_named y zs (λ m. fresh (mem-cons_of_mem z.uid m)) in
    elim (string_dec y.uid z.uid) [
      | yes same ↦ absurd (fresh (rw same mem-cons_self))
      | no differ ↦ ground (arith, differ, later)
    ]

-- Of distinct pods, the first is the only one with its UID.
first_named :
    (y : Pod) (ys : List Pod)
    → Nodup (uids (y ∷ ys))
    → filter_by (named_by_all ((y ∷ []) ∷ (y ∷ []) ∷ [])) (y ∷ ys) ≡ y ∷ []
first_named y ys distinct = ground (arith, fresh_named y ys (Nodup-cons.0 distinct).0)

singleton-Nodup : (x : Pod) → Nodup (uids (x ∷ []))
singleton-Nodup x = Nodup-cons.1 (not-mem-nil, Nodup-nil)

module _ {F : FloatOps} (I : IsIeee F) {sort : (Pod → Pod → Bool) → List Pod → List Pod}
    (S : IsSort sort) (exp : Exponential.Config F) (lin : Linear.Config) (c : PodClassification)
    (fits : Fits c) (none_starting : c.starting ≡ [])
    (exp_below : leb_ℤ exp.max_stagger (pos (length c.ready)) ≡ false)
    (one_target : target F exp (length c.ready) ≡ pos 1)
    (lin_below : leb_ℤ lin.max_stagger (pos (length c.ready)) ≡ false)
    (one_step : lin.step ≡ pos 1) where
  -- The linear pacer allows the first pod of the list.
  linear_first :
      (x : Pod) (xs : List Pod)
      → Perm (x ∷ xs) c.blocked
      → Linear.pace F lin (record c { blocked = x ∷ xs }) ≡ ok (x ∷ [], x ∷ xs)
  linear_first x xs perm =
      let fits' = perm-Fits c (x ∷ xs) perm fits in
      let c' : PodClassification = record c { blocked = x ∷ xs } in
      let small : 1 < 0x8000_0000_0000_0000 = omega arith in
      let whole : 1 - length c.ready % 1 ≡ 1 = omega arith in
      let one : gap I lin c' fits' ≡ pos 1 =
        rw one_step (sub64-rem64 (length c.ready) 0 small) ∙ ap pos whole in
      let nonzero : eqb_ℤ lin.step (pos 0) ≡ false = rw one_step (ground arith) in
      let more : length c.starting < 1 = rw none_starting (omega arith) in
      let first : min_ℕ (length (x ∷ xs)) 1 ≡ 1 = omega arith in
      pace_allows I lin c' fits' 1 lin_below nonzero one more
      ∙ ap (λ n. ok (take n (x ∷ xs), x ∷ xs)) first

  -- The exponential pacer allows the oldest.
  exponential_oldest :
      (b : List Pod) (y : Pod) (ys : List Pod)
      → Perm b c.blocked
      → oldest_first F S b ≡ y ∷ ys
      → Exponential.pace F sort exp (record c { blocked = b }) ≡ ok (y ∷ [], y ∷ ys)
  exponential_oldest b y ys perm sorted =
      let c' : PodClassification = record c { blocked = b } in
      let same : length b ≡ suc (length ys) =
        sym (length-perm (S.permutes _ b)) ∙ ap (λ (xs : List Pod). length xs) sorted in
      let small : 1 < 0x8000_0000_0000_0000 = omega arith in
      let none : length c.starting ≡ 0 = ap (λ (xs : List Pod). length xs) none_starting in
      let one : min_ℕ (1 - length c.starting) (length b) ≡ 1 = omega (arith, same, none) in
      pace_below F S exp c' 1 exp_below
        (calculate_allowed_count_lem F exp (length c.ready) (length c.starting) (length b) 1
            one_target small fits.starting_fits
          ∙ ap pos one)
        (omega (arith, same))
      ∙ ap (λ xs. ok (take 1 xs, xs)) sorted

  -- With no pod starting, and one pod to be allowed by each of an exponential and a linear pacer, on blocked
  -- pods of distinct UIDs of which the first is not the oldest: the composite with the linear pacer first
  -- allows no pod at all, and the one with the exponential pacer first allows the oldest.
  pub new_composite_order :
      (id key : String) (x y : Pod) (xs ys : List Pod)
      → c.blocked ≡ x ∷ xs
      → oldest_first F S (x ∷ xs) ≡ y ∷ ys
      → x.uid ≢ y.uid
      → Nodup (uids (x ∷ xs))
      → ((new_composite id (Linear.new F key lin ∷ Exponential.new F sort key exp ∷ [])).pace c
          ≡ ok ([], y ∷ ys))
        × ((new_composite id (Exponential.new F sort key exp ∷ Linear.new F key lin ∷ [])).pace c
            ≡ ok (y ∷ [], y ∷ ys))
  unfolding new_composite Linear.new Exponential.new
  new_composite_order id key x y xs ys all sorted differ distinct =
      let listed : Perm (x ∷ xs) c.blocked =
        subst (λ b. Perm (x ∷ xs) b) (sym all) (Perm.refl (x ∷ xs)) in
      let oldest : Perm (y ∷ ys) (x ∷ xs) =
        subst (λ b. Perm b (x ∷ xs)) sorted (S.permutes _ (x ∷ xs)) in
      let lin_pace = Linear.pace F lin in
      let exp_pace = Exponential.pace F sort exp in
      let lin_x = ap (λ b. lin_pace (record c { blocked = b })) all ∙ linear_first x xs listed in
      let exp_c =
        ap (λ b. exp_pace (record c { blocked = b })) all
        ∙ exponential_oldest (x ∷ xs) y ys listed sorted in
      let lawful_uids : Nodup (uids (y ∷ ys)) =
        Perm.nodup (Perm.symm (Perm.map (λ p. p.uid) oldest)) distinct in
      (
        pace-Runs (Linear.new F key lin) (Exponential.new F sort key exp ∷ []) c
              ((x ∷ []) ∷ (y ∷ []) ∷ []) (y ∷ ys)
              (x ∷ xs, lin_x, (y ∷ ys, exponential_oldest (x ∷ xs) y ys listed sorted, refl)) refl
              (singleton-Nodup x, (singleton-Nodup y, tt))
            ∙ ap (λ r. ok (r, y ∷ ys)) (two_named x y (y ∷ ys) differ),
        pace-Runs (Exponential.new F sort key exp) (Linear.new F key lin ∷ []) c
              ((y ∷ []) ∷ (y ∷ []) ∷ []) (y ∷ ys)
              (y ∷ ys, exp_c, (y ∷ ys, linear_first y ys (Perm.trans oldest listed), refl)) refl
              (singleton-Nodup y, (singleton-Nodup y, tt))
            ∙ ap (λ r. ok (r, y ∷ ys)) (first_named y ys lawful_uids),
      )
