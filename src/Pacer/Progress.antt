-- ===== src/Pacer/Progress.antt =====
-- A pacer that lets a group go on: with no pod starting it allows some blocked pod, and a pod older
-- than all other blocked ones before any other. Exponential pacers, and the composite of one such,
-- are of this kind.
use mathlib.Core.List.{
  Perm, Mem, Mem-prop, mem-append, mem-append_right, mem-cons, mem-cons_self, not-mem-nil,
  append-nil, Nodup,
}
use mathlib.Core.List.Perm
use mathlib.Core.Logic.Or
use native.Mathlib.Bridge.{le_prop}
use straggler.Base.{
  filter_by, ℕ, suc, ◌≤◌, ◌<◌, ◌≡◌, ◌≢◌, ◌∙◌, refl, sym, ap, subst, List, [], ◌∷◌, ◌++◌, String,
  Bool, false, length, arith, Bool-cases, inl, inr, All,
}
use straggler.Base.Float.{FloatOps}
use straggler.Base.Int.{pos, leb_ℤ}
use straggler.Base.Result.{ok}
use straggler.Base.Sorting.{IsSort}
use straggler.Base.Counts.{length_pos, nonempty_length}
use straggler.Kube.{Pod}
use straggler.Pacer.{PodClassification, Pacer, Fits, Serves, IsLawful, same_allowed}
use straggler.Pacer.Composite.{new_composite}
use straggler.Pacer.Composite.Counting.{uids, named_by_all}
use straggler.Pacer.Composite.Laws.{Serves-distinct}
use straggler.Pacer.Composite.Single.{new_composite_one, allowed-mem, mem-sublist}
use straggler.Pacer.Exponential as Exponential
use straggler.Pacer.Exponential.Laws.{target, pace-fills_target}

pub record IsProgressive (p : Pacer) : Type 0 where
  -- A pod that comes in older than the blocked ones.
  pub prefers :
      (c : PodClassification) (blocked : List Pod) (q : Pod)
      → Fits c
      → Nodup (uids c.blocked)
      → c.starting ≡ []
      → c.blocked ≡ blocked ++ q ∷ []
      → All (λ b. q.creation_timestamp < b.creation_timestamp) blocked
      → (allowed left : List Pod) → p.pace c ≡ ok (allowed, left)
      → Mem q allowed
  pub moves :
      (c : PodClassification)
      → Fits c
      → Nodup (uids c.blocked)
      → c.starting ≡ []
      → c.blocked ≢ []
      → (allowed left : List Pod) → p.pace c ≡ ok (allowed, left)
      → allowed ≢ []

-- A bound on all entries of a list bounds each.
bound_of_mem :
    (key : Pod → ℕ) (m : ℕ) (xs : List Pod) (y : Pod)
    → All (λ x. m ≤ key x) xs
    → Mem y xs
    → m ≤ key y
bound_of_mem key m [] y h mem = absurd (not-mem-nil mem)
bound_of_mem key m (x ∷ xs) y h mem =
    Or.elim le_prop (mem-cons.0 mem) (λ e. rw e h.0) (bound_of_mem key m xs y h.1)

append-ne-nil : (xs : List Pod) (x : Pod) → xs ++ x ∷ [] ≢ []
append-ne-nil [] x e = cc
append-ne-nil (y ∷ ys) x e = cc

All-tt : (xs : List Pod) → All (λ _. Unit {0}) xs
All-tt [] = tt
All-tt (x ∷ xs) = (tt, All-tt xs)

-- Of a list that is cut where all before the cut are no younger than all behind it, the pod that is older
-- than any other stands before the cut.
oldest_before :
    (allowed kept blocked : List Pod) (q : Pod)
    → Perm (allowed ++ kept) (blocked ++ q ∷ [])
    → All (λ a. All (λ k. a.creation_timestamp ≤ k.creation_timestamp) kept) allowed
    → allowed ≢ []
    → All (λ b. suc q.creation_timestamp ≤ b.creation_timestamp) blocked
    → Mem q allowed
oldest_before [] kept blocked q perm cut some_allowed older = absurd (some_allowed refl)
oldest_before (a ∷ rest) kept blocked q perm cut some_allowed older =
    Or.elim Mem-prop (mem-append.0 ((Perm.mem_iff perm).1 (mem-append_right blocked mem-cons_self)))
      (λ m. m)
      (λ behind.
        let early : a.creation_timestamp ≤ q.creation_timestamp =
          bound_of_mem (λ p. p.creation_timestamp) a.creation_timestamp kept q cut.0 behind in
        Or.elim Mem-prop (mem-append.0 ((Perm.mem_iff perm).0 mem-cons_self))
          (λ other. absurd (
            let late : suc q.creation_timestamp ≤ a.creation_timestamp =
              bound_of_mem (λ p. p.creation_timestamp) (suc q.creation_timestamp) blocked a older
                other in
            omega arith))
          (λ same.
            Or.elim Mem-prop (mem-cons.0 same) (λ e. rw e mem-cons_self)
              (λ none. absurd (not-mem-nil none))))

module _ (F : FloatOps) {sort : (Pod → Pod → Bool) → List Pod → List Pod} (S : IsSort sort) where
  module _ (key : String) (config : Exponential.Config F)
      (targets : (r : ℕ)
        → leb_ℤ config.max_stagger (pos r) ≡ false
        → (t : ℕ) × (target F config r ≡ pos t) × (0 < t) × (t < 0x8000_0000_0000_0000)) where
    -- With no pod starting it allows the oldest blocked pods, one of them at least.
    exponential_allows :
        (c : PodClassification)
        → Fits c
        → c.starting ≡ []
        → c.blocked ≢ []
        → (allowed left : List Pod) → Exponential.pace F sort config c ≡ ok (allowed, left)
        → (allowed ≢ [])
          × ((kept : List Pod) × Perm (allowed ++ kept) c.blocked
              × All (λ a. All (λ k. a.creation_timestamp ≤ k.creation_timestamp) kept) allowed)
    unfolding Exponential.pace
    exponential_allows c fits none some_blocked allowed left e =
        elim (Bool-cases (leb_ℤ config.max_stagger (pos (length c.ready)))) [
          | inl over ↦
              let same : allowed ≡ c.blocked = ground (arith, e, over) in
              (
                λ h. some_blocked (sym same ∙ h),
                (
                  [],
                  subst (λ xs. Perm xs c.blocked) (sym (append-nil allowed ∙ same))
                      (Perm.refl c.blocked),
                  All-tt allowed,
                ),
              )
          | inr below ↦
              let (t, is_target, more, small) = targets (length c.ready) below in
              let (xs, kept, served, perm, count, cut) =
                pace-fills_target F S config c t fits below is_target small in
              let same : allowed ≡ xs = same_allowed e served in
              let none_length : length c.starting ≡ 0 = ap (λ (ps : List Pod). length ps) none in
              let some_length = length_pos c.blocked some_blocked in
              rw same (
                nonempty_length xs (omega (arith, count, more, none_length, some_length)),
                (kept, perm, cut),
              )
        ]

    -- An exponential pacer whose targets below `max_stagger` are positive.
    pub new_exponential-IsProgressive : IsProgressive (Exponential.new F sort key config)
    unfolding Exponential.new
    new_exponential-IsProgressive = record {
      prefers = λ c blocked q fits _ none all older allowed left e.
          let (more, (kept, perm, cut)) =
            exponential_allows c fits none (λ h. append-ne-nil blocked q (sym all ∙ h)) allowed left
              e in
          oldest_before allowed kept blocked q (subst (λ b. Perm (allowed ++ kept) b) all perm) cut
            more older;
      moves = λ c fits _ none some_blocked allowed left e.
          (exponential_allows c fits none some_blocked allowed left e).0;
    }

some_member : (xs : List Pod) → xs ≢ [] → (x : Pod) × Mem x xs
some_member [] h = absurd (h refl)
some_member (x ∷ xs) h = (x, mem-cons_self)

-- The composite that the classifier makes of one pacer.
pub new_composite-IsProgressive :
    (id : String) (p : Pacer)
    → IsLawful p
    → IsProgressive p
    → IsProgressive (new_composite id (p ∷ []))
new_composite-IsProgressive id p lawful h = record {
  prefers = λ c blocked q fits distinct none all older allowed left e.
      let (xs, ys, answer, serves) = lawful c fits in
      let named = h.prefers c blocked q fits distinct none all older xs ys answer in
      subst (Mem q) (same_allowed (one c xs ys answer serves distinct) e)
        (allowed-mem q xs ys named (mem-sublist q serves.from_blocked named));
  moves = λ c fits distinct none some_blocked allowed left e nothing.
      let (xs, ys, answer, serves) = lawful c fits in
      let (x, named) = some_member xs (h.moves c fits distinct none some_blocked xs ys answer) in
      not-mem-nil (
        subst (Mem x) (same_allowed (one c xs ys answer serves distinct) e ∙ nothing)
          (allowed-mem x xs ys named (mem-sublist x serves.from_blocked named)));
}
  where
    one :
        (c : PodClassification) (xs ys : List Pod)
        → p.pace c ≡ ok (xs, ys)
        → Serves c xs ys
        → Nodup (uids c.blocked)
        → (new_composite id (p ∷ [])).pace c ≡ ok (filter_by (named_by_all (xs ∷ [])) ys, ys)
    one c xs ys answer serves distinct =
        new_composite_one id p c xs ys answer (Serves-distinct c xs ys serves distinct)
