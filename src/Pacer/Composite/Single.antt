-- ===== src/Pacer/Composite/Single.antt =====
-- A composite of one pacer, which is what the classifier of pkg/controller/classifier.go makes for a pod
-- that one configuration applies to.
use mathlib.Core.List.{
  Sublist, Mem, Mem-prop, mem-cons, mem-cons_self, mem-cons_of_mem, not-mem-nil, Nodup, Nodup-cons,
  Sublistᴰ, append-nil,
}
use mathlib.Core.List.Nodup
use mathlib.Core.Bool.{Bool-set}
use mathlib.Core.Logic.Or
use straggler.Base.{
  ℕ, ◌≡◌, ◌≢◌, ◌∙◌, refl, sym, ap, subst, List, [], ◌∷◌, ◌++◌, String, string_eq, string_dec, Bool,
  true, false, All, arith, filter_by, map-sublist, take, drop, take-append-drop, Bool-cases, inl,
  inr, All-map, filter_by-append, take-sublist,
}
use straggler.Base.Result.{ok}
use straggler.Kube.{Pod}
use straggler.Pacer.{PodClassification, Pacer}
use straggler.Pacer.Composite.{new_composite}
use straggler.Pacer.Composite.Counting.{uids, has_uid, named_by_all}
use straggler.Pacer.Composite.Laws.{pace-Runs}

has_uid-mem : (x : Pod) (r : List Pod) → Mem x r → has_uid x.uid r ≡ true
has_uid-mem x [] m = absurd (not-mem-nil m)
has_uid-mem x (y ∷ r) m =
    Or.elim (Bool-set _ _) (mem-cons.0 m) (λ e. rw e (ground arith))
      (λ later. let rest = has_uid-mem x r later in ground (arith, rest))

mem-uids : (x : Pod) (r : List Pod) → has_uid x.uid r ≡ true → Mem x.uid (uids r)
mem-uids x [] h = absurd (cc h)
mem-uids x (y ∷ r) h = elim (string_dec y.uid x.uid) [
  | yes same ↦ rw (← same) mem-cons_self
  | no differ ↦ mem-cons_of_mem y.uid (mem-uids x r (ground (arith, h, differ)))
]

mem-filter_by :
    (f : Pod → Bool) (x : Pod) (xs : List Pod) → Mem x xs → f x ≡ true → Mem x (filter_by f xs)
mem-filter_by f x [] m h = absurd (not-mem-nil m)
mem-filter_by f x (y ∷ xs) m h =
    Or.elim Mem-prop (mem-cons.0 m)
      (λ e. subst (λ z. Mem x (filter_by f (z ∷ xs))) e (rw h mem-cons_self))
      (λ later. elim (Bool-cases (f y)) [
        | inl kept ↦ rw kept (mem-cons_of_mem y (mem-filter_by f x xs later h))
        | inr other ↦ rw other (mem-filter_by f x xs later h)
      ])

-- The composite allows what its pacer allows.
pub new_composite_one :
    (id : String) (p : Pacer) (c : PodClassification) (allowed left : List Pod)
    → p.pace c ≡ ok (allowed, left)
    → Nodup (uids allowed)
    → (new_composite id (p ∷ [])).pace c ≡ ok (filter_by (named_by_all (allowed ∷ [])) left, left)
unfolding new_composite
new_composite_one id p c allowed left e d =
    pace-Runs p [] c (allowed ∷ []) left (left, e, refl) refl (d, tt)

-- Every pod that its pacer allows is allowed by the composite.
pub allowed-mem :
    (x : Pod) (allowed left : List Pod)
    → Mem x allowed
    → Mem x left
    → Mem x (filter_by (named_by_all (allowed ∷ [])) left)
allowed-mem x allowed left named there =
    mem-filter_by (named_by_all (allowed ∷ [])) x left there (rw (has_uid-mem x allowed named) refl)

mem-sublistᴰ : {xs ys : List Pod} (x : Pod) → Sublistᴰ xs ys → Mem x xs → Mem x ys
mem-sublistᴰ x Sublistᴰ.slnil m = m
mem-sublistᴰ x (Sublistᴰ.cons {a = y} s) m = mem-cons_of_mem y (mem-sublistᴰ x s m)
mem-sublistᴰ x (Sublistᴰ.cons-cons {b = y} e s) m =
    Or.elim Mem-prop (mem-cons.0 m) (λ same. rw (same ∙ e) mem-cons_self)
      (λ later. mem-cons_of_mem y (mem-sublistᴰ x s later))

pub mem-sublist : {xs ys : List Pod} (x : Pod) → Sublist xs ys → Mem x xs → Mem x ys
mem-sublist x s m = ∥∥₁_rec Mem-prop (λ t. mem-sublistᴰ x t m) s

-- Where the pods have distinct UIDs and the pacer takes them from the front, the composite takes the
-- same.
self_named : (xs : List Pod) → All (λ x. has_uid x.uid xs ≡ true) xs
self_named [] = tt
self_named (x ∷ xs) = (
  ground arith,
  All-map (λ y. has_uid y.uid xs ≡ true) (λ y. has_uid y.uid (x ∷ xs) ≡ true) xs
      (λ y h. ground (arith, h)) (self_named xs),
)

filter_by_all : (f : Pod → Bool) (xs : List Pod) → All (λ x. f x ≡ true) xs → filter_by f xs ≡ xs
filter_by_all f [] h = refl
filter_by_all f (x ∷ xs) h = rw (h.0, filter_by_all f xs h.1) refl

filter_by_nothing :
    (f : Pod → Bool) (xs : List Pod) → All (λ x. f x ≡ false) xs → filter_by f xs ≡ []
filter_by_nothing f [] h = refl
filter_by_nothing f (x ∷ xs) h = rw h.0 (filter_by_nothing f xs h.1)

apart_of_absent :
    (u : String) (xs ys : List Pod) → ¬ Mem u (uids (xs ++ ys)) → All (λ y. u ≢ y.uid) ys
apart_of_absent u [] [] absent = tt
apart_of_absent u [] (y ∷ ys) absent = (
  λ e. absent (rw e mem-cons_self),
  apart_of_absent u [] ys (λ m. absent (mem-cons_of_mem y.uid m)),
)
apart_of_absent u (x ∷ xs) ys absent =
    apart_of_absent u xs ys (λ m. absent (mem-cons_of_mem x.uid m))

unnamed_one :
    (x : Pod) (xs ys : List Pod)
    → All (λ y. x.uid ≢ y.uid) ys
    → All (λ y. has_uid y.uid xs ≡ false) ys
    → All (λ y. has_uid y.uid (x ∷ xs) ≡ false) ys
unnamed_one x xs [] apart h = tt
unnamed_one x xs (y ∷ ys) apart h = (ground (arith, apart.0, h.0), unnamed_one x xs ys apart.1 h.1)

unnamed_by_nobody : (ys : List Pod) → All (λ y. has_uid y.uid [] ≡ false) ys
unnamed_by_nobody [] = tt
unnamed_by_nobody (y ∷ ys) = (refl, unnamed_by_nobody ys)

unnamed_back : (xs ys : List Pod) → Nodup (uids (xs ++ ys)) → All (λ y. has_uid y.uid xs ≡ false) ys
unnamed_back [] ys d = unnamed_by_nobody ys
unnamed_back (x ∷ xs) ys d =
    let (absent, rest) = Nodup-cons.0 d in
    unnamed_one x xs ys (apart_of_absent x.uid xs ys absent) (unnamed_back xs ys rest)

named_front :
    (xs ys : List Pod)
    → Nodup (uids (xs ++ ys))
    → filter_by (named_by_all (xs ∷ [])) (xs ++ ys) ≡ xs
named_front xs ys d =
    let f = named_by_all (xs ∷ []) in
    let front : filter_by f xs ≡ xs = filter_by_all f xs (
      All-map (λ x. has_uid x.uid xs ≡ true) (λ x. f x ≡ true) xs (λ x h. rw h refl)
        (self_named xs)) in
    let back : filter_by f ys ≡ [] = filter_by_nothing f ys (
      All-map (λ y. has_uid y.uid xs ≡ false) (λ y. f y ≡ false) ys (λ y h. rw h refl)
        (unnamed_back xs ys d)) in
    filter_by-append f xs ys
    ∙ ap (λ zs. zs ++ filter_by f ys) front
    ∙ ap (λ zs. xs ++ zs) back
    ∙ append-nil xs

-- A pacer that takes pods from the front of those with distinct UIDs, as they are.
pub new_composite_one-take :
    (id : String) (p : Pacer) (c : PodClassification) (n : ℕ)
    → p.pace c ≡ ok (take n c.blocked, c.blocked)
    → Nodup (uids c.blocked)
    → (new_composite id (p ∷ [])).pace c ≡ ok (take n c.blocked, c.blocked)
new_composite_one-take id p c n e d =
    let xs = take n c.blocked in
    let ys = drop n c.blocked in
    let whole : xs ++ ys ≡ c.blocked = take-append-drop n c.blocked in
    let distinct : Nodup (uids (xs ++ ys)) = subst (λ zs. Nodup (uids zs)) (sym whole) d in
    let front : Nodup (uids xs) =
      Nodup.sublist (map-sublist (λ p. p.uid) (take-sublist n c.blocked)) d in
    new_composite_one id p c xs c.blocked e front
    ∙ ap (λ zs. ok (zs, c.blocked))
        (ap (filter_by (named_by_all (xs ∷ []))) (sym whole) ∙ named_front xs ys distinct)
