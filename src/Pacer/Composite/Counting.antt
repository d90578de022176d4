-- ===== src/Pacer/Composite/Counting.antt =====
-- The counting of the composite pacer: after all pacers have answered, the count of a pod is the
-- number of pacers that named it.
use mathlib.Core.List.{Nodup, Mem, mem-cons_self, mem-cons_of_mem, Nodup-cons}
use mathlib.Core.Logic.{if_pos, if_neg}
use straggler.Base.{
  ℕ, suc, ◌+◌, ◌≤◌, ◌≡◌, refl, List, [], ◌∷◌, String, Bool, true, false, ◌||◌, ◌&&◌, length, eqb,
  map, arith, ◌==◌, string_eq, string_dec, if◌then◌else◌, All,
}
use straggler.Base.Dict.{Dict, lookup, insert, lookup-insert}
use straggler.Kube.{Pod}
use straggler.Pacer.Composite.{count_of, count_results, allowed_by_all}

abbrev pub uids : List Pod → List String
uids = map (λ p. p.uid)

-- Some pod of the list has the UID.
abbrev pub has_uid : String → List Pod → Bool
has_uid uid [] = false
has_uid uid (p ∷ ps) = p.uid == uid || has_uid uid ps

-- Every list names the pod.
abbrev pub named_by_all : List (List Pod) → Pod → Bool
named_by_all [] pod = true
named_by_all (r ∷ rs) pod = has_uid pod.uid r && named_by_all rs pod

-- All lists are counted, one after the other.
abbrev pub count_all : List (List Pod) → Dict String ℕ → Dict String ℕ
count_all [] d = d
count_all (r ∷ rs) d = count_all rs (count_results r d)

occurrences : String → List Pod → ℕ
occurrences uid [] = 0
occurrences uid (p ∷ ps) = (if p.uid == uid then 1 else 0) + occurrences uid ps

namings : String → List (List Pod) → ℕ
namings uid [] = 0
namings uid (r ∷ rs) = (if has_uid uid r then 1 else 0) + namings uid rs

count_of-insert :
    (uid k : String) (n : ℕ) (d : Dict String ℕ)
    → count_of uid (insert k n d) ≡ (if k == uid then n else count_of uid d)
unfolding count_of
count_of-insert uid k n d = ground (arith, lookup-insert uid k n d)

count_of-count_results :
    (uid : String) (pods : List Pod) (d : Dict String ℕ)
    → count_of uid (count_results pods d) ≡ count_of uid d + occurrences uid pods
unfolding count_results occurrences
count_of-count_results uid [] d = omega arith
count_of-count_results uid (p ∷ ps) d = ground (
  arith,
  count_of-count_results uid ps (insert p.uid (count_of p.uid d + 1) d),
  count_of-insert uid p.uid (count_of p.uid d + 1) d,
)

occurrences_absent : (uid : String) (ps : List Pod) → ¬ Mem uid (uids ps) → occurrences uid ps ≡ 0
unfolding occurrences
occurrences_absent uid [] h = refl
occurrences_absent uid (p ∷ ps) h = elim (string_dec p.uid uid) [
  | yes same ↦ absurd (h (rw (← same) mem-cons_self))
  | no differ ↦
      rw (if_neg _ differ)
        (omega (arith, occurrences_absent uid ps (λ m. h (mem-cons_of_mem p.uid m))))
]

occurrences_distinct :
    (uid : String) (ps : List Pod)
    → Nodup (uids ps)
    → occurrences uid ps ≡ (if has_uid uid ps then 1 else 0)
unfolding occurrences
occurrences_distinct uid [] d = refl
occurrences_distinct uid (p ∷ ps) d =
    let (fresh, rest) = Nodup-cons.0 d in
    elim (string_dec p.uid uid) [
      | yes same ↦ rw (if_pos _ same, occurrences_absent uid ps (λ m. fresh (rw same m))) refl
      | no differ ↦ rw (if_neg _ differ) (ground (arith, occurrences_distinct uid ps rest))
    ]

count_of-count_all :
    (uid : String) (rs : List (List Pod)) (d : Dict String ℕ)
    → All (λ r. Nodup (uids r)) rs
    → count_of uid (count_all rs d) ≡ count_of uid d + namings uid rs
unfolding namings
count_of-count_all uid [] d distinct = omega arith
count_of-count_all uid (r ∷ rs) d distinct = omega (
  arith,
  count_of-count_all uid rs (count_results r d) distinct.1,
  count_of-count_results uid r d,
  occurrences_distinct uid r distinct.0,
)

namings-le : (uid : String) (rs : List (List Pod)) → namings uid rs ≤ length rs
unfolding namings
namings-le uid [] = omega arith
namings-le uid (r ∷ rs) = ground (arith, namings-le uid rs)

namings-eq :
    (pod : Pod) (rs : List (List Pod)) → eqb (namings pod.uid rs) (length rs) ≡ named_by_all rs pod
unfolding namings
namings-eq pod [] = refl
namings-eq pod (r ∷ rs) = ground (arith, namings-eq pod rs, namings-le pod.uid rs)

-- A pod that has been counted at least once is allowed exactly when its count is the number of lists.
allowed_by_all-count_of :
    (n : ℕ) (d : Dict String ℕ) (pod : Pod)
    → allowed_by_all (suc n) d pod ≡ eqb (count_of pod.uid d) (suc n)
unfolding allowed_by_all count_of
allowed_by_all-count_of n d pod = ground arith

pub allowed_by_all-named :
    (r : List Pod) (rs : List (List Pod)) (pod : Pod)
    → All (λ r. Nodup (uids r)) (r ∷ rs)
    → allowed_by_all (length (r ∷ rs)) (count_all (r ∷ rs) []) pod ≡ named_by_all (r ∷ rs) pod
unfolding count_of lookup
allowed_by_all-named r rs pod distinct = ground (
  arith,
  allowed_by_all-count_of (length rs) (count_all (r ∷ rs) []) pod,
  count_of-count_all pod.uid (r ∷ rs) [] distinct,
  namings-eq pod (r ∷ rs),
)
