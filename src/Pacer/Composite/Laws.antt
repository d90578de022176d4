-- ===== src/Pacer/Composite/Laws.antt =====
-- The composite pacer is a pacer again, and allows exactly what all its pacers allow.
use mathlib.Core.List.{Perm, Nodup}
use mathlib.Core.List.Perm
use mathlib.Core.List.Nodup
use mathlib.Core.Path.{fun_ext}
use straggler.Base.{
  ℕ, suc, ◌≡◌, refl, List, [], ◌∷◌, ◌++◌, String, Bool, length, arith, All, filter_by,
  filter_by-sublist, map-sublist, ap,
}
use straggler.Base.Dict.{Dict}
use straggler.Base.Result.{Error, ok, err}
use straggler.Base.Sorting.{length-perm}
use straggler.Kube.{Pod}
use straggler.Pacer.{PodClassification, Pacer, Fits, Serves, IsLawful, Meets}
use straggler.Pacer.Composite.{count_results, run_pacers, allowed_by_all, pace, new_composite}
use straggler.Pacer.Composite.Counting.{uids, named_by_all, count_all, allowed_by_all-named}

-- The pacers answer in turn: `rs` are the lists that they allow, and `b` is what the last one leaves
-- in the slice of blocked pods.
abbrev pub Runs : List Pacer → PodClassification → List (List Pod) → List Pod → Type 0
Runs [] c [] b = b ≡ c.blocked
Runs [] c (r ∷ rs) b = ⊥
Runs (p ∷ ps) c [] b = ⊥
Runs (p ∷ ps) c (r ∷ rs) b =
    (left : List Pod) × (p.pace c ≡ ok (r, left)) × Runs ps (record c { blocked = left }) rs b

run_pacers-Runs :
    (ps : List Pacer) (c : PodClassification) (rs : List (List Pod)) (b : List Pod)
    (d : Dict String ℕ)
    → Runs ps c rs b
    → run_pacers ps c d ≡ ok (count_all rs d, b)
unfolding run_pacers
run_pacers-Runs [] c [] b d e = rw e
run_pacers-Runs [] c (r ∷ rs) b d h = absurd h
run_pacers-Runs (p ∷ ps) c [] b d h = absurd h
run_pacers-Runs (p ∷ ps) c (r ∷ rs) b d (left, e, h) =
    rw e (run_pacers-Runs ps (record c { blocked = left }) rs b (count_results r d) h)

filter_by-congr :
    (f g : Pod → Bool) (xs : List Pod) → ((x : Pod) → f x ≡ g x) → filter_by f xs ≡ filter_by g xs
filter_by-congr f g xs h = ap (λ (k : Pod → Bool). filter_by k xs) (fun_ext h)

-- Where the pacers' lists have distinct UIDs, the composite allows the pods that every pacer named,
-- in the order that the last pacer left.
pub pace-Runs :
    (p : Pacer) (ps : List Pacer) (c : PodClassification) (rs : List (List Pod)) (b : List Pod)
    → Runs (p ∷ ps) c rs b
    → length rs ≡ length (p ∷ ps)
    → All (λ r. Nodup (uids r)) rs
    → pace (p ∷ ps) c ≡ ok (filter_by (named_by_all rs) b, b)
unfolding pace
pace-Runs p ps c [] b runs same distinct = absurd runs
pace-Runs p ps c (r ∷ rs) b runs same distinct =
    rw (run_pacers-Runs (p ∷ ps) c (r ∷ rs) b [] runs, ← same)
      (ap (λ xs. ok (xs, b))
        (filter_by-congr _ _ b (λ pod. allowed_by_all-named r rs pod distinct)))

run_pacers-err :
    (qs : List Pacer) (p : Pacer) (ps : List Pacer) (c : PodClassification) (rs : List (List Pod))
    (b : List Pod) (e : Error) (d : Dict String ℕ)
    → Runs qs c rs b
    → p.pace (record c { blocked = b }) ≡ err e
    → run_pacers (qs ++ p ∷ ps) c d ≡ err e
unfolding run_pacers
run_pacers-err [] p ps c [] b e d runs h = rw (← runs, h)
run_pacers-err [] p ps c (r ∷ rs) b e d runs h = absurd runs
run_pacers-err (q ∷ qs) p ps c [] b e d runs h = absurd runs
run_pacers-err (q ∷ qs) p ps c (r ∷ rs) b e d (left, f, runs) h =
    rw f (run_pacers-err qs p ps (record c { blocked = left }) rs b e (count_results r d) runs h)

pub perm-Fits :
    (c : PodClassification) (b : List Pod)
    → Perm b c.blocked
    → Fits c
    → Fits (record c { blocked = b })
perm-Fits c b p fits = record {
  ready_fits = fits.ready_fits;
  starting_fits = fits.starting_fits;
  blocked_fits = omega (arith, length-perm p);
}

pub Serves-distinct :
    (c : PodClassification) (a b : List Pod)
    → Serves c a b
    → Nodup (uids c.blocked)
    → Nodup (uids a)
Serves-distinct c a b s d =
    Nodup.sublist (map-sublist (λ p. p.uid) s.from_blocked)
      (Perm.nodup (Perm.symm (Perm.map (λ p. p.uid) s.same_pods)) d)

-- Lawful pacers all answer, and lose no blocked pod.
Runs-total :
    (ps : List Pacer) (c : PodClassification)
    → All IsLawful ps
    → Fits c
    → (rs : List (List Pod)) × (b : List Pod) × Runs ps c rs b
      × Perm b c.blocked
      × (length rs ≡ length ps)
      × (Nodup (uids c.blocked) → All (λ r. Nodup (uids r)) rs)
Runs-total [] c lawful fits = ([], c.blocked, refl, Perm.refl c.blocked, refl, λ _. tt)
Runs-total (p ∷ ps) c lawful fits =
    let (r, left, e, s) = lawful.0 c fits in
    let (rs, b, runs, perm, same, distinct) =
      Runs-total ps (record c { blocked = left }) lawful.1 (perm-Fits c left s.same_pods fits) in
    (
      r ∷ rs,
      b,
      (left, e, runs),
      Perm.trans perm s.same_pods,
      ap suc same,
      λ d. (
        Serves-distinct c r left s d,
        distinct (Perm.nodup (Perm.symm (Perm.map (λ p. p.uid) s.same_pods)) d),
      ),
    )

-- For groups whose sizes fit, a composite of lawful pacers returns without an error or a panic, and
-- allows blocked pods only.
pub new_composite-IsLawful :
    (id : String) (ps : List Pacer) (c : PodClassification)
    → All IsLawful ps
    → Fits c
    → Meets (new_composite id ps) c
unfolding new_composite pace
new_composite-IsLawful id ps c lawful fits =
    let (rs, b, runs, perm, _, _) = Runs-total ps c lawful fits in
    let allowed = filter_by (allowed_by_all (length ps) (count_all rs [])) b in
    (
      allowed,
      b,
      rw (run_pacers-Runs ps c rs b [] runs) refl,
      record { same_pods = perm; from_blocked = filter_by-sublist _ b },
    )

-- For groups whose sizes fit, with at least one pacer and blocked pods of distinct UIDs, a
-- composite of lawful pacers asks them in turn, and returns exactly the blocked pods that every one
-- of them allows, in the order that the last one leaves.
pub new_composite-allows_named :
    (id : String) (p : Pacer) (ps : List Pacer) (c : PodClassification)
    → All IsLawful (p ∷ ps)
    → Fits c
    → Nodup (uids c.blocked)
    → (rs : List (List Pod)) × (b : List Pod) × Runs (p ∷ ps) c rs b
      × ((new_composite id (p ∷ ps)).pace c ≡ ok (filter_by (named_by_all rs) b, b))
unfolding new_composite
new_composite-allows_named id p ps c lawful fits d =
    let (rs, b, runs, _, same, distinct) = Runs-total (p ∷ ps) c lawful fits in
    (rs, b, runs, pace-Runs p ps c rs b runs same (distinct d))

-- When the pacers before it have answered, the error of a pacer is the error of the composite, and
-- the pacers after it do not matter.
pub new_composite-err :
    (id : String) (qs : List Pacer) (p : Pacer) (ps : List Pacer) (c : PodClassification)
    (rs : List (List Pod)) (b : List Pod) (e : Error)
    → Runs qs c rs b
    → p.pace (record c { blocked = b }) ≡ err e
    → (new_composite id (qs ++ p ∷ ps)).pace c ≡ err e
unfolding new_composite pace
new_composite-err id qs p ps c rs b e runs h = rw (run_pacers-err qs p ps c rs b e [] runs h)
