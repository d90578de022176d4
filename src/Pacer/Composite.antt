-- ===== src/Pacer/Composite.antt =====
-- pkg/pacer/composite.go.
pub mod Counting
pub mod Laws
pub mod Single
use straggler.Base.{
  ℕ, ◌+◌, List, [], ◌∷◌, String, ◌<>◌, none, some, Bool, false, length, eqb, join, print_nat, map,
  filter_by, string_eq,
}
use straggler.Base.Dict.{Dict, lookup, insert}
use straggler.Base.Result.{Result, ok, ◌>>=◌}
use straggler.Kube.{Pod}
use straggler.Pacer.{PodClassification, Pacer}

-- `results[uid]`, which reads 0 where there is no entry.
unfoldable pub count_of : String → Dict String ℕ → ℕ
unfolding lookup
count_of uid results = elim (lookup uid results) [ none ↦ 0 | some n ↦ n ]

-- `for _, pod := range result { results[string(pod.UID)] += 1 }`
unfoldable pub count_results : List Pod → Dict String ℕ → Dict String ℕ
unfolding count_of insert
count_results [] results = results
count_results (pod ∷ pods) results =
    count_results pods (insert pod.uid (count_of pod.uid results + 1) results)

-- The first loop: every pacer is asked in turn, about the slice of blocked pods as the pacers
-- before it left it. The first error ends it.
unfoldable pub run_pacers :
    List Pacer → PodClassification → Dict String ℕ → Result (Dict String ℕ × List Pod)
unfolding count_results
run_pacers [] c results = ok (results, c.blocked)
run_pacers (p ∷ ps) c results = do
  (result, blocked) ← p.pace c
  run_pacers ps (record c { blocked = blocked }) (count_results result results)

-- `count, ok := results[uid]; ok && count == len(p.pacers)`
unfoldable pub allowed_by_all : ℕ → Dict String ℕ → Pod → Bool
unfolding lookup
allowed_by_all n results pod = elim (lookup pod.uid results) [
  | none ↦ false
  | some count ↦ eqb count n
]

unfoldable pub pace : List Pacer → PodClassification → Result (List Pod × List Pod)
unfolding run_pacers allowed_by_all
pace pacers c = do
  (results, blocked) ← run_pacers pacers c []
  ok (filter_by (allowed_by_all (length pacers) results) blocked, blocked)

unfoldable pub composite_id : String → List Pacer → String
unfolding join print_nat
composite_id id pacers =
    "composite("
    <> id
    <> ")["
    <> print_nat (length pacers)
    <> "]:"
    <> join "," (map (λ p. p.id) pacers)

-- NewComposite
unfoldable pub new_composite : String → List Pacer → Pacer
unfolding pace composite_id
new_composite id pacers = record { pace = pace pacers; id = composite_id id pacers }
