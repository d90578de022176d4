-- ===== src/Tests/Pacers.antt =====
-- The pacers on a small group.
use Prim.Native.Nat.{min as min_ℕ}
use mathlib.Core.HLevel.{hedberg}
use mathlib.Core.List.{Perm, Sublist, Nodup, Nodup-cons, Nodup-nil, not-mem-nil, mem-singleton}
use straggler.Base.{
  ◌-◌, ◌≤◌, ◌≡◌, ◌≢◌, ◌↔◌, refl, List, [], ◌∷◌, ◌++◌, false, arith, length, All, filter_by,
  string_dec,
}
use straggler.Base.Int.{pos, leb_ℤ, sub64, rem64}
use straggler.Base.Float.{whole_floats, whole_floats-IsIeee}
use straggler.Base.Result.{ok, panic}
use straggler.Base.Sorting.{insertion_sort, insertion_sort-IsSort}
use straggler.Kube.{Pod}
use straggler.Pacer.{PodClassification, Pacer, Fits, Meets, IsLawful}
use straggler.Pacer.Slice.{slice_to}
use straggler.Pacer.Exponential.{
  new as new_exponential, pace as pace_exponential, calculate_allowed_count, min, max,
  Config as ExponentialConfig,
}
use straggler.Pacer.Order.{new_composite_order}
use straggler.Pacer.Exponential.Laws.{oldest_first, pace-fills_target, new_exponential-IsLawful}
use straggler.Pacer.Linear.{new as new_linear, pace as pace_linear, Config as LinearConfig}
use straggler.Pacer.Linear.Laws.{pace-eq-panic_iff, pace-fills_step, new_linear-IsLawful}
use straggler.Pacer.Composite.{new_composite}
use straggler.Pacer.Composite.Counting.{uids, named_by_all}
use straggler.Pacer.Composite.Laws.{Runs, new_composite-IsLawful, new_composite-allows_named}
use straggler.Tests.{third, fourth, standing, standing-Fits}

abbrev doubling : ExponentialConfig whole_floats
doubling = record { min_initial = pos 1; max_stagger = pos 8; multiplier = pos 2 }

abbrev in_fours : LinearConfig
in_fours = record { max_stagger = pos 8; step = pos 4 }

abbrev exponential : Pacer
exponential = new_exponential whole_floats insertion_sort "web" doubling

abbrev linear : Pacer
linear = new_linear whole_floats "web" in_fours

exponential-IsLawful : IsLawful exponential
exponential-IsLawful = new_exponential-IsLawful whole_floats insertion_sort-IsSort "web" doubling

four_nonzero : in_fours.step ≢ pos 0
four_nonzero e = ground (arith, e)

linear-IsLawful : IsLawful linear
linear-IsLawful = new_linear-IsLawful whole_floats-IsIeee "web" in_fours four_nonzero

distinct : Nodup (uids standing.blocked)
distinct =
    Nodup-cons.1
      (λ m. apart ((mem-singleton (hedberg string_dec)).0 m), Nodup-cons.1 (not-mem-nil, Nodup-nil))
  where
    apart : fourth.uid ≢ third.uid
    apart e = cc

-- Two may be in flight and one is starting, so the older of the blocked pods is allowed.
paced :
    pace_exponential whole_floats insertion_sort doubling standing
    ≡ ok (third ∷ [], third ∷ fourth ∷ [])
unfolding pace_exponential insertion_sort slice_to calculate_allowed_count min max sub64
paced = refl

stepped : pace_linear whole_floats in_fours standing ≡ ok (fourth ∷ third ∷ [], fourth ∷ third ∷ [])
unfolding pace_linear sub64 rem64 slice_to
stepped = refl

both :
    (new_composite "id" (exponential ∷ linear ∷ [])).pace standing
    ≡ ok (third ∷ [], third ∷ fourth ∷ [])
unfolding new_composite new_exponential new_linear pace_exponential pace_linear insertion_sort
    slice_to calculate_allowed_count min max sub64 rem64 string_dec
both = refl

pace-fills_target_example :
    (allowed : List Pod) × (kept : List Pod) × (pace_exponential whole_floats insertion_sort
        doubling standing
      ≡ ok (allowed, allowed ++ kept))
    × Perm (allowed ++ kept) standing.blocked
    × (length allowed ≡ min_ℕ (2 - 1) 2)
    × All (λ a. All (λ k. a.creation_timestamp ≤ k.creation_timestamp) kept) allowed
pace-fills_target_example =
    pace-fills_target whole_floats insertion_sort-IsSort doubling standing 2 standing-Fits refl refl
      (omega arith)

pace-fills_step_example :
    (allowed : List Pod) × (pace_linear whole_floats in_fours standing
      ≡ ok (allowed, standing.blocked))
    × Sublist allowed standing.blocked
    × (length allowed ≡ min_ℕ 2 3)
pace-fills_step_example =
    pace-fills_step whole_floats-IsIeee in_fours standing standing-Fits 3 refl refl (omega arith)

pace-eq-panic_iff_example :
    (pace_linear whole_floats in_fours standing ≡ panic)
    ↔ ((leb_ℤ (pos 8) (pos 1) ≡ false) × (in_fours.step ≡ pos 0))
pace-eq-panic_iff_example = pace-eq-panic_iff whole_floats-IsIeee in_fours standing standing-Fits

new_composite-IsLawful_example : Meets (new_composite "id" (exponential ∷ linear ∷ [])) standing
new_composite-IsLawful_example =
    new_composite-IsLawful "id" (exponential ∷ linear ∷ []) standing
      (exponential-IsLawful, (linear-IsLawful, tt)) standing-Fits

new_composite-allows_named_example :
    (rs : List (List Pod)) × (b : List Pod) × Runs (exponential ∷ linear ∷ []) standing rs b
    × ((new_composite "id" (exponential ∷ linear ∷ [])).pace standing
        ≡ ok (filter_by (named_by_all rs) b, b))
new_composite-allows_named_example =
    new_composite-allows_named "id" exponential (linear ∷ []) standing
      (exponential-IsLawful, (linear-IsLawful, tt)) standing-Fits distinct

exponential-Runs : Runs (exponential ∷ []) standing ((third ∷ []) ∷ []) (third ∷ fourth ∷ [])
unfolding new_exponential pace_exponential insertion_sort slice_to calculate_allowed_count min max
    sub64
exponential-Runs = (third ∷ fourth ∷ [], refl, refl)

-- At the start of a group each of the two pacers lets one pod start: the linear pacer the first of the
-- list, and the exponential pacer the oldest.
abbrev at_start : PodClassification
at_start = record { ready = []; starting = []; blocked = fourth ∷ third ∷ [] }

at_start-Fits : Fits at_start
at_start-Fits = record {
  ready_fits = omega arith;
  starting_fits = omega arith;
  blocked_fits = omega arith;
}

abbrev in_ones : LinearConfig
in_ones = record { max_stagger = pos 8; step = pos 1 }

fourth_differs : fourth.uid ≢ third.uid
fourth_differs e = cc

sorted : oldest_first whole_floats insertion_sort-IsSort (fourth ∷ third ∷ []) ≡ third ∷ fourth ∷ []
unfolding insertion_sort
sorted = refl

new_composite_order_example :
    ((new_composite "id" (
          new_linear whole_floats "web" in_ones
          ∷ new_exponential whole_floats insertion_sort "web" doubling
          ∷ [])).pace
        at_start
      ≡ ok ([], third ∷ fourth ∷ []))
    × ((new_composite "id" (
            new_exponential whole_floats insertion_sort "web" doubling
            ∷ new_linear whole_floats "web" in_ones
            ∷ [])).pace
          at_start
        ≡ ok (third ∷ [], third ∷ fourth ∷ []))
new_composite_order_example =
    new_composite_order whole_floats-IsIeee insertion_sort-IsSort doubling in_ones at_start
      at_start-Fits refl refl refl refl refl "id" "web" fourth third (third ∷ []) (fourth ∷ []) refl
      sorted fourth_differs distinct
