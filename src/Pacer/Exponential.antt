-- ===== src/Pacer/Exponential.antt =====
-- pkg/pacer/exponential: config.go, pacer.go and factory.go. `sort` is `sort.Slice`.
pub mod Laws
use straggler.Base.{ℕ, List, String, ◌<>◌, length, ltb, leb, Bool, if◌then◌else◌, take}
use straggler.Base.Int.{ℤ, pos, negsuc, sub64, leb_ℤ, ltb_ℤ, eqb_ℤ}
use straggler.Base.Float.{FloatOps}
use straggler.Base.Result.{Result, ok, panic, ◌>>=◌}
use straggler.Kube.{Pod}
use straggler.Pacer.Slice.{slice_to}
use straggler.Pacer.{PodClassification, Pacer, PacerFactory}

-- func max and func min
unfoldable pub max : ℤ → ℤ → ℤ
max a b = if ltb_ℤ b a then a else b

unfoldable pub min : ℤ → ℤ → ℤ
min a b = if ltb_ℤ a b then a else b

module _ (F : FloatOps) where
  open F use {Float64, of_int, to_int, mul, ceil}

  pub record Config : Type 0 where
    pub min_initial : ℤ
    pub max_stagger : ℤ
    pub multiplier : Float64

  unfoldable pub calculate_allowed_count : ℤ → ℤ → ℤ → ℤ → Float64 → ℤ
  calculate_allowed_count ready_count starting_count blocked_count min_initial multiplier =
      if eqb_ℤ ready_count (pos 0)
      then min (max (pos 0) (sub64 min_initial starting_count)) blocked_count
      else (let desired_count = to_int (ceil (mul (of_int ready_count) multiplier)) in
          let allowed_count = max (pos 0) (sub64 desired_count starting_count) in
          min allowed_count blocked_count)

  module _ (sort : (Pod → Pod → Bool) → List Pod → List Pod) where
    unfoldable pub pace : Config → PodClassification → Result (List Pod × List Pod)
    pace config c =
        if leb_ℤ config.max_stagger (pos (length c.ready))
        then ok (c.blocked, c.blocked)
        else (let allowed_count =
              calculate_allowed_count (pos (length c.ready)) (pos (length c.starting))
                (pos (length c.blocked)) config.min_initial config.multiplier in
            let blocked = sort (λ a b. ltb a.creation_timestamp b.creation_timestamp) c.blocked in
            slice_to allowed_count blocked >>= λ allow_pods. ok (allow_pods, blocked))

    -- New and ID; the key is part of the identity only.
    unfoldable pub new : String → Config → Pacer
    new key config = record { pace = pace config; id = "*exponential.pacer[" <> key <> "]" }

    -- NewFactory and its New.
    unfoldable pub new_factory : Config → PacerFactory
    new_factory config = record { new = λ key. new key config }
