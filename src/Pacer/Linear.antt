-- ===== src/Pacer/Linear.antt =====
-- pkg/pacer/linear: pacer.go and factory.go.
pub mod Laws
use straggler.Base.{List, [], String, ◌<>◌, length, if◌then◌else◌}
use straggler.Base.Int.{ℤ, pos, sub64, rem64, leb_ℤ, eqb_ℤ}
use straggler.Base.Float.{FloatOps}
use straggler.Base.Result.{Result, ok, panic, ◌>>=◌}
use straggler.Kube.{Pod}
use straggler.Pacer.{PodClassification, Pacer, PacerFactory}
use straggler.Pacer.Slice.{slice_to}

pub record Config : Type 0 where
  pub max_stagger : ℤ
  pub step : ℤ

module _ (F : FloatOps) where
  open F use {of_int, to_int, fmin}

  -- The division by a zero step is a run-time panic.
  unfoldable pub pace : Config → PodClassification → Result (List Pod × List Pod)
  pace config c =
      if leb_ℤ config.max_stagger (pos (length c.ready))
      then ok (c.blocked, c.blocked)
      else (if eqb_ℤ config.step (pos 0)
          then panic
          else (let remainder = rem64 (pos (length c.ready)) config.step in
              let allow_count = sub64 config.step remainder in
              if leb_ℤ allow_count (pos (length c.starting))
              then ok ([], c.blocked)
              else (let to_allow =
                    to_int (fmin (of_int (pos (length c.blocked))) (of_int allow_count)) in
                  slice_to to_allow c.blocked >>= λ allow_pods. ok (allow_pods, c.blocked))))

  -- New and ID; the key is part of the identity only.
  unfoldable pub new : String → Config → Pacer
  new key config = record { pace = pace config; id = "*linear.pacer[" <> key <> "]" }

  -- NewFactory and its New.
  unfoldable pub new_factory : Config → PacerFactory
  new_factory config = record { new = λ key. new key config }
