-- ===== src/Cli/Telemetry.antt =====
-- SetupTelemetryAndLogging and init of cmd/straggler/cmd/root.go, and StartMetricsExposer of
-- pkg/metrics/metrics.go.
pub mod Laws
use straggler.Base.{
  ℕ, ◌-◌, ◌%◌, List, [], ◌∷◌, ◌++◌, String, Option, none, some, Bool, true, false, not, ltb, ◌==◌,
  string_eq, if◌then◌else◌,
}
use straggler.Base.Int.{ℤ, pos, negsuc, sub64}
use straggler.Base.State.{M, ◌>>=◌, ◌>>◌}
use straggler.Base.Strings.{index, before, behind}
use straggler.Cli.Flags.{FlagSet, string, int, bool}

-- version.Build
abbrev pub build : String
build = "UNSPECIFIED"

-- The variables of the flags that all commands have.
pub record Settings : Type 0 where
  pub log_verbosity : ℤ
  pub production_style_logging : Bool
  pub metrics_listen_address : String
  pub pprof_listen_address : String

-- What is set up: the logger, the servers, and the metric with the build's version.
pub data Telemetry : Type 0 where
  log_production : ℤ → Telemetry
  log_development : ℤ → Telemetry
  listen_pprof : String → Telemetry
  handle_metrics : String → Telemetry
  listen_metrics : String → Telemetry
  set_build_info : String → Telemetry

-- The conversion to an `int8`, of which zap's levels are: the two's complement of the low 8 bits.
abbrev pub from_bits8 : ℕ → ℤ
from_bits8 r = if ltb r 0x80 then pos r else negsuc (0x100 - 1 - r)

unfoldable pub wrap8 : ℤ → ℤ
wrap8 (pos n) = from_bits8 (n % 0x100)
wrap8 (negsuc n) = from_bits8 (0x100 - 1 - n % 0x100)

-- `zapcore.Level(LogVerbosity * -1)`
unfoldable pub log_level : ℤ → ℤ
unfolding wrap8 sub64
log_level verbosity = wrap8 (sub64 (pos 0) verbosity)

unfoldable pub start_metrics_exposer : String → List Telemetry
unfolding index before behind
start_metrics_exposer address = elim (index b'/' address) [
  | none ↦ handle_metrics "/metrics" ∷ listen_metrics address ∷ []
  | some n ↦ handle_metrics (behind n address) ∷ listen_metrics (before n address) ∷ []
]

unfoldable pub setup_pprof : String → List Telemetry
setup_pprof address = if not (address == "") then listen_pprof address ∷ [] else []

unfoldable pub setup_metrics : String → List Telemetry
unfolding start_metrics_exposer
setup_metrics address = if not (address == "") then start_metrics_exposer address else []

unfoldable pub setup_telemetry_and_logging : Settings → List Telemetry
unfolding log_level setup_pprof setup_metrics
setup_telemetry_and_logging s =
    (if s.production_style_logging
      then log_production (log_level s.log_verbosity)
      else log_development (log_level s.log_verbosity))
    ∷ (setup_pprof s.pprof_listen_address
        ++ (setup_metrics s.metrics_listen_address ++ set_build_info build ∷ []))

-- init: the persistent flags of the root command, with the variables as their defaults leave them.
module _ {S : Type 0} (flag_set : FlagSet S) where
  unfoldable pub add_persistent_flags : M S (Unit {0})
  add_persistent_flags = do
    flag_set.var "log-verbosity" (int (pos 0)) "set logging verbosity"
    flag_set.var "log-production" (bool false) "enable production style logging"
    flag_set.var "metrics-listen" (string ":8080") "prometheus metric exposer listen address"
    flag_set.var "pprof-listen" (string ":6060") "go pprof http listen address"
