-- ===== src/Tests/Telemetry.antt =====
-- What the command line starts, for its default flags and others.
use straggler.Base.{◌≡◌, refl, [], ◌∷◌, false, arith, ltb, ◌-◌, string_dec, if◌then◌else◌}
use straggler.Base.Int.{pos, ◌-ℤ◌}
use straggler.Cli.Telemetry.{
  Settings, log_development, listen_pprof, handle_metrics, listen_metrics, set_build_info,
  log_level, start_metrics_exposer, setup_telemetry_and_logging, build,
}
use straggler.Cli.Telemetry.Laws.{log_level_wraps}

abbrev defaults : Settings
defaults = record {
  log_verbosity = pos 0;
  production_style_logging = false;
  metrics_listen_address = ":8080";
  pprof_listen_address = ":6060";
}

started :
    setup_telemetry_and_logging defaults
    ≡ log_development (pos 0)
      ∷ listen_pprof ":6060"
      ∷ handle_metrics "/metrics"
      ∷ listen_metrics ":8080"
      ∷ set_build_info build
      ∷ []
unfolding setup_telemetry_and_logging string_dec
started = refl

other_path :
    start_metrics_exposer ":8080/stats" ≡ handle_metrics "/stats" ∷ listen_metrics ":8080" ∷ []
unfolding start_metrics_exposer
other_path = refl

log_level_wraps_example :
    log_level (pos 200) ≡ (if ltb 0x80 200 then pos (0x100 - 200) else pos 0 -ℤ pos 200)
log_level_wraps_example = log_level_wraps 200 (omega arith)
