-- ===== src/Cli/Telemetry/Laws.antt =====
-- The level of the logger, and where the metrics are served.
use straggler.Base.{ℕ, ◌<◌, ◌-◌, ◌≡◌, [], ◌∷◌, String, ◌<>◌, none, some, ltb, arith, if◌then◌else◌}
use straggler.Base.Int.{pos, ◌-ℤ◌, sub64, wrap64}
use straggler.Base.Strings.{index, before, behind, before-behind, index-before-behind}
use straggler.Cli.Telemetry.{
  log_level, wrap8, handle_metrics, listen_metrics, start_metrics_exposer,
}

-- Up to 128 a verbosity is the level below 0 that zap takes for it. From 129 to 255 it becomes a
-- level above 0 instead, from 127 down to 1.
pub log_level_wraps :
    (v : ℕ)
    → v < 0x100
    → log_level (pos v) ≡ (if ltb 0x80 v then pos (0x100 - v) else pos 0 -ℤ pos v)
unfolding log_level wrap8 sub64 wrap64 ◌-ℤ◌
log_level_wraps v small = ground arith

-- Where the address has a slash, the metrics are served under the part from its first slash on, at the
-- part in front of it, and nothing of the address is lost.
pub start_metrics_exposer-splits :
    (address : String) (n : ℕ)
    → index b'/' address ≡ some n
    → (path : String) × (listen : String) × (start_metrics_exposer address
        ≡ handle_metrics path ∷ listen_metrics listen ∷ [])
      × (listen <> path ≡ address)
      × (index b'/' listen ≡ none)
      × (index b'/' path ≡ some 0)
unfolding start_metrics_exposer
start_metrics_exposer-splits address n found =
    let (front, back) = index-before-behind b'/' n address found in
    (
      behind n address,
      before n address,
      ground (arith, found),
      before-behind n address,
      front,
      back,
    )
