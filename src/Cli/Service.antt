-- ===== src/Cli/Service.antt =====
-- Start and Stop of pkg/cmd/cmd.go, and the commands of cmd/straggler: service.go, container.go,
-- initcontainer.go, root.go and main.go, without what they log.
pub mod Laws
use straggler.Base.{
  ℕ, ◌+◌, List, [], ◌∷◌, String, Option, none, some, Bool, true, false, not, eqb, filter_by, ◌==◌,
  string_eq, if◌then◌else◌,
}
use straggler.Base.Int.{ℤ, pos, negsuc}
use straggler.Base.Result.{Result, ok, err, panic, errorf}
use straggler.Base.State.{M}

-- The life of a service. Each call of Start makes a context and a channel, known by one number;
-- `running` are those whose manager has not returned yet, and `cancelled` the contexts that were
-- cancelled. `shutdown_complete_chan` is nil before the first Start.
pub record Lifecycle : Type 0 where
  pub shutdown_complete_chan : Option ℕ
  pub next_run : ℕ
  pub running : List ℕ
  pub cancelled : List ℕ

abbrev pub not_started : Lifecycle
not_started = record { shutdown_complete_chan = none; next_run = 0; running = []; cancelled = [] }

-- `synced` is what WaitForCacheSync returns. The manager runs on when it is false.
unfoldable pub start : Bool → M Lifecycle (Unit {0})
start synced s =
    let started : Lifecycle = record s {
      shutdown_complete_chan = some s.next_run;
      next_run = s.next_run + 1;
      running = s.next_run ∷ s.running;
    } in
    (if synced then ok tt else err (errorf "failed to sync caches"), started)

-- `mgr.Start` returns, by itself or since its context is cancelled, and its channel is closed.
unfoldable pub manager_returns : ℕ → Lifecycle → Lifecycle
manager_returns run s = record s { running = filter_by (λ r. not (eqb r run)) s.running }

-- Stop up to its wait: the channel that it waits for to be closed, if it waits.
unfoldable pub begin_stop : Lifecycle → Option ℕ × Lifecycle
begin_stop s = elim s.shutdown_complete_chan [
  | none ↦ (none, s)
  | some run ↦ (some run, record s { cancelled = run ∷ s.cancelled })
]

-- How a process ends: its main function returns, or with an exit code, or in a panic.
pub data Outcome : Type 0 where
  returned : Outcome
  exited : ℤ → Outcome
  crashed : Outcome

module _ {W : Type 0} where
  -- `if err != nil { os.Exit(code) }` after a call, and what follows.
  unfoldable pub or_exit : {A : Type 0} → ℤ → Result A × W → (A → W → Outcome × W) → Outcome × W
  or_exit code (ok a, w) next = next a w
  or_exit code (err e, w) next = (exited code, w)
  or_exit code (panic, w) next = (crashed, w)

  -- runService, from the creation of the service to its stop; `await_signal` is the receive from the
  -- channel of signals.
  unfoldable pub run_service :
      {C : Type 0} → M W C → (C → M W (Unit {0})) → (W → W) → (C → M W (Unit {0})) → W → Outcome × W
  unfolding or_exit
  run_service new_cmd start_service await_signal stop_service w =
      or_exit (pos 1) (new_cmd w) λ service w.
        or_exit (pos 1) (start_service service w)
          λ _ w. or_exit (pos 1) (stop_service service (await_signal w)) λ _ w. (returned, w)

  unfoldable pub run_container : (W → W) → W → Outcome × W
  run_container await_signal w = (exited (pos 0), await_signal w)

  unfoldable pub run_init_container : W → Outcome × W
  run_init_container w = (exited (pos 0), w)

  -- main; `execute` runs the command that the arguments name.
  unfoldable pub main : M W (Unit {0}) → W → Outcome × W
  unfolding or_exit
  main execute w = or_exit (negsuc 0) (execute w) λ _ w. (returned, w)
