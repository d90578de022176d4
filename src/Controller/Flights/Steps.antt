-- ===== src/Controller/Flights/Steps.antt =====
-- The flight tracker of pkg/controller/flightracker.go under concurrent calls: each step is one
-- section under the tracker's lock, or one event on a channel.
pub mod Pending
pub mod Waiters
pub mod Entries
pub mod Apart
pub mod Channels
pub mod Stale
pub mod Every
pub mod Ages
pub mod Timed
use straggler.Base.{ℕ, List, [], ◌∷◌, ◌++◌, String, Option, none, some, ◌≡◌}
use straggler.Base.Result.{Result, ok, err, panic}
use straggler.Kube.{NamespacedName, ObjectMeta}
use straggler.Controller.Types.{Client}
use straggler.Controller.Flights.{FlightTracker, begin_wait, reconcile, evict_round}

-- The tracker, and the channels on which calls of WaitOne are waiting.
pub record State : Type 0 where
  pub tracker : FlightTracker
  pub waiting : List ℕ

-- The locked part of a call of WaitOne, which then waits on a channel or returns.
abbrev pub enqueue : Result (Option ℕ) × FlightTracker → List ℕ → State
enqueue (ok (some c), t) waiting = record { tracker = t; waiting = c ∷ waiting }
enqueue (ok none, t) waiting = record { tracker = t; waiting = waiting }
enqueue (err e, t) waiting = record { tracker = t; waiting = waiting }
enqueue (panic, t) waiting = record { tracker = t; waiting = waiting }

-- The `select` at the end of WaitOne: a landing is received, or the context is done.
pub data Select : State → State → Type 0 where
  receive :
      (t : FlightTracker) (c : ℕ) (landed landed' waited waited' : List ℕ)
      → t.landings ≡ landed ++ c ∷ landed'
      → Select
          (record { tracker = t; waiting = waited ++ c ∷ waited' })
          (record {
            tracker = record t { landings = landed ++ landed' };
            waiting = waited ++ waited';
          })
  time_out :
      (t : FlightTracker) (c : ℕ) (waited waited' : List ℕ)
      → Select
          (record { tracker = t; waiting = waited ++ c ∷ waited' })
          (record { tracker = t; waiting = waited ++ waited' })

module _ {W : Type 0} (client : Client W) where
  pub data Step : State → State → Type 0 where
    call :
        (now : ℕ) (key : String) (object : ObjectMeta) (s : State)
        → Step s (enqueue (begin_wait now key object s.tracker) s.waiting)
    select : (s s' : State) → Select s s' → Step s s'
    run_reconcile :
        (request : NamespacedName) (s : State) (w : W)
        → Step s (record s { tracker = (reconcile client request (s.tracker, w)).1.0 })
    evict :
        (now : ℕ) (s : State)
        → Step s (record s { tracker = evict_round now s.tracker.flights_by_key s.tracker })

  -- Any number of steps.
  pub data Reach : State → State → Type 0 where
    start : (s : State) → Reach s s
    step : (s s' s'' : State) → Reach s s' → Step s' s'' → Reach s s''
