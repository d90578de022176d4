-- ===== src/Controller/Flights/Steps/Timed.antt =====
-- The flight tracker over time: the goroutine of startEvicter waits for half of the maximum duration
-- between its rounds, and the calls and the runs of Reconcile come in between.
use straggler.Base.{ℕ, suc, ◌+◌, ◌/◌, ◌≤◌, ◌<◌, refl, sym, subst, List, [], ◌∷◌, String, All, arith}
use straggler.Base.Dict.{Dict}
use straggler.Base.Int.{ℤ, pos, negsuc, sub_ℕ}
use straggler.Kube.{NamespacedName, ObjectMeta}
use straggler.Controller.Types.{Client}
use straggler.Controller.Flights.{
  Flight, FlightList, begin_wait, reconcile, evict_round, new_flight_tracker,
}
use straggler.Controller.Flights.Steps.{State, enqueue, Select, receive, time_out}
use straggler.Controller.Flights.Steps.Channels.{enqueue-tracker}
use straggler.Controller.Flights.Steps.Every.{Every}
use straggler.Controller.Flights.Steps.Ages.{
  Late, IsYoung, begin_wait-IsYoung, reconcile-IsYoung, evict_round-IsYoung,
}

-- `f.maxFlightDuration / 2`, which rounds towards 0.
abbrev pub evicter_wait : ℤ → ℤ
evicter_wait (pos n) = pos (n / 2)
evicter_wait (negsuc n) = sub_ℕ 0 (suc n / 2)

-- A tracker with the time and with that of the evicter's last round, or of its start.
pub record Clocked : Type 0 where
  pub state : State
  pub clock : ℕ
  pub last_round : ℕ

-- A timer for a negative time fires at once.
abbrev pub wait_of : ℤ → ℕ
wait_of (pos wait) = wait
wait_of (negsuc _) = 0

-- `delay` is what it takes the evicter to be scheduled and to get the lock.
module _ {W : Type 0} (client : Client W) (delay : ℕ) where
  pub data Step (c : Clocked) : Clocked → Type 0 where
    -- Time passes, as long as the next round of the evicter is not overdue.
    pass :
        (now : ℕ)
        → c.clock ≤ now
        → now ≤ c.last_round + (wait_of (evicter_wait c.state.tracker.max_flight_duration) + delay)
        → now < 0x8000_0000_0000_0000
        → Step c (record c { clock = now })
    call :
        (key : String) (object : ObjectMeta)
        → Step c (record c {
          state = enqueue (begin_wait c.clock key object c.state.tracker) c.state.waiting;
        })
    select : (s : State) → Select c.state s → Step c (record c { state = s })
    run_reconcile :
        (request : NamespacedName) (w : W)
        → Step c (record c {
          state = record (c.state) {
            tracker = (reconcile client request (c.state.tracker, w)).1.0;
          };
        })
    tick : Step c (record {
      state = record (c.state) {
        tracker = evict_round c.clock c.state.tracker.flights_by_key c.state.tracker;
      };
      clock = c.clock;
      last_round = c.clock;
    })

  pub data Reach (c : Clocked) : Clocked → Type 0 where
    start : Reach c c
    step : (c' c'' : Clocked) → Reach c c' → Step c' c'' → Reach c c''

-- A tracker that was just made.
abbrev pub made : ℕ → String → ℕ → Clocked
made max_flight_duration label now = record {
  state = record { tracker = new_flight_tracker (pos max_flight_duration) label; waiting = [] };
  clock = now;
  last_round = now;
}

record IsTimely (delay m : ℕ) (c : Clocked) : Type 0 where
  young : IsYoung m c.last_round c.state.tracker
  ordered : c.last_round ≤ c.clock
  on_time : c.clock ≤ c.last_round + (m / 2 + delay)
  small : c.clock < 0x8000_0000_0000_0000

Select-IsYoung :
    (m b : ℕ) (s s' : State) → Select s s' → IsYoung m b s.tracker → IsYoung m b s'.tracker
Select-IsYoung m b _ _ (receive t c landed landed' waited waited' sent) h = record {
  duration = h.duration;
  young = h.young;
}
Select-IsYoung m b _ _ (time_out t c waited waited') h = h

-- A change of the tracker alone.
changed :
    (delay m : ℕ) (c : Clocked) (s : State)
    → IsYoung m c.last_round s.tracker
    → IsTimely delay m c
    → IsTimely delay m (record c { state = s })
changed delay m c s young h = record {
  young = young;
  ordered = h.ordered;
  on_time = h.on_time;
  small = h.small;
}

module _ {W : Type 0} (client : Client W) (delay m : ℕ) where
  step-IsTimely :
      (c c' : Clocked) → Step client delay c c' → IsTimely delay m c → IsTimely delay m c'
  step-IsTimely c _ (pass now after due small) h = record {
    young = h.young;
    ordered = omega (arith, h.ordered, after);
    on_time =
        subst (λ d. now ≤ c.last_round + (wait_of (evicter_wait d) + delay)) h.young.duration due;
    small = small;
  }
  step-IsTimely c _ (call key object) h =
      changed delay m c _
        (subst (IsYoung m c.last_round)
          (sym (enqueue-tracker (begin_wait c.clock key object c.state.tracker) c.state.waiting))
          (begin_wait-IsYoung m c.last_round c.clock key object c.state.tracker h.ordered h.young))
        h
  step-IsTimely c _ (select s e) h =
      changed delay m c s (Select-IsYoung m c.last_round c.state s e h.young) h
  step-IsTimely c _ (run_reconcile request w) h =
      changed delay m c _
        (reconcile-IsYoung m c.last_round client request c.state.tracker w h.young) h
  step-IsTimely c _ tick h = record {
    young =
        evict_round-IsYoung c.clock m c.state.tracker.flights_by_key c.state.tracker
          h.young.duration h.small;
    ordered = omega arith;
    on_time = omega arith;
    small = h.small;
  }

  Reach-IsTimely :
      (c c' : Clocked) → Reach client delay c c' → IsTimely delay m c → IsTimely delay m c'
  Reach-IsTimely c _ start h = h
  Reach-IsTimely c _ (step c' c'' before last) h =
      step-IsTimely c' c'' last (Reach-IsTimely c c' before h)

  made-IsTimely :
      (label : String) (now : ℕ) → now < 0x8000_0000_0000_0000 → IsTimely delay m (made m label now)
  unfolding new_flight_tracker
  made-IsTimely label now small = record {
    young = record { duration = refl; young = tt };
    ordered = omega arith;
    on_time = omega arith;
    small = small;
  }

Late-later :
    (m n b b' : ℕ) (fs : List Flight) → b' + m ≤ b + n → All (Late m b) fs → All (Late n b') fs
Late-later m n b b' [] h late = tt
Late-later m n b b' (f ∷ fs) h late = (omega (arith, late.0), Late-later m n b b' fs h late.1)

Every-later :
    (m n b b' : ℕ) (d : Dict String FlightList)
    → b' + m ≤ b + n
    → Every (Late m b) d
    → Every (Late n b') d
Every-later m n b b' [] h late = tt
Every-later m n b b' ((key, list) ∷ d) h late =
    (Late-later m n b b' list.flights h late.0, Every-later m n b b' d h late.1)

-- A tracker that was made with a maximum duration of `m`, after any calls, time-outs, runs of Reconcile and
-- rounds of the evicter, each round at most `delay` later than it is due: no flight was added
-- longer ago than `m`, half of `m` and the delay.
pub Reach-age :
    {W : Type 0} (client : Client W) (delay m : ℕ) (label : String) (now : ℕ) (c : Clocked)
    → now < 0x8000_0000_0000_0000
    → Reach client delay (made m label now) c
    → Every (Late (m + m / 2 + delay) c.clock) c.state.tracker.flights_by_key
Reach-age client delay m label now c small reach =
    let h =
      Reach-IsTimely client delay m (made m label now) c reach
        (made-IsTimely client delay m label now small) in
    Every-later m (m + m / 2 + delay) c.last_round c.clock c.state.tracker.flights_by_key
      (omega (arith, h.on_time)) h.young.young
