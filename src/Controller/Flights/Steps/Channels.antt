-- ===== src/Controller/Flights/Steps/Channels.antt =====
-- Each key of the tracker has a channel of its own.
use straggler.Base.{
  ℕ, ◌<◌, ◌≡◌, ◌≢◌, refl, sym, ap, subst, List, String, Option, none, some, string_eq,
}
use straggler.Base.Dict.{lookup}
use straggler.Base.Result.{Result, ok, err, panic}
use straggler.Kube.{NamespacedName, NamespacedName_eq}
use straggler.Controller.Types.{Client}
use straggler.Controller.Flights.{FlightList, FlightTracker, begin_wait, reconcile}
use straggler.Controller.Flights.Landing.{reconcile-cases}
use straggler.Controller.Flights.Steps.{
  State, enqueue, Select, receive, time_out, Step, call, select, run_reconcile, evict, Reach, start,
  step,
}
use straggler.Controller.Flights.Steps.Entries.{channels, IsApart, channels-apart}
use straggler.Controller.Flights.Steps.Apart.{
  same-IsApart, begin_wait-IsApart, reconcile_pod-IsApart, forget_pod-IsApart, evict_round-All,
  evict_round-Distinct, evict_round-next_chan,
}

Select-tracker :
    (s s' : State)
    → Select s s'
    → (s'.tracker.flights_by_key ≡ s.tracker.flights_by_key)
      × (s'.tracker.next_chan ≡ s.tracker.next_chan)
Select-tracker _ _ (receive t c landed landed' waited waited' sent) = (refl, refl)
Select-tracker _ _ (time_out t c waited waited') = (refl, refl)

pub enqueue-tracker :
    (r : Result (Option ℕ) × FlightTracker) (waiting : List ℕ) → (enqueue r waiting).tracker ≡ r.1
enqueue-tracker (ok (some c), t) waiting = refl
enqueue-tracker (ok none, t) waiting = refl
enqueue-tracker (err e, t) waiting = refl
enqueue-tracker (panic, t) waiting = refl

module _ {W : Type 0} (client : Client W) where
  reconcile-IsApart :
      (request : NamespacedName) (t : FlightTracker) (w : W)
      → IsApart t
      → IsApart (reconcile client request (t, w)).1.0
  reconcile-IsApart request t w h =
      reconcile-cases client request t w IsApart h (λ pod. reconcile_pod-IsApart request pod t h)
        (forget_pod-IsApart request t h)

  step-IsApart : (s s' : State) → Step client s s' → IsApart s.tracker → IsApart s'.tracker
  step-IsApart _ _ (call now key object s) h =
      subst IsApart (sym (enqueue-tracker (begin_wait now key object s.tracker) s.waiting))
        (begin_wait-IsApart now key object s.tracker h)
  step-IsApart _ _ (select s s' e) h =
      let (same, made) = Select-tracker s s' e in
      same-IsApart s.tracker s'.tracker (ap channels same) made h
  step-IsApart _ _ (run_reconcile request s w) h = reconcile-IsApart request s.tracker w h
  step-IsApart _ _ (evict now s) h =
      let d = s.tracker.flights_by_key in
      record {
        distinct = evict_round-Distinct now d s.tracker h.distinct;
        made =
            rw (evict_round-next_chan now d s.tracker)
              (evict_round-All (λ c. c < s.tracker.next_chan) now d s.tracker h.made);
      }

  pub Reach-IsApart : (s s' : State) → Reach client s s' → IsApart s.tracker → IsApart s'.tracker
  Reach-IsApart _ _ (start s) h = h
  Reach-IsApart _ _ (step s s' s'' before last) h =
      step-IsApart s' s'' last (Reach-IsApart s s' before h)

  -- Whatever the order of the calls, of their time-outs, of the runs of Reconcile and of the
  -- evicter's rounds: where the channels of the entries are distinct and were all made before, two
  -- different keys never come to share a channel.
  pub Reach-apart :
      (s s' : State)
      → Reach client s s'
      → IsApart s.tracker
      → (key other : String) → key ≢ other
      → (list list' : FlightList) → lookup key s'.tracker.flights_by_key ≡ some list
      → lookup other s'.tracker.flights_by_key ≡ some list'
      → list.landed_chan ≢ list'.landed_chan
  Reach-apart s s' reach h key other differ list list' found found' =
      channels-apart key other list list' s'.tracker.flights_by_key
        (Reach-IsApart s s' reach h).distinct found found' differ
