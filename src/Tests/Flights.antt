-- ===== src/Tests/Flights.antt =====
-- The flight tracker over two admissions.
use mathlib.Core.List.{Perm}
use straggler.Base.{
  ◌≤◌, All, arith, string_eq, ℕ, ◌≡◌, ◌≢◌, ◌⊎◌, refl, [], ◌∷◌, ◌++◌, String, none, some, length,
  eqb, string_dec, if◌then◌else◌,
}
use straggler.Base.Dict.{lookup}
use straggler.Base.Int.{pos}
use straggler.Base.Result.{ok}
use straggler.Kube.{Pod}
use straggler.Controller.Types.{Client}
use straggler.Controller.Flights as Flights
use straggler.Controller.Flights.Steps.{
  State, enqueue, Select, Reach, start, step, call, run_reconcile, evict,
}
use straggler.Controller.Flights.Steps.Pending.{count}
use straggler.Controller.Flights.Steps.Entries.{IsApart}
use straggler.Controller.Flights.Steps.Channels.{Reach-apart}
use straggler.Controller.Flights.Steps.Waiters.{
  waiters, IsServed, AllExpired, Reach-IsServed, evict_round-releases,
}
use straggler.Controller.Flights.Steps.Stale.{begin_wait-stale}
use straggler.Controller.Reconciler.{key_of, time_since}
use straggler.Controller.Flights.{
  Flight, FlightList, FlightTracker, new_flight_tracker, flight_name, begin_wait, reconcile_pod,
  match_flight, remove_newest, land, evict_round,
}
use straggler.Controller.Flights.Landing.{
  flights_of, GoesBy, NoneByName, IsFlightOf, reconcile_pod-lands,
}
use straggler.Controller.Flights.Registration.{flight_at, begin_wait-flights}
use straggler.Tests.{pod_at}

abbrev empty : FlightTracker
empty = new_flight_tracker (pos 100) "group"

abbrev landing : Pod
landing = pod_at "web-1" (("group", "g") ∷ []) 5

-- One flight, under the generated name of the pod.
abbrev list : FlightList
list = record {
  flights = record { object = record { name = "web-"; namespace = "default" }; timestamp = 3 } ∷ [];
  landed_chan = 0;
  seen_pods = [];
}

abbrev tracking : FlightTracker
tracking = record {
  max_flight_duration = pos 100;
  object_key_label = "group";
  flights_by_key = ("g", list) ∷ [];
  seen_pods_keys = [];
  landings = [];
  next_chan = 1;
}

-- The landing is sent although no call waits.
landed : (reconcile_pod (key_of landing) landing tracking).landings ≡ 0 ∷ []
unfolding reconcile_pod match_flight remove_newest land lookup string_dec
landed = refl

flight_named : flight_name landing.meta ≢ ""
unfolding flight_name string_dec
flight_named e = cc

begin_wait-flights_example :
    (c : ℕ) × (t : FlightTracker) × (begin_wait 7 "g" landing.meta tracking
      ≡ (ok (if eqb (length (flights_of "g" tracking)) 0 then none else some c), t))
    × (flights_of "g" t ≡ flights_of "g" tracking ++ flight_at 7 landing.meta ∷ [])
    × ((other : String) → "g" ≢ other → flights_of other t ≡ flights_of other tracking)
begin_wait-flights_example = begin_wait-flights 7 "g" landing.meta tracking flight_named

reconcile_pod-lands_example :
    ((reconcile_pod (key_of landing) landing tracking ≡ tracking)
      × NoneByName landing list.flights
      × All (λ x. ¬ GoesBy landing.generate_name landing.namespace x) list.flights)
    ⊎ ((x : Flight) × IsFlightOf landing list.flights x
        × Perm list.flights (x ∷ flights_of "g" (reconcile_pod (key_of landing) landing tracking))
        × ((reconcile_pod (key_of landing) landing tracking).landings ≡ 0 ∷ []))
unfolding lookup string_dec
reconcile_pod-lands_example =
    reconcile_pod-lands (key_of landing) landing tracking "g" list refl refl refl

-- Over a cluster that answers every read with the pod that lands.
abbrev client : Client (Unit {0})
client = record {
  get = λ _ w. (ok landing, w);
  list = λ _ _ w. (ok [], w);
  evict = λ _ w. (ok tt, w);
}

abbrev one_flight : State
one_flight = record { tracker = tracking; waiting = [] }

-- A second call waits, and the pod of the first one lands.
abbrev second_call : State
second_call = enqueue (begin_wait 7 "g" landing.meta tracking) []

abbrev after_landing : State
after_landing = record second_call {
  tracker = (Flights.reconcile client (key_of landing) (second_call.tracker, tt)).1.0;
}

two_steps : Reach client one_flight after_landing
two_steps =
    step one_flight second_call after_landing
      (step one_flight one_flight second_call (start one_flight)
        (call 7 "g" landing.meta one_flight))
      (run_reconcile (key_of landing) second_call tt)

nobody_waits : IsServed one_flight
nobody_waits = record { served = λ c. omega arith }

tracking-IsApart : IsApart tracking
tracking-IsApart = record { distinct = (tt, tt); made = (omega arith, tt) }

Reach-IsServed_example : IsServed after_landing
Reach-IsServed_example = Reach-IsServed client one_flight after_landing two_steps nobody_waits

-- Another group beside the first.
abbrev two_groups : FlightTracker
two_groups = record tracking {
  flights_by_key = ("g", list) ∷ ("g2", record list { landed_chan = 1 }) ∷ [];
  next_chan = 2;
}

abbrev grouped : State
grouped = record { tracker = two_groups; waiting = [] }

two_groups-IsApart : IsApart two_groups
two_groups-IsApart = record {
  distinct = ((λ e. ground (arith, e), tt), (tt, tt));
  made = (omega arith, (omega arith, tt));
}

-- After a round of the evicter at a time when nothing has expired.
abbrev after_round : State
after_round = record grouped { tracker = evict_round 10 two_groups.flights_by_key two_groups }

one_round : Reach client grouped after_round
one_round = step grouped grouped after_round (start grouped) (evict 10 grouped)

abbrev key_g : String
key_g = "g"

abbrev key_g2 : String
key_g2 = "g2"

g_differs : key_g ≢ key_g2
g_differs e = cc

kept_g : lookup "g" after_round.tracker.flights_by_key ≡ some list
unfolding evict_round lookup string_dec time_since
kept_g = refl

kept_g2 : lookup "g2" after_round.tracker.flights_by_key ≡ some (record list { landed_chan = 1 })
unfolding evict_round lookup string_dec time_since
kept_g2 = refl

Reach-apart_example : list.landed_chan ≢ 1
Reach-apart_example =
    Reach-apart client grouped after_round one_round two_groups-IsApart "g" "g2" g_differs list
      (record list { landed_chan = 1 }) kept_g kept_g2

-- The second call waits, and the first flight is long overdue.
abbrev overdue : State
overdue = record { tracker = tracking; waiting = 0 ∷ [] }

overdue-IsServed : IsServed overdue
overdue-IsServed = record { served = λ c. omega arith }

overdue-AllExpired : AllExpired 200 (pos 100) tracking.flights_by_key
unfolding time_since
overdue-AllExpired = ((refl, tt), tt)

evict_round-releases_example :
    waiters 0 overdue ≤ count 0 (evict_round 200 tracking.flights_by_key tracking).landings
evict_round-releases_example =
    evict_round-releases 200 0 overdue overdue-IsServed overdue-AllExpired

-- A landing that nobody waited for is still there.
abbrev stale : FlightTracker
stale = record tracking { landings = 0 ∷ [] }

stale_lookup : lookup "g" stale.flights_by_key ≡ some list
unfolding lookup string_dec
stale_lookup = refl

begin_wait-stale_example :
    (s : State) × Select (enqueue (begin_wait 7 "g" landing.meta stale) []) s
    × (s.waiting ≡ [])
    × (flights_of "g" s.tracker ≡ list.flights ++ flight_at 7 landing.meta ∷ [])
begin_wait-stale_example =
    begin_wait-stale 7 "g" landing.meta stale list [] [] [] flight_named stale_lookup refl refl
