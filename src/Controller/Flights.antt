-- ===== src/Controller/Flights.antt =====
-- pkg/controller/flightracker.go and noopflighttracker.go: the pods between their admission and their appearance at the API
-- server. Each operation holds the tracker's lock, but for the wait of WaitOne, which is a step of its
-- own. A channel is known by its number, and `landings` are the goroutines that are sending on one.
pub mod Landing
pub mod Registration
pub mod Steps
use straggler.Base.{
  ℕ, ◌+◌, List, [], ◌∷◌, ◌++◌, String, Option, none, some, Bool, true, false, ◌&&◌, length, eqb,
  map, filter_by, not, ◌==◌, string_eq, if◌then◌else◌,
}
use straggler.Base.Dict.{Dict, lookup, insert, erase, get_key}
use straggler.Base.Int.{ℤ, ltb_ℤ}
use straggler.Base.Result.{Result, ok, err, panic, errorf, is_not_found}
use straggler.Base.State.{pure}
use straggler.Kube.{NamespacedName, NamespacedName_eq, ObjectMeta, Pod}
use straggler.Controller.Types.{AdmissionFlightTracker, Client}
use straggler.Controller.Reconciler.{time_since}

pub record Flight : Type 0 where
  pub object : NamespacedName
  pub timestamp : ℕ

-- The flights of a key, the oldest first.
pub record FlightList : Type 0 where
  pub flights : List Flight
  pub landed_chan : ℕ
  pub seen_pods : Dict NamespacedName Bool

pub record FlightTracker : Type 0 where
  pub max_flight_duration : ℤ
  pub object_key_label : String
  pub flights_by_key : Dict String FlightList
  pub seen_pods_keys : Dict NamespacedName String
  pub landings : List ℕ
  pub next_chan : ℕ

-- NewFlightTracker, but for the start of the evicter.
unfoldable pub new_flight_tracker : ℤ → String → FlightTracker
new_flight_tracker max_flight_duration object_key_label = record {
  max_flight_duration = max_flight_duration;
  object_key_label = object_key_label;
  flights_by_key = [];
  seen_pods_keys = [];
  landings = [];
  next_chan = 0;
}

-- noopflighttracker.go
unfoldable pub noop_flight_tracker : {W : Type 0} → AdmissionFlightTracker W
noop_flight_tracker = record { wait_one = λ key object. pure tt }

-- The entry of a key, made with a new channel if there is none.
unfoldable pub create_entry :
    String → Option FlightList → FlightTracker → FlightList × FlightTracker
create_entry key (some flights) t = (flights, t)
create_entry key none t =
    let flights : FlightList = record { flights = []; landed_chan = t.next_chan; seen_pods = [] } in
    (
      flights,
      record t {
        flights_by_key = insert key flights t.flights_by_key;
        next_chan = t.next_chan + 1;
      },
    )

-- The name that a flight goes by.
unfoldable pub flight_name : ObjectMeta → String
flight_name object = if object.name == "" then object.generate_name else object.name

-- The locked part of WaitOne: `none` is the return at once, and `some c` the wait for the channel `c`.
unfoldable pub track :
    ℕ → String → ObjectMeta → FlightList × FlightTracker → Result (Option ℕ) × FlightTracker
unfolding flight_name
track now key object (flights, t) =
    if flight_name object == ""
    then (err (errorf "unable to get a unique name for object"), t)
    else (let flight : Flight = record {
      object = record { name = flight_name object; namespace = object.namespace };
      timestamp = now;
    } in
        let tracked = flights.flights ++ flight ∷ [] in
        (
          ok (if eqb (length tracked) 1 then none else some flights.landed_chan),
          record t {
            flights_by_key = insert key (record flights { flights = tracked }) t.flights_by_key;
          },
        ))

unfoldable pub begin_wait :
    ℕ → String → ObjectMeta → FlightTracker → Result (Option ℕ) × FlightTracker
unfolding create_entry track lookup
begin_wait now key object t =
    track now key object (create_entry key (lookup key t.flights_by_key) t)

-- Takes the newest of the flights that pass the test, if there is one.
unfoldable pub remove_newest : (Flight → Bool) → List Flight → Option (List Flight)
remove_newest p [] = none
remove_newest p (x ∷ xs) = elim (remove_newest p xs) [
  | some rest ↦ some (x ∷ rest)
  | none ↦ if p x then some xs else none
]

abbrev pub is_flight_of : String → String → Flight → Bool
is_flight_of name namespace flight =
    flight.object.name == name && flight.object.namespace == namespace

-- The two loops of Reconcile: the full name first, and then the generated name.
unfoldable pub match_flight : Pod → List Flight → Option (List Flight)
unfolding remove_newest
match_flight pod flights =
    elim (if pod.name == ""
      then none
      else remove_newest (is_flight_of pod.name pod.namespace) flights) [
        | some rest ↦ some rest
        | none ↦ remove_newest (is_flight_of pod.generate_name pod.namespace) flights
      ]

-- The end of Reconcile: a matched flight has landed.
unfoldable pub land :
    NamespacedName → String → FlightList → Option (List Flight) → FlightTracker → FlightTracker
land request key flights none t = t
land request key flights (some rest) t = record t {
  flights_by_key =
      insert key
        (record flights { flights = rest; seen_pods = insert request true flights.seen_pods })
        t.flights_by_key;
  seen_pods_keys = insert request key t.seen_pods_keys;
  landings = flights.landed_chan ∷ t.landings;
}

-- Reconcile of a pod that was read, from the guards on.
unfoldable pub reconcile_pod : NamespacedName → Pod → FlightTracker → FlightTracker
unfolding land match_flight lookup
reconcile_pod request pod t = elim (get_key t.object_key_label pod.labels) [
  | none ↦ t
  | some key ↦ elim (lookup key t.flights_by_key) [
    | none ↦ t
    | some flights ↦ elim (lookup request flights.seen_pods) [
      | some _ ↦ t
      | none ↦ land request key flights (match_flight pod flights.flights) t
    ]
  ]
]

-- Reconcile of a pod that is gone.
unfoldable pub forget_pod : NamespacedName → FlightTracker → FlightTracker
unfolding lookup erase insert
forget_pod request t = elim (lookup request t.seen_pods_keys) [
  | none ↦ t
  | some key ↦ elim (lookup key t.flights_by_key) [
    | none ↦ t
    | some flights ↦ record t {
      flights_by_key =
          insert key (record flights { seen_pods = erase request flights.seen_pods })
            t.flights_by_key;
    }
  ]
]

unfoldable pub reconcile :
    {W : Type 0}
    → Client W
    → NamespacedName
    → FlightTracker × W
    → Result (Unit {0}) × (FlightTracker × W)
unfolding reconcile_pod forget_pod
reconcile client request (t, w) =
    let (got, w') = client.get request w in
    elim got [
      | ok pod ↦ (ok tt, (reconcile_pod request pod t, w'))
      | err e ↦ if is_not_found e then (ok tt, (forget_pod request t, w')) else (err e, (t, w'))
      | panic ↦ (panic, (t, w'))
    ]

abbrev pub is_expired : ℕ → ℤ → Flight → Bool
is_expired now max_flight_duration flight =
    ltb_ℤ max_flight_duration (time_since now flight.timestamp)

-- A round of the evicter over one list, and over the map. An empty entry is deleted.
unfoldable pub evict_round : ℕ → Dict String FlightList → FlightTracker → FlightTracker
evict_round now [] t = record t { flights_by_key = [] }
evict_round now ((key, list) ∷ rest) t =
    let t' = evict_round now rest t in
    let expired = filter_by (is_expired now t.max_flight_duration) list.flights in
    if eqb (length list.flights) 0 && eqb (length list.seen_pods) 0 then t' else record t' {
      flights_by_key =
          (
            key,
            record list {
              flights = filter_by (λ f. not (is_expired now t.max_flight_duration f)) list.flights;
            },
          )
          ∷ t'.flights_by_key;
      landings = map (λ _. list.landed_chan) expired ++ t'.landings;
    }
