-- ===== src/Controller/Flights/Registration.antt =====
-- flightracker.go, WaitOne up to its wait: the flight that is added, and who waits for a channel.
use straggler.Base.{
  ℕ, ◌+◌, ◌≡◌, ◌≢◌, inl, inr, refl, ap, ◌∙◌, [], ◌∷◌, ◌++◌, String, none, some, length,
  length-append, eqb, Option-cases, arith, ◌==◌, string_eq, if◌then◌else◌,
}
use straggler.Base.Dict.{Dict, lookup, insert, lookup-insert}
use straggler.Base.Result.{ok}
use straggler.Kube.{NamespacedName_eq, ObjectMeta}
use straggler.Controller.Flights.{
  Flight, FlightList, FlightTracker, create_entry, flight_name, track, begin_wait,
}
use straggler.Controller.Flights.Landing.{flights_in, flights_of}

flights_in-insert :
    (other key : String) (list : FlightList) (d : Dict String FlightList)
    → flights_in (lookup other (insert key list d))
      ≡ (if key == other then list.flights else flights_in (lookup other d))
flights_in-insert other key list d = ground (arith, lookup-insert other key list d)

-- The entry of a key, in a tracker that has none, and the flights of the other keys.
begin_wait_entry :
    (key : String) (t : FlightTracker)
    → (list : FlightList) × (t' : FlightTracker) × (create_entry key (lookup key t.flights_by_key) t
        ≡ (list, t'))
      × (list.flights ≡ flights_of key t)
      × ((other : String) → key ≢ other → flights_of other t' ≡ flights_of other t)
begin_wait_entry key t = elim (Option-cases (lookup key t.flights_by_key)) [
  | inl missing ↦
      let list : FlightList = record { flights = []; landed_chan = t.next_chan; seen_pods = [] } in
      (
        list,
        record t { flights_by_key = insert key list t.flights_by_key; next_chan = t.next_chan + 1 },
        rw missing (unfold create_entry in refl),
        rw missing refl,
        λ other differ. ground (arith, flights_in-insert other key list t.flights_by_key, differ),
      )
  | inr (list, found) ↦
      (list, t, rw found (unfold create_entry in refl), rw found refl, λ other _. refl)
]

abbrev pub flight_at : ℕ → ObjectMeta → Flight
flight_at now object = record {
  object = record { name = flight_name object; namespace = object.namespace };
  timestamp = now;
}

pub track_named :
    (now : ℕ) (key : String) (object : ObjectMeta) (list : FlightList) (t : FlightTracker)
    → flight_name object ≢ ""
    → track now key object (list, t) ≡ (
      ok (if eqb (length list.flights) 0 then none else some list.landed_chan),
      record t {
        flights_by_key =
            insert key
              (record list { flights = list.flights ++ flight_at now object ∷ [] })
              t.flights_by_key;
      },
    )
unfolding track
track_named now key object list t named =
    ground (arith, named, length-append list.flights (flight_at now object ∷ []))

-- For an object with a name or a generated name exactly one flight is added to the flights of the key,
-- behind them, and under that name. The call returns at once if it is the only one, and otherwise
-- waits for a channel. The flights of the other keys stay.
pub begin_wait-flights :
    (now : ℕ) (key : String) (object : ObjectMeta) (t : FlightTracker)
    → flight_name object ≢ ""
    → (c : ℕ) × (t' : FlightTracker) × (begin_wait now key object t
        ≡ (ok (if eqb (length (flights_of key t)) 0 then none else some c), t'))
      × (flights_of key t' ≡ flights_of key t ++ flight_at now object ∷ [])
      × ((other : String) → key ≢ other → flights_of other t' ≡ flights_of other t)
unfolding begin_wait
begin_wait-flights now key object t named =
    let (list, t₁, e, same, others) = begin_wait_entry key t in
    let flight = flight_at now object in
    let list' : FlightList = record list { flights = list.flights ++ flight ∷ [] } in
    (
      list.landed_chan,
      record t₁ { flights_by_key = insert key list' t₁.flights_by_key },
      ap (track now key object) e
          ∙ track_named now key object list t₁ named
          ∙ ap
              (λ xs. (
                ok (if eqb (length xs) 0 then none else some list.landed_chan),
                record t₁ { flights_by_key = insert key list' t₁.flights_by_key },
              ))
              same,
      ground (arith, flights_in-insert key key list' t₁.flights_by_key)
          ∙ ap (λ xs. xs ++ flight ∷ []) same,
      λ other differ.
          ground (arith, flights_in-insert other key list' t₁.flights_by_key, differ)
          ∙ others other differ,
    )
