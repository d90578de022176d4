-- ===== src/Controller/Flights/Steps/Stale.antt =====
-- Landings that no call waited for. A goroutine that sends on a channel stays until a call receives, so
-- the next call that has to wait takes its landing.
use straggler.Base.{
  ℕ, ◌≡◌, ◌≢◌, refl, sym, ap, subst, List, [], ◌∷◌, ◌++◌, String, none, some, false, length, eqb,
  string_eq, arith, if◌then◌else◌, ◌∙◌,
}
use straggler.Base.Dict.{lookup, insert, lookup-insert}
use straggler.Base.Result.{ok}
use straggler.Kube.{ObjectMeta}
use straggler.Controller.Flights.{
  FlightList, FlightTracker, create_entry, flight_name, track, begin_wait,
}
use straggler.Controller.Flights.Landing.{flights_of}
use straggler.Controller.Flights.Registration.{flight_at, track_named}
use straggler.Controller.Flights.Steps.{State, enqueue, Select, receive}

-- For an object with a name or a generated name, whose key has flights, and where a landing on the
-- key's channel is still being sent: the call can return at once, with all earlier flights of the key
-- still under way.
pub begin_wait-stale :
    (now : ℕ) (key : String) (object : ObjectMeta) (t : FlightTracker) (list : FlightList)
    (landed landed' waiting : List ℕ)
    → flight_name object ≢ ""
    → lookup key t.flights_by_key ≡ some list
    → eqb (length list.flights) 0 ≡ false
    → t.landings ≡ landed ++ list.landed_chan ∷ landed'
    → (s : State) × Select (enqueue (begin_wait now key object t) waiting) s
      × (s.waiting ≡ waiting)
      × (flights_of key s.tracker ≡ list.flights ++ flight_at now object ∷ [])
unfolding begin_wait create_entry
begin_wait-stale now key object t list landed landed' waiting named known more sent =
    let list' : FlightList = record list { flights = list.flights ++ flight_at now object ∷ [] } in
    let t' : FlightTracker = record t { flights_by_key = insert key list' t.flights_by_key } in
    let waits : begin_wait now key object t ≡ (ok (some list.landed_chan), t') =
      ap (λ o. track now key object (create_entry key o t)) known
      ∙ track_named now key object list t named
      ∙ ap (λ b. (ok (if b then none else some list.landed_chan), t')) more in
    (
      record { tracker = record t' { landings = landed ++ landed' }; waiting = waiting },
      subst
          (λ r.
            Select (enqueue r waiting)
              (record { tracker = record t' { landings = landed ++ landed' }; waiting = waiting }))
          (sym waits) (receive t' list.landed_chan landed landed' [] waiting sent),
      refl,
      ground (arith, lookup-insert key key list' t.flights_by_key),
    )
