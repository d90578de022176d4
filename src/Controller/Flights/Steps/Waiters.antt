-- ===== src/Controller/Flights/Steps/Waiters.antt =====
-- No waiting call is forgotten: for each channel there are at least as many landings under way, or
-- flights that will land, as calls that wait for one.
use straggler.Base.{
  All, ℕ, ◌+◌, ◌≤◌, ◌≡◌, refl, ap, sym, subst, string_dec, ◌&&◌, List, [], ◌∷◌, ◌++◌, String, none,
  some, Bool, true, false, not, length, length-append, eqb, filter_by, Bool-cases, Option-cases,
  inl, inr, arith, string_eq, if◌then◌else◌,
}
use straggler.Base.Dict.{Dict, lookup, insert, lookup-insert}
use straggler.Controller.Flights.Landing.{reconcile-cases}
use straggler.Controller.Flights.Registration.{track_named, flight_at}
use straggler.Base.Result.{ok, err, errorf}
use straggler.Kube.{NamespacedName, NamespacedName_eq, ObjectMeta}
use straggler.Controller.Types.{Client}
use straggler.Controller.Flights.{
  Flight, FlightList, FlightTracker, create_entry, flight_name, track, begin_wait, reconcile,
  is_expired, evict_round,
}
use straggler.Base.Int.{ℤ}
use straggler.Controller.Flights.Steps.{
  State, enqueue, Select, receive, time_out, Step, call, select, run_reconcile, evict, Reach, start,
  step,
}
use straggler.Controller.Flights.Steps.Pending.{
  count, flights_on, in_flight, pending, flights_found, in_flight-insert, in_flight-replace,
  count-middle, evict_round-pending, reconcile_pod-pending, forget_pod-pending,
}

-- The calls that wait for the channel.
abbrev pub waiters : ℕ → State → ℕ
waiters c s = count c s.waiting

no_flights : (c d : ℕ) → flights_on c (record { flights = []; landed_chan = d; seen_pods = [] }) ≡ 0
no_flights c d = ground arith

create_entry-pending :
    (c : ℕ) (key : String) (t : FlightTracker)
    → (list : FlightList) × (t' : FlightTracker) × (create_entry key (lookup key t.flights_by_key) t
        ≡ (list, t'))
      × (lookup key t'.flights_by_key ≡ some list)
      × (pending c t' ≡ pending c t)
unfolding create_entry
create_entry-pending c key t = elim (Option-cases (lookup key t.flights_by_key)) [
  | inl missing ↦
      let list : FlightList = record { flights = []; landed_chan = t.next_chan; seen_pods = [] } in
      let added = in_flight-insert c key list t.flights_by_key in
      let none_before : flights_found c (lookup key t.flights_by_key) ≡ 0 =
        ap (flights_found c) missing in
      (
        list,
        record t { flights_by_key = insert key list t.flights_by_key; next_chan = t.next_chan + 1 },
        rw missing refl,
        ground (arith, lookup-insert key key list t.flights_by_key),
        omega (arith, added, none_before, no_flights c t.next_chan),
      )
  | inr (list, found) ↦ (list, t, rw found refl, found, refl)
]

-- No channel has more waiting calls than landings that are under way or will be sent.
pub record IsServed (s : State) : Type 0 where
  pub served : (c : ℕ) → waiters c s ≤ pending c s.tracker

Balanced : ℕ → State → Type 0
Balanced c s = waiters c s ≤ pending c s.tracker

module _ (c now : ℕ) (key : String) (object : ObjectMeta) (list : FlightList) (t : FlightTracker)
    (waiting : List ℕ) (known : lookup key t.flights_by_key ≡ some list)
    (h : count c waiting ≤ pending c t) where
  tracked_list : FlightList
  tracked_list = record list { flights = list.flights ++ flight_at now object ∷ [] }

  tracked : FlightTracker
  tracked = record t { flights_by_key = insert key tracked_list t.flights_by_key }

  -- One flight more, on the channel of the entry.
  tracked-pending : pending c tracked ≡ pending c t + (if eqb list.landed_chan c then 1 else 0)
  unfolding tracked tracked_list
  tracked-pending =
      let moved = in_flight-replace c key list tracked_list t.flights_by_key known in
      let longer = length-append list.flights (flight_at now object ∷ []) in
      ground (arith, moved, longer)

  enqueue-Balanced :
      (alone : Bool)
      → Balanced c (enqueue (ok (if alone then none else some list.landed_chan), tracked) waiting)
  unfolding Balanced
  enqueue-Balanced true = omega (arith, h, tracked-pending)
  enqueue-Balanced false = omega (arith, h, tracked-pending)

  track-Balanced : Balanced c (enqueue (track now key object (list, t)) waiting)
  track-Balanced = elim (string_dec (flight_name object) "") [
    | yes unnamed ↦
        let e : track now key object (list, t)
            ≡ (err (errorf "unable to get a unique name for object"), t) =
          unfold track in ground (arith, unnamed) in
        subst (λ r. Balanced c (enqueue r waiting)) (sym e) (unfold Balanced in h)
    | no named ↦
        subst (λ r. Balanced c (enqueue r waiting)) (sym (track_named now key object list t named))
          (unfold tracked tracked_list in enqueue-Balanced (eqb (length list.flights) 0))
  ]

begin_wait-Balanced :
    (c now : ℕ) (key : String) (object : ObjectMeta) (s : State)
    → Balanced c s
    → Balanced c (enqueue (begin_wait now key object s.tracker) s.waiting)
unfolding begin_wait Balanced
begin_wait-Balanced c now key object s h =
    let (list, t, e, known, same) = create_entry-pending c key s.tracker in
    subst (λ r. Balanced c (enqueue (track now key object r) s.waiting)) (sym e)
      (track-Balanced c now key object list t s.waiting known (omega (arith, h, same)))

Select-Balanced : (c : ℕ) (s s' : State) → Select s s' → Balanced c s → Balanced c s'
unfolding Balanced
Select-Balanced c _ _ (receive t d landed landed' waited waited' sent) h =
    let fewer = count-middle c d landed landed' in
    let before : count c t.landings ≡ count c (landed ++ d ∷ landed') = ap (count c) sent in
    omega (arith, h, before, fewer, count-middle c d waited waited')
Select-Balanced c _ _ (time_out t d waited waited') h =
    omega (arith, h, count-middle c d waited waited')

module _ {W : Type 0} (client : Client W) where
  reconcile-pending :
      (c : ℕ) (request : NamespacedName) (t : FlightTracker) (w : W)
      → pending c (reconcile client request (t, w)).1.0 ≡ pending c t
  reconcile-pending c request t w =
      reconcile-cases client request t w (λ t'. pending c t' ≡ pending c t) refl
        (λ pod. reconcile_pod-pending c request pod t) (forget_pod-pending c request t)

  step-IsServed : (s s' : State) → Step client s s' → IsServed s → IsServed s'
  step-IsServed _ _ (call now key object s) h = record {
    served = λ c. unfold Balanced in begin_wait-Balanced c now key object s (h.served c);
  }
  step-IsServed _ _ (select s s' e) h = record {
    served = λ c. unfold Balanced in Select-Balanced c s s' e (h.served c);
  }
  step-IsServed _ _ (run_reconcile request s w) h = record {
    served = λ c. omega (arith, h.served c, reconcile-pending c request s.tracker w);
  }
  step-IsServed _ _ (evict now s) h = record {
    served = λ c.
        omega (arith, h.served c, evict_round-pending c now s.tracker.flights_by_key s.tracker);
  }

  -- Whatever the order of the calls, of their time-outs, of the runs of Reconcile and of the
  -- evicter's rounds: when no channel has more waiting calls than landings that are under way or will
  -- be sent by its flights, this stays so.
  pub Reach-IsServed : (s s' : State) → Reach client s s' → IsServed s → IsServed s'
  Reach-IsServed _ _ (start s) h = h
  Reach-IsServed _ _ (step s s' s'' before last) h =
      step-IsServed s' s'' last (Reach-IsServed s s' before h)

-- Every flight of every entry has been in flight for too long.
abbrev pub AllExpired : ℕ → ℤ → Dict String FlightList → Type 0
AllExpired now d entries =
    All (λ (e : String × FlightList). All (λ f. is_expired now d f ≡ true) e.1.flights) entries

none_left :
    (p : Flight → Bool) (xs : List Flight)
    → All (λ f. p f ≡ true) xs
    → filter_by (λ f. not (p f)) xs ≡ []
none_left p [] h = refl
none_left p (x ∷ xs) h = rw h.0 (none_left p xs h.1)

evict_round-in_flight :
    (c now : ℕ) (d : Dict String FlightList) (t : FlightTracker)
    → AllExpired now t.max_flight_duration d
    → in_flight c (evict_round now d t).flights_by_key ≡ 0
unfolding evict_round
evict_round-in_flight c now [] t h = refl
evict_round-in_flight c now ((key, list) ∷ rest) t h =
    let ih = evict_round-in_flight c now rest t h.1 in
    elim (Bool-cases (eqb (length list.flights) 0 && eqb (length list.seen_pods) 0)) [
      | inl empty ↦ rw empty ih
      | inr stays ↦
          rw (stays, none_left (is_expired now t.max_flight_duration) list.flights h.0)
            (ground (arith, ih))
    ]

-- Where no channel has more waiting calls than landings that are under way or will be sent: once
-- every flight has expired, after a round of the evicter every channel has at least as many
-- landings under way as calls that wait for it, so that each of them can receive one.
pub evict_round-releases :
    (now c : ℕ) (s : State)
    → IsServed s
    → AllExpired now s.tracker.max_flight_duration s.tracker.flights_by_key
    → waiters c s ≤ count c (evict_round now s.tracker.flights_by_key s.tracker).landings
evict_round-releases now c s h expired = omega (
  arith,
  h.served c,
  evict_round-pending c now s.tracker.flights_by_key s.tracker,
  evict_round-in_flight c now s.tracker.flights_by_key s.tracker expired,
)
