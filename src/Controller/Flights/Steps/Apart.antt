-- ===== src/Controller/Flights/Steps/Apart.antt =====
-- The operations of the tracker on the channels of its entries: they stay distinct.
use straggler.Base.{
  All-append, All-map, ℕ, ◌+◌, ◌<◌, ◌≡◌, ◌≢◌, refl, sym, subst, List, [], ◌∷◌, String, Option, none,
  some, ◌&&◌, length, eqb, All, Bool-cases, Option-cases, inl, inr, arith, string_eq, string_dec,
}
use straggler.Base.Dict.{Dict, lookup, insert, erase, get_key, lookup-insert}
use straggler.Base.Result.{Result, err, errorf}
use straggler.Kube.{NamespacedName, NamespacedName_eq, ObjectMeta, Pod}
use straggler.Controller.Flights.{
  Flight, FlightList, FlightTracker, create_entry, flight_name, track, begin_wait, land,
  match_flight, reconcile_pod, forget_pod, evict_round,
}
use straggler.Controller.Flights.Landing.{reconcile_seen, reconcile_unseen}
use straggler.Controller.Flights.Registration.{track_named}
use straggler.Controller.Flights.Steps.Entries.{
  channels, Distinct, IsApart, channels-replace, channels-insert, Distinct-append,
}

-- A tracker with the same channels, of which no more were made.
pub same-IsApart :
    (t t' : FlightTracker)
    → channels t'.flights_by_key ≡ channels t.flights_by_key
    → t'.next_chan ≡ t.next_chan
    → IsApart t
    → IsApart t'
same-IsApart t t' same made h = record {
  distinct = rw same h.distinct;
  made = rw (same, made) h.made;
}

create_entry-IsApart :
    (key : String) (t : FlightTracker)
    → IsApart t
    → (list : FlightList) × (t' : FlightTracker) × (create_entry key (lookup key t.flights_by_key) t
        ≡ (list, t'))
      × (lookup key t'.flights_by_key ≡ some list)
      × IsApart t'
unfolding create_entry
create_entry-IsApart key t h = elim (Option-cases (lookup key t.flights_by_key)) [
  | inl missing ↦
      let list : FlightList = record { flights = []; landed_chan = t.next_chan; seen_pods = [] } in
      let longer = channels-insert key list t.flights_by_key missing in
      let entries = channels t.flights_by_key in
      (
        list,
        record t { flights_by_key = insert key list t.flights_by_key; next_chan = t.next_chan + 1 },
        rw missing refl,
        ground (arith, lookup-insert key key list t.flights_by_key),
        record {
          distinct = rw longer (Distinct-append entries t.next_chan h.distinct h.made);
          made = rw longer (
              All-append (λ c. c < t.next_chan + 1) entries t.next_chan
                (All-map (λ c. c < t.next_chan) (λ c. c < t.next_chan + 1) entries
                  (λ c m. omega (arith, m)) h.made)
                (omega arith));
        },
      )
  | inr (list, found) ↦ (list, t, rw found refl, found, h)
]

track-IsApart :
    (now : ℕ) (key : String) (object : ObjectMeta) (list : FlightList) (t : FlightTracker)
    → lookup key t.flights_by_key ≡ some list
    → IsApart t
    → IsApart (track now key object (list, t)).1
track-IsApart now key object list t known h = elim (string_dec (flight_name object) "") [
  | yes unnamed ↦
      let e : track now key object (list, t)
          ≡ (err (errorf "unable to get a unique name for object"), t) =
        unfold track in ground (arith, unnamed) in
      subst (λ r. IsApart r.1) (sym e) h
  | no named ↦
      subst (λ (r : Result (Option ℕ) × FlightTracker). IsApart r.1)
        (sym (track_named now key object list t named))
        (same-IsApart t _ (channels-replace key list _ t.flights_by_key known refl) refl h)
]

pub begin_wait-IsApart :
    (now : ℕ) (key : String) (object : ObjectMeta) (t : FlightTracker)
    → IsApart t
    → IsApart (begin_wait now key object t).1
unfolding begin_wait
begin_wait-IsApart now key object t h =
    let (list, t', e, known, apart) = create_entry-IsApart key t h in
    subst (λ r. IsApart (track now key object r).1) (sym e)
      (track-IsApart now key object list t' known apart)

land-IsApart :
    (request : NamespacedName) (key : String) (list : FlightList) (o : Option (List Flight))
    (t : FlightTracker)
    → lookup key t.flights_by_key ≡ some list
    → IsApart t
    → IsApart (land request key list o t)
unfolding land
land-IsApart request key list none t known h = h
land-IsApart request key list (some rest) t known h =
    same-IsApart t _ (channels-replace key list _ t.flights_by_key known refl) refl h

pub reconcile_pod-IsApart :
    (request : NamespacedName) (pod : Pod) (t : FlightTracker)
    → IsApart t
    → IsApart (reconcile_pod request pod t)
unfolding reconcile_pod
reconcile_pod-IsApart request pod t h =
    elim (Option-cases (get_key t.object_key_label pod.labels)) [
      | inl unlabelled ↦ stays (ground (arith, unlabelled))
      | inr (key, labelled) ↦ elim (Option-cases (lookup key t.flights_by_key)) [
        | inl unknown ↦ stays (ground (arith, labelled, unknown))
        | inr (list, known) ↦ elim (Option-cases (lookup request list.seen_pods)) [
          | inr (b, seen) ↦ stays (reconcile_seen request pod t key list labelled known b seen)
          | inl unseen ↦
              subst IsApart (sym (reconcile_unseen request pod t key list labelled known unseen))
                (land-IsApart request key list (match_flight pod list.flights) t known h)
        ]
      ]
    ]
  where
    stays : reconcile_pod request pod t ≡ t → IsApart (reconcile_pod request pod t)
    stays e = subst IsApart (sym e) h

pub forget_pod-IsApart :
    (request : NamespacedName) (t : FlightTracker) → IsApart t → IsApart (forget_pod request t)
unfolding forget_pod
forget_pod-IsApart request t h = elim (Option-cases (lookup request t.seen_pods_keys)) [
  | inl unseen ↦ changed t (ground (arith, unseen)) h
  | inr (key, seen) ↦ elim (Option-cases (lookup key t.flights_by_key)) [
    | inl unknown ↦ changed t (ground (arith, seen, unknown)) h
    | inr (list, known) ↦
        let list' : FlightList = record list { seen_pods = erase request list.seen_pods } in
        let t' : FlightTracker = record t { flights_by_key = insert key list' t.flights_by_key } in
        changed t' (ground (arith, seen, known))
          (same-IsApart t t' (channels-replace key list list' t.flights_by_key known refl) refl h)
  ]
]
  where
    changed :
        (t' : FlightTracker)
        → forget_pod request t ≡ t'
        → IsApart t'
        → IsApart (forget_pod request t)
    changed t' e h = subst IsApart (sym e) h

-- The evicter only deletes entries.
pub evict_round-All :
    (P : ℕ → Type 0) (now : ℕ) (d : Dict String FlightList) (t : FlightTracker)
    → All P (channels d)
    → All P (channels (evict_round now d t).flights_by_key)
unfolding evict_round
evict_round-All P now [] t h = tt
evict_round-All P now ((key, list) ∷ rest) t h =
    let later = evict_round-All P now rest t h.1 in
    elim (Bool-cases (eqb (length list.flights) 0 && eqb (length list.seen_pods) 0)) [
      | inl empty ↦ rw empty later
      | inr stays ↦ rw stays (h.0, later)
    ]

pub evict_round-Distinct :
    (now : ℕ) (d : Dict String FlightList) (t : FlightTracker)
    → Distinct (channels d)
    → Distinct (channels (evict_round now d t).flights_by_key)
unfolding evict_round
evict_round-Distinct now [] t h = tt
evict_round-Distinct now ((key, list) ∷ rest) t h =
    let later = evict_round-Distinct now rest t h.1 in
    elim (Bool-cases (eqb (length list.flights) 0 && eqb (length list.seen_pods) 0)) [
      | inl empty ↦ rw empty later
      | inr stays ↦ rw stays (evict_round-All (λ c. list.landed_chan ≢ c) now rest t h.0, later)
    ]

pub evict_round-next_chan :
    (now : ℕ) (d : Dict String FlightList) (t : FlightTracker)
    → (evict_round now d t).next_chan ≡ t.next_chan
unfolding evict_round
evict_round-next_chan now [] t = refl
evict_round-next_chan now ((key, list) ∷ rest) t =
    let later = evict_round-next_chan now rest t in
    elim (Bool-cases (eqb (length list.flights) 0 && eqb (length list.seen_pods) 0)) [
      | inl empty ↦ rw empty later
      | inr stays ↦ rw stays later
    ]
