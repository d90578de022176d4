-- ===== src/Controller/Flights/Steps/Pending.antt =====
-- What the landings and the flights of a channel add up to: no operation of the tracker but a new call
-- and the receipt of a landing changes the sum.
use straggler.Base.{
  ℕ, suc, ◌+◌, ◌≡◌, refl, ap, ◌∙◌, sym, ◌&&◌, List, [], ◌∷◌, ◌++◌, String, Option, none, some, Bool,
  true, not, length, eqb, map, filter_by, Bool-cases, Option-cases, inl, inr, arith, ◌==◌,
  string_eq, if◌then◌else◌,
}
use straggler.Base.Dict.{Dict, lookup, insert, erase, get_key}
use straggler.Base.Sorting.{length-perm}
use straggler.Controller.Flights.Landing.{match_flight-Perm, reconcile_seen, reconcile_unseen}
use straggler.Kube.{NamespacedName, NamespacedName_eq, Pod}
use straggler.Controller.Flights.{
  Flight, FlightList, FlightTracker, land, match_flight, reconcile_pod, forget_pod, is_expired,
  evict_round,
}

-- How often the channel is in the list.
abbrev pub count : ℕ → List ℕ → ℕ
count c [] = 0
count c (d ∷ ds) = (if eqb d c then 1 else 0) + count c ds

-- The flights of an entry with the channel, and those of all such entries.
abbrev pub flights_on : ℕ → FlightList → ℕ
flights_on c list = if eqb list.landed_chan c then length list.flights else 0

abbrev pub in_flight : ℕ → Dict String FlightList → ℕ
in_flight c [] = 0
in_flight c ((key, list) ∷ d) = flights_on c list + in_flight c d

-- The landings on the channel that are under way, and those that its flights will send.
abbrev pub pending : ℕ → FlightTracker → ℕ
pending c t = in_flight c t.flights_by_key + count c t.landings

abbrev pub flights_found : ℕ → Option FlightList → ℕ
flights_found c none = 0
flights_found c (some list) = flights_on c list

pub in_flight-insert :
    (c : ℕ) (key : String) (list : FlightList) (d : Dict String FlightList)
    → in_flight c (insert key list d) + flights_found c (lookup key d)
      ≡ in_flight c d + flights_on c list
unfolding insert lookup
in_flight-insert c key list [] = omega arith
in_flight-insert c key list ((k, l) ∷ d) = elim (Bool-cases (k == key)) [
  | inl same ↦ rw same (omega arith)
  | inr differ ↦ rw differ (omega (arith, in_flight-insert c key list d))
]

pub in_flight-replace :
    (c : ℕ) (key : String) (list list' : FlightList) (d : Dict String FlightList)
    → lookup key d ≡ some list
    → in_flight c (insert key list' d) + flights_on c list ≡ in_flight c d + flights_on c list'
in_flight-replace c key list list' d found =
    ap (λ o. in_flight c (insert key list' d) + flights_found c o) (sym found)
    ∙ in_flight-insert c key list' d

count-append : (c : ℕ) (xs ys : List ℕ) → count c (xs ++ ys) ≡ count c xs + count c ys
count-append c [] ys = omega arith
count-append c (x ∷ xs) ys = omega (arith, count-append c xs ys)

pub count-middle :
    (c d : ℕ) (xs ys : List ℕ)
    → count c (xs ++ d ∷ ys) ≡ (if eqb d c then 1 else 0) + count c (xs ++ ys)
count-middle c d xs ys = omega (arith, count-append c xs (d ∷ ys), count-append c xs ys)

-- The expired flights, and as many landings on the channel of their entry.
count-landings :
    (c d : ℕ) (p : Flight → Bool) (xs : List Flight)
    → (if eqb d c then length (filter_by (λ f. not (p f)) xs) else 0)
        + count c (map (λ _. d) (filter_by p xs))
      ≡ (if eqb d c then length xs else 0)
count-landings c d p [] = ground arith
count-landings c d p (x ∷ xs) = ground (arith, count-landings c d p xs)

pub evict_round-pending :
    (c now : ℕ) (d : Dict String FlightList) (t : FlightTracker)
    → pending c (evict_round now d t) ≡ in_flight c d + count c t.landings
unfolding evict_round
evict_round-pending c now [] t = refl
evict_round-pending c now ((key, list) ∷ rest) t =
    let gone = eqb (length list.flights) 0 && eqb (length list.seen_pods) 0 in
    let ih = evict_round-pending c now rest t in
    let t' = evict_round now rest t in
    let expired = filter_by (is_expired now t.max_flight_duration) list.flights in
    elim (Bool-cases gone) [
      | inl empty ↦
          let zero_on : flights_on c list ≡ 0 = ground (arith, empty) in
          rw empty (omega (arith, ih, zero_on))
      | inr stays ↦
          let sent = count-append c (map (λ _. list.landed_chan) expired) t'.landings in
          rw stays (
            omega (
              arith,
              ih,
              sent,
              count-landings c list.landed_chan (is_expired now t.max_flight_duration) list.flights,
            ))
    ]

land-pending :
    (c : ℕ) (request : NamespacedName) (key : String) (list : FlightList) (t : FlightTracker)
    (pod : Pod)
    → lookup key t.flights_by_key ≡ some list
    → (o : Option (List Flight)) → match_flight pod list.flights ≡ o
    → pending c (land request key list o t) ≡ pending c t
unfolding land
land-pending c request key list t pod known none e = refl
land-pending c request key list t pod known (some rest) e =
    let (x, perm, _) = match_flight-Perm pod list.flights rest e in
    let list' : FlightList = record list {
      flights = rest;
      seen_pods = insert request true list.seen_pods;
    } in
    let moved = in_flight-replace c key list list' t.flights_by_key known in
    let one_less : length list.flights ≡ suc (length rest) = length-perm perm in
    ground (arith, moved, one_less)

pub reconcile_pod-pending :
    (c : ℕ) (request : NamespacedName) (pod : Pod) (t : FlightTracker)
    → pending c (reconcile_pod request pod t) ≡ pending c t
unfolding reconcile_pod
reconcile_pod-pending c request pod t =
    elim (Option-cases (get_key t.object_key_label pod.labels)) [
      | inl unlabelled ↦ stays (ground (arith, unlabelled))
      | inr (key, labelled) ↦ elim (Option-cases (lookup key t.flights_by_key)) [
        | inl unknown ↦ stays (ground (arith, labelled, unknown))
        | inr (list, known) ↦ elim (Option-cases (lookup request list.seen_pods)) [
          | inr (b, seen) ↦ stays (reconcile_seen request pod t key list labelled known b seen)
          | inl unseen ↦
              ap (pending c) (reconcile_unseen request pod t key list labelled known unseen)
              ∙ land-pending c request key list t pod known (match_flight pod list.flights) refl
        ]
      ]
    ]
  where
    stays : reconcile_pod request pod t ≡ t → pending c (reconcile_pod request pod t) ≡ pending c t
    stays e = ap (pending c) e

pub forget_pod-pending :
    (c : ℕ) (request : NamespacedName) (t : FlightTracker)
    → pending c (forget_pod request t) ≡ pending c t
unfolding forget_pod
forget_pod-pending c request t = elim (Option-cases (lookup request t.seen_pods_keys)) [
  | inl unseen ↦ stays (ground (arith, unseen))
  | inr (key, seen) ↦ elim (Option-cases (lookup key t.flights_by_key)) [
    | inl unknown ↦ stays (ground (arith, seen, unknown))
    | inr (list, known) ↦
        let list' : FlightList = record list { seen_pods = erase request list.seen_pods } in
        let moved = in_flight-replace c key list list' t.flights_by_key known in
        let t' : FlightTracker = record t { flights_by_key = insert key list' t.flights_by_key } in
        let changed : forget_pod request t ≡ t' = ground (arith, seen, known) in
        let same : pending c t' ≡ pending c t = omega (arith, moved) in
        ap (pending c) changed ∙ same
  ]
]
  where
    stays : forget_pod request t ≡ t → pending c (forget_pod request t) ≡ pending c t
    stays e = ap (pending c) e
