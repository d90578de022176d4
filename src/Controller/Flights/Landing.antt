-- ===== src/Controller/Flights/Landing.antt =====
-- flightracker.go, Reconcile: which flights land when a pod is read, and what the tracker keeps.
use mathlib.Core.List.{Perm}
use mathlib.Core.List.Perm
use straggler.Base.{
  All, false, string_dec, ◌≢◌, ◌≡◌, ◌⊎◌, inl, inr, refl, sym, ap, ◌∙◌, subst, List, [], ◌∷◌, String,
  Option, none, some, Bool, true, Bool-cases, Option-cases, arith, string_eq, if◌then◌else◌,
}
use straggler.Base.Dict.{lookup, insert, lookup-insert, get_key}
use straggler.Base.Result.{Result, ok, err, panic, is_not_found}
use straggler.Kube.{NamespacedName, NamespacedName_eq, Pod}
use straggler.Controller.Flights.{
  Flight, FlightList, FlightTracker, remove_newest, is_flight_of, match_flight, land, reconcile_pod,
  forget_pod, reconcile,
}
use straggler.Controller.Types.{Client}

-- The flights of a key.
abbrev pub flights_in : Option FlightList → List Flight
flights_in none = []
flights_in (some list) = list.flights

abbrev pub flights_of : String → FlightTracker → List Flight
flights_of key t = flights_in (lookup key t.flights_by_key)

-- The flight goes by the name in the namespace.
abbrev pub GoesBy : String → String → Flight → Type 0
GoesBy name namespace x = (x.object.name ≡ name) × (x.object.namespace ≡ namespace)

is_flight_of-true :
    (name namespace : String) (x : Flight)
    → is_flight_of name namespace x ≡ true
    → GoesBy name namespace x
is_flight_of-true name namespace x h = (ground (arith, h), ground (arith, h))

is_flight_of-false :
    (name namespace : String) (x : Flight)
    → is_flight_of name namespace x ≡ false
    → ¬ GoesBy name namespace x
is_flight_of-false name namespace x h (e, f) = ground (arith, h, e, f)

remove_newest-some :
    (name namespace : String) (xs rest : List Flight)
    → remove_newest (is_flight_of name namespace) xs ≡ some rest
    → (x : Flight) × Perm xs (x ∷ rest) × GoesBy name namespace x
unfolding remove_newest
remove_newest-some name namespace [] rest h = absurd (cc h)
remove_newest-some name namespace (x ∷ xs) rest h =
    elim (Option-cases (remove_newest (is_flight_of name namespace) xs)) [
      | inr (r, e) ↦
          let (y, perm, passes) = remove_newest-some name namespace xs r e in
          let same : x ∷ r ≡ rest = ground (arith, h, e) in
          (
            y,
            subst (λ r. Perm (x ∷ xs) (y ∷ r)) same
                (Perm.trans (Perm.cons x perm) (Perm.swap y x r)),
            passes,
          )
      | inl none_left ↦ elim (Bool-cases (is_flight_of name namespace x)) [
        | inl passes ↦
            let same : xs ≡ rest = ground (arith, h, none_left, passes) in
            (
              x,
              subst (λ r. Perm (x ∷ xs) (x ∷ r)) same (Perm.refl (x ∷ xs)),
              is_flight_of-true name namespace x passes,
            )
        | inr fails ↦ absurd (ground (arith, h, none_left, fails))
      ]
    ]

remove_newest-none :
    (name namespace : String) (xs : List Flight)
    → remove_newest (is_flight_of name namespace) xs ≡ none
    → All (λ x. ¬ GoesBy name namespace x) xs
unfolding remove_newest
remove_newest-none name namespace [] h = tt
remove_newest-none name namespace (x ∷ xs) h =
    elim (Option-cases (remove_newest (is_flight_of name namespace) xs)) [
      | inr (r, e) ↦ absurd (ground (arith, h, e))
      | inl none_left ↦ elim (Bool-cases (is_flight_of name namespace x)) [
        | inl passes ↦ absurd (ground (arith, h, none_left, passes))
        | inr fails ↦ (
          is_flight_of-false name namespace x fails,
          remove_newest-none name namespace xs none_left,
        )
      ]
    ]

-- Of the flights `xs`, none goes by the full name of the pod, which it may not have.
abbrev pub NoneByName : Pod → List Flight → Type 0
NoneByName pod xs = (pod.name ≡ "") ⊎ All (λ x. ¬ GoesBy pod.name pod.namespace x) xs

-- The flight of the pod among `xs`: one under its full name, or else under its generated name.
abbrev pub IsFlightOf : Pod → List Flight → Flight → Type 0
IsFlightOf pod xs x =
    ((pod.name ≢ "") × GoesBy pod.name pod.namespace x)
    ⊎ (NoneByName pod xs × GoesBy pod.generate_name pod.namespace x)

by_name :
    (pod : Pod) (xs : List Flight)
    → ((match_flight pod xs ≡ remove_newest (is_flight_of pod.generate_name pod.namespace) xs)
        × NoneByName pod xs)
      ⊎ ((rest : List Flight) × (match_flight pod xs ≡ some rest)
          × (pod.name ≢ "")
          × (remove_newest (is_flight_of pod.name pod.namespace) xs ≡ some rest))
unfolding match_flight
by_name pod xs = elim (string_dec pod.name "") [
  | yes unnamed ↦ inl (ground (arith, unnamed), inl unnamed)
  | no named ↦ elim (Option-cases (remove_newest (is_flight_of pod.name pod.namespace) xs)) [
    | inl missing ↦
        inl (
          ground (arith, missing, named),
          inr (remove_newest-none pod.name pod.namespace xs missing),
        )
    | inr (rest, found) ↦ inr (rest, ground (arith, found, named), named, found)
  ]
]

pub match_flight-Perm :
    (pod : Pod) (xs rest : List Flight)
    → match_flight pod xs ≡ some rest
    → (x : Flight) × Perm xs (x ∷ rest) × IsFlightOf pod xs x
match_flight-Perm pod xs rest h = elim (by_name pod xs) [
  | inl (e, nobody) ↦
      let (x, perm, goes) =
        remove_newest-some pod.generate_name pod.namespace xs rest (sym e ∙ h) in
      (x, perm, inr (nobody, goes))
  | inr (rest', e, named, found) ↦
      let same : rest' ≡ rest = ground (arith, h, e) in
      let (x, perm, goes) = remove_newest-some pod.name pod.namespace xs rest' found in
      (x, subst (λ r. Perm xs (x ∷ r)) same perm, inl (named, goes))
]

match_flight-none :
    (pod : Pod) (xs : List Flight)
    → match_flight pod xs ≡ none
    → NoneByName pod xs × All (λ x. ¬ GoesBy pod.generate_name pod.namespace x) xs
match_flight-none pod xs h = elim (by_name pod xs) [
  | inl (e, nobody) ↦ (nobody, remove_newest-none pod.generate_name pod.namespace xs (sym e ∙ h))
  | inr (rest, e, _, _) ↦ absurd (ground (arith, h, e))
]

module _ (request : NamespacedName) (pod : Pod) (t : FlightTracker) (key : String)
    (list : FlightList) (labelled : get_key t.object_key_label pod.labels ≡ some key)
    (known : lookup key t.flights_by_key ≡ some list) where
  pub reconcile_seen :
      (b : Bool) → lookup request list.seen_pods ≡ some b → reconcile_pod request pod t ≡ t
  unfolding reconcile_pod
  reconcile_seen b h = ground (arith, labelled, known, h)

  pub reconcile_unseen :
      lookup request list.seen_pods ≡ none
      → reconcile_pod request pod t ≡ land request key list (match_flight pod list.flights) t
  unfolding reconcile_pod
  reconcile_unseen h = ground (arith, labelled, known, h)

  -- A pod that carries the key of flights, and that has not been seen. If a flight of the key in its
  -- namespace goes by its full name, one such flight is taken out; if none does, but one goes by
  -- its generated name, one of these is. One landing is then sent on the channel of the key. If
  -- neither name is there, and then only, the tracker stays as it is.
  pub reconcile_pod-lands :
      lookup request list.seen_pods ≡ none
      → ((reconcile_pod request pod t ≡ t)
          × NoneByName pod list.flights
          × All (λ x. ¬ GoesBy pod.generate_name pod.namespace x) list.flights)
        ⊎ ((x : Flight) × IsFlightOf pod list.flights x
            × Perm list.flights (x ∷ flights_of key (reconcile_pod request pod t))
            × ((reconcile_pod request pod t).landings ≡ list.landed_chan ∷ t.landings))
  unfolding land
  reconcile_pod-lands unseen = elim (Option-cases (match_flight pod list.flights)) [
    | inl none_left ↦
        let (unnamed, ungenerated) = match_flight-none pod list.flights none_left in
        inl (
          reconcile_unseen unseen ∙ ap (λ o. land request key list o t) none_left,
          unnamed,
          ungenerated,
        )
    | inr (rest, e) ↦
        let (x, perm, named) = match_flight-Perm pod list.flights rest e in
        let landed : reconcile_pod request pod t ≡ land request key list (some rest) t =
          reconcile_unseen unseen ∙ ap (λ o. land request key list o t) e in
        inr (
          x,
          named,
          rw landed (subst (λ r. Perm list.flights (x ∷ r)) (sym (left_of rest)) perm),
          rw landed (sent_of rest),
        )
  ]
    where
      left_of : (rest : List Flight) → flights_of key (land request key list (some rest) t) ≡ rest
      left_of rest =
          unfold land in
          ground (
            arith,
            lookup-insert key key
                (record list { flights = rest; seen_pods = insert request true list.seen_pods })
                t.flights_by_key,
          )

      sent_of :
          (rest : List Flight)
          → (land request key list (some rest) t).landings ≡ list.landed_chan ∷ t.landings
      sent_of rest = unfold land in refl

  -- Once the pod has landed a flight, the tracker does not change when the pod is read again.
  land_again :
      (rest : List Flight)
      → reconcile_pod request pod (land request key list (some rest) t)
        ≡ land request key list (some rest) t
  unfolding land reconcile_pod
  land_again rest =
      let list' : FlightList = record list {
        flights = rest;
        seen_pods = insert request true list.seen_pods;
      } in
      ground (
        arith,
        labelled,
        lookup-insert key key list' t.flights_by_key,
        lookup-insert request request true list.seen_pods,
      )

-- Reading the same pod twice in a row changes nothing more: no second flight lands.
pub reconcile_pod_idem :
    (request : NamespacedName) (pod : Pod) (t : FlightTracker)
    → reconcile_pod request pod (reconcile_pod request pod t) ≡ reconcile_pod request pod t
reconcile_pod_idem request pod t = elim (Option-cases (get_key t.object_key_label pod.labels)) [
  | inl unlabelled ↦ stays (unfold reconcile_pod in ground (arith, unlabelled))
  | inr (key, labelled) ↦ elim (Option-cases (lookup key t.flights_by_key)) [
    | inl unknown ↦ stays (unfold reconcile_pod in ground (arith, labelled, unknown))
    | inr (list, known) ↦ elim (Option-cases (lookup request list.seen_pods)) [
      | inr (b, seen) ↦ stays (reconcile_seen request pod t key list labelled known b seen)
      | inl unseen ↦ elim (Option-cases (match_flight pod list.flights)) [
        | inl none_left ↦ stays (
            reconcile_unseen request pod t key list labelled known unseen
            ∙ ap (λ o. land request key list o t) none_left
            ∙ unfold land in refl)
        | inr (rest, e) ↦
            rw (reconcile_unseen request pod t key list labelled known unseen, e)
              (land_again request pod t key list labelled known rest)
      ]
    ]
  ]
]
  where
    stays :
        reconcile_pod request pod t ≡ t
        → reconcile_pod request pod (reconcile_pod request pod t) ≡ reconcile_pod request pod t
    stays e = ap (reconcile_pod request pod) e

-- Whatever Reconcile reads, the tracker stays, or lands a flight of the pod, or forgets the pod.
pub reconcile-cases :
    {W : Type 0} (client : Client W) (request : NamespacedName) (t : FlightTracker) (w : W)
    (P : FlightTracker → Type 0)
    → P t
    → ((pod : Pod) → P (reconcile_pod request pod t))
    → P (forget_pod request t)
    → P (reconcile client request (t, w)).1.0
unfolding reconcile
reconcile-cases {W} client request t w P stays lands forgets = read (client.get request w)
  where
    read :
        (s : Result Pod × W)
        → P
            (elim s.0 as (λ _. Result (Unit {0}) × (FlightTracker × W)) [
              | ok pod ↦ (ok tt, (reconcile_pod request pod t, s.1))
              | err e ↦
                  if is_not_found e then (ok tt, (forget_pod request t, s.1)) else (err e, (t, s.1))
              | panic ↦ (panic, (t, s.1))
            ]).1.0
    read (ok pod, w') = lands pod
    read (err e, w') = elim (Bool-cases (is_not_found e)) [
      | inl gone ↦ rw gone forgets
      | inr other ↦ rw other stays
    ]
    read (panic, w') = stays
