-- ===== src/Controller/Flights/Steps/Ages.antt =====
-- How old the flights are: each operation leaves a bound on their times as it is, and a round of the
-- evicter raises it.
use straggler.Base.{
  ℕ, ◌+◌, ◌≤◌, ◌<◌, ◌≡◌, ◌∙◌, refl, sym, subst, List, [], ◌∷◌, ◌++◌, String, Option, none, some,
  true, false, not, ◌&&◌, length, eqb, filter_by, All, Bool-cases, Option-cases, inl, inr, arith,
  string_eq, string_dec,
}
use straggler.Base.Dict.{Dict, lookup, insert, erase, get_key}
use straggler.Base.Int.{ℤ, pos, ◌-ℤ◌}
use straggler.Base.Result.{Result, err, errorf}
use straggler.Kube.{NamespacedName, NamespacedName_eq, ObjectMeta, Pod}
use straggler.Controller.Types.{Client}
use straggler.Controller.Reconciler.{time_since}
use straggler.Controller.Flights.{
  Flight, FlightList, FlightTracker, create_entry, flight_name, track, begin_wait, match_flight,
  land, reconcile_pod, forget_pod, reconcile, evict_round, is_expired,
}
use straggler.Controller.Flights.Landing.{reconcile-cases, reconcile_seen, reconcile_unseen}
use straggler.Controller.Flights.Registration.{track_named, flight_at}
use straggler.Controller.Flights.Steps.Every.{
  Every, Every-insert, Every-lookup, All-last, match_flight-All,
}

-- Every flight was added at most `m` before the time `b`, or later.
abbrev pub Late : ℕ → ℕ → Flight → Type 0
Late m b f = b ≤ f.timestamp + m

module _ (m b : ℕ) where
  pub record IsYoung (t : FlightTracker) : Type 0 where
    pub duration : t.max_flight_duration ≡ pos m
    pub young : Every (Late m b) t.flights_by_key

  inserted :
      (key : String) (list : FlightList) (t t' : FlightTracker)
      → t'.max_flight_duration ≡ t.max_flight_duration
      → t'.flights_by_key ≡ insert key list t.flights_by_key
      → All (Late m b) list.flights
      → IsYoung t
      → IsYoung t'
  inserted key list t t' same added own h = record {
    duration = same ∙ h.duration;
    young =
        subst (Every (Late m b)) (sym added)
          (Every-insert (Late m b) key list t.flights_by_key h.young own);
  }

  create_entry-IsYoung :
      (key : String) (t : FlightTracker)
      → IsYoung t
      → (list : FlightList) × (t' : FlightTracker) × (create_entry key
            (lookup key t.flights_by_key)
            t
          ≡ (list, t'))
        × All (Late m b) list.flights
        × IsYoung t'
  unfolding create_entry
  create_entry-IsYoung key t h = elim (Option-cases (lookup key t.flights_by_key)) [
    | inl missing ↦
        let list : FlightList = record {
          flights = [];
          landed_chan = t.next_chan;
          seen_pods = [];
        } in
        let t' : FlightTracker = record t {
          flights_by_key = insert key list t.flights_by_key;
          next_chan = t.next_chan + 1;
        } in
        (list, t', rw missing refl, tt, inserted key list t t' refl refl tt h)
    | inr (list, found) ↦
        (list, t, rw found refl, Every-lookup (Late m b) key list t.flights_by_key h.young found, h)
  ]

  track-IsYoung :
      (now : ℕ) (key : String) (object : ObjectMeta) (list : FlightList) (t : FlightTracker)
      → b ≤ now
      → All (Late m b) list.flights
      → IsYoung t
      → IsYoung (track now key object (list, t)).1
  track-IsYoung now key object list t late own h = elim (string_dec (flight_name object) "") [
    | yes unnamed ↦
        let e : track now key object (list, t)
            ≡ (err (errorf "unable to get a unique name for object"), t) =
          unfold track in ground (arith, unnamed) in
        subst (λ r. IsYoung r.1) (sym e) h
    | no named ↦
        subst (λ (r : Result (Option ℕ) × FlightTracker). IsYoung r.1)
          (sym (track_named now key object list t named))
          (inserted key (record list { flights = list.flights ++ flight_at now object ∷ [] }) t _
            refl refl
            (All-last (Late m b) list.flights (flight_at now object) own (omega (arith, late))) h)
  ]

  pub begin_wait-IsYoung :
      (now : ℕ) (key : String) (object : ObjectMeta) (t : FlightTracker)
      → b ≤ now
      → IsYoung t
      → IsYoung (begin_wait now key object t).1
  unfolding begin_wait
  begin_wait-IsYoung now key object t late h =
      let (list, t', e, own, h') = create_entry-IsYoung key t h in
      subst (λ r. IsYoung (track now key object r).1) (sym e)
        (track-IsYoung now key object list t' late own h')

  land-IsYoung :
      (request : NamespacedName) (key : String) (list : FlightList) (pod : Pod)
      (o : Option (List Flight)) (t : FlightTracker)
      → match_flight pod list.flights ≡ o
      → lookup key t.flights_by_key ≡ some list
      → IsYoung t
      → IsYoung (land request key list o t)
  unfolding land
  land-IsYoung request key list pod none t e known h = h
  land-IsYoung request key list pod (some rest) t e known h =
      inserted key (record list { flights = rest; seen_pods = insert request true list.seen_pods })
        t _ refl refl
        (match_flight-All (Late m b) pod list.flights rest e
          (Every-lookup (Late m b) key list t.flights_by_key h.young known))
        h

  reconcile_pod-IsYoung :
      (request : NamespacedName) (pod : Pod) (t : FlightTracker)
      → IsYoung t
      → IsYoung (reconcile_pod request pod t)
  unfolding reconcile_pod
  reconcile_pod-IsYoung request pod t h =
      elim (Option-cases (get_key t.object_key_label pod.labels)) [
        | inl unlabelled ↦ stays (ground (arith, unlabelled))
        | inr (key, labelled) ↦ elim (Option-cases (lookup key t.flights_by_key)) [
          | inl unknown ↦ stays (ground (arith, labelled, unknown))
          | inr (list, known) ↦ elim (Option-cases (lookup request list.seen_pods)) [
            | inr (seen_before, seen) ↦
                stays (reconcile_seen request pod t key list labelled known seen_before seen)
            | inl unseen ↦
                subst IsYoung (sym (reconcile_unseen request pod t key list labelled known unseen))
                  (land-IsYoung request key list pod (match_flight pod list.flights) t refl known h)
          ]
        ]
      ]
    where
      stays : reconcile_pod request pod t ≡ t → IsYoung (reconcile_pod request pod t)
      stays e = subst IsYoung (sym e) h

  forget_pod-IsYoung :
      (request : NamespacedName) (t : FlightTracker) → IsYoung t → IsYoung (forget_pod request t)
  unfolding forget_pod
  forget_pod-IsYoung request t h = elim (Option-cases (lookup request t.seen_pods_keys)) [
    | inl unseen ↦ changed t (ground (arith, unseen)) h
    | inr (key, seen) ↦ elim (Option-cases (lookup key t.flights_by_key)) [
      | inl unknown ↦ changed t (ground (arith, seen, unknown)) h
      | inr (list, known) ↦
          let list' : FlightList = record list { seen_pods = erase request list.seen_pods } in
          let t' : FlightTracker = record t {
            flights_by_key = insert key list' t.flights_by_key;
          } in
          changed t' (ground (arith, seen, known)) (
            inserted key list' t t' refl refl
              (Every-lookup (Late m b) key list t.flights_by_key h.young known) h)
    ]
  ]
    where
      changed :
          (t' : FlightTracker)
          → forget_pod request t ≡ t'
          → IsYoung t'
          → IsYoung (forget_pod request t)
      changed t' e h = subst IsYoung (sym e) h

  pub reconcile-IsYoung :
      {W : Type 0} (client : Client W) (request : NamespacedName) (t : FlightTracker) (w : W)
      → IsYoung t
      → IsYoung (reconcile client request (t, w)).1.0
  reconcile-IsYoung client request t w h =
      reconcile-cases client request t w IsYoung h (λ pod. reconcile_pod-IsYoung request pod t h)
        (forget_pod-IsYoung request t h)

-- A flight that has not expired at a time was added at most the maximum duration before.
unexpired-Late :
    (now m : ℕ) (d : ℤ) (f : Flight)
    → d ≡ pos m
    → now < 0x8000_0000_0000_0000
    → is_expired now d f ≡ false
    → Late m now f
unfolding time_since ◌-ℤ◌
unexpired-Late now m d f e small kept =
    let kept' : is_expired now (pos m) f ≡ false = subst (λ x. is_expired now x f ≡ false) e kept in
    ground (arith, kept')

unexpired_all :
    (now m : ℕ) (d : ℤ) (fs : List Flight)
    → d ≡ pos m
    → now < 0x8000_0000_0000_0000
    → All (Late m now) (filter_by (λ f. not (is_expired now d f)) fs)
unexpired_all now m d [] e small = tt
unexpired_all now m d (f ∷ fs) e small = elim (Bool-cases (is_expired now d f)) [
  | inl gone ↦ rw gone (unexpired_all now m d fs e small)
  | inr kept ↦ rw kept (unexpired-Late now m d f e small kept, unexpired_all now m d fs e small)
]

pub evict_round-IsYoung :
    (now m : ℕ) (d : Dict String FlightList) (t : FlightTracker)
    → t.max_flight_duration ≡ pos m
    → now < 0x8000_0000_0000_0000
    → IsYoung m now (evict_round now d t)
unfolding evict_round
evict_round-IsYoung now m [] t e small = record { duration = e; young = tt }
evict_round-IsYoung now m ((key, list) ∷ rest) t e small =
    let later = evict_round-IsYoung now m rest t e small in
    elim (Bool-cases (eqb (length list.flights) 0 && eqb (length list.seen_pods) 0)) [
      | inl empty ↦ rw empty later
      | inr stays ↦ rw stays (record {
        duration = later.duration;
        young = (unexpired_all now m t.max_flight_duration list.flights e small, later.young);
      })
    ]
