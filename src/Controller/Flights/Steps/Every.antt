-- ===== src/Controller/Flights/Steps/Every.antt =====
-- A property of all flights of the tracker, and the operations on its lists.
use straggler.Base.{
  ◌≡◌, subst, List, [], ◌∷◌, ◌++◌, String, some, Bool, All, Bool-cases, Option-cases, inl, inr,
  arith, ◌==◌, string_eq,
}
use straggler.Base.Dict.{Dict, lookup, insert}
use straggler.Kube.{NamespacedName_eq, Pod}
use straggler.Controller.Flights.{Flight, FlightList, remove_newest, is_flight_of, match_flight}

module _ (P : Flight → Type 0) where
  -- A property of all flights of all entries.
  abbrev pub Every : Dict String FlightList → Type 0
  Every d = All (λ (e : String × FlightList). All P e.1.flights) d

  pub Every-insert :
      (key : String) (list : FlightList) (d : Dict String FlightList)
      → Every d
      → All P list.flights
      → Every (insert key list d)
  unfolding insert
  Every-insert key list [] h own = (own, tt)
  Every-insert key list ((k, l) ∷ d) h own = elim (Bool-cases (k == key)) [
    | inl same ↦ rw same (own, h.1)
    | inr other ↦ rw other (h.0, Every-insert key list d h.1 own)
  ]

  pub Every-lookup :
      (key : String) (list : FlightList) (d : Dict String FlightList)
      → Every d
      → lookup key d ≡ some list
      → All P list.flights
  unfolding lookup
  Every-lookup key list [] h found = absurd (cc found)
  Every-lookup key list ((k, l) ∷ d) h found = elim (Bool-cases (k == key)) [
    | inl same ↦
        let e : l ≡ list = ground (arith, found, same) in
        subst (λ (x : FlightList). All P x.flights) e h.0
    | inr other ↦ Every-lookup key list d h.1 (ground (arith, found, other))
  ]

  pub All-last : (xs : List Flight) (x : Flight) → All P xs → P x → All P (xs ++ x ∷ [])
  All-last [] x h own = (own, tt)
  All-last (y ∷ xs) x h own = (h.0, All-last xs x h.1 own)

  remove_newest-All :
      (p : Flight → Bool) (xs rest : List Flight)
      → remove_newest p xs ≡ some rest
      → All P xs
      → All P rest
  unfolding remove_newest
  remove_newest-All p [] rest h all = absurd (cc h)
  remove_newest-All p (x ∷ xs) rest h all = elim (Option-cases (remove_newest p xs)) [
    | inr (r, e) ↦
        let same : x ∷ r ≡ rest = ground (arith, h, e) in
        subst (All P) same (all.0, remove_newest-All p xs r e all.1)
    | inl none_left ↦ elim (Bool-cases (p x)) [
      | inl passes ↦
          let same : xs ≡ rest = ground (arith, h, none_left, passes) in subst (All P) same all.1
      | inr fails ↦ absurd (ground (arith, h, none_left, fails))
    ]
  ]

  pub match_flight-All :
      (pod : Pod) (xs rest : List Flight) → match_flight pod xs ≡ some rest → All P xs → All P rest
  unfolding match_flight
  match_flight-All pod xs rest h all = elim (Bool-cases (pod.name == "")) [
    | inl unnamed ↦
        remove_newest-All (is_flight_of pod.generate_name pod.namespace) xs rest
          (ground (arith, h, unnamed)) all
    | inr named ↦ elim (Option-cases (remove_newest (is_flight_of pod.name pod.namespace) xs)) [
      | inl missing ↦
          remove_newest-All (is_flight_of pod.generate_name pod.namespace) xs rest
            (ground (arith, h, named, missing)) all
      | inr (r, e) ↦
          remove_newest-All (is_flight_of pod.name pod.namespace) xs rest
            (ground (arith, h, named, e)) all
    ]
  ]
