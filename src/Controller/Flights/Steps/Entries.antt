-- ===== src/Controller/Flights/Steps/Entries.antt =====
-- The channels of the entries of the tracker's map, through reads and writes of the map.
use straggler.Base.{
  All-append, ℕ, ◌<◌, ◌≡◌, ◌≢◌, ◌∙◌, refl, sym, ap, subst, List, [], ◌∷◌, ◌++◌, String, none, some,
  All, Bool-cases, inl, inr, arith, ◌==◌, string_eq, string_dec,
}
use straggler.Base.Dict.{Dict, lookup, insert}
use straggler.Controller.Flights.{FlightList, FlightTracker}

abbrev pub channels : Dict String FlightList → List ℕ
channels [] = []
channels ((key, list) ∷ d) = list.landed_chan ∷ channels d

abbrev pub Distinct : List ℕ → Type 0
Distinct [] = Unit
Distinct (x ∷ xs) = All (λ y. x ≢ y) xs × Distinct xs

-- The channels of the entries are distinct, and were all made already.
pub record IsApart (t : FlightTracker) : Type 0 where
  pub distinct : Distinct (channels t.flights_by_key)
  pub made : All (λ c. c < t.next_chan) (channels t.flights_by_key)

lookup-All :
    (P : ℕ → Type 0) (key : String) (list : FlightList) (d : Dict String FlightList)
    → All P (channels d)
    → lookup key d ≡ some list
    → P list.landed_chan
unfolding lookup
lookup-All P key list [] h e = absurd (cc e)
lookup-All P key list ((k, l) ∷ d) h e = elim (Bool-cases (k == key)) [
  | inl same ↦
      let own : l ≡ list = ground (arith, same, e) in
      subst (λ (l : FlightList). P l.landed_chan) own h.0
  | inr differ ↦ lookup-All P key list d h.1 (ground (arith, differ, e))
]

pub channels-apart :
    (key other : String) (list list' : FlightList) (d : Dict String FlightList)
    → Distinct (channels d)
    → lookup key d ≡ some list
    → lookup other d ≡ some list'
    → key ≢ other
    → list.landed_chan ≢ list'.landed_chan
unfolding lookup
channels-apart key other list list' [] h e e' differ = absurd (cc e)
channels-apart key other list list' ((k, l) ∷ d) h e e' differ = elim (string_dec k key) [
  | yes first ↦
      let own : l ≡ list = ground (arith, first, e) in
      let later : lookup other d ≡ some list' = ground (arith, first, differ, e') in
      let apart = lookup-All (λ c. l.landed_chan ≢ c) other list' d h.0 later in
      λ same. apart (ap (λ (l : FlightList). l.landed_chan) own ∙ same)
  | no not_first ↦
      let later : lookup key d ≡ some list = ground (arith, not_first, e) in
      elim (string_dec k other) [
        | yes second ↦
            let own : l ≡ list' = ground (arith, second, e') in
            let apart = lookup-All (λ c. l.landed_chan ≢ c) key list d h.0 later in
            λ same. apart (ap (λ (l : FlightList). l.landed_chan) own ∙ sym same)
        | no not_second ↦
            channels-apart key other list list' d h.1 later (ground (arith, not_second, e')) differ
      ]
]

-- A write to an entry that is there keeps the channels, when it keeps its channel.
pub channels-replace :
    (key : String) (list list' : FlightList) (d : Dict String FlightList)
    → lookup key d ≡ some list
    → list'.landed_chan ≡ list.landed_chan
    → channels (insert key list' d) ≡ channels d
unfolding lookup insert
channels-replace key list list' [] e same = absurd (cc e)
channels-replace key list list' ((k, l) ∷ d) e same = elim (Bool-cases (k == key)) [
  | inl found ↦
      let own : l ≡ list = ground (arith, found, e) in
      rw found (ap (λ c. c ∷ channels d) (same ∙ ap (λ (l : FlightList). l.landed_chan) (sym own)))
  | inr other ↦
      rw other
        (ap (◌∷◌ l.landed_chan) (channels-replace key list list' d (ground (arith, other, e)) same))
]

pub channels-insert :
    (key : String) (list : FlightList) (d : Dict String FlightList)
    → lookup key d ≡ none
    → channels (insert key list d) ≡ channels d ++ list.landed_chan ∷ []
unfolding lookup insert
channels-insert key list [] e = refl
channels-insert key list ((k, l) ∷ d) e = elim (Bool-cases (k == key)) [
  | inl found ↦ absurd (ground (arith, found, e))
  | inr other ↦
      rw other (ap (◌∷◌ l.landed_chan) (channels-insert key list d (ground (arith, other, e))))
]

pub Distinct-append :
    (xs : List ℕ) (n : ℕ) → Distinct xs → All (λ x. x < n) xs → Distinct (xs ++ n ∷ [])
Distinct-append [] n d h = (tt, tt)
Distinct-append (x ∷ xs) n d h =
    (All-append (λ y. x ≢ y) xs n d.0 (ground (arith, h.0)), Distinct-append xs n d.1 h.1)
