-- ===== src/Base/Counts.antt =====
-- Lengths of lists: which are empty, and how many entries pass a test.
use straggler.Base.{
  ℕ, zero, suc, ◌+◌, ◌≤◌, ◌<◌, ◌≡◌, ◌≢◌, refl, ap, List, [], ◌∷◌, ◌++◌, Bool, true, false, not,
  length, filter_by, take, map, arith, Bool-cases, inl, inr,
}

module _ {ℓ} {A : Type ℓ} where
  pub length_pos : (xs : List A) → xs ≢ [] → 0 < length xs
  length_pos [] h = absurd (h refl)
  length_pos (x ∷ xs) h = omega arith

  pub nonempty_length : (xs : List A) → 0 < length xs → xs ≢ []
  nonempty_length [] h e = omega (arith, h)
  nonempty_length (x ∷ xs) h e = cc

  pub empty_of_length : (xs : List A) → length xs ≡ 0 → xs ≡ []
  empty_of_length [] h = refl
  empty_of_length (x ∷ xs) h = absurd (omega (arith, h))

  pub filter_by-not :
      (f : A → Bool) (xs : List A)
      → length (filter_by f xs) + length (filter_by (λ p. not (f p)) xs) ≡ length xs
  filter_by-not f [] = refl
  filter_by-not f (x ∷ xs) = ground (arith, filter_by-not f xs)

  pub filter_by_none :
      (f : A → Bool) (xs : List A) → length (filter_by (λ p. not (f p)) (filter_by f xs)) ≡ 0
  filter_by_none f [] = refl
  filter_by_none f (x ∷ xs) = ground (arith, filter_by_none f xs)

  pub filter_by_zero :
      (f : A → Bool) (front : List A) (p : A) (back : List A)
      → length (filter_by f (front ++ p ∷ back)) ≡ 0
      → f p ≡ false
  filter_by_zero f [] p back h = ground (arith, h)
  filter_by_zero f (x ∷ front) p back h = filter_by_zero f front p back (ground (arith, h))

  pub some_listed :
      (f : A → Bool) (front : List A) (p : A) (back : List A)
      → f p ≡ true
      → filter_by f (front ++ p ∷ back) ≢ []
  some_listed f [] p back h e = ground (arith, h, e)
  some_listed f (x ∷ front) p back h e = elim (Bool-cases (f x)) [
    | inl chosen ↦ ground (arith, chosen, e)
    | inr other ↦ some_listed f front p back h (ground (arith, other, e))
  ]

  pub length-map : (f : A → A) (ps : List A) → length (map f ps) ≡ length ps
  length-map f [] = refl
  length-map f (p ∷ ps) = ap suc (length-map f ps)

  pub filter_by-map :
      (f : A → Bool) (g : A → A) (ps : List A)
      → ((p : A) → f (g p) ≡ f p)
      → length (filter_by f (map g ps)) ≡ length (filter_by f ps)
  filter_by-map f g [] same = refl
  filter_by-map f g (p ∷ ps) same = ground (arith, same p, filter_by-map f g ps same)

  pub filter_by-map_none :
      (f : A → Bool) (g : A → A) (ps : List A)
      → ((p : A) → f (g p) ≡ false)
      → length (filter_by f (map g ps)) ≡ 0
  filter_by-map_none f g [] never = refl
  filter_by-map_none f g (p ∷ ps) never = ground (arith, never p, filter_by-map_none f g ps never)

  pub take_front : (n : ℕ) (xs ys : List A) → n ≤ length xs → take n (xs ++ ys) ≡ take n xs
  take_front zero xs ys h = refl
  take_front (suc n) [] ys h = absurd (omega (arith, h))
  take_front (suc n) (x ∷ xs) ys h = ap (λ zs. x ∷ zs) (take_front n xs ys (omega (arith, h)))
