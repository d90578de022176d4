-- ===== src/Base/Lists.antt =====
-- Lists measured by native numbers, filtered by Boolean tests, and predicates on all entries.
use Prim.Native.Nat.{ℕ, zero, suc, ◌+◌, ◌≤◌}
use mathlib.Core.Path.{◌≡◌, refl, ap}
use mathlib.Core.Bool.{Bool, true, false}
use mathlib.Core.List.{List, [], ◌∷◌, ◌++◌, map, Sublist, Sublistᴰ, nil-sublist}
use mathlib.Core.List.Sublist
use mathlib.Core.Logic.{◌⊎◌, inl, inr, ∥∥₁_map}
use native.Mathlib.Omega.{arith}
use straggler.Base.Tests.{Bool-cases, if◌then◌else◌}

module _ {ℓ} {A : Type ℓ} where
  abbrev pub length : List A → ℕ
  length [] = 0
  length (x ∷ xs) = suc (length xs)

  abbrev pub take : ℕ → List A → List A
  take zero xs = []
  take (suc n) [] = []
  take (suc n) (x ∷ xs) = x ∷ take n xs

  abbrev pub drop : ℕ → List A → List A
  drop zero xs = xs
  drop (suc n) [] = []
  drop (suc n) (x ∷ xs) = drop n xs

  pub length-append : (xs ys : List A) → length (xs ++ ys) ≡ length xs + length ys
  length-append [] ys = omega arith
  length-append (x ∷ xs) ys = omega (arith, length-append xs ys)

  pub length-take : (n : ℕ) (xs : List A) → n ≤ length xs → length (take n xs) ≡ n
  length-take zero xs h = refl
  length-take (suc n) [] h = absurd (omega arith)
  length-take (suc n) (x ∷ xs) h = ap suc (length-take n xs (omega arith))

  pub take-append-drop : (n : ℕ) (xs : List A) → take n xs ++ drop n xs ≡ xs
  take-append-drop zero xs = refl
  take-append-drop (suc n) [] = refl
  take-append-drop (suc n) (x ∷ xs) = ap (◌∷◌ x) (take-append-drop n xs)

  pub take-sublist : (n : ℕ) (xs : List A) → Sublist (take n xs) xs
  take-sublist zero xs = nil-sublist xs
  take-sublist (suc n) [] = nil-sublist []
  take-sublist (suc n) (x ∷ xs) = Sublist.cons-cons x (take-sublist n xs)

  -- The entries that pass a Boolean test, in order.
  abbrev pub filter_by : (A → Bool) → List A → List A
  filter_by p [] = []
  filter_by p (x ∷ xs) = let rest = filter_by p xs in if p x then x ∷ rest else rest

  pub filter_by-sublist : (p : A → Bool) (xs : List A) → Sublist (filter_by p xs) xs
  filter_by-sublist p [] = nil-sublist []
  filter_by-sublist p (x ∷ xs) =
      elim (p x)
        as (λ b. Sublist (let rest = filter_by p xs in if b then x ∷ rest else rest) (x ∷ xs)) [
          | true ↦ Sublist.cons-cons x (filter_by-sublist p xs)
          | false ↦ Sublist.cons x (filter_by-sublist p xs)
        ]

  pub filter_by-append :
      (p : A → Bool) (xs ys : List A) → filter_by p (xs ++ ys) ≡ filter_by p xs ++ filter_by p ys
  filter_by-append p [] ys = refl
  filter_by-append p (x ∷ xs) ys = ground (arith, filter_by-append p xs ys)

  pub filter_by-le : (p : A → Bool) (xs : List A) → length (filter_by p xs) ≤ length xs
  filter_by-le p [] = omega arith
  filter_by-le p (x ∷ xs) = ground (arith, filter_by-le p xs)

  abbrev pub All {κ} : (A → Type κ) → List A → Type κ
  All P [] = Unit
  All P (x ∷ xs) = P x × All P xs

  abbrev pub Any : (A → Type 0) → List A → Type 0
  Any P [] = ⊥
  Any P (x ∷ xs) = P x ⊎ Any P xs

  pub All-drop {κ} : (P : A → Type κ) (n : ℕ) (xs : List A) → All P xs → All P (drop n xs)
  All-drop P zero xs h = h
  All-drop P (suc n) [] h = h
  All-drop P (suc n) (x ∷ xs) h = All-drop P n xs h.1

  pub All-append {κ} :
      (P : A → Type κ) (xs : List A) (x : A) → All P xs → P x → All P (xs ++ x ∷ [])
  All-append P [] x h p = (p, tt)
  All-append P (y ∷ ys) x h p = (h.0, All-append P ys x h.1 p)

  pub All-map {κ} : (P Q : A → Type κ) (xs : List A) → ((x : A) → P x → Q x) → All P xs → All Q xs
  All-map P Q [] f h = tt
  All-map P Q (x ∷ xs) f h = (f x h.0, All-map P Q xs f h.1)

  pub All-filter_by {κ} :
      (P Q : A → Type κ) (f : A → Bool) (xs : List A)
      → ((x : A) → P x → f x ≡ true → Q x)
      → All P xs
      → All Q (filter_by f xs)
  All-filter_by P Q f [] g h = tt
  All-filter_by P Q f (x ∷ xs) g h = elim (Bool-cases (f x)) [
    | inl kept ↦ rw kept (g x h.0 kept, All-filter_by P Q f xs g h.1)
    | inr dropped ↦ rw dropped (All-filter_by P Q f xs g h.1)
  ]

module _ {ℓ κ} {A : Type ℓ} {B : Type κ} (f : A → B) where
  map-sublistᴰ : {xs ys : List A} → Sublistᴰ xs ys → Sublistᴰ (map f xs) (map f ys)
  map-sublistᴰ Sublistᴰ.slnil = Sublistᴰ.slnil
  map-sublistᴰ (Sublistᴰ.cons s) = Sublistᴰ.cons (map-sublistᴰ s)
  map-sublistᴰ (Sublistᴰ.cons-cons e s) = Sublistᴰ.cons-cons (ap f e) (map-sublistᴰ s)

  pub map-sublist : {xs ys : List A} → Sublist xs ys → Sublist (map f xs) (map f ys)
  map-sublist s = ∥∥₁_map s map-sublistᴰ
