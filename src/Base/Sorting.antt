-- ===== src/Base/Sorting.antt =====
-- `sort.Slice`: an unstable sort in place, known by its contract. `insertion_sort` meets the
-- contract.
use mathlib.Core.List.{Perm, Perm-prop, Permᴰ, Sublist, Sublistᴰ}
use mathlib.Core.Logic.{∥∥₁_elim}
use native.Mathlib.Bridge.{le_prop}
use native.Mathlib.Nat.{ℕ_set}
use mathlib.Core.List.Perm
use straggler.Base.{
  ℕ, zero, suc, ◌≤◌, ◌≡◌, refl, ap, ◌∙◌, Bool, List, [], ◌∷◌, arith, All, ltb, if◌then◌else◌, true,
  false, length, take, drop, All-drop, filter_by, subst, Bool-cases, inl, inr,
}

module _ {ℓ} {A : Type ℓ} where
  -- Ascending in a key.
  abbrev pub Ascending : (A → ℕ) → List A → Type 0
  Ascending key [] = Unit
  Ascending key (x ∷ xs) = All (λ y. key x ≤ key y) xs × Ascending key xs

  -- What `sort.Slice` promises: it permutes the slice, and leaves it ascending when `less` compares
  -- a key. Entries with equal keys come in any order.
  pub record IsSort (sort : (A → A → Bool) → List A → List A) : Type ℓ where
    pub permutes : (less : A → A → Bool) (xs : List A) → Perm (sort less xs) xs
    pub orders : (key : A → ℕ) (xs : List A) → Ascending key (sort (λ a b. ltb (key a) (key b)) xs)

  length-permᴰ : {xs ys : List A} → Permᴰ xs ys → length xs ≡ length ys
  length-permᴰ Permᴰ.nil = refl
  length-permᴰ (Permᴰ.cons e p) = ap suc (length-permᴰ p)
  length-permᴰ (Permᴰ.swap e e') = refl
  length-permᴰ (Permᴰ.trans p q) = length-permᴰ p ∙ length-permᴰ q

  pub length-perm : {xs ys : List A} → Perm xs ys → length xs ≡ length ys
  length-perm p = ∥∥₁_elim p (ℕ_set _ _) length-permᴰ

  -- Permuted lists have as many entries that pass a test, and a part of a list has no more of them.
  count_perm :
      (f : A → Bool) {xs ys : List A}
      → Permᴰ xs ys
      → length (filter_by f xs) ≡ length (filter_by f ys)
  count_perm f Permᴰ.nil = refl
  count_perm f (Permᴰ.cons {b} {l₁} e p) =
      let same = count_perm f p in rw (ap f e) (ground (arith, same))
  count_perm f (Permᴰ.swap {a} {b} {l} e e') = rw (← ap f e, ← ap f e') (ground arith)
  count_perm f (Permᴰ.trans p q) = count_perm f p ∙ count_perm f q

  filtered_cons :
      (f : A → Bool) (x : A) (xs ys : List A)
      → Perm (filter_by f xs) (filter_by f ys)
      → Perm (filter_by f (x ∷ xs)) (filter_by f (x ∷ ys))
  filtered_cons f x xs ys p =
      elim (f x)
        as (λ b.
          Perm (if b then x ∷ filter_by f xs else filter_by f xs)
            (if b then x ∷ filter_by f ys else filter_by f ys)) [ true ↦ Perm.cons x p | false ↦ p ]

  filtered_swap :
      (f : A → Bool) (x y : A) (xs : List A)
      → Perm (filter_by f (x ∷ y ∷ xs)) (filter_by f (y ∷ x ∷ xs))
  filtered_swap f x y xs = elim (Bool-cases (f x)) [
    | inl chosen ↦ elim (Bool-cases (f y)) [
      | inl chosen' ↦ rw (chosen, chosen') (Perm.swap y x (filter_by f xs))
      | inr other' ↦ rw (chosen, other') (Perm.refl (x ∷ filter_by f xs))
    ]
    | inr other ↦ rw other (Perm.refl (filter_by f (y ∷ xs)))
  ]

  -- What passes a test of permuted lists is permuted.
  filtered : (f : A → Bool) {xs ys : List A} → Permᴰ xs ys → Perm (filter_by f xs) (filter_by f ys)
  filtered f Permᴰ.nil = Perm.nil
  filtered f (Permᴰ.cons {a} {b} {l₁} {l₂} e p) =
      subst (λ x. Perm (filter_by f (a ∷ l₁)) (filter_by f (x ∷ l₂))) e
        (filtered_cons f a l₁ l₂ (filtered f p))
  filtered f (Permᴰ.swap {a} {b} {a'} {b'} {l} e e') =
      subst (λ x. Perm (filter_by f (a ∷ b ∷ l)) (filter_by f (a' ∷ x ∷ l))) e
        (subst (λ y. Perm (filter_by f (a ∷ b ∷ l)) (filter_by f (y ∷ a ∷ l))) e'
          (filtered_swap f a b l))
  filtered f (Permᴰ.trans p q) = Perm.trans (filtered f p) (filtered f q)

  pub filter_by-perm :
      (f : A → Bool) {xs ys : List A}
      → Perm xs ys
      → length (filter_by f xs) ≡ length (filter_by f ys)
  filter_by-perm f p = ∥∥₁_elim p (ℕ_set _ _) (count_perm f)

  pub filter_by-Perm :
      (f : A → Bool) {xs ys : List A} → Perm xs ys → Perm (filter_by f xs) (filter_by f ys)
  filter_by-Perm f p = ∥∥₁_elim p Perm-prop (filtered f)

  count_sublist :
      (f : A → Bool) {xs ys : List A}
      → Sublistᴰ xs ys
      → length (filter_by f xs) ≤ length (filter_by f ys)
  count_sublist f Sublistᴰ.slnil = omega arith
  count_sublist f (Sublistᴰ.cons {a} {l₁} {l₂} s) =
      let less = count_sublist f s in ground (arith, less)
  count_sublist f (Sublistᴰ.cons-cons {b} {l₁} {l₂} e s) =
      let less = count_sublist f s in rw (ap f e) (ground (arith, less))

  pub filter_by_sublist-le :
      (f : A → Bool) {xs ys : List A}
      → Sublist xs ys
      → length (filter_by f xs) ≤ length (filter_by f ys)
  filter_by_sublist-le f s = ∥∥₁_elim s le_prop (count_sublist f)

  -- What a prefix of an ascending list holds is no greater than the rest.
  pub Ascending-take :
      (key : A → ℕ) (n : ℕ) (xs : List A)
      → Ascending key xs
      → All (λ a. All (λ b. key a ≤ key b) (drop n xs)) (take n xs)
  Ascending-take key zero xs s = tt
  Ascending-take key (suc n) [] s = tt
  Ascending-take key (suc n) (x ∷ xs) s = (All-drop _ n xs s.0, Ascending-take key n xs s.1)

  insert_by : (A → A → Bool) → A → List A → List A
  insert_by less x [] = x ∷ []
  insert_by less x (y ∷ ys) = if less y x then y ∷ insert_by less x ys else x ∷ y ∷ ys

  unfoldable pub insertion_sort : (A → A → Bool) → List A → List A
  unfolding insert_by
  insertion_sort less [] = []
  insertion_sort less (x ∷ xs) = insert_by less x (insertion_sort less xs)

  insert_by-perm : (less : A → A → Bool) (x : A) (ys : List A) → Perm (insert_by less x ys) (x ∷ ys)
  unfolding insert_by
  insert_by-perm less x [] = Perm.refl (x ∷ [])
  insert_by-perm less x (y ∷ ys) =
      elim (less y x)
        as (λ b. Perm (if b then y ∷ insert_by less x ys else x ∷ y ∷ ys) (x ∷ y ∷ ys)) [
          | true ↦ Perm.trans (Perm.cons y (insert_by-perm less x ys)) (Perm.swap x y ys)
          | false ↦ Perm.refl (x ∷ y ∷ ys)
        ]

  insertion_sort-perm : (less : A → A → Bool) (xs : List A) → Perm (insertion_sort less xs) xs
  unfolding insertion_sort
  insertion_sort-perm less [] = Perm.nil
  insertion_sort-perm less (x ∷ xs) =
      Perm.trans (insert_by-perm less x (insertion_sort less xs))
        (Perm.cons x (insertion_sort-perm less xs))

module _ {ℓ} {A : Type ℓ} (key : A → ℕ) where
  abbrev by_key : A → A → Bool
  by_key a b = ltb (key a) (key b)

  All-of_le : {m n : ℕ} (ys : List A) → m ≤ n → All (λ y. n ≤ key y) ys → All (λ y. m ≤ key y) ys
  All-of_le [] h a = tt
  All-of_le (y ∷ ys) h a = (omega arith, All-of_le ys h a.1)

  insert_by-All :
      (m : ℕ) (x : A) (ys : List A)
      → m ≤ key x
      → All (λ y. m ≤ key y) ys
      → All (λ y. m ≤ key y) (insert_by by_key x ys)
  unfolding insert_by
  insert_by-All m x [] h a = (h, tt)
  insert_by-All m x (y ∷ ys) h a = ground (arith, insert_by-All m x ys h a.1)

  insert_by-Ascending :
      (x : A) (ys : List A) → Ascending key ys → Ascending key (insert_by by_key x ys)
  unfolding insert_by
  insert_by-Ascending x [] s = (tt, tt)
  insert_by-Ascending x (y ∷ ys) s = ground (
    arith,
    insert_by-Ascending x ys s.1,
    insert_by-All (key y) x ys,
    All-of_le {m = key x} {n = key y} ys,
  )

  insertion_sort-Ascending : (xs : List A) → Ascending key (insertion_sort by_key xs)
  unfolding insertion_sort
  insertion_sort-Ascending [] = tt
  insertion_sort-Ascending (x ∷ xs) = insert_by-Ascending x _ (insertion_sort-Ascending xs)

-- The contract can be met.
pub insertion_sort-IsSort {ℓ} : {A : Type ℓ} → IsSort (insertion_sort {A = A})
insertion_sort-IsSort = record { permutes = insertion_sort-perm; orders = insertion_sort-Ascending }
