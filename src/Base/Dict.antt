-- ===== src/Base/Dict.antt =====
-- Go maps: `Dict` is the content of a map, and `GoMap` is a map that may be nil. A read of a nil
-- map finds nothing, and a write to one panics.
use straggler.Base.{
  ◌≡◌, refl, Option, none, some, List, [], ◌∷◌, String, arith, Eq, string_eq, ◌==◌, ℕ, length,
  if◌then◌else◌,
}
use straggler.Base.Result.{Result, ok, panic}

abbrev pub Dict {ℓ κ} : Type ℓ → Type κ → Type (ℓ ⊔ κ)
Dict K V = List (K × V)

module _ {ℓ κ} {K : Type ℓ} {V : Type κ} ⦃e : Eq K⦄ where
  -- `v, ok := m[k]`
  unfoldable pub lookup : K → Dict K V → Option V
  lookup k [] = none
  lookup k ((j, v) ∷ d) = if j == k then some v else lookup k d

  -- `m[k] = v`
  unfoldable pub insert : K → V → Dict K V → Dict K V
  insert k v [] = (k, v) ∷ []
  insert k v ((j, w) ∷ d) = if j == k then (k, v) ∷ d else (j, w) ∷ insert k v d

  -- `delete(m, k)`
  unfoldable pub erase : K → Dict K V → Dict K V
  erase k [] = []
  erase k ((j, w) ∷ d) = let rest = erase k d in if j == k then rest else (j, w) ∷ rest

  pub lookup-insert :
      (j k : K) (v : V) (d : Dict K V)
      → lookup j (insert k v d) ≡ (if k == j then some v else lookup j d)
  unfolding lookup insert
  lookup-insert j k v [] = refl
  lookup-insert j k v ((i, w) ∷ d) = ground (arith, lookup-insert j k v d)

  pub lookup-erase :
      (j k : K) (d : Dict K V) → lookup j (erase k d) ≡ (if k == j then none else lookup j d)
  unfolding lookup erase
  lookup-erase j k [] = ground arith
  lookup-erase j k ((i, w) ∷ d) = ground (arith, lookup-erase j k d)

-- A `map[string]string`.
abbrev pub GoMap : Type 0
GoMap = Option (Dict String String)

abbrev pub entries : GoMap → Dict String String
entries none = []
entries (some d) = d

-- `v, ok := m[k]`, `len(m)`, `m[k] = v` and `delete(m, k)`.
abbrev pub get_key : String → GoMap → Option String
get_key k m = lookup k (entries m)

abbrev pub len_map : GoMap → ℕ
len_map m = length (entries m)

abbrev pub set_key : String → String → GoMap → Result GoMap
set_key k v none = panic
set_key k v (some d) = ok (some (insert k v d))

abbrev pub delete_key : String → GoMap → GoMap
delete_key k none = none
delete_key k (some d) = some (erase k d)

-- `if m == nil { m = make(map[string]string) }`
abbrev pub make_if_nil : GoMap → GoMap
make_if_nil none = some []
make_if_nil (some d) = some d
