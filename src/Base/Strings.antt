-- ===== src/Base/Strings.antt =====
-- `strings.Index` for one character, and slices of a string at the index that it finds.
use Prim.Native.String.{String, ◌++◌ as ◌<>◌}
use Prim.Native.Char.{code}
use text.Mathlib.TextLemmas.{nil-append, cons-append}
use mathlib.Core.Option
use straggler.Base.{
  ℕ, zero, suc, ◌≡◌, ◌∙◌, refl, ap, Option, none, some, arith, eqb, if◌then◌else◌, Bool-cases, inl,
  inr,
}

-- `none` stands for -1.
unfoldable pub index : ℕ → String → Option ℕ
index c String.[] = none
index c (String.◌∷◌ d s) =
    let rest = Option.map suc (index c s) in if eqb (code d) c then some 0 else rest

-- `s[:n]` and `s[n:]`, within the string.
unfoldable pub before : ℕ → String → String
before zero s = ""
before (suc n) String.[] = ""
before (suc n) (String.◌∷◌ d s) = String.◌∷◌ d (before n s)

unfoldable pub behind : ℕ → String → String
behind zero s = s
behind (suc n) String.[] = ""
behind (suc n) (String.◌∷◌ d s) = behind n s

pub before-behind : (n : ℕ) (s : String) → before n s <> behind n s ≡ s
unfolding before behind
before-behind zero s = nil-append s
before-behind (suc n) String.[] = nil-append ""
before-behind (suc n) (String.◌∷◌ d s) =
    cons-append d (before n s) (behind n s) ∙ ap (String.◌∷◌ d) (before-behind n s)

-- What is cut off in front of the index does not have the character, and what is left begins with it.
pub index-before-behind :
    (c n : ℕ) (s : String)
    → index c s ≡ some n
    → (index c (before n s) ≡ none) × (index c (behind n s) ≡ some 0)
unfolding index before behind
index-before-behind c zero String.[] h = absurd (cc h)
index-before-behind c (suc n) String.[] h = absurd (cc h)
index-before-behind c zero (String.◌∷◌ d s) h = elim (Bool-cases (eqb (code d) c)) [
  | inl here ↦ (refl, rw here refl)
  | inr later ↦ absurd (ground (arith, h, later))
]
index-before-behind c (suc n) (String.◌∷◌ d s) h = elim (Bool-cases (eqb (code d) c)) [
  | inl here ↦ absurd (ground (arith, h, here))
  | inr later ↦
      let (front, back) = index-before-behind c n s (ground (arith, h, later)) in
      (rw (later, front) refl, back)
]
