-- ===== src/Base/Float.antt =====
-- `float64` and the functions of `math` that the program calls, as an interface: what the
-- operations compute stays with the processor.
use Prim.Native.Nat.{min as min_ℕ}
use straggler.Base.{ℕ, ◌*◌, ◌≤◌, ◌≡◌, arith, if◌then◌else◌, leb, Bool-cases, inl, inr}
use straggler.Base.Int.{ℤ, pos, leb_ℤ}

pub record FloatOps : Type 1 where
  pub Float64 : Type 0
  -- `float64(i)` and `int(x)`
  pub of_int : ℤ → Float64
  pub to_int : Float64 → ℤ
  -- `x * y`, `math.Ceil` and `math.Min`
  pub mul : Float64 → Float64 → Float64
  pub ceil : Float64 → Float64
  pub fmin : Float64 → Float64 → Float64

-- What IEEE 754 gives: the conversion of an integer keeps the order and is exact up to 2^53, so the
-- smaller of two converted integers comes back exactly if it is at most 2^53.
pub record IsIeee (F : FloatOps) : Type 0 where
  pub min_left :
      (a b : ℕ)
      → a ≤ b
      → a ≤ 0x20_0000_0000_0000
      → F.to_int (F.fmin (F.of_int (pos a)) (F.of_int (pos b))) ≡ pos a
  pub min_right :
      (a b : ℕ)
      → a ≤ b
      → a ≤ 0x20_0000_0000_0000
      → F.to_int (F.fmin (F.of_int (pos b)) (F.of_int (pos a))) ≡ pos a

module _ {F : FloatOps} (I : IsIeee F) where
  pub min_exact :
      (a b : ℕ)
      → a ≤ 0x20_0000_0000_0000
      → F.to_int (F.fmin (F.of_int (pos a)) (F.of_int (pos b))) ≡ pos (min_ℕ a b)
  min_exact a b h = elim (Bool-cases (leb a b)) [
    | inl le ↦ rw (I.min_left a b (ground arith) h) (ground arith)
    | inr gt ↦ rw (I.min_right b a (ground arith) (ground arith)) (ground arith)
  ]

-- Floats that hold whole numbers only, of any size; the product scales the first factor by a natural
-- number.
abbrev scale : ℤ → ℤ → ℤ
scale (pos a) (pos b) = pos (a * b)
scale a b = a

abbrev pub whole_floats : FloatOps
whole_floats = record {
  Float64 = ℤ;
  of_int = λ i. i;
  to_int = λ x. x;
  mul = scale;
  ceil = λ x. x;
  fmin = λ x y. if leb_ℤ x y then x else y;
}

pub whole_floats-IsIeee : IsIeee whole_floats
whole_floats-IsIeee = record {
  min_left = λ a b h _. ground arith;
  min_right = λ a b h _. ground arith;
}
