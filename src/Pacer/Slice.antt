-- ===== src/Pacer/Slice.antt =====
-- The slice expression `xs[:n]`, by which pacers cut off the pods that they allow.
use straggler.Base.{ℕ, ◌≤◌, ◌≡◌, List, length, leb, take, if◌then◌else◌, arith}
use straggler.Base.Int.{ℤ, pos, negsuc}
use straggler.Base.Result.{Result, ok, panic}

module _ {ℓ} {A : Type ℓ} where
  -- A bound below 0 panics, and so does one beyond the slice: entries between its length and its
  -- capacity are never asked for.
  unfoldable pub slice_to : ℤ → List A → Result (List A)
  slice_to (pos n) xs = if leb n (length xs) then ok (take n xs) else panic
  slice_to (negsuc n) xs = panic

  pub slice_to_within : (n : ℕ) (xs : List A) → n ≤ length xs → slice_to (pos n) xs ≡ ok (take n xs)
  unfolding slice_to
  slice_to_within n xs h = ground arith
