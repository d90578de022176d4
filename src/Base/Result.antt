-- ===== src/Base/Result.antt =====
-- The results of Go functions: a value, an error value, or a run-time panic.
use straggler.Base.{String, Bool, true, false}

-- `not_found` is the error of the API server for which `IsNotFound` holds, `failed` any other error
-- of a call, `errorf` one made by `fmt.Errorf` from a text, and `wrapped` one from a text and an
-- inner error under `%v`.
pub data Error : Type 0 where
  not_found : Error
  failed : String → Error
  errorf : String → Error
  wrapped : String → Error → Error

pub data Result {ℓ} (A : Type ℓ) : Type ℓ where
  ok : A → Result A
  err : Error → Result A
  panic : Result A

infixl 5 ◌>>=◌
abbrev pub ◌>>=◌ {ℓ κ} : {A : Type ℓ} {B : Type κ} → Result A → (A → Result B) → Result B
ok a >>= f = f a
err e >>= f = err e
panic >>= f = panic

-- `if err != nil { return fmt.Errorf("text: %v", err) }`
abbrev pub wrap_error {ℓ} : {A : Type ℓ} → String → Result A → Result A
wrap_error text (ok a) = ok a
wrap_error text (err e) = err (wrapped text e)
wrap_error text panic = panic

-- `errors.IsNotFound(err)`
abbrev pub is_not_found : Error → Bool
is_not_found not_found = true
is_not_found _ = false
