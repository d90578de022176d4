-- ===== src/Base/State.antt =====
-- Functions that return a result and change a state. An error or a panic keeps the changes that were
-- made before it, as Go does.
use straggler.Base.{String, ◌≡◌, ◌≢◌, refl}
use straggler.Base.Result.{Result, ok, err, panic, wrap_error}

abbrev pub M : Type 0 → Type 0 → Type 0
M S A = S → Result A × S

module _ {S : Type 0} where
  abbrev pub continue : {A B : Type 0} → Result A × S → (A → M S B) → Result B × S
  continue (ok a, s) f = f a s
  continue (err e, s) f = (err e, s)
  continue (panic, s) f = (panic, s)

  infixl 5 ◌>>=◌ ◌>>◌
  abbrev pub ◌>>=◌ : {A B : Type 0} → M S A → (A → M S B) → M S B
  ◌>>=◌ m f s = continue (m s) f

  abbrev pub ◌>>◌ : {B : Type 0} → M S (Unit {0}) → M S B → M S B
  ◌>>◌ m k s = continue (m s) (λ _. k)

  abbrev pub pure : {A : Type 0} → A → M S A
  pure a s = (ok a, s)

  abbrev pub from_result : {A : Type 0} → Result A → M S A
  from_result r s = (r, s)

  -- `if err != nil { return fmt.Errorf("text: %v", err) }` after a call.
  abbrev pub or_wrap : {A : Type 0} → String → M S A → M S A
  or_wrap text m s = let (r, s') = m s in (wrap_error text r, s')

  abbrev pub drop_error : Result (Unit {0}) × S → Result (Unit {0}) × S
  drop_error (ok a, s) = (ok a, s)
  drop_error (err e, s) = (ok tt, s)
  drop_error (panic, s) = (panic, s)

  -- A call whose error is logged and otherwise ignored.
  abbrev pub ignore_error : M S (Unit {0}) → M S (Unit {0})
  ignore_error m s = drop_error (m s)

  pub drop_error-state : (s : Result (Unit {0}) × S) → (drop_error s).1 ≡ s.1
  drop_error-state (ok a, s) = refl
  drop_error-state (err e, s) = refl
  drop_error-state (panic, s) = refl

  pub drop_error_calm : (r : Result (Unit {0})) (s : S) → r ≢ panic → drop_error (r, s) ≡ (ok tt, s)
  drop_error_calm (ok tt) s h = refl
  drop_error_calm (err e) s h = refl
  drop_error_calm panic s h = absurd (h refl)
