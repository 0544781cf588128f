-- ===== src/Prelude/Results.antt =====
-- Rust's `Result`, and a result that tells a panic from an error.
use mathlib.Core.Path.{◌≡◌, refl}
use mathlib.Core.Logic.{◌⊎◌, inl, inr}
use mathlib.Core.Option.{Option, none, some}
use mathlib.Core.Bool.{Bool, true, false}

pub data Result {ℓ κ} (A : Type ℓ) (E : Type κ) : Type (ℓ ⊔ κ) where
  ok : A → Result A E
  err : E → Result A E

-- What a call comes to where it may also panic.
pub data Outcome {ℓ κ} (A : Type ℓ) (E : Type κ) : Type (ℓ ⊔ κ) where
  done : A → Outcome A E
  failed : E → Outcome A E
  panicked : Outcome A E

module _ {ℓ κ} {A : Type ℓ} {E : Type κ} where
  -- `.is_ok()`
  abbrev pub is_ok : Result A E → Bool
  is_ok (ok a) = true
  is_ok (err e) = false

  -- `.ok_or_else(...)`
  abbrev pub ok_or : Option A → E → Result A E
  ok_or none e = err e
  ok_or (some a) e = ok a

module _ {ℓ} {A : Type ℓ} where
  -- `.is_some()`
  abbrev pub is_some : Option A → Bool
  is_some none = false
  is_some (some a) = true

  -- `.unwrap_or(...)`
  abbrev pub unwrap_or : Option A → A → A
  unwrap_or none d = d
  unwrap_or (some a) d = a

module _ {ℓ κ μ} {A : Type ℓ} {B : Type κ} {E : Type μ} where
  -- `?`: an error or a panic ends the chain.
  infixl 5 ◌>>=◌
  abbrev pub ◌>>=◌ : Outcome A E → (A → Outcome B E) → Outcome B E
  done a >>= f = f a
  failed e >>= f = failed e
  panicked >>= f = panicked

module _ {ℓ κ} {A : Type ℓ} {E : Type κ} where
  abbrev pub from_result : Result A E → Outcome A E
  from_result (ok a) = done a
  from_result (err e) = failed e

pub Result-cases {ℓ κ} :
    {A : Type ℓ} {E : Type κ} (r : Result A E) → ((e : E) × (r ≡ err e)) ⊎ ((a : A) × (r ≡ ok a))
Result-cases (ok a) = inr (a, refl)
Result-cases (err e) = inl (e, refl)
