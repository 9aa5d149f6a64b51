-- ===== src/Prelude/Results.antt =====
-- A Rust `Result`, with the panic that ends a call as a third outcome.
use mathlib.Core.Path.{◌≡◌, refl}
use mathlib.Core.Logic.{◌⊎◌, inl, inr}
use mathlib.Core.Option.{Option, none, some}

pub data Result {ℓ κ} (E : Type ℓ) (A : Type κ) : Type (ℓ ⊔ κ) where
  ok : A → Result E A
  err : E → Result E A
  panic : Result E A

module _ {ℓ κ μ} {E : Type ℓ} {A : Type κ} {B : Type μ} where
  -- the `?` operator: an error ends the function
  infixl 5 ◌>>=◌
  abbrev pub ◌>>=◌ : Result E A → (A → Result E B) → Result E B
  panic >>= k = panic
  err why >>= k = err why
  ok value >>= k = k value

  -- Both calls of a chain that returned a value returned one.
  pub >>=-eq-ok :
      (r : Result E A) (k : A → Result E B) {out : B}
      → (r >>= k) ≡ ok out
      → (value : A) × (r ≡ ok value) × (k value ≡ ok out)
  >>=-eq-ok panic k returned = cc
  >>=-eq-ok (err why) k returned = cc
  >>=-eq-ok (ok value) k returned = (value, refl, returned)

  pub >>=-eq-panic :
      (r : Result E A) (k : A → Result E B)
      → (r >>= k) ≡ panic
      → (r ≡ panic) ⊎ ((value : A) × (r ≡ ok value) × (k value ≡ panic))
  >>=-eq-panic panic k panicked = inl refl
  >>=-eq-panic (err why) k panicked = cc
  >>=-eq-panic (ok value) k panicked = inr (value, refl, panicked)

module _ {ℓ κ μ} {E : Type ℓ} {F : Type κ} {A : Type μ} where
  -- `Result::map_err`
  abbrev pub map_err : (E → F) → Result E A → Result F A
  map_err f (ok a) = ok a
  map_err f (err e) = err (f e)
  map_err f panic = panic

module _ {ℓ κ} {E : Type ℓ} {A : Type κ} where
  -- `Option::ok_or`
  abbrev pub ok_or : E → Option A → Result E A
  ok_or e none = err e
  ok_or e (some a) = ok a

  -- `Result::unwrap_or`, where a panic stays one
  abbrev pub or_default : A → Result E A → Result E A
  or_default d (ok a) = ok a
  or_default d (err e) = ok d
  or_default d panic = panic

  -- A `match` that goes on without the error; only a panic passes through.
  abbrev pub caught : Result E A → Result ⊥ (Option A)
  caught (ok a) = ok (some a)
  caught (err e) = ok none
  caught panic = panic
