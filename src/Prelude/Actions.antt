-- ===== src/Prelude/Actions.antt =====
-- Code that reads and changes a state, and can end with an error or a panic. The state that it
-- leaves is kept in each case.
use mathlib.Core.Path.{◌≡◌, refl}
use mathlib.Core.Logic.{◌⊎◌, inl, inr}
use vaultwarden_operator.Prelude.Results.{Result, ok, err, panic, map_err}

module _ {ℓ κ μ} where
  abbrev pub Action : Type ℓ → Type κ → Type μ → Type (ℓ ⊔ κ ⊔ μ)
  Action S E A = S → Result E A × S

module _ {ℓ κ μ ν} {S : Type ℓ} {E : Type κ} {A : Type μ} {B : Type ν} where
  -- what follows an action that has run
  abbrev pub next : Result E A × S → (A → Action S E B) → Result E B × S
  next (ok a, s) f = f a s
  next (err e, s) f = (err e, s)
  next (panic, s) f = (panic, s)

  infixl 5 ◌>>=◌
  abbrev pub ◌>>=◌ : Action S E A → (A → Action S E B) → Action S E B
  (m >>= f) s = next (m s) f

  pub next-eq-ok :
      (r : Result E A × S) (f : A → Action S E B) {b : B} {s' : S}
      → next r f ≡ (ok b, s')
      → (a : A) × (s : S) × (r ≡ (ok a, s)) × (f a s ≡ (ok b, s'))
  next-eq-ok (ok a, s) f h = (a, s, refl, h)
  next-eq-ok (err e, s) f h = cc
  next-eq-ok (panic, s) f h = cc

module _ {ℓ κ μ ν} {S : Type ℓ} {E : Type κ} {F : Type μ} {A : Type ν} where
  -- `map_err`, or the `From` conversion of the `?` operator
  abbrev pub wrap : (E → F) → Action S E A → Action S F A
  wrap f m s = (map_err f (m s).0, (m s).1)

  abbrev pub tried : Result E A × S → Result F (E ⊎ A) × S
  tried (ok a, s) = (ok (inr a), s)
  tried (err e, s) = (ok (inl e), s)
  tried (panic, s) = (panic, s)

  -- a `match` on the result; a panic goes through
  abbrev pub attempt : Action S E A → Action S F (E ⊎ A)
  attempt m s = tried (m s)

module _ {ℓ κ μ} {S : Type ℓ} {E : Type κ} {A : Type μ} where
  abbrev pub lift : Result E A → Action S E A
  lift r s = (r, s)

  abbrev pub pure : A → Action S E A
  pure a s = (ok a, s)

  abbrev pub fail : E → Action S E A
  fail e s = (err e, s)

module _ {ℓ κ μ ν ξ} {S : Type ℓ} {E : Type κ} {A : Type μ} {B : Type ν} {C : Type ξ} where
  pub next_assoc :
      (r : Result E A × S) (f : A → Action S E B) (g : B → Action S E C)
      → next (next r f) g ≡ next r (λ a s. next (f a s) g)
  next_assoc (ok a, s) f g = refl
  next_assoc (err e, s) f g = refl
  next_assoc (panic, s) f g = refl
