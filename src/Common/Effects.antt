-- ===== src/Common/Effects.antt =====
-- Go functions as state transformers, and Go's `(T, error)` results.
use Prim.Native.String.{String}
use mathlib.Core.Path.{◌≡◌, refl}
use mathlib.Core.Logic.{◌⊎◌, inl, inr}
use serving_agent.Common.Text.{◌<>◌}

-- A Go call takes the state of the world and returns its result and the new state.
abbrev pub Exec {ℓ κ} : Type ℓ → Type κ → Type (ℓ ⊔ κ)
Exec W A = W → A × W

module _ {ℓ κ} {W : Type ℓ} {A : Type κ} where
  abbrev pub pure : A → Exec W A
  pure a w = (a, w)

module _ {ℓ κ μ} {W : Type ℓ} {A : Type κ} {B : Type μ} where
  infixl 5 ◌>>=◌ ◌>>◌
  abbrev pub ◌>>=◌ : Exec W A → (A → Exec W B) → Exec W B
  ◌>>=◌ m f w = let (a, w') = m w in f a w'

  abbrev pub ◌>>◌ : Exec W A → Exec W B → Exec W B
  m >> n = m >>= λ _. n

-- `plain` is `errors.New`, and `wrap` is `fmt.Errorf` with a last `%w` or `%v` for an error.
pub data GoError : Type 0 where
  plain : String → GoError
  wrap : String → GoError → GoError

-- `err.Error()`
unfoldable pub message : GoError → String
message (plain s) = s
message (wrap s e) = s <> message e

-- `(T, error)`
pub data Result {ℓ} (A : Type ℓ) : Type ℓ where
  ok : A → Result A
  err : GoError → Result A

pub Result-cases {ℓ} :
    {A : Type ℓ} (r : Result A) → ((a : A) × (r ≡ ok a)) ⊎ ((e : GoError) × (r ≡ err e))
Result-cases (ok a) = inl (a, refl)
Result-cases (err e) = inr (e, refl)
