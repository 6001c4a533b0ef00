-- ===== src/Base/Errors.antt =====
-- A Go function that returns `(A, error)`: the error is the text of `err.Error()`.
use Prim.Native.String.{String, ◌++◌ as ◌<>◌}
use mathlib.Core.Path.{◌≡◌, refl}
use mathlib.Core.Logic.{◌⊎◌, inl, inr}
use mathlib.Core.Option.{Option, none, some}

pub data Result {ℓ} (V : Type ℓ) : Type ℓ where
  ok : V → Result V
  err : String → Result V

module _ {ℓ κ} {V : Type ℓ} {W : Type κ} where
  infixl 5 ◌>>=◌
  -- The first error ends a chain of steps.
  abbrev pub ◌>>=◌ : Result V → (V → Result W) → Result W
  err problem >>= next = err problem
  ok value >>= next = next value

infixl 5 ◌>>◌
-- A step that gives nothing but its error.
abbrev pub ◌>>◌ {ℓ} : {W : Type ℓ} → Result (Unit {0}) → Result W → Result W
done >> next = elim done [ err problem ↦ err problem | ok _ ↦ next ]

-- `fmt.Errorf("what: %w", err)`
abbrev pub wrap {ℓ} : {A : Type ℓ} → String → Result A → Result A
wrap what (ok a) = ok a
wrap what (err e) = err (what <> ": " <> e)

-- An `error` that may be nil.
abbrev pub error_of {ℓ} : {A : Type ℓ} → Result A → Option String
error_of (ok a) = none
error_of (err e) = some e

pub Result-cases {ℓ} :
    {A : Type ℓ} (r : Result A) → ((a : A) × (r ≡ ok a)) ⊎ ((e : String) × (r ≡ err e))
Result-cases (ok a) = inl (a, refl)
Result-cases (err e) = inr (e, refl)
