-- ===== src/Base/Maps.antt =====
-- Go's `map[string]V`: an association list with one pair for a key.
use Prim.Native.String.{String}
use mathlib.Core.Path.{◌≡◌, refl}
use mathlib.Core.Bool.{Bool, false, ◌||◌}
use mathlib.Core.Option.{Option, none, some}
use mathlib.Core.List.{List, [], ◌∷◌}
use native.Mathlib.Omega.{arith}
use text.Mathlib.TextEquality.{eq_iff}
use m_tlsling.Base.Tests.{◌=ˢ◌, if◌then◌else◌}

abbrev pub Map {ℓ} : Type ℓ → Type ℓ
Map V = List (String × V)

-- Whether a list of texts holds a text.
unfoldable pub has : String → List String → Bool
has k [] = false
has k (x ∷ xs) = x =ˢ k || has k xs

module _ {ℓ} {V : Type ℓ} where
  -- `m[k]`
  unfoldable pub lookup : String → Map V → Option V
  lookup key ((k, held) ∷ rest) = if k =ˢ key then some held else lookup key rest
  lookup key [] = none

  -- `m[k] = v`
  unfoldable pub insert : String → V → Map V → Map V
  insert key new ((k, old) ∷ rest) =
      if k =ˢ key then (k, new) ∷ rest else (k, old) ∷ insert key new rest
  insert key new [] = (key, new) ∷ []

  -- `delete(m, k)`
  unfoldable pub erase : String → Map V → Map V
  erase k [] = []
  erase k ((j, w) ∷ m) = if j =ˢ k then erase k m else (j, w) ∷ erase k m

  abbrev pub keys : Map V → List String
  keys [] = []
  keys ((k, v) ∷ m) = k ∷ keys m

  pub lookup-insert :
      (j k : String) (v : V) (m : Map V)
      → lookup j (insert k v m) ≡ (if k =ˢ j then some v else lookup j m)
  unfolding lookup insert
  lookup-insert j k v [] = refl
  lookup-insert j k v ((i, old) ∷ m) =
      ground (arith, eq_iff i j, eq_iff i k, eq_iff k j, lookup-insert j k v m)

  pub lookup-erase :
      (j k : String) (m : Map V) → lookup j (erase k m) ≡ (if k =ˢ j then none else lookup j m)
  unfolding lookup erase
  lookup-erase j k [] = ground arith
  lookup-erase j k ((i, w) ∷ m) =
      ground (arith, eq_iff i j, eq_iff i k, eq_iff k j, lookup-erase j k m)

  -- No key stands twice.
  abbrev pub IsMap : Map V → Type 0
  IsMap [] = Unit
  IsMap ((k, v) ∷ m) = (has k (keys m) ≡ false) × IsMap m

  pub has-keys-insert :
      (j k : String) (v : V) (m : Map V) → has j (keys (insert k v m)) ≡ (k =ˢ j || has j (keys m))
  unfolding has insert
  has-keys-insert j k v [] = refl
  has-keys-insert j k v ((i, w) ∷ m) =
      ground (arith, eq_iff i j, eq_iff i k, eq_iff k j, has-keys-insert j k v m)

  pub insert-IsMap : (k : String) (v : V) (m : Map V) → IsMap m → IsMap (insert k v m)
  unfolding insert has
  insert-IsMap k v [] h = (refl, tt)
  insert-IsMap k v ((i, w) ∷ m) h =
      ground (arith, eq_iff i k, eq_iff k i, has-keys-insert i k v m, insert-IsMap k v m h.1)
