-- ===== src/FilePath/Split.antt =====
-- Cutting a path at its slashes undoes joining the pieces.
use Prim.Native.Char.{Char, code}
use text.Mathlib.TextLemmas.{nil-append, cons-append}
use m_tlsling.Base.{
  String, ◌<>◌, ◌≡◌, refl, ap, ◌∙◌, Bool, true, false, ◌&&◌, not, List, [], ◌∷◌, ◌++◌, ◌==◌, arith,
  All, Bool-cases, inl, inr, ◌≢◌,
}
use m_tlsling.FilePath.{prepend, split, join_slash}

-- No character is a slash.
unfoldable pub is_plain : String → Bool
is_plain String.[] = true
is_plain (String.◌∷◌ c s) = not (code c == b'/') && is_plain s

abbrev pub IsPlain : String → Type 0
IsPlain s = is_plain s ≡ true

split-cons : (s : String) → (w : String) × (ws : List String) × (split s ≡ w ∷ ws)
unfolding split
split-cons String.[] = ("", [], refl)
split-cons (String.◌∷◌ c s) = elim (Bool-cases (code c == b'/')) [
  | inl e ↦ ("", split s, rw e refl)
  | inr e ↦ let (w, ws, p) = split-cons s in (String.◌∷◌ c String.[] <> w, ws, rw e (rw p refl))
]

prepend-append :
    (c : String) (xs ys : List String) → xs ≢ [] → prepend c (xs ++ ys) ≡ prepend c xs ++ ys
prepend-append c [] ys h = absurd (h refl)
prepend-append c (x ∷ xs) ys h = refl

split-ne-nil : (s : String) → split s ≢ []
split-ne-nil s e = let (w, ws, p) = split-cons s in cc

-- A slash cuts.
pub split-append : (a b : String) → split (a <> ("/" <> b)) ≡ split a ++ split b
unfolding split
split-append String.[] b = rw (nil-append, cons-append, nil-append) refl
split-append (String.◌∷◌ c s) b = rw cons-append (elim (Bool-cases (code c == b'/')) [
  | inl e ↦ rw e (ap (◌∷◌ "") (split-append s b))
  | inr e ↦ rw e (
      ap (prepend (String.◌∷◌ c String.[])) (split-append s b)
      ∙ prepend-append _ (split s) (split b) (split-ne-nil s))
])

pub split-plain : (w : String) → IsPlain w → split w ≡ w ∷ []
unfolding split is_plain
split-plain String.[] h = refl
split-plain (String.◌∷◌ c s) h = elim (Bool-cases (code c == b'/')) [
  | inl e ↦ absurd (ground arith)
  | inr e ↦ rw e (rw (split-plain s (ground arith)) (rw (cons-append, nil-append) refl))
]

-- Cutting undoes joining.
pub split-join_slash :
    (w : String) (ws : List String) → All IsPlain (w ∷ ws) → split (join_slash (w ∷ ws)) ≡ w ∷ ws
unfolding join_slash
split-join_slash w [] h = split-plain w h.0
split-join_slash w (v ∷ ws) h =
    split-append w _ ∙ (rw (split-plain w h.0) (ap (◌∷◌ w) (split-join_slash v ws h.1)))

prepend-IsPlain :
    (c : Char)
    → (code c == b'/') ≡ false
    → (ws : List String) → All IsPlain ws
    → All IsPlain (prepend (String.◌∷◌ c String.[]) ws)
unfolding is_plain
prepend-IsPlain c e [] h = (rw e refl, tt)
prepend-IsPlain c e (w ∷ ws) h = (rw (cons-append, nil-append, e) h.0, h.1)

-- No piece has a slash in it.
pub split-IsPlain : (s : String) → All IsPlain (split s)
unfolding split is_plain
split-IsPlain String.[] = (refl, tt)
split-IsPlain (String.◌∷◌ c s) = elim (Bool-cases (code c == b'/')) [
  | inl e ↦ rw e (refl, split-IsPlain s)
  | inr e ↦ rw e (prepend-IsPlain c e (split s) (split-IsPlain s))
]
