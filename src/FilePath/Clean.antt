-- ===== src/FilePath/Clean.antt =====
-- What `Clean` keeps of a rooted path: plain names only, and a second `Clean` keeps all of it.
use mathlib.Core.List.{reverse, reverse-cons, append_assoc}
use m_tlsling.Base.{
  String, ◌≡◌, refl, ◌∙◌, Bool, true, ◌&&◌, ◌||◌, not, List, [], ◌∷◌, ◌++◌, ◌=ˢ◌, arith, All,
}
use m_tlsling.FilePath.{split, is_abs, push_part, walk, parts}
use m_tlsling.FilePath.Split.{IsPlain, is_plain, split-IsPlain}

-- A name that stays where it is: not empty, not `.`, not `..`, and without a slash.
unfoldable pub is_name : String → Bool
is_name w = not (w =ˢ "" || w =ˢ ".") && (not (w =ˢ "..") && is_plain w)

abbrev pub IsName : String → Type 0
IsName w = is_name w ≡ true

pub IsName-IsPlain : (w : String) → IsName w → IsPlain w
unfolding is_name
IsName-IsPlain w h = ground arith

pub All-IsName-IsPlain : (ws : List String) → All IsName ws → All IsPlain ws
All-IsName-IsPlain [] h = tt
All-IsName-IsPlain (w ∷ ws) h = (IsName-IsPlain w h.0, All-IsName-IsPlain ws h.1)

-- Below the root a stack of names stays one.
push_part-All :
    (stack : List String) (part : String)
    → IsPlain part
    → All IsName stack
    → All IsName (push_part true stack part)
unfolding push_part is_name
push_part-All [] part p h = ground arith
push_part-All (top ∷ rest) part p h = ground arith

walk-All :
    (stack ws : List String) → All IsPlain ws → All IsName stack → All IsName (walk true stack ws)
unfolding walk
walk-All stack [] p h = h
walk-All stack (w ∷ ws) p h = walk-All (push_part true stack w) ws p.1 (push_part-All stack w p.0 h)

module _ {ℓ κ} {A : Type ℓ} (Q : A → Type κ) where
  All-append : (ws vs : List A) → All Q ws × All Q vs → All Q (ws ++ vs)
  All-append [] vs (_, k) = k
  All-append (w ∷ ws) vs (h, k) = (h.0, All-append ws vs (h.1, k))

  All-reverse : (ws : List A) → All Q ws → All Q (reverse ws)
  All-reverse [] h = tt
  All-reverse (w ∷ ws) h =
      rw (reverse-cons w ws) (All-append (reverse ws) (w ∷ []) (All-reverse ws h.1, (h.0, tt)))

-- The pieces of a rooted path are names: no `..` is among them.
pub parts-IsName : (path : String) → is_abs path ≡ true → All IsName (parts path)
unfolding parts
parts-IsName path h = rw h (All-reverse IsName _ (walk-All [] (split path) (split-IsPlain path) tt))

push_part-name :
    (rooted : Bool) (stack : List String) (w : String)
    → IsName w
    → push_part rooted stack w ≡ w ∷ stack
unfolding push_part is_name
push_part-name rooted stack w h = ground arith

-- Names are pushed one by one.
pub walk-names :
    (rooted : Bool) (stack ws : List String)
    → All IsName ws
    → walk rooted stack ws ≡ reverse ws ++ stack
unfolding walk
walk-names rooted stack [] h = refl
walk-names rooted stack (w ∷ ws) h =
    rw (push_part-name rooted stack w h.0)
      (walk-names rooted (w ∷ stack) ws h.1 ∙ (rw (reverse-cons w ws, append_assoc) refl))

pub walk-append :
    (rooted : Bool) (stack xs ys : List String)
    → walk rooted stack (xs ++ ys) ≡ walk rooted (walk rooted stack xs) ys
unfolding walk
walk-append rooted stack [] ys = refl
walk-append rooted stack (x ∷ xs) ys = walk-append rooted (push_part rooted stack x) xs ys

pub walk_nil : (rooted : Bool) (stack : List String) → walk rooted stack ("" ∷ []) ≡ stack
unfolding walk push_part
walk_nil rooted stack = refl
