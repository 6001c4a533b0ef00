-- ===== src/FilePath/Under.antt =====
-- `relativePath` on the server and `filepath.Join` on the client: a file of the server's tree
-- lands under the output directory, at the same place.
use Prim.Native.Char.{Char}
use mathlib.Core.List.{reverse, reverse-append, reverse-reverse}
use text.Mathlib.TextLemmas.{cons-ne-nil, nil-append, cons-append}
use m_tlsling.Base.{
  String, ◌<>◌, ◌≡◌, refl, ap, Bool, true, false, List, [], ◌∷◌, ◌++◌, ◌=ˢ◌, eq_iff, All,
  Bool-cases, inl, inr,
}
use m_tlsling.FilePath.{
  split, join_slash, is_abs, walk, parts, render, clean, join, trim_slash, relative_path,
}
use m_tlsling.FilePath.Split.{split-append, split-join_slash}
use m_tlsling.FilePath.Clean.{
  IsName, All-IsName-IsPlain, parts-IsName, walk-names, walk-append, walk_nil,
}

trim_slash-slash : (s : String) → trim_slash ("/" <> s) ≡ s
unfolding trim_slash
trim_slash-slash s = rw (cons-append, nil-append) refl

cons-ne-empty : (c : Char) (s : String) → (String.◌∷◌ c s =ˢ "") ≡ false
cons-ne-empty c s = elim (Bool-cases (String.◌∷◌ c s =ˢ "")) [
  | inl e ↦ absurd (cons-ne-nil c s ((eq_iff (String.◌∷◌ c s) "").0 e))
  | inr e ↦ e
]

is_abs-ne : (path : String) → is_abs path ≡ true → (path =ˢ "") ≡ false
unfolding is_abs
is_abs-ne String.[] h = cc
is_abs-ne (String.◌∷◌ c s) h = cons-ne-empty c s

-- Of a rooted path, `relativePath` sends the pieces that `Clean` keeps.
pub relative_path-parts :
    (path : String) → is_abs path ≡ true → relative_path path ≡ join_slash (parts path)
unfolding relative_path clean render
relative_path-parts path h = rw (is_abs-ne path h) (rw h (trim_slash-slash _))

-- Walking over joined names pushes them all.
walk-split-join_slash :
    (rooted : Bool) (stack ws : List String)
    → All IsName ws
    → walk rooted stack (split (join_slash ws)) ≡ reverse ws ++ stack
unfolding join_slash split
walk-split-join_slash rooted stack [] h = walk_nil rooted stack
walk-split-join_slash rooted stack (w ∷ ws) h =
    rw (split-join_slash w ws (All-IsName-IsPlain (w ∷ ws) h)) (walk-names rooted stack (w ∷ ws) h)

pub is_abs-append : (dir s : String) → (dir =ˢ "") ≡ false → is_abs (dir <> s) ≡ is_abs dir
unfolding is_abs
is_abs-append String.[] s h = cc (h)
is_abs-append (String.◌∷◌ c dir) s h = rw cons-append refl

pub append-ne : (dir s : String) → (dir =ˢ "") ≡ false → ((dir <> s) =ˢ "") ≡ false
append-ne String.[] s h = cc (h)
append-ne (String.◌∷◌ c dir) s h = rw cons-append (cons-ne-empty c (dir <> s))

-- Joining names onto a directory appends them to its pieces.
pub join-join_slash :
    (dir : String) (ws : List String)
    → (dir =ˢ "") ≡ false
    → All IsName ws
    → join dir (join_slash ws) ≡ render (is_abs dir) (parts dir ++ ws)
unfolding join clean parts
join-join_slash dir ws d h =
    rw (d, append-ne dir ("/" <> join_slash ws) d, is_abs-append dir ("/" <> join_slash ws) d)
      (ap (render (is_abs dir)) pieces)
  where
    kept : List String
    kept = walk (is_abs dir) [] (split dir)

    pieces :
        reverse (walk (is_abs dir) [] (split (dir <> ("/" <> join_slash ws)))) ≡ reverse kept ++ ws
    pieces =
        rw (split-append dir (join_slash ws), walk-append (is_abs dir) [] (split dir))
          (rw (walk-split-join_slash (is_abs dir) kept ws h, reverse-append)
            (rw (reverse-reverse ws) refl))

-- Whatever rooted path the server lists, also one with `..` in it, a client with a named output directory
-- writes below that, at the pieces of the cleaned path.
pub join-relative_path :
    (dir path : String)
    → (dir =ˢ "") ≡ false
    → is_abs path ≡ true
    → join dir (relative_path path) ≡ render (is_abs dir) (parts dir ++ parts path)
join-relative_path dir path d h =
    rw (relative_path-parts path h) (join-join_slash dir (parts path) d (parts-IsName path h))
