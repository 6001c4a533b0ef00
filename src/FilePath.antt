-- ===== src/FilePath.antt =====
-- Go's `path/filepath` on Unix, as far as the repository uses it, and `relativePath` of
-- internal/server/server.go. A path is cut at its slashes, and `Clean` walks over the pieces.
pub mod Split
pub mod Clean
pub mod Under
pub mod Escape
use Prim.Native.Char.{code}
use mathlib.Core.List.{reverse}
use m_tlsling.Base.{
  String, ◌<>◌, Bool, true, false, ◌||◌, List, [], ◌∷◌, ◌==◌, ◌=ˢ◌, if◌then◌else◌, keep, not,
}

abbrev pub prepend : String → List String → List String
prepend c [] = c ∷ []
prepend c (w ∷ ws) = (c <> w) ∷ ws

-- `strings.Split(path, "/")`
unfoldable pub split : String → List String
split String.[] = "" ∷ []
split (String.◌∷◌ c s) =
    let rest = split s in
    if code c == b'/' then "" ∷ rest else prepend (String.◌∷◌ c String.[]) rest

-- `strings.Join(parts, "/")`
unfoldable pub join_slash : List String → String
join_slash [] = ""
join_slash (w ∷ []) = w
join_slash (w ∷ v ∷ ws) = w <> ("/" <> join_slash (v ∷ ws))

-- `filepath.IsAbs`
unfoldable pub is_abs : String → Bool
is_abs String.[] = false
is_abs (String.◌∷◌ c s) = code c == b'/'

-- A piece `..`, over the stack of the pieces kept so far.
go_up : Bool → List String → List String
go_up rooted [] = if rooted then [] else ".." ∷ []
go_up rooted (top ∷ rest) = if top =ˢ ".." then ".." ∷ top ∷ rest else rest

unfoldable pub push_part : Bool → List String → String → List String
unfolding go_up
push_part rooted stack part =
    if part =ˢ "" || part =ˢ "."
    then stack
    else if part =ˢ ".."
    then go_up rooted stack
    else part ∷ stack

unfoldable pub walk : Bool → List String → List String → List String
walk rooted stack [] = stack
walk rooted stack (part ∷ parts) = walk rooted (push_part rooted stack part) parts

-- The pieces that `Clean` keeps, outermost first.
unfoldable pub parts : String → List String
parts path = reverse (walk (is_abs path) [] (split path))

unfoldable pub render : Bool → List String → String
render true ps = "/" <> join_slash ps
render false [] = "."
render false (p ∷ ps) = join_slash (p ∷ ps)

-- `filepath.Clean`
unfoldable pub clean : String → String
clean path = if path =ˢ "" then "." else render (is_abs path) (parts path)

-- `filepath.Join(dir, path)`
unfoldable pub join : String → String → String
join dir path =
    if dir =ˢ "" then (if path =ˢ "" then "" else clean path) else clean (dir <> ("/" <> path))

-- `strings.TrimPrefix(path, "/")`
unfoldable pub trim_slash : String → String
trim_slash String.[] = ""
trim_slash (String.◌∷◌ c s) = if code c == b'/' then s else String.◌∷◌ c s

-- `filepath.VolumeName` is empty on Unix, so that branch of `relativePath` is never taken.
unfoldable pub relative_path : String → String
relative_path path = trim_slash (clean path)

last_or : String → List String → String
last_or d [] = d
last_or d (w ∷ ws) = last_or w ws

all_but_last : List String → List String
all_but_last [] = []
all_but_last (w ∷ []) = []
all_but_last (w ∷ v ∷ ws) = w ∷ all_but_last (v ∷ ws)

-- `filepath.Base`: the last piece that is not empty.
unfoldable pub base : String → String
unfolding last_or split
base path = if path =ˢ "" then "." else last_or "/" (keep (λ w. not (w =ˢ "")) (split path))

-- `filepath.Dir`: `Clean` of all up to the last slash, that slash included.
unfoldable pub dir : String → String
unfolding all_but_last split join_slash clean
dir path = elim (all_but_last (split path)) [
  | [] ↦ "."
  | p ∷ ps ↦ clean (join_slash (p ∷ ps) <> "/")
]
