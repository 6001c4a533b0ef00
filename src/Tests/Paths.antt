-- ===== src/Tests/Paths.antt =====
-- Paths of a manifest, and lists of files.
use m_tlsling.Base.{String, has, ◌≡◌, refl, List, [], ◌∷◌, ◌++◌}
use m_tlsling.FilePath.{
  join, is_abs, render, parts, relative_path, split, walk, push_part, clean, trim_slash, join_slash,
}
use m_tlsling.FilePath.Under.{join-relative_path}
use m_tlsling.Daemon.Normalize.{normalize_files, normalize_from}

join_dots : join "out" (relative_path "/srv/../etc/./hello.md") ≡ "out/etc/hello.md"
unfolding join relative_path clean trim_slash is_abs render parts split walk push_part join_slash
join_dots = refl

join-relative_path_example :
    join "out" (relative_path "/srv/../etc/./hello.md")
    ≡ render (is_abs "out") (parts "out" ++ parts "/srv/../etc/./hello.md")
unfolding is_abs
join-relative_path_example = join-relative_path "out" "/srv/../etc/./hello.md" refl refl

abbrev offered : List String
offered = "a" ∷ "" ∷ "b" ∷ "a" ∷ []

normalize_offered : normalize_files offered ≡ "a" ∷ "b" ∷ []
unfolding normalize_files normalize_from has
normalize_offered = refl
