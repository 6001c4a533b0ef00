-- ===== src/FilePath/Escape.antt =====
-- A manifest's path is not checked by the client: one step up leaves the output directory.
use m_tlsling.Base.{String, ◌<>◌, ◌≡◌, refl, ◌∙◌, false, [], ◌∷◌, ◌=ˢ◌, arith}
use m_tlsling.FilePath.{split, join_slash, is_abs, push_part, walk, parts, render, clean, join}
use m_tlsling.FilePath.Split.{IsPlain, is_plain, split-append, split-plain}
use m_tlsling.FilePath.Clean.{IsName, is_name, IsName-IsPlain}
use m_tlsling.FilePath.Under.{append-ne, is_abs-append}

IsName-ne-empty : (d : String) → IsName d → (d =ˢ "") ≡ false
unfolding is_name
IsName-ne-empty d h = ground arith

IsName-is_abs : (d : String) → IsName d → is_abs d ≡ false
unfolding is_name is_abs is_plain
IsName-is_abs String.[] h = refl
IsName-is_abs (String.◌∷◌ c s) h = ground arith

split_up :
    (dir name : String)
    → IsName dir
    → IsName name
    → split (dir <> ("/" <> (".." <> ("/" <> name)))) ≡ dir ∷ ".." ∷ name ∷ []
split_up dir name d n =
    split-append dir (".." <> ("/" <> name))
    ∙ rw
        (
          split-append ".." name,
          split-plain dir (IsName-IsPlain dir d),
          split-plain name (IsName-IsPlain name n),
          split-plain ".." two_dots,
        )
        refl
  where
    two_dots : IsPlain ".."
    two_dots = unfold is_plain in refl

walk_up :
    (dir name : String)
    → IsName dir
    → IsName name
    → walk false [] (dir ∷ ".." ∷ name ∷ []) ≡ name ∷ []
unfolding walk push_part is_name
walk_up dir name d n = ground arith

-- For an output directory and a file that are each one plain name, the manifest path `../name` is written
-- beside the output directory, not in it.
pub join-escapes :
    (dir name : String) → IsName dir → IsName name → join dir (".." <> ("/" <> name)) ≡ name
unfolding join clean parts render join_slash
join-escapes dir name d n =
    rw
      (
        IsName-ne-empty dir d,
        append-ne dir ("/" <> (".." <> ("/" <> name))) (IsName-ne-empty dir d),
        is_abs-append dir ("/" <> (".." <> ("/" <> name))) (IsName-ne-empty dir d),
        IsName-is_abs dir d,
        split_up dir name d n,
        walk_up dir name d n,
      )
      refl
