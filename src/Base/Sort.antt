-- ===== src/Base/Sort.antt =====
-- `sort.Strings`: an insertion sort for Go's order of strings, which is that of the code points.
use Prim.Native.Char.{code}
use Prim.Native.String.{String}
use text.Mathlib.TextEquality.{Char-path}
use mathlib.Core.Path.{◌≡◌, refl, sym, subst, ap, ◌∙◌}
use mathlib.Core.Logic.{inl, inr}
use mathlib.Core.Bool.{Bool, true, false, ◌&&◌, ◌||◌}
use mathlib.Core.List.{List, [], ◌∷◌, Permᴰ}
use native.Mathlib.Omega.{arith}
use m_tlsling.Base.Tests.{ltb, ◌==◌, if◌then◌else◌, Bool-cases}

-- `a <= b`
unfoldable pub leb_string : String → String → Bool
leb_string String.[] b = true
leb_string (String.◌∷◌ c s) String.[] = false
leb_string (String.◌∷◌ c s) (String.◌∷◌ d t) =
    ltb (code c) (code d) || (code c == code d && leb_string s t)

pub leb_string_total : (a b : String) → leb_string a b ≡ false → leb_string b a ≡ true
unfolding leb_string
leb_string_total String.[] b h = ground arith
leb_string_total (String.◌∷◌ c s) String.[] h = refl
leb_string_total (String.◌∷◌ c s) (String.◌∷◌ d t) h = ground (arith, leb_string_total s t)

pub leb_string_trans :
    (a b c : String) → leb_string a b ≡ true → leb_string b c ≡ true → leb_string a c ≡ true
unfolding leb_string
leb_string_trans String.[] b c h k = refl
leb_string_trans (String.◌∷◌ x s) String.[] c h k = ground arith
leb_string_trans (String.◌∷◌ x s) (String.◌∷◌ y t) String.[] h k = ground arith
leb_string_trans (String.◌∷◌ x s) (String.◌∷◌ y t) (String.◌∷◌ z u) h k =
    ground (arith, leb_string_trans s t u)

leb_string_antisymm : (a b : String) → leb_string a b ≡ true → leb_string b a ≡ true → a ≡ b
unfolding leb_string
leb_string_antisymm String.[] String.[] h k = refl
leb_string_antisymm String.[] (String.◌∷◌ d t) h k = ground arith
leb_string_antisymm (String.◌∷◌ c s) String.[] h k = ground arith
leb_string_antisymm (String.◌∷◌ c s) (String.◌∷◌ d t) h k =
    ap (λ x. String.◌∷◌ x s) (Char-path c d (ground arith))
    ∙ ap (String.◌∷◌ d) (leb_string_antisymm s t (ground arith) (ground arith))

insert_sorted : String → List String → List String
insert_sorted x [] = x ∷ []
insert_sorted x (y ∷ ys) = if leb_string x y then x ∷ y ∷ ys else y ∷ insert_sorted x ys

unfoldable pub sort_strings : List String → List String
unfolding insert_sorted
sort_strings [] = []
sort_strings (x ∷ xs) = insert_sorted x (sort_strings xs)

-- A smaller text goes in before a greater one.
insert_sorted_less :
    (x y : String) (zs : List String)
    → leb_string x y ≡ true
    → leb_string y x ≡ false
    → insert_sorted x (insert_sorted y zs) ≡ insert_sorted y (insert_sorted x zs)
unfolding insert_sorted
insert_sorted_less x y [] h k = ground arith
insert_sorted_less x y (z ∷ zs) h k =
    ground (arith, insert_sorted_less x y zs h k, leb_string_trans x y z, leb_string_trans y z x)

insert_sorted_swap :
    (x y : String) (zs : List String)
    → insert_sorted x (insert_sorted y zs) ≡ insert_sorted y (insert_sorted x zs)
insert_sorted_swap x y zs = elim (Bool-cases (leb_string x y)) [
  | inr h ↦ sym (insert_sorted_less y x zs (leb_string_total x y h) h)
  | inl h ↦ elim (Bool-cases (leb_string y x)) [
    | inr k ↦ insert_sorted_less x y zs h k
    | inl k ↦
        subst (λ z. insert_sorted x (insert_sorted z zs) ≡ insert_sorted z (insert_sorted x zs))
          (leb_string_antisymm x y h k) refl
  ]
]

-- Sorting forgets the order.
pub sort_strings-Permᴰ : {xs ys : List String} → Permᴰ xs ys → sort_strings xs ≡ sort_strings ys
unfolding sort_strings
sort_strings-Permᴰ Permᴰ.nil = refl
sort_strings-Permᴰ (Permᴰ.cons {l₁ = l} {l₂ = m} e p) =
    rw (sort_strings-Permᴰ p) (ap (λ x. insert_sorted x (sort_strings m)) e)
sort_strings-Permᴰ (Permᴰ.swap {a = a} {b = b} {a' = c} {b' = d} {l = l} e f) =
    insert_sorted_swap a b (sort_strings l)
    ∙ ap (λ x. insert_sorted x (insert_sorted a (sort_strings l))) f
    ∙ ap (λ x. insert_sorted c (insert_sorted x (sort_strings l))) e
sort_strings-Permᴰ (Permᴰ.trans p q) = sort_strings-Permᴰ p ∙ sort_strings-Permᴰ q
