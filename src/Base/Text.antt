-- ===== src/Base/Text.antt =====
-- Texts as bytes, and integers as texts.
use Prim.Native.Char.{code}
use Prim.Native.Nat.{ℕ, zero, suc, ◌+◌, ◌/◌, ◌%◌}
use Prim.Native.String.{String, ◌++◌ as ◌<>◌}
use mathlib.Core.Option.{none, some}
use mathlib.Core.List.{List, [], ◌∷◌, ◌++◌}
use m_tlsling.Base.Tests.{ltb, if◌then◌else◌}
use m_tlsling.Base.Lists.{get_elem?}
use m_tlsling.Base.Int.{ℤ, pos, negsuc}

-- The UTF-8 bytes of one character.
abbrev utf8_char : ℕ → List ℕ
utf8_char c =
    if ltb c 0x80
    then c ∷ []
    else if ltb c 0x800
    then (0xc0 + c / 0x40) ∷ (0x80 + c % 0x40) ∷ []
    else if ltb c 0x10000
    then (0xe0 + c / 0x1000) ∷ (0x80 + c / 0x40 % 0x40) ∷ (0x80 + c % 0x40) ∷ []
    else (0xf0 + c / 0x40000)
      ∷ (0x80 + c / 0x1000 % 0x40)
      ∷ (0x80 + c / 0x40 % 0x40)
      ∷ (0x80 + c % 0x40)
      ∷ []

-- The conversion `[]byte(s)`.
unfoldable pub utf8 : String → List ℕ
utf8 String.[] = []
utf8 (String.◌∷◌ c s) = utf8_char (code c) ++ utf8 s

abbrev decimals : List String
decimals = "0" ∷ "1" ∷ "2" ∷ "3" ∷ "4" ∷ "5" ∷ "6" ∷ "7" ∷ "8" ∷ "9" ∷ []

abbrev pub decimal : ℕ → String
decimal n = elim (get_elem? decimals n) [ none ↦ "" | some d ↦ d ]

-- The digits of a number below 10 ^ (fuel + 1).
unfoldable pub show_ℕ : ℕ → ℕ → String
show_ℕ zero n = decimal (n % 10)
show_ℕ (suc fuel) n =
    let front = show_ℕ fuel (n / 10) in if ltb n 10 then decimal n else front <> decimal (n % 10)

-- `fmt.Sprintf("%d", n)` of an `int64`, which has 19 digits at most.
unfoldable pub show_int : ℤ → String
unfolding show_ℕ
show_int (pos n) = show_ℕ 20 n
show_int (negsuc n) = "-" <> show_ℕ 20 (suc n)
