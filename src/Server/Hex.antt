-- ===== src/Server/Hex.antt =====
-- `hex.EncodeToString`.
use m_tlsling.Base.{ℕ, ◌/◌, ◌%◌, String, ◌<>◌, List, [], ◌∷◌, none, some, get_elem?}
use m_tlsling.Server.Types.{Bytes}

abbrev digits : List String
digits =
    "0" ∷ "1" ∷ "2" ∷ "3" ∷ "4" ∷ "5" ∷ "6" ∷ "7" ∷ "8" ∷ "9" ∷ "a" ∷ "b" ∷ "c" ∷ "d" ∷ "e" ∷ "f"
    ∷ []

digit : ℕ → String
digit n = elim (get_elem? digits n) [ none ↦ "" | some d ↦ d ]

unfoldable pub hex : Bytes → String
unfolding digit
hex [] = ""
hex (b ∷ bs) = digit (b / 16) <> (digit (b % 16) <> hex bs)
