-- ===== src/Discovery/BigInt.antt =====
-- `Bytes` and `SetBytes` of `math/big.Int`: big-endian, with no zero in front.
pub mod RoundTrip
use m_tlsling.Base.{ℕ, zero, suc, ◌+◌, ◌*◌, ◌/◌, ◌%◌, Bool, true, false, List, [], ◌∷◌, ◌++◌, ◌==◌}

unfoldable pub to_bytes : ℕ → ℕ → List ℕ
to_bytes zero n = []
to_bytes (suc fuel) n = elim (n == 0) [
  | true ↦ []
  | false ↦ to_bytes fuel (n / 256) ++ (n % 256 ∷ [])
]

-- `n` rounds are enough: each divides by 256.
unfoldable pub big_bytes : ℕ → List ℕ
unfolding to_bytes
big_bytes n = to_bytes n n

unfoldable pub set_bytes : ℕ → List ℕ → ℕ
set_bytes acc [] = acc
set_bytes acc (b ∷ bs) = set_bytes (acc * 256 + b) bs
