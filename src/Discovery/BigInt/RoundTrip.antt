-- ===== src/Discovery/BigInt/RoundTrip.antt =====
-- A number is read back from its bytes.
use m_tlsling.Base.{
  ℕ, zero, suc, ◌+◌, ◌*◌, ◌/◌, ◌%◌, ◌≤◌, ◌≡◌, refl, Bool-cases, inl, inr, List, [], ◌∷◌, ◌++◌, ◌==◌,
  arith,
}
use m_tlsling.Discovery.BigInt.{to_bytes, big_bytes, set_bytes}

set_bytes-snoc :
    (acc : ℕ) (bs : List ℕ) (b : ℕ) → set_bytes acc (bs ++ (b ∷ [])) ≡ set_bytes acc bs * 256 + b
unfolding set_bytes
set_bytes-snoc acc [] b = refl
set_bytes-snoc acc (c ∷ bs) b = set_bytes-snoc (acc * 256 + c) bs b

set_bytes-to_bytes : (fuel n : ℕ) → n ≤ fuel → set_bytes 0 (to_bytes fuel n) ≡ n
unfolding to_bytes set_bytes
set_bytes-to_bytes zero n h = omega (arith, h)
set_bytes-to_bytes (suc fuel) n h = elim (Bool-cases (n == 0)) [
  | inl e ↦ ground arith
  | inr e ↦ ground (
    arith,
    set_bytes-snoc 0 (to_bytes fuel (n / 256)) (n % 256),
    set_bytes-to_bytes fuel (n / 256) (ground arith),
  )
]

-- `SetBytes` reads back from the bytes of a number that number.
pub set_bytes-big_bytes : (n : ℕ) → set_bytes 0 (big_bytes n) ≡ n
unfolding big_bytes
set_bytes-big_bytes n = set_bytes-to_bytes n n (omega arith)
