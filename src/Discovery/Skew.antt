-- ===== src/Discovery/Skew.antt =====
-- The test on the clock in `Verify`.
use m_tlsling.Base.{ℕ, ◌+◌, ◌^◌, ◌≤◌, ◌<◌, ◌≡◌, ◌↔◌, ◌⊎◌, false, arith}
use m_tlsling.Base.Int.{ℤ, pos, negsuc, sub_int64, pos_part, neg_part, IsInt64}
use m_tlsling.Discovery.{is_skewed}

-- A clock that shows `now` and a limit below it let a timestamp pass exactly if it is at most the limit
-- away, before or behind, or if it is the one value, 2^63 before the clock, for which both differences
-- wrap around to the least `int64`.
pub is_skewed_iff :
    (now limit : ℕ) (ts : ℤ)
    → now + limit < 2 ^ 63
    → IsInt64 ts
    → (is_skewed (pos now) ts (pos limit) ≡ false) ↔ (
        ((now + neg_part ts ≤ limit + pos_part ts) × (pos_part ts ≤ now + neg_part ts + limit))
        ⊎ (now + neg_part ts ≡ pos_part ts + 2 ^ 63))
unfolding is_skewed sub_int64
is_skewed_iff now limit (pos t) small v = (λ h. ground arith, λ h. ground arith)
is_skewed_iff now limit (negsuc t) small v = (λ h. ground arith, λ h. ground arith)
