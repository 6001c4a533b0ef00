-- ===== src/Discovery/Expiry.antt =====
-- An advert that is repeated as it was made.
use m_tlsling.Base.{
  ℕ, ◌+◌, ◌*◌, ◌^◌, ◌<◌, ◌≡◌, refl, sym, ap, ◌∙◌, String, true, Option, Result, ok, err, arith,
}
use m_tlsling.Base.Int.{ℤ, pos, sub_int64}
use m_tlsling.Config.{Crypto, Certificate}
use m_tlsling.Discovery.{Advert, is_skewed, skew_or_default, seconds_of, new_advert, verify}

abbrev timestamp_or : ℤ → Result Advert → ℤ
timestamp_or t (ok a) = a.timestamp
timestamp_or t (err e) = t

module _ (C : Crypto) where
  new_advert-timestamp :
      (made : ℤ) (id callback server_name : String) (cert : Certificate C)
      → timestamp_or made (new_advert C made id callback server_name cert) ≡ made
  unfolding new_advert
  new_advert-timestamp made id callback server_name cert = ground arith

  late_skewed :
      (made now : ℕ)
      → made + 120 < now
      → now < 2 ^ 63
      → is_skewed (pos now) (pos made) (pos 120) ≡ true
  unfolding is_skewed sub_int64
  late_skewed made now late small = ground arith

  -- The sender signs one advert when it starts, and repeats it. From the 121st second on no listener
  -- accepts it, whatever its roots.
  pub verify-late :
      (made now : ℕ) (id callback server_name : String) (cert : Certificate C) (a : Advert)
      (roots : Option C.CertPool)
      → new_advert C (pos made) id callback server_name cert ≡ ok a
      → made + 120 < now
      → now < 2 ^ 63
      → verify C (pos now) roots (pos (2 * 60 * 1000000000)) a
        ≡ err "advert timestamp skew too large"
  unfolding verify
  verify-late made now id callback server_name cert a roots new late small =
      let stamp : a.timestamp ≡ pos made =
        sym (ap (timestamp_or (pos made)) new)
        ∙ new_advert-timestamp (pos made) id callback server_name cert in
      let limit : seconds_of (skew_or_default (pos 120000000000)) ≡ pos 120 =
        unfold skew_or_default in refl in
      let skewed : is_skewed (pos now) a.timestamp (seconds_of (skew_or_default (pos 120000000000)))
          ≡ true =
        rw (stamp, limit) (late_skewed made now late small) in
      rw (skewed, verify)
