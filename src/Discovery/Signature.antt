-- ===== src/Discovery/Signature.antt =====
-- `sign` and `verify` of internal/discovery/advert.go.
pub mod Accepted
pub mod Signs
use m_tlsling.Base.{
  ℕ, ◌/◌, ◌%◌, String, ◌<>◌, Bool, true, false, Option, none, some, List, [], ◌∷◌, ◌++◌, Result, ok,
  err, ◌>>=◌, ◌==◌, if◌then◌else◌, length, take, drop,
}
use m_tlsling.Config.{Crypto, Key, rsa, ecdsa, unsupported}
use m_tlsling.Discovery.BigInt.{big_bytes, set_bytes}

module _ (C : Crypto) where
  -- For ECDSA the bytes of `r` and of `s`, one behind the other.
  unfoldable pub sign : Key C.RsaPrivate C.EcPrivate → List ℕ → Result (List ℕ)
  sign (rsa k) payload = C.sign_pss k payload
  sign (ecdsa k) payload = do (r, s) ← C.ecdsa_sign k payload; ok (big_bytes r ++ big_bytes s)
  sign (unsupported type) payload = err ("unsupported key type " <> type)

  -- For ECDSA the signature is cut in the middle.
  unfoldable pub verify_signature : Key C.RsaPublic C.EcPublic → List ℕ → List ℕ → Result (Unit {0})
  verify_signature (rsa k) payload sig = elim (C.verify_pss k payload sig) [
    | none ↦ ok tt
    | some e ↦ err e
  ]
  verify_signature (ecdsa k) payload sig =
      if length sig % 2 == 0
      then (let mid = length sig / 2 in
          if C.ecdsa_verify k payload (set_bytes 0 (take mid sig)) (set_bytes 0 (drop mid sig))
          then ok tt
          else err "ecdsa verify failed")
      else err "bad ecdsa signature length"
  verify_signature (unsupported type) payload sig = err ("unsupported key type " <> type)
