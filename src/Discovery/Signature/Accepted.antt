-- ===== src/Discovery/Signature/Accepted.antt =====
-- When `verify` accepts what `sign` made.
use m_tlsling.Base.{
  ℕ, ◌/◌, ◌%◌, ◌≡◌, refl, subst, true, List, [], ◌++◌, none, Result, ok, err, ◌>>=◌, arith, length,
  length-append, take-length-append, drop-length-append,
}
use m_tlsling.Config.{Crypto, Key, rsa, ecdsa, unsupported}
use m_tlsling.Discovery.BigInt.{big_bytes}
use m_tlsling.Discovery.BigInt.RoundTrip.{set_bytes-big_bytes}
use m_tlsling.Discovery.Signature.{sign, verify_signature}

-- A private key and the public key of the same pair: what the one has signed, the other verifies.
pub data IsPair (C : Crypto)
    : Key C.RsaPrivate C.EcPrivate → Key C.RsaPublic C.EcPublic → Type 0 where
  rsa_pair :
      {k : C.RsaPrivate} {k' : C.RsaPublic}
      → ((p sig : List ℕ) → C.sign_pss k p ≡ ok sig → C.verify_pss k' p sig ≡ none)
      → IsPair C (rsa k) (rsa k')
  ecdsa_pair :
      {k : C.EcPrivate} {k' : C.EcPublic}
      → ((p : List ℕ) (r s : ℕ) → C.ecdsa_sign k p ≡ ok (r, s) → C.ecdsa_verify k' p r s ≡ true)
      → IsPair C (ecdsa k) (ecdsa k')

abbrev pub AreEven : Result (ℕ × ℕ) → Type 0
AreEven (ok (r, s)) = length (big_bytes r) ≡ length (big_bytes s)
AreEven (err e) = Unit

-- The halves of an ECDSA signature take the same number of bytes.
abbrev pub IsBalanced : (C : Crypto) → Key C.RsaPrivate C.EcPrivate → List ℕ → Type 0
IsBalanced C (rsa k) p = Unit
IsBalanced C (ecdsa k) p = AreEven (C.ecdsa_sign k p)
IsBalanced C (unsupported type) p = Unit

pub half_of :
    (xs ys : List ℕ)
    → length xs ≡ length ys
    → (length (xs ++ ys) / 2 ≡ length xs) × (length (xs ++ ys) % 2 ≡ 0)
half_of xs ys e = (omega (arith, length-append xs ys, e), omega (arith, length-append xs ys, e))

abbrev signed : Result (List ℕ) → List ℕ
signed (ok sig) = sig
signed (err e) = []

module _ (C : Crypto) where
  ecdsa_accepted :
      (k' : C.EcPublic) (p : List ℕ) (r s : ℕ)
      → length (big_bytes r) ≡ length (big_bytes s)
      → C.ecdsa_verify k' p r s ≡ true
      → verify_signature C (ecdsa k') p (big_bytes r ++ big_bytes s) ≡ ok tt
  unfolding verify_signature
  ecdsa_accepted k' p r s e h =
      let (mid, even) = half_of (big_bytes r) (big_bytes s) e in
      rw (
        mid,
        even,
        take-length-append (big_bytes r) (big_bytes s),
        drop-length-append (big_bytes r) (big_bytes s),
        set_bytes-big_bytes r,
        set_bytes-big_bytes s,
        h,
      )

  -- `verify` accepts what `sign` made with the other key of the pair, for any RSA pair, and for an
  -- ECDSA pair if both halves of the signature take the same number of bytes.
  pub verify_signature-sign :
      (k : Key C.RsaPrivate C.EcPrivate) (k' : Key C.RsaPublic C.EcPublic) (p sig : List ℕ)
      → IsPair C k k'
      → IsBalanced C k p
      → sign C k p ≡ ok sig
      → verify_signature C k' p sig ≡ ok tt
  unfolding sign verify_signature
  verify_signature-sign (rsa k) (rsa k') p sig (IsPair.rsa_pair pair) b e =
      rw (pair p sig e, verify_signature)
  verify_signature-sign (ecdsa k) (ecdsa k') p sig (IsPair.ecdsa_pair pair) b e =
      from_result (C.ecdsa_sign k p) refl b e
    where
      from_result :
          (r : Result (ℕ × ℕ))
          → C.ecdsa_sign k p ≡ r
          → AreEven r
          → (r >>= λ x. ok (big_bytes x.0 ++ big_bytes x.1)) ≡ ok sig
          → verify_signature C (ecdsa k') p sig ≡ ok tt
      from_result (ok (r, s)) e b same =
          subst (λ x. verify_signature C (ecdsa k') p (signed x) ≡ ok tt) same
            (ecdsa_accepted k' p r s b (pair p r s e))
      from_result (err x) e b same = ground arith
  verify_signature-sign (rsa k) (ecdsa k') p sig x b e = elim x [ ]
  verify_signature-sign (rsa k) (unsupported _) p sig x b e = elim x [ ]
  verify_signature-sign (ecdsa k) (rsa k') p sig x b e = elim x [ ]
  verify_signature-sign (ecdsa k) (unsupported _) p sig x b e = elim x [ ]
  verify_signature-sign (unsupported _) _ p sig x b e = elim x [ ]
