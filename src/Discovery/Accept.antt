-- ===== src/Discovery/Accept.antt =====
-- The adverts that `Verify` accepts.
use m_tlsling.Base.{
  zero, suc, ◌+◌, ◌/◌, ◌^◌, ◌≤◌, ◌<◌, ◌⊎◌, ap, ℕ, ◌≡◌, ◌↔◌, refl, sym, ◌∙◌, String, Bool, true,
  false, Option, none, some, List, Result, ok, err, ◌>>=◌, ◌>>◌, wrap, arith,
}
use m_tlsling.Base.Int.{ℤ, pos, negsuc, pos_part, neg_part, IsInt64}
use m_tlsling.Config.{Crypto}
use m_tlsling.Discovery.{
  Advert, signing_payload, skew_or_default, seconds_of, is_skewed, verify, check,
}
use m_tlsling.Discovery.Signature.{verify_signature}
use m_tlsling.Discovery.Signature.Signs.{Signs, Signs-verify_signature, verify_signature-Signs}
use m_tlsling.Discovery.Skew.{is_skewed_iff}

unwrapped : {A : Type 0} (what : String) (r : Result A) (a : A) → wrap what r ≡ ok a → r ≡ ok a
unwrapped what (ok b) a e = e
unwrapped what (err x) a e = ground arith

-- A chain of two steps and a test that ended well.
chain_ok :
    {A : Type 0} (what why : String) (t : Result (Unit {0})) (r : Result A)
    (v : A → Result (Unit {0}))
    → (t >> (wrap what r >>= λ a. wrap why (v a))) ≡ ok tt
    → (t ≡ ok tt) × (a : A) × (r ≡ ok a) × (v a ≡ ok tt)
chain_ok what why (ok tt) (ok a) v e = (refl, a, refl, unwrapped why (v a) tt e)
chain_ok what why (ok tt) (err x) v e = ground arith
chain_ok what why (err x) r v e = ground arith

-- The limit of a call, in whole seconds.
abbrev pub limit_of : ℤ → ℕ
limit_of (pos zero) = 120
limit_of (pos (suc n)) = suc n / 1000000000
limit_of (negsuc n) = 120

limit_of-seconds : (skew : ℤ) → seconds_of (skew_or_default skew) ≡ pos (limit_of skew)
unfolding skew_or_default
limit_of-seconds (pos zero) = refl
limit_of-seconds (pos (suc n)) = ground arith
limit_of-seconds (negsuc n) = ground arith

-- At most the limit away, or the value at which the differences wrap around.
abbrev pub IsNear : ℕ → ℕ → ℤ → Type 0
IsNear now limit ts =
    ((now + neg_part ts ≤ limit + pos_part ts) × (pos_part ts ≤ now + neg_part ts + limit))
    ⊎ (now + neg_part ts ≡ pos_part ts + 2 ^ 63)

module _ (C : Crypto) where
  -- The chain is not checked, or it is in order.
  abbrev pub IsTrusted : C.X509 → Option C.CertPool → Type 0
  IsTrusted leaf none = Unit
  IsTrusted leaf (some pool) = C.verify_chain leaf pool ≡ none

  -- All that `Verify` looks at is in order.
  pub record IsValid (now : ℤ) (roots : Option C.CertPool) (skew : ℤ) (a : Advert) : Type 0 where
    pub near : is_skewed now a.timestamp (seconds_of (skew_or_default skew)) ≡ false
    pub der : List ℕ
    pub leaf : C.X509
    pub sig : List ℕ
    pub pem : C.pem_decode a.cert_pem ≡ some der
    pub parsed : C.parse_certificate der ≡ ok leaf
    pub trusted : IsTrusted leaf roots
    pub decoded : C.base64_decode a.signature ≡ ok sig
    pub signed : verify_signature C (C.public_key leaf) (signing_payload C a) sig ≡ ok tt

  pub IsValid-verify :
      (now : ℤ) (roots : Option C.CertPool) (skew : ℤ) (a : Advert)
      → IsValid now roots skew a
      → verify C now roots skew a ≡ ok tt
  unfolding verify
  IsValid-verify now none skew a v = rw (v.near, v.pem, v.parsed, v.decoded, v.signed, verify)
  IsValid-verify now (some pool) skew a v =
      rw (v.near, v.pem, v.parsed, v.trusted, v.decoded, v.signed, verify)

  abbrev trust : C.X509 → Option C.CertPool → Result (Unit {0})
  trust leaf none = ok tt
  trust leaf (some pool) = wrap "verify cert" (check (C.verify_chain leaf pool))

  trust-IsTrusted :
      (leaf : C.X509) (roots : Option C.CertPool) → trust leaf roots ≡ ok tt → IsTrusted leaf roots
  trust-IsTrusted leaf none e = tt
  trust-IsTrusted leaf (some pool) e = from_check (C.verify_chain leaf pool) e
    where
      from_check : (r : Option String) → wrap "verify cert" (check r) ≡ ok tt → r ≡ none
      from_check none e = refl
      from_check (some x) e = ground arith

  verify_chain_of :
      (now : ℤ) (roots : Option C.CertPool) (skew : ℤ) (a : Advert) (der : List ℕ) (leaf : C.X509)
      → is_skewed now a.timestamp (seconds_of (skew_or_default skew)) ≡ false
      → C.pem_decode a.cert_pem ≡ some der
      → C.parse_certificate der ≡ ok leaf
      → verify C now roots skew a ≡ (
          trust leaf roots
          >> (wrap "decode signature" (C.base64_decode a.signature) >>= λ sig.
              wrap "verify signature"
                (verify_signature C (C.public_key leaf) (signing_payload C a) sig)))
  unfolding verify
  verify_chain_of now none skew a der leaf e f g = rw (e, f, g, verify)
  verify_chain_of now (some pool) skew a der leaf e f g = rw (e, f, g, verify)

  verify-IsValid :
      (now : ℤ) (roots : Option C.CertPool) (skew : ℤ) (a : Advert)
      → verify C now roots skew a ≡ ok tt
      → IsValid now roots skew a
  unfolding verify
  verify-IsValid now roots skew a h =
      at_pem (is_skewed now a.timestamp (seconds_of (skew_or_default skew)))
        (C.pem_decode a.cert_pem) refl refl
    where
      at_cert :
          (near : is_skewed now a.timestamp (seconds_of (skew_or_default skew)) ≡ false)
          (der : List ℕ) (r : Result C.X509)
          → C.pem_decode a.cert_pem ≡ some der
          → C.parse_certificate der ≡ r
          → IsValid now roots skew a
      at_cert near der (ok leaf) e f =
          let (chain, sig, decoded, signed) =
            chain_ok "decode signature" "verify signature" (trust leaf roots)
              (C.base64_decode a.signature)
              (λ sig. verify_signature C (C.public_key leaf) (signing_payload C a) sig)
              (sym (verify_chain_of now roots skew a der leaf near e f) ∙ h) in
          record {
            near = near;
            der = der;
            leaf = leaf;
            sig = sig;
            pem = e;
            parsed = f;
            trusted = trust-IsTrusted leaf roots chain;
            decoded = decoded;
            signed = signed;
          }
      at_cert near der (err x) e f = ground arith

      at_pem :
          (b : Bool) (d : Option (List ℕ))
          → is_skewed now a.timestamp (seconds_of (skew_or_default skew)) ≡ b
          → C.pem_decode a.cert_pem ≡ d
          → IsValid now roots skew a
      at_pem true d e f = ground arith
      at_pem false none e f = ground arith
      at_pem false (some der) e f = at_cert e der (C.parse_certificate der) f refl

  -- What `Verify` should accept at a clock that shows `now`.
  pub record IsAccepted (now : ℕ) (roots : Option C.CertPool) (skew : ℤ) (a : Advert) : Type 0 where
    pub near : IsNear now (limit_of skew) a.timestamp
    pub der : List ℕ
    pub leaf : C.X509
    pub sig : List ℕ
    pub pem : C.pem_decode a.cert_pem ≡ some der
    pub parsed : C.parse_certificate der ≡ ok leaf
    pub trusted : IsTrusted leaf roots
    pub decoded : C.base64_decode a.signature ≡ ok sig
    pub signed : Signs C (C.public_key leaf) (signing_payload C a) sig

  IsAccepted-IsValid :
      (now : ℕ) (roots : Option C.CertPool) (skew : ℤ) (a : Advert)
      → now + limit_of skew < 2 ^ 63
      → IsInt64 a.timestamp
      → IsAccepted now roots skew a
      → IsValid (pos now) roots skew a
  IsAccepted-IsValid now roots skew a small word v = record {
    near =
        ap (is_skewed (pos now) a.timestamp) (limit_of-seconds skew)
        ∙ (is_skewed_iff now (limit_of skew) a.timestamp small word).1 v.near;
    der = v.der;
    leaf = v.leaf;
    sig = v.sig;
    pem = v.pem;
    parsed = v.parsed;
    trusted = v.trusted;
    decoded = v.decoded;
    signed = Signs-verify_signature C v.signed;
  }

  IsValid-IsAccepted :
      (now : ℕ) (roots : Option C.CertPool) (skew : ℤ) (a : Advert)
      → now + limit_of skew < 2 ^ 63
      → IsInt64 a.timestamp
      → IsValid (pos now) roots skew a
      → IsAccepted now roots skew a
  IsValid-IsAccepted now roots skew a small word v = record {
    near =
        (is_skewed_iff now (limit_of skew) a.timestamp small word).0
          (ap (is_skewed (pos now) a.timestamp) (sym (limit_of-seconds skew)) ∙ v.near);
    der = v.der;
    leaf = v.leaf;
    sig = v.sig;
    pem = v.pem;
    parsed = v.parsed;
    trusted = v.trusted;
    decoded = v.decoded;
    signed = verify_signature-Signs C _ _ _ v.signed;
  }

  -- For a timestamp of 64 bits, and a clock that with the limit stays below 2^63: `Verify` accepts an advert
  -- exactly if its timestamp is at most the limit before or behind the clock (or is the one value, 2^63
  -- before it, for which the differences wrap around), its certificate decodes, parses and is trusted by the
  -- roots (if there are any), and its signature decodes and is one of its payload under that certificate's
  -- key: for RSA as PSS, for ECDSA two halves of equally many bytes that hold the two numbers. The limit is
  -- that of the call in whole seconds, and two minutes if that is not positive.
  pub verify_iff :
      (now : ℕ) (roots : Option C.CertPool) (skew : ℤ) (a : Advert)
      → now + limit_of skew < 2 ^ 63
      → IsInt64 a.timestamp
      → (verify C (pos now) roots skew a ≡ ok tt) ↔ IsAccepted now roots skew a
  verify_iff now roots skew a small word = (
    λ h. IsValid-IsAccepted now roots skew a small word (verify-IsValid (pos now) roots skew a h),
    λ v. IsValid-verify (pos now) roots skew a (IsAccepted-IsValid now roots skew a small word v),
  )
