-- ===== src/Discovery/RoundTrip.antt =====
-- An advert that `NewAdvert` has made, at a listener.
use m_tlsling.Base.{
  ℕ, ◌≡◌, refl, sym, ap, subst, ◌∙◌, String, false, Option, some, List, ◌∷◌, Result, ok, err, ◌>>=◌,
  wrap, arith,
}
use m_tlsling.Base.Int.{ℤ}
use m_tlsling.Config.{Crypto, Key, Certificate}
use m_tlsling.Discovery.{
  Advert, signing_bytes, signing_payload, skew_or_default, seconds_of, is_skewed, new_advert,
  verify,
}
use m_tlsling.Discovery.Signature.{sign, verify_signature}
use m_tlsling.Discovery.Accept.{IsTrusted, IsValid, IsValid-verify}
use m_tlsling.Discovery.Signature.Accepted.{IsPair, IsBalanced, verify_signature-sign}

-- What the program relies on of its encodings: each is read back, and the bytes that a certificate was
-- parsed from are those that it gives.
pub record Encodings (C : Crypto) : Type 0 where
  pub pem : (bytes : List ℕ) → C.pem_decode (C.pem_encode bytes) ≡ some bytes
  pub base64 : (bytes : List ℕ) → C.base64_decode (C.base64_encode bytes) ≡ ok bytes
  pub der :
      (bytes : List ℕ) (leaf : C.X509)
      → C.parse_certificate bytes ≡ ok leaf
      → C.parse_certificate (C.raw leaf) ≡ ok leaf

module _ (C : Crypto) where
  abbrev unsigned : ℤ → String → String → String → C.X509 → Advert
  unsigned made id callback server_name leaf = record {
    id = id;
    callback = callback;
    server_name = server_name;
    timestamp = made;
    cert_pem = C.pem_encode (C.raw leaf);
    signature = "";
  }

  abbrev with_signature : Advert → List ℕ → Advert
  with_signature a sig = record a { signature = C.base64_encode sig }

  payload_of_signed :
      (a : Advert) (sig : List ℕ) → signing_payload C (with_signature a sig) ≡ signing_payload C a
  unfolding signing_payload signing_bytes
  payload_of_signed a sig = refl

  signs :
      (what : String) (a b : Advert) (r : Result (List ℕ))
      → (wrap what r >>= λ sig. ok (with_signature a sig)) ≡ ok b
      → (sig : List ℕ) × (r ≡ ok sig) × (with_signature a sig ≡ b)
  signs what a b (ok sig) e = (sig, refl, ap (advert_or a) e)
    where
      advert_or : Advert → Result Advert → Advert
      advert_or d (ok x) = x
      advert_or d (err x) = d
  signs what a b (err x) e = ground arith

  new_advert_lem :
      (made : ℤ) (id callback server_name : String) (cert : Certificate C)
      (key : Key C.RsaPrivate C.EcPrivate) (leaf : C.X509) (der : List ℕ) (ders : List (List ℕ))
      → cert.certificate ≡ der ∷ ders
      → cert.private_key ≡ some key
      → C.parse_certificate der ≡ ok leaf
      → let a = unsigned made id callback server_name leaf in
        new_advert C made id callback server_name cert ≡ (
          wrap "sign advert" (sign C key (signing_payload C a)) >>= λ sig.
          ok (with_signature a sig))
  unfolding new_advert
  new_advert_lem made id callback server_name cert key leaf der ders c k p =
      rw (c, new_advert) (rw (p, k))

  signed_advert-IsValid :
      (enc : Encodings C) (now : ℤ) (key : Key C.RsaPrivate C.EcPrivate) (leaf : C.X509)
      (der : List ℕ) (roots : Option C.CertPool) (skew : ℤ) (a : Advert) (sig : List ℕ)
      → a.cert_pem ≡ C.pem_encode (C.raw leaf)
      → C.parse_certificate der ≡ ok leaf
      → IsPair C key (C.public_key leaf)
      → IsTrusted C leaf roots
      → sign C key (signing_payload C a) ≡ ok sig
      → IsBalanced C key (signing_payload C a)
      → is_skewed now a.timestamp (seconds_of (skew_or_default skew)) ≡ false
      → IsValid C now roots skew (with_signature a sig)
  signed_advert-IsValid enc now key leaf der roots skew a sig pem p pair trusted made balanced
        near =
      record {
        near = near;
        der = C.raw leaf;
        leaf = leaf;
        sig = sig;
        pem = ap C.pem_decode pem ∙ enc.pem (C.raw leaf);
        parsed = enc.der der leaf p;
        trusted = trusted;
        decoded = enc.base64 sig;
        signed =
            ap (λ x. verify_signature C (C.public_key leaf) x sig) (payload_of_signed a sig)
            ∙ verify_signature-sign C key (C.public_key leaf) (signing_payload C a) sig pair
                balanced made;
      }

  -- If the encodings are read back, an advert of `NewAdvert`, given a certificate whose keys are a pair and,
  -- for ECDSA, a signature with halves of equally many bytes, passes `Verify` at any clock that is near, if
  -- its certificate is trusted.
  pub verify-new_advert :
      (enc : Encodings C) (made now : ℤ) (id callback server_name : String) (cert : Certificate C)
      (key : Key C.RsaPrivate C.EcPrivate) (leaf : C.X509) (der : List ℕ) (ders : List (List ℕ))
      (roots : Option C.CertPool) (skew : ℤ) (a : Advert)
      → cert.certificate ≡ der ∷ ders
      → cert.private_key ≡ some key
      → C.parse_certificate der ≡ ok leaf
      → IsPair C key (C.public_key leaf)
      → IsTrusted C leaf roots
      → new_advert C made id callback server_name cert ≡ ok a
      → IsBalanced C key (signing_payload C a)
      → is_skewed now made (seconds_of (skew_or_default skew)) ≡ false
      → verify C now roots skew a ≡ ok tt
  verify-new_advert enc made now id callback server_name cert key leaf der ders roots skew a c k p
        pair trusted new balanced near =
      let draft = unsigned made id callback server_name leaf in
      let (sig, made_sig, same) =
        signs "sign advert" draft a (sign C key (signing_payload C draft))
          (sym (new_advert_lem made id callback server_name cert key leaf der ders c k p) ∙ new) in
      let payload = ap (signing_payload C) (sym same) ∙ payload_of_signed draft sig in
      subst (λ x. verify C now roots skew x ≡ ok tt) same
        (IsValid-verify C now roots skew (with_signature draft sig) (
          signed_advert-IsValid enc now key leaf der roots skew draft sig refl p pair trusted
            made_sig (subst (IsBalanced C key) payload balanced) near))
