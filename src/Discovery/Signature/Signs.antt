-- ===== src/Discovery/Signature/Signs.antt =====
-- What the signatures are that `verify` of internal/discovery/advert.go accepts.
use m_tlsling.Base.{
  ℕ, zero, suc, ◌-◌, ◌/◌, ◌%◌, ◌≤◌, ◌≡◌, refl, ap, subst, inl, inr, String, true, Option, none,
  some, List, [], ◌∷◌, ◌++◌, Result, ok, err, length, take, drop, take-length-append,
  drop-length-append, Bool-cases, ◌==◌, arith,
}
use m_tlsling.Config.{Crypto, Key, rsa, ecdsa, unsupported}
use m_tlsling.Discovery.BigInt.{set_bytes}
use m_tlsling.Discovery.Signature.{verify_signature}
use m_tlsling.Discovery.Signature.Accepted.{half_of}

take-drop : (n : ℕ) (xs : List ℕ) → take n xs ++ drop n xs ≡ xs
take-drop zero xs = refl
take-drop (suc n) [] = refl
take-drop (suc n) (x ∷ xs) = ap (◌∷◌ x) (take-drop n xs)

length-take-drop :
    (n : ℕ) (xs : List ℕ)
    → n ≤ length xs
    → (length (take n xs) ≡ n) × (length (drop n xs) ≡ length xs - n)
length-take-drop zero xs h = (refl, omega arith)
length-take-drop (suc n) [] h = absurd (omega arith)
length-take-drop (suc n) (x ∷ xs) h =
    let (a, b) = length-take-drop n xs (omega arith) in (omega (arith, a), omega (arith, b))

halves :
    (sig : List ℕ)
    → length sig % 2 ≡ 0
    → length (take (length sig / 2) sig) ≡ length (drop (length sig / 2) sig)
halves sig even =
    let (a, b) = length-take-drop (length sig / 2) sig (omega arith) in omega (arith, a, b, even)

module _ (C : Crypto) where
  -- A signature of the payload: for ECDSA two halves of equally many bytes, each the bytes of a number.
  pub data Signs : Key C.RsaPublic C.EcPublic → List ℕ → List ℕ → Type 0 where
    rsa_signs :
        {k : C.RsaPublic} {p sig : List ℕ} → C.verify_pss k p sig ≡ none → Signs (rsa k) p sig
    ecdsa_signs :
        {k : C.EcPublic} {p : List ℕ} (r s : List ℕ)
        → length r ≡ length s
        → C.ecdsa_verify k p (set_bytes 0 r) (set_bytes 0 s) ≡ true
        → Signs (ecdsa k) p (r ++ s)

  pub Signs-verify_signature :
      {k : Key C.RsaPublic C.EcPublic} {p sig : List ℕ}
      → Signs k p sig
      → verify_signature C k p sig ≡ ok tt
  unfolding verify_signature
  Signs-verify_signature (rsa_signs e) = rw (e, verify_signature)
  Signs-verify_signature (ecdsa_signs r s e h) =
      let (mid, even) = half_of r s e in
      rw (mid, even, take-length-append r s, drop-length-append r s, h)

  pub verify_signature-Signs :
      (k : Key C.RsaPublic C.EcPublic) (p sig : List ℕ)
      → verify_signature C k p sig ≡ ok tt
      → Signs k p sig
  unfolding verify_signature
  verify_signature-Signs (rsa k) p sig h = by_answer (C.verify_pss k p sig) refl h
    where
      by_answer :
          (r : Option String)
          → C.verify_pss k p sig ≡ r
          → (elim r as (λ _. Result (Unit {0})) [ none ↦ ok tt | some e ↦ err e ]) ≡ ok tt
          → Signs (rsa k) p sig
      by_answer none e h = rsa_signs e
      by_answer (some x) e h = ground arith
  verify_signature-Signs (ecdsa k) p sig h =
      let mid = length sig / 2 in
      elim (Bool-cases (length sig % 2 == 0)) [
        | inr odd ↦ absurd (ground arith)
        | inl even ↦
            elim (Bool-cases
              (C.ecdsa_verify k p (set_bytes 0 (take mid sig)) (set_bytes 0 (drop mid sig)))) [
                | inr bad ↦ absurd (ground arith)
                | inl good ↦
                    subst (Signs (ecdsa k) p) (take-drop mid sig)
                      (ecdsa_signs (take mid sig) (drop mid sig) (halves sig (ground arith)) good)
              ]
      ]
  verify_signature-Signs (unsupported t) p sig h = ground arith
