-- ===== src/Tests/Keys.antt =====
-- Cryptography on a small scale: a signature repeats the number of the key, and texts hold bytes in
-- unary.
use Prim.Native.Char.{code}
use m_tlsling.Base.{
  ℕ, zero, suc, ◌+◌, ◌≡◌, refl, subst, ap, ◌∙◌, arith, String, true, ◌&&◌, none, some, List, [],
  ◌∷◌, Result, ok, err, if◌then◌else◌, ◌==◌,
}
use m_tlsling.Config.{Crypto, Key, rsa, ecdsa}
use m_tlsling.Server.Protocol.{same_bytes}
use m_tlsling.Discovery.RoundTrip.{Encodings}
use m_tlsling.Discovery.Signature.Accepted.{IsPair}

-- `n` strokes and a comma in front of a text.
strokes : ℕ → String → String
strokes zero s = String.◌∷◌ "," s
strokes (suc n) s = String.◌∷◌ "1" (strokes n s)

unfoldable pub unary : List ℕ → String
unfolding strokes
unary [] = ""
unary (n ∷ ns) = strokes n (unary ns)

unfoldable pub from_unary : ℕ → String → List ℕ
from_unary n String.[] = []
from_unary n (String.◌∷◌ c s) =
    let ended = from_unary 0 s in
    let longer = from_unary (suc n) s in if code c == 44 then n ∷ ended else longer

from_unary-strokes :
    (acc n : ℕ) (s : String) → from_unary acc (strokes n s) ≡ (acc + n) ∷ from_unary 0 s
unfolding from_unary strokes
from_unary-strokes acc zero s =
    let e : acc ≡ acc + 0 = omega arith in ap (λ m. m ∷ from_unary 0 s) e
from_unary-strokes acc (suc n) s =
    let e : suc acc + n ≡ acc + suc n = omega arith in
    from_unary-strokes (suc acc) n s ∙ ap (λ m. m ∷ from_unary 0 s) e

pub from_unary-unary : (ns : List ℕ) → from_unary 0 (unary ns) ≡ ns
unfolding unary from_unary
from_unary-unary [] = refl
from_unary-unary (n ∷ ns) =
    let e : 0 + n ≡ n = omega arith in
    from_unary-strokes 0 n (unary ns)
    ∙ ap (λ m. m ∷ from_unary 0 (unary ns)) e
    ∙ ap (◌∷◌ n) (from_unary-unary ns)

-- A certificate is its bytes; its first byte tells its key: the number of an RSA key, and 0 for the
-- one ECDSA key.
abbrev key_of : List ℕ → Key ℕ ℕ
key_of [] = rsa 0
key_of (zero ∷ bytes) = ecdsa 500
key_of (suc n ∷ bytes) = rsa (suc n)

abbrev pub small : Crypto
small = record {
  RsaPrivate = ℕ;
  EcPrivate = ℕ;
  RsaPublic = ℕ;
  EcPublic = ℕ;
  X509 = List ℕ;
  CertPool = ℕ;
  parse_certificate = λ der. ok der;
  raw = λ cert. cert;
  public_key = key_of;
  verify_chain = λ cert pool. none;
  sign_pss = λ k p. ok (k ∷ []);
  verify_pss = λ k p sig. if same_bytes sig (k ∷ []) then none else some "verification error";
  ecdsa_sign = λ k p. ok (k, 300);
  ecdsa_verify = λ k p r s. r == k && s == 300;
  sha256 = λ bytes. bytes;
  pem_encode = unary;
  pem_decode = λ s. some (from_unary 0 s);
  base64_encode = unary;
  base64_decode = λ s. ok (from_unary 0 s);
  read_file = λ path. ok [];
  append_certs = λ pem. some 0;
}

pub small-Encodings : Encodings small
small-Encodings = record {
  pem = λ bytes. ap some (from_unary-unary bytes);
  base64 = λ bytes. ap ok (from_unary-unary bytes);
  der = λ bytes leaf e. refl;
}

-- The pair of numbers in a result.
abbrev both : Result (ℕ × ℕ) → ℕ × ℕ
both (ok x) = x
both (err e) = (0, 0)

abbrev bytes_in : Result (List ℕ) → List ℕ
bytes_in (ok bytes) = bytes
bytes_in (err e) = []

pub rsa-IsPair : IsPair small (rsa 7) (rsa 7)
unfolding same_bytes
rsa-IsPair =
    IsPair.rsa_pair (λ p sig e. subst (λ x. small.verify_pss 7 p (bytes_in x) ≡ none) e refl)

pub ecdsa-IsPair : IsPair small (ecdsa 500) (ecdsa 500)
ecdsa-IsPair =
    IsPair.ecdsa_pair
      (λ p r s e. subst (λ x. small.ecdsa_verify 500 p (both x).0 (both x).1 ≡ true) e refl)
