-- ===== src/Discovery.antt =====
-- internal/discovery/advert.go: adverts, their signatures, and the check of what is received.
pub mod BigInt
pub mod Signature
pub mod Skew
pub mod Accept
pub mod RoundTrip
pub mod Ambiguous
pub mod Expiry
pub mod Listen
pub mod Sockets
use m_tlsling.Base.{
  ℕ, ◌+◌, ◌*◌, ◌/◌, ◌%◌, String, ◌<>◌, Bool, true, false, not, ◌||◌, Option, none, some, List, [],
  ◌∷◌, ◌++◌, Result, ok, err, ◌>>=◌, ◌>>◌, wrap, if◌then◌else◌, utf8, show_int,
}
use m_tlsling.Base.Int.{ℤ, pos, negsuc, lebℤ, sub_int64}
use m_tlsling.Config.{Crypto, Certificate}
use Signature.{sign, verify_signature}

-- `Advert`
pub record Advert : Type 0 where
  pub id : String
  pub callback : String
  pub server_name : String
  pub timestamp : ℤ
  pub cert_pem : String
  pub signature : String

-- What is hashed: four fields with bars between them.
unfoldable pub signing_bytes : Advert → List ℕ
signing_bytes a =
    utf8 a.id
    ++ (utf8 "|"
        ++ (utf8 a.callback
            ++ (utf8 "|" ++ (utf8 a.server_name ++ (utf8 "|" ++ utf8 (show_int a.timestamp))))))

-- An `error` that is nil or not, as a step of a chain.
abbrev check : Option String → Result (Unit {0})
check none = ok tt
check (some e) = err e

-- `maxSkew` if it is positive, and two minutes if not, in nanoseconds.
unfoldable pub skew_or_default : ℤ → ℤ
skew_or_default max_skew = if lebℤ max_skew (pos 0) then pos (120 * 1000000000) else max_skew

-- `int64(d.Seconds())`
abbrev pub seconds_of : ℤ → ℤ
seconds_of (pos ns) = pos (ns / 1000000000)
seconds_of (negsuc ns) = pos 0

-- The test on the clock: neither difference, computed on `int64`, is above the limit.
unfoldable pub is_skewed : ℤ → ℤ → ℤ → Bool
unfolding sub_int64
is_skewed now timestamp limit =
    not (lebℤ (sub_int64 now timestamp) limit) || not (lebℤ (sub_int64 timestamp now) limit)

module _ (C : Crypto) where
  -- `signingPayload`
  unfoldable pub signing_payload : Advert → List ℕ
  signing_payload a = C.sha256 (signing_bytes a)

  -- `NewAdvert`, at the time `now` in seconds.
  unfoldable pub new_advert : ℤ → String → String → String → Certificate C → Result Advert
  new_advert now id callback server_name cert = elim cert.certificate [
    | [] ↦ err "certificate is empty"
    | der ∷ _ ↦ do
      leaf ← wrap "parse certificate" (C.parse_certificate der)
      elim cert.private_key [
        | none ↦ err "certificate missing private key"
        | some key ↦
            let ad : Advert = record {
              id = id;
              callback = callback;
              server_name = server_name;
              timestamp = now;
              cert_pem = C.pem_encode (C.raw leaf);
              signature = "";
            } in
            do
              sig ← wrap "sign advert" (sign C key (signing_payload ad))
              ok (record ad { signature = C.base64_encode sig })
      ]
  ]

  -- `Verify`, at the time `now`. Without roots the chain is not checked.
  unfoldable pub verify : ℤ → Option C.CertPool → ℤ → Advert → Result (Unit {0})
  verify now roots max_skew a =
      let limit = seconds_of (skew_or_default max_skew) in
      if is_skewed now a.timestamp limit
      then err "advert timestamp skew too large"
      else elim (C.pem_decode a.cert_pem) [
        | none ↦ err "unable to decode certificate pem"
        | some der ↦ do
          cert ← wrap "parse cert" (C.parse_certificate der)
          elim roots [
            | none ↦ ok tt
            | some pool ↦ wrap "verify cert" (check (C.verify_chain cert pool))
          ]
          sig ← wrap "decode signature" (C.base64_decode a.signature)
          wrap "verify signature" (verify_signature C (C.public_key cert) (signing_payload a) sig)
      ]
