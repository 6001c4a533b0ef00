-- ===== src/Discovery/Listen.antt =====
-- `Listen` and `Broadcast` of internal/discovery/advert.go: the loops over datagrams and over ticks, once the
-- sockets are there. The channel of adverts is the list of what goes through it.
use m_tlsling.Base.{
  ℕ, ◌+◌, ◌*◌, ◌^◌, ◌≤◌, ◌<◌, ◌≡◌, refl, ap, String, true, false, Option, none, some, List, [], ◌∷◌,
  map, keep, leb, Result, ok, err, arith, if◌then◌else◌, All, Bool-cases, inl, inr,
}
use m_tlsling.Base.Int.{ℤ, pos, lebℤ, sub_int64}
use m_tlsling.Config.{Crypto, Key, Certificate}
use m_tlsling.Discovery.{
  Advert, is_skewed, skew_or_default, seconds_of, signing_payload, new_advert, verify,
}
use m_tlsling.Discovery.Signature.Accepted.{IsPair, IsBalanced}
use m_tlsling.Discovery.Accept.{IsTrusted}
use m_tlsling.Discovery.RoundTrip.{Encodings, verify-new_advert}
use m_tlsling.Discovery.Expiry.{verify-late}

-- The interval of the ticks, in nanoseconds: five seconds if none is given.
unfoldable pub interval_or_default : ℤ → ℤ
interval_or_default interval = if lebℤ interval (pos 0) then pos (5 * 1000000000) else interval

-- The loop of `Broadcast`: what goes out and the error that ends it. There is one answer of the socket for
-- each write, the first one and one for each tick until the context is cancelled.
unfoldable pub broadcast : List ℕ → List (Option String) → List (List ℕ) × Option String
broadcast payload [] = ([], none)
broadcast payload (none ∷ answers) =
    let (sent, error) = broadcast payload answers in (payload ∷ sent, error)
broadcast payload (some e ∷ answers) = ([], some e)

module _ (C : Crypto) (unmarshal : List ℕ → Result Advert) where
  -- One datagram, at the time that the clock shows: what is malformed or does not verify is dropped.
  unfoldable pub receive_datagram : Option C.CertPool → ℕ → List ℕ → Option Advert
  receive_datagram roots now datagram = elim (unmarshal datagram) [
    | err e ↦ none
    | ok a ↦ elim (verify C (pos now) roots (pos (2 * 60 * 1000000000)) a) [
      | err e ↦ none
      | ok _ ↦ some a
    ]
  ]

  abbrev pub emit : Option Advert → List Advert → List Advert
  emit none rest = rest
  emit (some a) rest = a ∷ rest

  -- The loop of `Listen`, over the datagrams with their times, up to the read that fails or that finds the
  -- context cancelled.
  unfoldable pub listen : Option C.CertPool → List (ℕ × List ℕ) → List Advert
  listen roots [] = []
  listen roots ((now, datagram) ∷ more) =
      emit (receive_datagram roots now datagram) (listen roots more)

  receive-verified :
      (roots : Option C.CertPool) (now : ℕ) (datagram : List ℕ) (a : Advert) (r : Result (Unit {0}))
      → unmarshal datagram ≡ ok a
      → verify C (pos now) roots (pos (2 * 60 * 1000000000)) a ≡ r
      → receive_datagram roots now datagram
        ≡ (elim r as (λ _. Option Advert) [ err e ↦ none | ok _ ↦ some a ])
  unfolding receive_datagram
  receive-verified roots now datagram a (ok tt) e v = rw (e, receive_datagram) (rw v)
  receive-verified roots now datagram a (err x) e v = rw (e, receive_datagram) (rw v)

  soon_near :
      (made now : ℕ)
      → made ≤ now
      → now ≤ made + 120
      → now < 2 ^ 63
      → is_skewed (pos now) (pos made) (seconds_of (skew_or_default (pos 120000000000))) ≡ false
  unfolding is_skewed sub_int64 skew_or_default
  soon_near made now h k small = ground arith

  module _ (enc : Encodings C) (made : ℕ) (id callback server_name : String) (cert : Certificate C)
      (key : Key C.RsaPrivate C.EcPrivate) (leaf : C.X509) (der : List ℕ) (ders : List (List ℕ))
      (roots : Option C.CertPool) (a : Advert) (payload : List ℕ)
      (c : cert.certificate ≡ der ∷ ders) (k : cert.private_key ≡ some key)
      (p : C.parse_certificate der ≡ ok leaf) (pair : IsPair C key (C.public_key leaf))
      (trusted : IsTrusted C leaf roots)
      (new : new_advert C (pos made) id callback server_name cert ≡ ok a)
      (balanced : IsBalanced C key (signing_payload C a)) (json : unmarshal payload ≡ ok a) where
    pub receive_soon :
        (now : ℕ)
        → made ≤ now
        → now < 2 ^ 63
        → leb now (made + 120) ≡ true
        → receive_datagram roots now payload ≡ some a
    receive_soon now h small soon = receive-verified roots now payload a (ok tt) json (
        verify-new_advert C enc (pos made) (pos now) id callback server_name cert key leaf der ders
          roots (pos 120000000000) a c k p pair trusted new balanced
          (soon_near made now h (ground arith) small))

    receive_late :
        (now : ℕ)
        → now < 2 ^ 63
        → leb now (made + 120) ≡ false
        → receive_datagram roots now payload ≡ none
    receive_late now small late =
        receive-verified roots now payload a (err "advert timestamp skew too large") json
          (verify-late C made now id callback server_name cert a roots new (ground arith) small)

    -- A sender's advert that is repeated as it was made, at any later times: a listener that trusts the
    -- certificate hears it at each time up to two minutes after it was made, and never again.
    pub listen-repeated :
        (times : List ℕ)
        → All (λ t. (made ≤ t) × (t < 2 ^ 63)) times
        → listen roots (map (λ t. (t, payload)) times)
          ≡ map (λ t. a) (keep (λ t. leb t (made + 120)) times)
    unfolding listen
    listen-repeated [] later = refl
    listen-repeated (t ∷ ts) later = elim (Bool-cases (leb t (made + 120))) [
      | inl h ↦
          rw (h, receive_soon t later.0.0 later.0.1 h) (ap (◌∷◌ a) (listen-repeated ts later.1))
      | inr h ↦ rw (h, receive_late t later.0.1 h) (listen-repeated ts later.1)
    ]
