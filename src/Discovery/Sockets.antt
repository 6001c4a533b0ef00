-- ===== src/Discovery/Sockets.antt =====
-- `Listen` and `Broadcast` of internal/discovery/advert.go with their sockets: the errors before the loops,
-- reads that time out or fail, and the context that is cancelled.
use m_tlsling.Base.{
  ℕ, ◌≡◌, ◌≢◌, refl, String, Bool, true, false, ◌||◌, Option, none, some, List, [], ◌∷◌, Result, ok,
  err, wrap, ◌>>=◌, if◌then◌else◌, All,
}
use m_tlsling.Config.{Crypto}
use m_tlsling.Discovery.{Advert}
use m_tlsling.Discovery.Listen.{broadcast, receive_datagram, emit, listen}

-- `net.ResolveUDPAddr`, `net.ListenMulticastUDP` and `net.DialUDP`, as they answer.
pub record Network : Type 0 where
  pub resolve : String → Result String
  pub join : String → Result (Unit {0})
  pub dial : String → Result (Unit {0})

-- What a read gives: a datagram with the time at which it is verified, a time-out, or another error.
pub data Reading : Type 0 where
  datagram : ℕ → List ℕ → Reading
  timed_out broken : Reading

-- A round of the loop: the read, whether the context is cancelled then, and whether an advert that is
-- offered goes to the reader of the channel.
pub record Round : Type 0 where
  pub reading : Reading
  pub is_cancelled : Bool
  pub is_taken : Bool

-- `Broadcast`, with the answers of the socket to its writes.
unfoldable pub broadcast_to :
    Network
    → (Advert → Result (List ℕ))
    → String
    → Advert
    → List (Option String)
    → List (List ℕ) × Option String
broadcast_to net marshal addr a answers =
    let payload : Result (List ℕ) = wrap "resolve multicast addr" (net.resolve addr) >>= (λ raddr.
      wrap "dial multicast" (net.dial raddr) >>= (λ conn. wrap "marshal advert" (marshal a))) in
    elim payload [ err e ↦ ([], some e) | ok bytes ↦ broadcast bytes answers ]

module _ (C : Crypto) (unmarshal : List ℕ → Result Advert) where
  -- The `select` of the loop: the send waits for the reader or for the end of the context.
  abbrev pub offer : Round → Advert → List Advert × Bool → List Advert × Bool
  offer r a (sent, returned) = if r.is_taken then (a ∷ sent, returned) else ([], r.is_cancelled)

  abbrev pub offered : Round → Option Advert → List Advert × Bool → List Advert × Bool
  offered r none rest = rest
  offered r (some a) rest = offer r a rest

  -- A round, with what the rounds behind it come to.
  unfoldable pub after_read :
      Option C.CertPool → Round → Reading → List Advert × Bool → List Advert × Bool
  after_read roots r broken rest = ([], true)
  after_read roots r timed_out rest = if r.is_cancelled then ([], true) else rest
  after_read roots r (datagram now bytes) rest =
      offered r (receive_datagram C unmarshal roots now bytes) rest

  -- The goroutine of `Listen`: the adverts that go through the channel, and whether it has returned.
  unfoldable pub listen_rounds : Option C.CertPool → List Round → List Advert × Bool
  listen_rounds roots [] = ([], false)
  listen_rounds roots (r ∷ rs) = after_read roots r r.reading (listen_rounds roots rs)

  -- `Listen`
  unfoldable pub listen_at :
      Network → String → Option C.CertPool → Result (List Round → List Advert × Bool)
  listen_at net addr roots =
      wrap "resolve multicast addr" (net.resolve addr)
      >>= (λ laddr. wrap "listen multicast" (net.join laddr) >>= (λ conn. ok (listen_rounds roots)))

  -- A reader that takes each advert, and a context that is not cancelled.
  abbrev pub IsCalm : Round → Type 0
  IsCalm r = (r.is_cancelled ≡ false) × (r.is_taken ≡ true) × (r.reading ≢ broken)

  abbrev pub datagram_of : Reading → List (ℕ × List ℕ) → List (ℕ × List ℕ)
  datagram_of (datagram now bytes) rest = (now, bytes) ∷ rest
  datagram_of timed_out rest = rest
  datagram_of broken rest = rest

  unfoldable pub datagrams_of : List Round → List (ℕ × List ℕ)
  datagrams_of [] = []
  datagrams_of (r ∷ rs) = datagram_of r.reading (datagrams_of rs)

  -- While the context is not cancelled, no read fails and each advert is taken, time-outs change nothing,
  -- and the loop goes on.
  pub listen_rounds-listen :
      (roots : Option C.CertPool) (rs : List Round)
      → All IsCalm rs
      → listen_rounds roots rs ≡ (listen C unmarshal roots (datagrams_of rs), false)
  unfolding listen_rounds after_read listen datagrams_of
  listen_rounds-listen roots [] calm = refl
  listen_rounds-listen roots (r ∷ rs) calm =
      by_reading r.reading refl (listen_rounds-listen roots rs calm.1)
    where
      by_advert :
          (o : Option Advert)
          → listen_rounds roots rs ≡ (listen C unmarshal roots (datagrams_of rs), false)
          → offered r o (listen_rounds roots rs)
            ≡ (emit C unmarshal o (listen C unmarshal roots (datagrams_of rs)), false)
      by_advert none ih = ih
      by_advert (some a) ih = rw (ih, calm.0.1) refl

      by_reading :
          (x : Reading)
          → r.reading ≡ x
          → listen_rounds roots rs ≡ (listen C unmarshal roots (datagrams_of rs), false)
          → after_read roots r x (listen_rounds roots rs)
            ≡ (listen C unmarshal roots (datagram_of x (datagrams_of rs)), false)
      by_reading broken e ih = absurd (calm.0.2 e)
      by_reading timed_out e ih = rw calm.0.0 ih
      by_reading (datagram now bytes) e ih =
          by_advert (receive_datagram C unmarshal roots now bytes) ih

  -- A datagram that is malformed or does not verify.
  abbrev pub is_some : {A : Type 0} → Option A → Bool
  is_some none = false
  is_some (some a) = true

  abbrev pub is_noticed : Option C.CertPool → Reading → Bool
  is_noticed roots broken = true
  is_noticed roots timed_out = true
  is_noticed roots (datagram now bytes) = is_some (receive_datagram C unmarshal roots now bytes)

  unfoldable pub any_noticed : Option C.CertPool → List Round → Bool
  any_noticed roots [] = false
  any_noticed roots (r ∷ rs) = is_noticed roots r.reading || any_noticed roots rs

  abbrev pub IsAbandoned : Round → Type 0
  IsAbandoned r = (r.is_cancelled ≡ true) × (r.is_taken ≡ false)

  -- Once the context is cancelled and nobody reads the channel, no advert goes through it, and the loop
  -- returns if, and only if, some read times out, fails or gives an advert that verifies: as long as other
  -- datagrams come in time, the loop goes on and its socket stays open, however many they are.
  pub listen_rounds-cancelled :
      (roots : Option C.CertPool) (rs : List Round)
      → All IsAbandoned rs
      → listen_rounds roots rs ≡ ([], any_noticed roots rs)
  unfolding listen_rounds after_read any_noticed
  listen_rounds-cancelled roots [] left = refl
  listen_rounds-cancelled roots (r ∷ rs) left =
      by_reading r.reading (listen_rounds-cancelled roots rs left.1)
    where
      by_advert :
          (o : Option Advert)
          → listen_rounds roots rs ≡ ([], any_noticed roots rs)
          → offered r o (listen_rounds roots rs) ≡ ([], is_some o || any_noticed roots rs)
      by_advert none ih = ih
      by_advert (some a) ih = rw (left.0.1, left.0.0) refl

      by_reading :
          (x : Reading)
          → listen_rounds roots rs ≡ ([], any_noticed roots rs)
          → after_read roots r x (listen_rounds roots rs)
            ≡ ([], is_noticed roots x || any_noticed roots rs)
      by_reading broken ih = refl
      by_reading timed_out ih = rw left.0.0 refl
      by_reading (datagram now bytes) ih =
          by_advert (receive_datagram C unmarshal roots now bytes) ih
