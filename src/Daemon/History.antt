-- ===== src/Daemon/History.antt =====
-- What the listener of internal/senderdaemon/daemon.go remembers, against the history of what it heard.
pub mod Loop
use m_tlsling.Base.{
  ℕ, ◌≡◌, refl, sym, subst, ap, ◌∙◌, String, Bool, true, false, ◌&&◌, ◌||◌, Option, none, some,
  List, [], ◌∷◌, Map, lookup, insert, map, lookup-insert, Option-cases, Bool-cases, inl, inr, arith,
  eq_iff, take, take-take, if◌then◌else◌, ◌=ˢ◌, Result, ok, err,
}
use m_tlsling.Base.Int.{ℤ, lebℤ}
use m_tlsling.Config.{Crypto, Certificate, TlsConfig, client_tls_config}
use m_tlsling.Discovery.{Advert}
use m_tlsling.Daemon.Types.{ListenerSettings, ListenerEvent}
use m_tlsling.Daemon.State.{World, with_listener}
use m_tlsling.Daemon.Listener.{
  is_old_advert, add_event, add_listener_event, set_listener_error, listener_event, expected_name,
  fetch_advert, hear_advert,
}

-- Whether the history, the newest advert first, has one of this id with this timestamp or a later one.
unfoldable pub heard_since : String → ℤ → List Advert → Bool
heard_since id ts [] = false
heard_since id ts (a ∷ earlier) = (a.id =ˢ id && lebℤ ts a.timestamp) || heard_since id ts earlier

-- What `isOldAdvert` remembers after the adverts of the history.
unfoldable pub remember : List Advert → Map ℤ
unfolding is_old_advert
remember [] = []
remember (a ∷ earlier) = (is_old_advert a.id a.timestamp (remember earlier)).1

abbrev is_at_most : ℤ → Option ℤ → Bool
is_at_most ts none = false
is_at_most ts (some last) = lebℤ ts last

at_most_once :
    (id : String) (ts : ℤ) (a : Advert) (seen : Map ℤ) (r : Option ℤ) (s : Option ℤ)
    → lookup a.id seen ≡ r
    → lookup id seen ≡ s
    → is_at_most ts (lookup id (is_old_advert a.id a.timestamp seen).1)
      ≡ ((a.id =ˢ id && lebℤ ts a.timestamp) || is_at_most ts s)
unfolding is_old_advert
at_most_once id ts a seen none none e f =
    ground (arith, eq_iff a.id id, lookup-insert id a.id a.timestamp seen)
at_most_once id ts a seen none (some x) e f =
    ground (arith, eq_iff a.id id, lookup-insert id a.id a.timestamp seen)
at_most_once id ts a seen (some last) none e f =
    ground (arith, eq_iff a.id id, lookup-insert id a.id a.timestamp seen)
at_most_once id ts a seen (some last) (some x) e f =
    ground (arith, eq_iff a.id id, lookup-insert id a.id a.timestamp seen)

old_of :
    (id : String) (ts : ℤ) (seen : Map ℤ) (r : Option ℤ)
    → lookup id seen ≡ r
    → (is_old_advert id ts seen).0 ≡ is_at_most ts (lookup id seen)
unfolding is_old_advert
old_of id ts seen none e = ground arith
old_of id ts seen (some last) e = ground arith

lookup-remember :
    (id : String) (ts : ℤ) (h : List Advert)
    → is_at_most ts (lookup id (remember h)) ≡ heard_since id ts h
unfolding remember heard_since lookup
lookup-remember id ts [] = refl
lookup-remember id ts (a ∷ h) =
    at_most_once id ts a (remember h) _ _ refl refl
    ∙ ap (λ b. (a.id =ˢ id && lebℤ ts a.timestamp) || b) (lookup-remember id ts h)

-- An advert is old exactly if the history has one of its id that is as new.
pub is_old_advert-remember :
    (id : String) (ts : ℤ) (h : List Advert)
    → (is_old_advert id ts (remember h)).0 ≡ heard_since id ts h
is_old_advert-remember id ts h = old_of id ts (remember h) _ refl ∙ lookup-remember id ts h

-- The ring after the events `es`, the newest first.
unfoldable pub recent_of : List ListenerEvent → List ListenerEvent
unfolding add_event
recent_of [] = []
recent_of (e ∷ es) = add_event e (recent_of es)

-- The ring holds the newest 64 of all events, in the order of their arrival.
pub recent_of-take : (es : List ListenerEvent) → recent_of es ≡ take 64 es
unfolding recent_of add_event
recent_of-take [] = refl
recent_of-take (e ∷ es) = rw (recent_of-take es) (take-take 63 e es)

pub old_same :
    (id : String) (ts : ℤ) (seen : Map ℤ) (r : Option ℤ)
    → lookup id seen ≡ r
    → (is_old_advert id ts seen).0 ≡ true
    → (is_old_advert id ts seen).1 ≡ seen
unfolding is_old_advert
old_same id ts seen none e h = ground arith
old_same id ts seen (some last) e h = ground arith
