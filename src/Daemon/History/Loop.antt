-- ===== src/Daemon/History/Loop.antt =====
-- The loop of `runListener` over a history of adverts.
use m_tlsling.Base.{
  ℕ, ◌≡◌, refl, ap, ◌∙◌, String, Bool, true, false, Option, none, some, List, [], ◌∷◌, map, arith,
  take, take-take, if◌then◌else◌,
}
use m_tlsling.Base.Int.{ℤ}
use m_tlsling.Config.{Crypto, Certificate, TlsConfig, client_tls_config}
use m_tlsling.Discovery.{Advert}
use m_tlsling.Daemon.Types.{ListenerSettings, ListenerEvent}
use m_tlsling.Daemon.State.{World, with_listener}
use m_tlsling.Daemon.Listener.{
  is_old_advert, add_event, add_listener_event, set_listener_error, listener_event, expected_name,
  fetch_advert, hear_advert,
}
use m_tlsling.Daemon.History.{heard_since, remember, is_old_advert-remember, old_same}

module _ (C : Crypto) (download : String → TlsConfig C → String → Option String)
    (s : ListenerSettings) (cert : Certificate C) (roots : Option C.CertPool) where
  -- The listener's loop over a history of adverts, the newest first, each with the clock before its
  -- download and after it.
  unfoldable pub hear_all : List (ℕ × ℕ × Advert) → World C → World C
  hear_all [] w = w
  hear_all ((before, after, a) ∷ earlier) w =
      hear_advert C download before after s cert roots a (hear_all earlier w)

  fetch_advert-seen :
      (before after : ℕ) (a : Advert) (w : World C)
      → (fetch_advert C download before after s cert roots a w).daemon.listener.seen
        ≡ w.daemon.listener.seen
  unfolding fetch_advert add_listener_event set_listener_error
  fetch_advert-seen before after a w = ground arith

  hear_advert-seen :
      (before after : ℕ) (a : Advert) (w : World C)
      → (hear_advert C download before after s cert roots a w).daemon.listener.seen
        ≡ (is_old_advert a.id a.timestamp w.daemon.listener.seen).1
  unfolding hear_advert
  hear_advert-seen before after a w = ground (
    arith,
    fetch_advert-seen before after a (
        with_listener C
          (record (w.daemon.listener) {
            seen = (is_old_advert a.id a.timestamp w.daemon.listener.seen).1;
          })
          w),
  )

  hear_all-seen :
      (h : List (ℕ × ℕ × Advert)) (w : World C)
      → w.daemon.listener.seen ≡ []
      → (hear_all h w).daemon.listener.seen ≡ remember (map (λ x. x.2) h)
  unfolding hear_all remember
  hear_all-seen [] w new = new
  hear_all-seen ((before, after, a) ∷ h) w new =
      hear_advert-seen before after a (hear_all h w)
      ∙ ap (λ m. (is_old_advert a.id a.timestamp m).1) (hear_all-seen h w new)

  is_old_advert-hear_all :
      (h : List (ℕ × ℕ × Advert)) (w : World C) (id : String) (ts : ℤ)
      → w.daemon.listener.seen ≡ []
      → (is_old_advert id ts (hear_all h w).daemon.listener.seen).0
        ≡ heard_since id ts (map (λ x. x.2) h)
  is_old_advert-hear_all h w id ts new =
      ap (λ m. (is_old_advert id ts m).0) (hear_all-seen h w new) ∙ is_old_advert-remember id ts _

  -- What the listener holds while it fetches.
  abbrev pub noted : Advert → World C → World C
  noted a w =
      let l = w.daemon.listener in
      with_listener C (record l { seen = (is_old_advert a.id a.timestamp l.seen).1 }) w

  pub hear_advert_flag :
      (before after : ℕ) (a : Advert) (w : World C) (old : Bool)
      → (is_old_advert a.id a.timestamp w.daemon.listener.seen).0 ≡ old
      → hear_advert C download before after s cert roots a w ≡ (
          if old
          then noted a w
          else fetch_advert C download before after s cert roots a (noted a w))
  unfolding hear_advert
  hear_advert_flag before after a w old e =
      ap
        (λ b.
          if b then noted a w else fetch_advert C download before after s cert roots a (noted a w))
        e

  -- After any history, an advert that is no newer than one of its id that was heard changes nothing: no
  -- download is started.
  pub hear_advert-old :
      (h : List (ℕ × ℕ × Advert)) (w : World C) (before after : ℕ) (a : Advert)
      → w.daemon.listener.seen ≡ []
      → heard_since a.id a.timestamp (map (λ x. x.2) h) ≡ true
      → hear_advert C download before after s cert roots a (hear_all h w) ≡ hear_all h w
  hear_advert-old h w before after a new old =
      let v = hear_all h w in
      let is_old = is_old_advert-hear_all h w a.id a.timestamp new ∙ old in
      hear_advert_flag before after a v true is_old
      ∙ ap (λ m. with_listener C (record (v.daemon.listener) { seen = m }) v)
          (old_same a.id a.timestamp v.daemon.listener.seen _ refl is_old)

  -- The event that the end of a download leaves.
  abbrev pub outcome : ℕ → Advert → ListenerEvent
  outcome after a =
      let cfg = client_tls_config C cert roots (expected_name s a) s.insecure_skip_verify in
      elim (download a.callback cfg s.out_dir) [
        | none ↦ listener_event C after a "completed" "download completed"
        | some e ↦ listener_event C after a "error" e
      ]

  pub fetch_advert-recent :
      (before after : ℕ) (a : Advert) (w : World C)
      → (fetch_advert C download before after s cert roots a w).daemon.listener.recent
        ≡ take 64 (
            outcome after a
            ∷ take 64 (
                listener_event C before a "connecting" "starting download session"
                ∷ w.daemon.listener.recent))
  unfolding fetch_advert add_listener_event set_listener_error add_event
  fetch_advert-recent before after a w = by_result _ refl
    where
      by_result :
          (r : Option String)
          → download a.callback
              (client_tls_config C cert roots (expected_name s a) s.insecure_skip_verify)
              s.out_dir
            ≡ r
          → (fetch_advert C download before after s cert roots a w).daemon.listener.recent
            ≡ take 64 (
                outcome after a
                ∷ take 64 (
                    listener_event C before a "connecting" "starting download session"
                    ∷ w.daemon.listener.recent))
      by_result none e = ground arith
      by_result (some x) e = ground arith

  -- After any history, an advert that is newer than all of its id that were heard is fetched from the
  -- address in it, with a configuration for the name in it or the one of the settings: two events come
  -- to the front of the ring, the end of the download before its start, and the ring keeps 64.
  pub hear_advert-fresh :
      (h : List (ℕ × ℕ × Advert)) (w : World C) (before after : ℕ) (a : Advert)
      → w.daemon.listener.seen ≡ []
      → heard_since a.id a.timestamp (map (λ x. x.2) h) ≡ false
      → (hear_advert C download before after s cert roots a (hear_all h w)).daemon.listener.recent
        ≡ take 64 (
            outcome after a
            ∷ listener_event C before a "connecting" "starting download session"
            ∷ (hear_all h w).daemon.listener.recent)
  hear_advert-fresh h w before after a new fresh =
      let v = hear_all h w in
      ap (λ x. x.daemon.listener.recent)
        (hear_advert_flag before after a v false
          (is_old_advert-hear_all h w a.id a.timestamp new ∙ fresh))
      ∙ fetch_advert-recent before after a (noted a v)
      ∙ take-take 63 (outcome after a) (
          listener_event C before a "connecting" "starting download session"
          ∷ v.daemon.listener.recent)
