-- ===== src/Daemon/Invariant/Listener.antt =====
-- The steps of the listener keep the invariant.
use m_tlsling.Base.{
  ℕ, ◌≡◌, refl, inl, inr, String, ◌<>◌, Bool, true, false, Option, none, some, ◌∷◌, length-take-le,
  Map, IsMap, insert-IsMap, arith, Option-cases, Result-cases, Bool-cases,
}
use m_tlsling.Base.Int.{ℤ}
use m_tlsling.Config.{Crypto, Certificate, TlsConfig, client_tls_config}
use m_tlsling.Discovery.{Advert}
use m_tlsling.Daemon.Types.{ListenerSettings, ListenerEvent}
use m_tlsling.Daemon.State.{ListenerRuntime, World, Env, with_listener}
use m_tlsling.Daemon.Listener.{
  is_old_advert, expected_name, set_listener_error, add_listener_event, begin_listener,
  build_listener, commit_listener, start_listener, stop_listener, mark_listener_stopped,
  listener_event, fetch_advert, hear_advert, listener_exits,
}
use m_tlsling.Daemon.Invariant.Defs.{Below, ListenerInv, Inv}

is_old_advert-IsMap :
    (id : String) (ts : ℤ) (seen : Map ℤ) → IsMap seen → IsMap (is_old_advert id ts seen).1
unfolding is_old_advert
is_old_advert-IsMap id ts seen h = ground (arith, insert-IsMap id ts seen h)

module _ (C : Crypto) where
  with_listener-Inv :
      (l : ListenerRuntime) (w : World C)
      → Inv C w
      → ListenerInv l
      → Below l.cancel w.next_ctx
      → Inv C (with_listener C l w)
  with_listener-Inv l w v i b = record {
    sender = v.sender;
    listener = i;
    usable = v.usable;
    files = v.files;
    ctx = v.ctx;
    srv = v.srv;
    listener_ctx = b;
  }

  pub set_listener_error-Inv :
      (e : String) (w : World C) → Inv C w → Inv C (set_listener_error C e w)
  unfolding set_listener_error
  set_listener_error-Inv e w v =
      with_listener-Inv _ w v
        (record {
          held = v.listener.held;
          recent_capped = v.listener.recent_capped;
          distinct = v.listener.distinct;
        })
        v.listener_ctx

  pub add_listener_event-Inv :
      (ev : ListenerEvent) (w : World C) → Inv C w → Inv C (add_listener_event C ev w)
  unfolding add_listener_event
  add_listener_event-Inv ev w v =
      with_listener-Inv _ w v
        (record {
          held = v.listener.held;
          recent_capped = length-take-le 64 (ev ∷ w.daemon.listener.recent);
          distinct = v.listener.distinct;
        })
        v.listener_ctx

  pub begin_listener-Inv :
      (update : Bool) (w : World C) → Inv C w → Inv C (begin_listener C update w).0
  unfolding begin_listener
  begin_listener-Inv true w v = ground arith
  begin_listener-Inv false w v = ground arith

  pub commit_listener-Inv :
      (s : ListenerSettings) (cert : Certificate C) (roots : Option C.CertPool) (w : World C)
      → Inv C w
      → Inv C (commit_listener C s cert roots w)
  unfolding commit_listener
  commit_listener-Inv s cert roots w v = ground arith

  pub start_listener-Inv :
      (env : Env C) (update : Bool) (w : World C)
      → Inv C w
      → Inv C (start_listener C env update w).0
  unfolding start_listener
  start_listener-Inv env update w v = go (begin_listener C update w).1 refl
    where
      w1 : World C
      w1 = (begin_listener C update w).0

      go :
          (ready : Option ListenerSettings)
          → (begin_listener C update w).1 ≡ ready
          → Inv C (start_listener C env update w).0
      go none e = rw (e, start_listener) (begin_listener-Inv update w v)
      go (some s) e = elim (Result-cases (build_listener C env s)) [
        | inl ((cert, roots), k) ↦
            rw (e, start_listener)
              (rw k (commit_listener-Inv s cert roots w1 (begin_listener-Inv update w v)))
        | inr (m, k) ↦
            rw (e, start_listener)
              (rw k (set_listener_error-Inv m w1 (begin_listener-Inv update w v)))
      ]

  pub stop_listener-Inv : (update : Bool) (w : World C) → Inv C w → Inv C (stop_listener C update w)
  unfolding stop_listener
  stop_listener-Inv update w v = ground arith

  pub mark_listener_stopped-Inv : (w : World C) → Inv C w → Inv C (mark_listener_stopped C w)
  unfolding mark_listener_stopped
  mark_listener_stopped-Inv w v = ground arith

  pub listener_exits-Inv :
      (error : Option String) (w : World C) → Inv C w → Inv C (listener_exits C error w)
  unfolding listener_exits
  listener_exits-Inv none w v = mark_listener_stopped-Inv w v
  listener_exits-Inv (some e) w v =
      mark_listener_stopped-Inv _ (set_listener_error-Inv ("listen multicast: " <> e) w v)

  pub heard-Inv :
      (id : String) (ts : ℤ) (w : World C)
      → Inv C w
      → Inv C (
          with_listener C
            (record (w.daemon.listener) { seen = (is_old_advert id ts w.daemon.listener.seen).1 })
            w)
  heard-Inv id ts w v =
      with_listener-Inv _ w v
        (record {
          held = v.listener.held;
          recent_capped = v.listener.recent_capped;
          distinct = is_old_advert-IsMap id ts w.daemon.listener.seen v.listener.distinct;
        })
        v.listener_ctx

  module _ (download : String → TlsConfig C → String → Option String) (before after : ℕ)
      (s : ListenerSettings) (cert : Certificate C) (roots : Option C.CertPool) (ad : Advert) where
    fetch_advert-Inv :
        (w : World C) → Inv C w → Inv C (fetch_advert C download before after s cert roots ad w)
    unfolding fetch_advert
    fetch_advert-Inv w v = elim (Option-cases (download ad.callback cfg s.out_dir)) [
      | inl k ↦ rw (k, fetch_advert) (add_listener_event-Inv _ w' started)
      | inr (e, k) ↦
          rw (k, fetch_advert)
            (add_listener_event-Inv _ _ (
              set_listener_error-Inv ("download from " <> (ad.callback <> (" failed: " <> e))) w'
                started))
    ]
      where
        cfg : TlsConfig C
        cfg = client_tls_config C cert roots (expected_name s ad) s.insecure_skip_verify

        w' : World C
        w' =
            add_listener_event C
              (listener_event C before ad "connecting" "starting download session") w

        started : Inv C w'
        started = add_listener_event-Inv _ w v

    pub hear_advert-Inv :
        (w : World C) → Inv C w → Inv C (hear_advert C download before after s cert roots ad w)
    unfolding hear_advert
    hear_advert-Inv w v = elim (Bool-cases r.0) [
      | inl k ↦ rw k noted
      | inr k ↦ rw k (fetch_advert-Inv _ noted)
    ]
      where
        l : ListenerRuntime
        l = w.daemon.listener

        r : Bool × Map ℤ
        r = is_old_advert ad.id ad.timestamp l.seen

        noted : Inv C (with_listener C (record l { seen = r.1 }) w)
        noted = heard-Inv ad.id ad.timestamp w v
