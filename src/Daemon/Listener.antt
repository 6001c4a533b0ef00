-- ===== src/Daemon/Listener.antt =====
-- The listener half of internal/senderdaemon/daemon.go.
use m_tlsling.Base.{
  ℕ, ◌+◌, String, ◌<>◌, Bool, true, false, Option, none, some, List, ◌∷◌, Map, lookup, insert,
  Result, ok, err, wrap, if◌then◌else◌, ◌=ˢ◌, take,
}
use m_tlsling.Base.Int.{ℤ, lebℤ}
use m_tlsling.Config.{Crypto, Certificate, TlsConfig, client_tls_config}
use m_tlsling.Discovery.{Advert}
use m_tlsling.Daemon.Types.{Settings, ListenerSettings, ListenerEvent}
use m_tlsling.Daemon.State.{World, Env, run_listener, with_listener, with_settings, cancel_ctx}
use m_tlsling.Daemon.Sender.{load_tls}

abbrev enable_listener : Bool → Settings → Settings
enable_listener on s = record s { listener = record (s.listener) { enabled = on } }

-- `isOldAdvert`: the answer, and what is remembered.
unfoldable pub is_old_advert : String → ℤ → Map ℤ → Bool × Map ℤ
is_old_advert id ts seen = elim (lookup id seen) [
  | none ↦ (false, insert id ts seen)
  | some last ↦ if lebℤ ts last then (true, seen) else (false, insert id ts seen)
]

-- The ring of `addListenerEvent`: newest first, 64 at most.
unfoldable pub add_event : ListenerEvent → List ListenerEvent → List ListenerEvent
add_event ev recent = take 64 (ev ∷ recent)

-- The name that the server's certificate must have.
abbrev pub expected_name : ListenerSettings → Advert → String
expected_name s ad = if s.server_name_override =ˢ "" then ad.server_name else s.server_name_override

module _ (C : Crypto) where
  unfoldable pub set_listener_error : String → World C → World C
  set_listener_error e w = with_listener C (record (w.daemon.listener) { last_error = e }) w

  unfoldable pub add_listener_event : ListenerEvent → World C → World C
  unfolding add_event
  add_listener_event ev w =
      let l = w.daemon.listener in with_listener C (record l { recent = add_event ev l.recent }) w

  -- The first critical section of `startListener`.
  unfoldable pub begin_listener : Bool → World C → World C × Option ListenerSettings
  begin_listener update w =
      let enabled =
        if update then with_settings C (enable_listener true w.daemon.settings) w else w in
      if w.daemon.listener.running
      then (enabled, none)
      else (enabled, some w.daemon.settings.listener)

  unfoldable pub build_listener :
      Env C → ListenerSettings → Result (Certificate C × Option C.CertPool)
  unfolding load_tls
  build_listener env s =
      wrap "load listener tls"
        (load_tls C env s.cert_path s.key_path s.ca_path s.insecure_skip_verify)

  unfoldable pub commit_listener :
      ListenerSettings → Certificate C → Option C.CertPool → World C → World C
  commit_listener s cert roots w =
      let ctx = w.next_ctx in
      let l = w.daemon.listener in
      record w {
        daemon = record (w.daemon) {
          listener = record l { running = true; cancel = some ctx; last_error = "" };
        };
        next_ctx = ctx + 1;
        tasks = run_listener ctx s cert roots ∷ w.tasks;
      }

  -- `startListener`
  unfoldable pub start_listener : Env C → Bool → World C → World C × Option String
  start_listener env update w =
      let (w, ready) = begin_listener update w in
      elim ready [
        | none ↦ (w, none)
        | some s ↦ elim (build_listener env s) [
          | err e ↦ (set_listener_error e w, some e)
          | ok (cert, roots) ↦ (commit_listener s cert roots w, none)
        ]
      ]

  -- `stopListener`
  unfoldable pub stop_listener : Bool → World C → World C
  stop_listener update w =
      let l = w.daemon.listener in
      let settings =
        if update then enable_listener false w.daemon.settings else w.daemon.settings in
      let stopped = record w {
        daemon = record (w.daemon) {
          settings = settings;
          listener = record l { running = false; cancel = none };
        };
      } in
      if l.running then record stopped { cancelled = cancel_ctx l.cancel w.cancelled } else stopped

  -- `markListenerStopped`
  unfoldable pub mark_listener_stopped : World C → World C
  mark_listener_stopped w =
      with_listener C (record (w.daemon.listener) { running = false; cancel = none }) w

  -- The events of one download, at the times that the clock shows.
  abbrev pub listener_event : ℕ → Advert → String → String → ListenerEvent
  listener_event now ad status detail = record {
    timestamp = now;
    advert_id = ad.id;
    callback = ad.callback;
    status = status;
    detail = detail;
  }

  -- The rest of the loop's body in `runListener`, for an advert that is new. The download,
  -- `client.Download`, is given by the error that it ends with at this address, under this
  -- configuration and into this directory.
  unfoldable pub fetch_advert :
      (String → TlsConfig C → String → Option String)
      → ℕ
      → ℕ
      → ListenerSettings
      → Certificate C
      → Option C.CertPool
      → Advert
      → World C
      → World C
  fetch_advert download before after s cert roots ad w =
      let cfg = client_tls_config C cert roots (expected_name s ad) s.insecure_skip_verify in
      let w' =
        add_listener_event (listener_event before ad "connecting" "starting download session") w in
      elim (download ad.callback cfg s.out_dir) [
        | none ↦ add_listener_event (listener_event after ad "completed" "download completed") w'
        | some e ↦
            add_listener_event (listener_event after ad "error" e)
              (set_listener_error ("download from " <> (ad.callback <> (" failed: " <> e))) w')
      ]

  -- One advert in the loop of `runListener`.
  unfoldable pub hear_advert :
      (String → TlsConfig C → String → Option String)
      → ℕ
      → ℕ
      → ListenerSettings
      → Certificate C
      → Option C.CertPool
      → Advert
      → World C
      → World C
  hear_advert download before after s cert roots ad w =
      let l = w.daemon.listener in
      let (old, seen) = is_old_advert ad.id ad.timestamp l.seen in
      let w = with_listener C (record l { seen = seen }) w in
      if old then w else fetch_advert download before after s cert roots ad w

  -- `runListener` fails to join the group, or returns: in the end the listener is marked as stopped.
  unfoldable pub listener_exits : Option String → World C → World C
  listener_exits error w = elim error [
    | none ↦ mark_listener_stopped w
    | some e ↦ mark_listener_stopped (set_listener_error ("listen multicast: " <> e) w)
  ]
