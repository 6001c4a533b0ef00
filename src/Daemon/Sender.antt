-- ===== src/Daemon/Sender.antt =====
-- The sender half of internal/senderdaemon/daemon.go. Each function between a `Lock` and its `Unlock`
-- is one step on the world; `startSender` has two, and builds what it needs between them.
use m_tlsling.Base.{
  ℕ, ◌+◌, ◌==◌, String, ◌<>◌, Bool, true, false, not, ◌&&◌, Option, none, some, List, [], ◌∷◌,
  lookup, insert, Result, ok, err, ◌>>=◌, wrap, if◌then◌else◌, ◌=ˢ◌,
}
use m_tlsling.Config.{
  Crypto, Certificate, TlsConfig, load_certificate, load_cert_pool, server_tls_config,
}
use m_tlsling.Discovery.{Advert, new_advert}
use m_tlsling.Server.Types.{ConnEvent}
use m_tlsling.Daemon.Types.{Settings, SenderSettings}
use m_tlsling.Daemon.Normalize.{normalize_files}
use m_tlsling.Daemon.State.{
  ConnState, SenderRuntime, World, Env, consume_events, run_server, run_broadcast, seconds,
  with_sender, with_settings, is_cancelled, cancel_ctx,
}

abbrev enable_sender : Bool → Settings → Settings
enable_sender on s = record s { sender = record (s.sender) { enabled = on } }

-- The body of `applySenderEvent` on the state of one connection.
unfoldable pub apply_to_conn : ConnEvent → ConnState → ConnState
apply_to_conn ev c =
    let c = if ev.remote =ˢ "" then c else record c { remote = ev.remote } in
    let c = if ev.state =ˢ "progress" then c else record c { state = ev.state } in
    if (ev.state =ˢ "progress") && not (ev.file =ˢ "")
    then record c {
      files =
          insert ev.file (record { name = ev.file; transferred = ev.transferred; total = ev.total })
            c.files;
    }
    else c

abbrev pub new_conn : ConnEvent → ConnState
new_conn ev = record { id = ev.id; remote = ev.remote; state = ev.state; files = [] }

unfoldable pub apply_event : ConnEvent → SenderRuntime → SenderRuntime
unfolding apply_to_conn
apply_event ev s =
    let c : ConnState = elim (lookup ev.id s.connections) [ none ↦ new_conn ev | some c ↦ c ] in
    let last_error =
      if ev.state =ˢ "error"
      then elim ev.error [ none ↦ s.last_error | some e ↦ e ]
      else s.last_error in
    record s {
      connections = insert ev.id (apply_to_conn ev c) s.connections;
      last_error = last_error;
    }

module _ (C : Crypto) where
  -- `loadTLS`
  unfoldable pub load_tls :
      Env C → String → String → String → Bool → Result (Certificate C × Option C.CertPool)
  load_tls env cert_path key_path ca_path insecure = do
    cert ← load_certificate C env.load_x509_key_pair cert_path key_path
    if insecure
        then ok (cert, none)
        else (do roots ← load_cert_pool C ca_path; ok (cert, some roots))

  unfoldable pub set_sender_files : List String → World C → World C
  set_sender_files files w = record w {
    daemon = record (w.daemon) { sender_files = normalize_files files };
  }

  unfoldable pub set_sender_error : String → World C → World C
  set_sender_error e w = with_sender C (record (w.daemon.sender) { last_error = e }) w

  unfoldable pub apply_sender_event : ConnEvent → World C → World C
  unfolding apply_event
  apply_sender_event ev w = with_sender C (apply_event ev w.daemon.sender) w

  -- The first critical section of `startSender`: nothing more is to be done if the sender runs.
  unfoldable pub begin_sender : Bool → World C → World C × Option (SenderSettings × List String)
  begin_sender update w =
      let enabled =
        if update then with_settings C (enable_sender true w.daemon.settings) w else w in
      if w.daemon.sender.running
      then (enabled, none)
      else (enabled, some (w.daemon.settings.sender, w.daemon.sender_files))

  -- What `startSender` makes without the lock: the server's configuration and the advert.
  unfoldable pub build_sender : Env C → SenderSettings → List String → Result (TlsConfig C × Advert)
  unfolding load_tls
  build_sender env s [] = err "no sender files configured"
  build_sender env s (f ∷ fs) = do
    (cert, roots) ←
        wrap "load sender tls"
          (load_tls env s.cert_path s.key_path s.ca_path s.insecure_skip_verify)
    advert ← wrap "build sender advert" (new_advert C env.now s.id s.addr s.server_name cert)
    ok (server_tls_config C cert roots s.insecure_skip_verify, advert)

  -- The second critical section, and the goroutines behind it.
  unfoldable pub commit_sender : SenderSettings → TlsConfig C → Advert → World C → World C
  commit_sender s cfg advert w =
      let ctx = w.next_ctx in
      let srv = w.next_srv in
      record w {
        daemon = record (w.daemon) {
          sender = record {
            running = true;
            last_error = "";
            connections = [];
            cancel = some ctx;
            srv = some srv;
          };
        };
        next_ctx = ctx + 1;
        next_srv = srv + 1;
        tasks =
            run_broadcast ctx s.multicast advert (seconds s.broadcast_interval_seconds)
            ∷ run_server ctx srv s.addr cfg
            ∷ consume_events ctx srv
            ∷ w.tasks;
      }

  -- `startSender`: the world and the error.
  unfoldable pub start_sender : Env C → Bool → World C → World C × Option String
  start_sender env update w =
      let (w, ready) = begin_sender update w in
      elim ready [
        | none ↦ (w, none)
        | some (s, files) ↦ elim (build_sender env s files) [
          | err e ↦ (set_sender_error e w, some e)
          | ok (cfg, advert) ↦ (commit_sender s cfg advert w, none)
        ]
      ]

  -- `stopSender`. The context is cancelled and the server stopped after the lock is given back.
  unfoldable pub stop_sender : Bool → World C → World C
  stop_sender update w =
      let s = w.daemon.sender in
      let settings = if update then enable_sender false w.daemon.settings else w.daemon.settings in
      let stopped = record w {
        daemon = record (w.daemon) {
          settings = settings;
          sender = record s { running = false; cancel = none; srv = none };
        };
      } in
      if s.running
      then record stopped {
        cancelled = cancel_ctx s.cancel w.cancelled;
        stopped = cancel_ctx s.srv w.stopped;
      }
      else stopped

  abbrev pub is_server : Option ℕ → ℕ → Bool
  is_server none srv = false
  is_server (some s) srv = s == srv

  -- `markSenderStopped`
  unfoldable pub mark_sender_stopped : ℕ → World C → World C
  mark_sender_stopped srv w =
      let s = w.daemon.sender in
      if is_server s.srv srv
      then with_sender C (record s { running = false; cancel = none; srv = none }) w
      else w

  -- The error that `srv.Start` returned is told, unless the context was cancelled.
  unfoldable pub tell_server_error : ℕ → Option String → World C → World C
  tell_server_error ctx none w = w
  tell_server_error ctx (some e) w =
      if is_cancelled ctx w.cancelled
      then w
      else set_sender_error ("sender server stopped: " <> e) w

  -- `runSenderServer`, when `srv.Start` has returned with an error or without.
  unfoldable pub server_exits : ℕ → ℕ → Option String → World C → World C
  server_exits ctx srv error w =
      let told = tell_server_error ctx error w in
      mark_sender_stopped srv (record told { cancelled = ctx ∷ told.cancelled })

  -- `runSenderBroadcast`, when `discovery.Broadcast` has returned.
  unfoldable pub broadcast_exits : ℕ → Option String → World C → World C
  broadcast_exits ctx error w = elim error [
    | none ↦ w
    | some e ↦
        if is_cancelled ctx w.cancelled
        then w
        else (let told = set_sender_error ("sender multicast stopped: " <> e) w in
            record told { cancelled = ctx ∷ told.cancelled })
  ]
