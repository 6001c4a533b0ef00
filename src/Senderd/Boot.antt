-- ===== src/Senderd/Boot.antt =====
-- The start of the daemon command.
use m_tlsling.Base.{
  String, ◌<>◌, Bool, true, false, Option, none, some, [], Result, ok, err, Bool-cases, inl, inr,
  ◌≡◌, refl, sym, subst, ap, ◌∙◌, arith,
}
use m_tlsling.Config.{Crypto}
use m_tlsling.Daemon.Types.{Settings}
use m_tlsling.Daemon.State.{World, Env, start_world, new_daemon, SenderRuntime}
use m_tlsling.Daemon.Normalize.{normalize_settings}
use m_tlsling.Daemon.Sender.{start_sender, stop_sender, begin_sender, build_sender}
use m_tlsling.Daemon.Control.{first_error, bring_sender, bring_listener, reconcile}
use m_tlsling.Daemon.Control.Effects.{
  stop_sender-running, bring_listener-sender, bring_listener-running,
}
use m_tlsling.Daemon.Invariant.Defs.{Inv}
use m_tlsling.Daemon.Invariant.Control.{start_world-Inv, reconcile-Inv}
use m_tlsling.Api.Client.{new_client}
use m_tlsling.Ipc.{Listener, Sockets, Faults, listen}
use m_tlsling.Ipc.Listening.{AreOld, Listened, listen-Listened}
use m_tlsling.Senderd.{
  Flags, settings_of, Started, fatal, serving, after_listen, after_reconcile, boot,
}

module _ (C : Crypto) (env : Env C) where
  start_sender-no_files :
      (w : World C)
      → w.daemon.sender.running ≡ false
      → w.daemon.sender_files ≡ []
      → (start_sender C env false w).1 ≡ some "no sender files configured"
  unfolding start_sender begin_sender build_sender
  start_sender-no_files w r f = ground arith

  -- A sender that is to run and has no files makes the first error.
  reconcile-no_files :
      (w : World C)
      → w.daemon.settings.sender.enabled ≡ true
      → w.daemon.sender.running ≡ false
      → w.daemon.sender_files ≡ []
      → (reconcile C env w).1 ≡ some "no sender files configured"
  unfolding reconcile bring_sender
  reconcile-no_files w e r f =
      subst
        (λ b.
          first_error (bring_sender C env b w).1
            (bring_listener C env w.daemon.settings.listener.enabled (bring_sender C env b w).0).1
          ≡ some "no sender files configured")
        (sym e) (rw (start_sender-no_files w r f) refl)

  -- What runs when `Reconcile` has returned no error, and the sender was not to run.
  reconcile-none :
      (w : World C)
      → w.daemon.settings.sender.enabled ≡ false
      → (reconcile C env w).1 ≡ none
      → ((reconcile C env w).0.daemon.sender.running ≡ false)
        × ((reconcile C env w).0.daemon.listener.running ≡ w.daemon.settings.listener.enabled)
  unfolding reconcile bring_sender
  reconcile-none w e h = by_mark w.daemon.settings.sender.enabled e h
    where
      by_mark :
          (b : Bool)
          → b ≡ false
          → first_error
              (bring_sender C env b w).1
              (bring_listener C env w.daemon.settings.listener.enabled (bring_sender C env b w).0).1
            ≡ none
          → (let w' =
                (bring_listener C env w.daemon.settings.listener.enabled
                  (bring_sender C env b w).0).0 in
              (w'.daemon.sender.running ≡ false)
              × (w'.daemon.listener.running ≡ w.daemon.settings.listener.enabled))
      by_mark true e h = cc
      by_mark false e h = (
        ap (λ (s : SenderRuntime). s.running)
              (bring_listener-sender C env _ (stop_sender C false w))
            ∙ stop_sender-running C env false w,
        bring_listener-running C env w.daemon.settings.listener.enabled (stop_sender C false w) h,
      )

  normalize_settings-enabled :
      (s : Settings)
      → ((normalize_settings s).sender.enabled ≡ s.sender.enabled)
        × ((normalize_settings s).listener.enabled ≡ s.listener.enabled)
  unfolding normalize_settings
  normalize_settings-enabled s = ground arith

  -- The daemon at its start.
  start_fields :
      (f : Flags)
      → (let w = start_world C (settings_of f) in
          (w.daemon.settings.sender.enabled ≡ f.sender_enabled)
          × (w.daemon.settings.listener.enabled ≡ f.listener_enabled)
          × (w.daemon.sender.running ≡ false)
          × (w.daemon.sender_files ≡ []))
  unfolding start_world new_daemon settings_of
  start_fields f = let (a, b) = normalize_settings-enabled (settings_of f) in (a, b, refl, refl)

  fails :
      (faults : Faults) (f : Flags) (s : Sockets) (r : World C × Option String) (e : String)
      → r.1 ≡ some e
      → after_reconcile C faults f s r ≡ fatal ("apply initial settings: " <> e) r.0 s
  fails faults f s (w, none) e h = cc
  fails faults f s (w, some e') e h = cc

  -- With the flag `-sender-enabled` the daemon command always ends at once, whatever the other flags, the
  -- certificates and the sockets are: no file can be set before the settings are applied.
  pub boot-sender_enabled :
      (faults : Faults) (f : Flags) (s : Sockets)
      → f.sender_enabled ≡ true
      → (w : World C) × (boot C env faults f s
          ≡ fatal "apply initial settings: no sender files configured" w s)
  unfolding boot
  boot-sender_enabled faults f s h =
      let fields = start_fields f in
      let r = reconcile C env (start_world C (settings_of f)) in
      (
        r.0,
        fails faults f s r "no sender files configured"
            (reconcile-no_files (start_world C (settings_of f)) (fields.0 ∙ h) fields.2 fields.3),
      )

  clash : {o : Option String} {e : String} → o ≡ some e → o ≡ none → ⊥
  clash p q = cc

  -- What holds if the settings were applied without an error.
  abbrev Applied : Flags → World C × Option String → Type 0
  Applied f (w, e) =
      e ≡ none
      → (f.sender_enabled ≡ false)
        × (w.daemon.sender.running ≡ false)
        × (w.daemon.listener.running ≡ f.listener_enabled)

  applied : (f : Flags) → Applied f (reconcile C env (start_world C (settings_of f)))
  applied f h =
      let fields = start_fields f in
      let w = start_world C (settings_of f) in
      elim (Bool-cases f.sender_enabled) [
        | inl e ↦ absurd (clash (reconcile-no_files w (fields.0 ∙ e) fields.2 fields.3) h)
        | inr e ↦ let runs = reconcile-none w (fields.0 ∙ e) h in (e, runs.0, runs.1 ∙ fields.1)
      ]

  -- How `main` comes to its end, or to serve.
  abbrev pub Boots : Flags → Sockets → Started C → Type 0
  Boots f s (fatal e w t) = t.listeners ≡ s.listeners
  Boots f s (serving w t l) =
      Inv C w
      × (f.sender_enabled ≡ false)
      × (w.daemon.sender.running ≡ false)
      × (w.daemon.listener.running ≡ f.listener_enabled)
      × Listened (new_client f.ipc_socket).endpoint s (t, ok l)

  -- The numbers of the open listeners were given out before. If the daemon command comes to serve, then the
  -- daemon has its invariant, its sender does not run, its listener runs if that was asked for, and the
  -- endpoint is open where clients dial, for the owner only; if it ends with an error it has left no
  -- endpoint open.
  pub boot-Boots :
      (faults : Faults) (f : Flags) (s : Sockets)
      → AreOld s.next s.listeners
      → Boots f s (boot C env faults f s)
  unfolding boot new_client
  boot-Boots faults f s h =
      by_result (reconcile C env (start_world C (settings_of f)))
        (reconcile-Inv C env _ (start_world-Inv C (settings_of f))) (applied f)
    where
      by_listen :
          (w : World C) (r : Sockets × Result Listener)
          → Inv C w
          → Applied f (w, none)
          → Listened (new_client f.ipc_socket).endpoint s r
          → Boots f s (after_listen C w r)
      by_listen w (t, err e) v a told = told.0
      by_listen w (t, ok l) v a told = let facts = a refl in (v, facts.0, facts.1, facts.2, told)

      by_result :
          (r : World C × Option String)
          → Inv C r.0
          → Applied f r
          → Boots f s (after_reconcile C faults f s r)
      by_result (w, some e) v a = refl
      by_result (w, none) v a =
          by_listen w (listen faults f.ipc_socket s) v a (listen-Listened faults f.ipc_socket s h)
