-- ===== src/Daemon/Control.antt =====
-- `Reconcile`, `UpdateSettings` and `Shutdown` of internal/senderdaemon/daemon.go.
pub mod Effects
use m_tlsling.Base.{Bool, true, false, String, Option, none, some, if◌then◌else◌}
use m_tlsling.Config.{Crypto}
use m_tlsling.Daemon.Types.{Settings}
use m_tlsling.Daemon.Normalize.{normalize_settings}
use m_tlsling.Daemon.State.{World, Env, with_settings}
use m_tlsling.Daemon.Sender.{start_sender, stop_sender}
use m_tlsling.Daemon.Listener.{start_listener, stop_listener}

abbrev pub first_error : Option String → Option String → Option String
first_error (some e) _ = some e
first_error none second = second

module _ (C : Crypto) where
  -- One half of `Reconcile`.
  unfoldable pub bring_sender : Env C → Bool → World C → World C × Option String
  bring_sender env true w = start_sender C env false w
  bring_sender env false w = (stop_sender C false w, none)

  unfoldable pub bring_listener : Env C → Bool → World C → World C × Option String
  bring_listener env true w = start_listener C env false w
  bring_listener env false w = (stop_listener C false w, none)

  -- `Reconcile`: both halves are brought to what the settings say; the first error is returned.
  unfoldable pub reconcile : Env C → World C → World C × Option String
  reconcile env w =
      let settings = w.daemon.settings in
      let (w, first) = bring_sender env settings.sender.enabled w in
      let (w, second) = bring_listener env settings.listener.enabled w in
      (w, first_error first second)

  -- The halves that ran are stopped, and take the new settings when they start again.
  unfoldable pub stop_running : Bool → Bool → World C → World C
  stop_running sender_was_running listener_was_running w =
      let w = if sender_was_running then stop_sender C false w else w in
      if listener_was_running then stop_listener C false w else w

  -- `UpdateSettings`
  unfoldable pub update_settings : Env C → Settings → World C → World C × Option String
  update_settings env settings w = reconcile env (
      stop_running w.daemon.sender.running w.daemon.listener.running
        (with_settings C (normalize_settings settings) w))

  -- `Shutdown`
  unfoldable pub shutdown : World C → World C
  shutdown w = stop_listener C false (stop_sender C false w)
