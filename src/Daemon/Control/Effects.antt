-- ===== src/Daemon/Control/Effects.antt =====
-- What the daemon's calls leave behind: its settings, and whether its sender runs.
use m_tlsling.Base.{Bool, true, false, none, ◌≡◌, refl, ◌∙◌, arith}
use m_tlsling.Config.{Crypto}
use m_tlsling.Daemon.Types.{Settings}
use m_tlsling.Daemon.Normalize.{normalize_settings}
use m_tlsling.Daemon.State.{World, Env}
use m_tlsling.Daemon.Sender.{
  begin_sender, commit_sender, start_sender, stop_sender, set_sender_error,
}
use m_tlsling.Daemon.Listener.{
  begin_listener, commit_listener, start_listener, stop_listener, set_listener_error,
}
use m_tlsling.Daemon.Control.{
  bring_sender, bring_listener, reconcile, stop_running, update_settings,
}

module _ (C : Crypto) (env : Env C) where
  -- A start that returns no error leaves a sender that runs.
  pub start_sender-running :
      (b : Bool) (w : World C)
      → (start_sender C env b w).1 ≡ none
      → (start_sender C env b w).0.daemon.sender.running ≡ true
  unfolding start_sender begin_sender commit_sender
  start_sender-running b w h = ground arith

  -- A stop leaves a sender that does not run.
  pub stop_sender-running :
      (b : Bool) (w : World C) → (stop_sender C b w).daemon.sender.running ≡ false
  unfolding stop_sender
  stop_sender-running b w = ground arith

  pub start_listener-running :
      (b : Bool) (w : World C)
      → (start_listener C env b w).1 ≡ none
      → (start_listener C env b w).0.daemon.listener.running ≡ true
  unfolding start_listener begin_listener commit_listener
  start_listener-running b w h = ground arith

  pub stop_listener-running :
      (b : Bool) (w : World C) → (stop_listener C b w).daemon.listener.running ≡ false
  unfolding stop_listener
  stop_listener-running b w = ground arith

  start_listener-sender :
      (w : World C) → (start_listener C env false w).0.daemon.sender ≡ w.daemon.sender
  unfolding start_listener begin_listener commit_listener set_listener_error
  start_listener-sender w = ground arith

  pub stop_listener-sender :
      (w : World C) → (stop_listener C false w).daemon.sender ≡ w.daemon.sender
  unfolding stop_listener
  stop_listener-sender w = ground arith

  -- Nothing that the listener does touches the sender.
  pub bring_listener-sender :
      (b : Bool) (w : World C) → (bring_listener C env b w).0.daemon.sender ≡ w.daemon.sender
  unfolding bring_listener
  bring_listener-sender true w = start_listener-sender w
  bring_listener-sender false w = stop_listener-sender w

  -- Without an error the listener runs as it was asked.
  pub bring_listener-running :
      (b : Bool) (w : World C)
      → (bring_listener C env b w).1 ≡ none
      → (bring_listener C env b w).0.daemon.listener.running ≡ b
  unfolding bring_listener
  bring_listener-running true w h = start_listener-running false w h
  bring_listener-running false w h = stop_listener-running false w

  start_sender-settings :
      (w : World C) → (start_sender C env false w).0.daemon.settings ≡ w.daemon.settings
  unfolding start_sender begin_sender commit_sender set_sender_error
  start_sender-settings w = ground arith

  start_listener-settings :
      (w : World C) → (start_listener C env false w).0.daemon.settings ≡ w.daemon.settings
  unfolding start_listener begin_listener commit_listener set_listener_error
  start_listener-settings w = ground arith

  stop_sender-settings : (w : World C) → (stop_sender C false w).daemon.settings ≡ w.daemon.settings
  unfolding stop_sender
  stop_sender-settings w = ground arith

  stop_listener-settings :
      (w : World C) → (stop_listener C false w).daemon.settings ≡ w.daemon.settings
  unfolding stop_listener
  stop_listener-settings w = ground arith

  bring_sender-settings :
      (b : Bool) (w : World C) → (bring_sender C env b w).0.daemon.settings ≡ w.daemon.settings
  unfolding bring_sender
  bring_sender-settings true w = start_sender-settings w
  bring_sender-settings false w = stop_sender-settings w

  bring_listener-settings :
      (b : Bool) (w : World C) → (bring_listener C env b w).0.daemon.settings ≡ w.daemon.settings
  unfolding bring_listener
  bring_listener-settings true w = start_listener-settings w
  bring_listener-settings false w = stop_listener-settings w

  reconcile-settings : (w : World C) → (reconcile C env w).0.daemon.settings ≡ w.daemon.settings
  unfolding reconcile
  reconcile-settings w =
      bring_listener-settings w.daemon.settings.listener.enabled _
      ∙ bring_sender-settings w.daemon.settings.sender.enabled w

  stop_running-settings :
      (a b : Bool) (w : World C) → (stop_running C a b w).daemon.settings ≡ w.daemon.settings
  unfolding stop_running
  stop_running-settings true true w = stop_listener-settings _ ∙ stop_sender-settings w
  stop_running-settings true false w = stop_sender-settings w
  stop_running-settings false true w = stop_listener-settings w
  stop_running-settings false false w = refl

  -- `UpdateSettings` keeps the settings that it was given, in their normal form, whether it fails or not.
  pub update_settings-settings :
      (s : Settings) (w : World C)
      → (update_settings C env s w).0.daemon.settings ≡ normalize_settings s
  unfolding update_settings
  update_settings-settings s w = reconcile-settings _ ∙ stop_running-settings _ _ _
