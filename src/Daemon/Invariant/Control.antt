-- ===== src/Daemon/Invariant/Control.antt =====
-- `Reconcile`, `UpdateSettings`, `Shutdown` and `New` keep the invariant.
use m_tlsling.Base.{Bool, true, false, arith}
use m_tlsling.Config.{Crypto}
use m_tlsling.Daemon.Types.{Settings}
use m_tlsling.Daemon.State.{World, Env, with_settings, start_world}
use m_tlsling.Daemon.Normalize.Laws.{IsUsable, normalize_settings-IsUsable}
use m_tlsling.Daemon.Control.{
  bring_sender, bring_listener, stop_running, reconcile, update_settings, shutdown,
}
use m_tlsling.Daemon.Invariant.Defs.{Inv}
use m_tlsling.Daemon.Invariant.Sender.{start_sender-Inv, stop_sender-Inv}
use m_tlsling.Daemon.Invariant.Listener.{start_listener-Inv, stop_listener-Inv}

module _ (C : Crypto) where
  pub with_settings-Inv :
      (s : Settings) (w : World C) → IsUsable s → Inv C w → Inv C (with_settings C s w)
  with_settings-Inv s w u v = record {
    sender = v.sender;
    listener = v.listener;
    usable = u;
    files = v.files;
    ctx = v.ctx;
    srv = v.srv;
    listener_ctx = v.listener_ctx;
  }

  bring_sender-Inv :
      (env : Env C) (on : Bool) (w : World C) → Inv C w → Inv C (bring_sender C env on w).0
  unfolding bring_sender
  bring_sender-Inv env true w v = start_sender-Inv C env false w v
  bring_sender-Inv env false w v = stop_sender-Inv C false w v

  bring_listener-Inv :
      (env : Env C) (on : Bool) (w : World C) → Inv C w → Inv C (bring_listener C env on w).0
  unfolding bring_listener
  bring_listener-Inv env true w v = start_listener-Inv C env false w v
  bring_listener-Inv env false w v = stop_listener-Inv C false w v

  pub reconcile-Inv : (env : Env C) (w : World C) → Inv C w → Inv C (reconcile C env w).0
  unfolding reconcile
  reconcile-Inv env w v = bring_listener-Inv env _ _ (bring_sender-Inv env _ w v)

  stop_running-Inv :
      (sender listener : Bool) (w : World C) → Inv C w → Inv C (stop_running C sender listener w)
  unfolding stop_running
  stop_running-Inv false false w v = v
  stop_running-Inv false true w v = stop_listener-Inv C false w v
  stop_running-Inv true false w v = stop_sender-Inv C false w v
  stop_running-Inv true true w v = stop_listener-Inv C false _ (stop_sender-Inv C false w v)

  -- `UpdateSettings`, with all the stops and starts in it and whatever they meet, keeps the invariant of
  -- the daemon.
  pub update_settings-Inv :
      (env : Env C) (settings : Settings) (w : World C)
      → Inv C w
      → Inv C (update_settings C env settings w).0
  unfolding update_settings
  update_settings-Inv env settings w v = reconcile-Inv env _ (
      stop_running-Inv w.daemon.sender.running w.daemon.listener.running _
        (with_settings-Inv _ w (normalize_settings-IsUsable settings) v))

  pub shutdown-Inv : (w : World C) → Inv C w → Inv C (shutdown C w)
  unfolding shutdown
  shutdown-Inv w v = stop_listener-Inv C false _ (stop_sender-Inv C false w v)

  pub start_world-Inv : (settings : Settings) → Inv C (start_world C settings)
  unfolding start_world
  start_world-Inv settings = ground (arith, normalize_settings-IsUsable settings)
