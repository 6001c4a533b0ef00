-- ===== src/Daemon/Step/Reachable.antt =====
-- The invariant holds after every history of steps.
use m_tlsling.Base.{ap, [], subst}
use m_tlsling.Config.{Crypto}
use m_tlsling.Daemon.Types.{Settings}
use m_tlsling.Daemon.State.{World, Env, start_world}
use m_tlsling.Daemon.Normalize.Laws.{normalize_settings-IsUsable}
use m_tlsling.Daemon.Invariant.Defs.{Inv}
use m_tlsling.Daemon.Invariant.Sender.{
  set_sender_files-Inv, set_sender_error-Inv, apply_sender_event-Inv, begin_sender-Inv,
  commit_sender-Inv, stop_sender-Inv, mark_sender_stopped-Inv, cancelled_Inv,
}
use m_tlsling.Daemon.Invariant.Control.{with_settings-Inv, start_world-Inv}
use m_tlsling.Daemon.Invariant.Listener.{
  set_listener_error-Inv, add_listener_event-Inv, begin_listener-Inv, commit_listener-Inv,
  stop_listener-Inv, mark_listener_stopped-Inv, heard-Inv,
}
use m_tlsling.Daemon.Step.{Pending, System, Atomic, Step, Reach, commit, sender, listener}

module _ (C : Crypto) (env : Env C) where
  Atomic-Inv : {w w' : World C} → Atomic C env w w' → Inv C w → Inv C w'
  Atomic-Inv {w} (Atomic.sets_files files) v = set_sender_files-Inv C files w v
  Atomic-Inv {w} (Atomic.sets_settings s) v =
      with_settings-Inv C _ w (normalize_settings-IsUsable s) v
  Atomic-Inv {w} (Atomic.fails_sender e) v = set_sender_error-Inv C e w v
  Atomic-Inv {w} (Atomic.fails_listener e) v = set_listener_error-Inv C e w v
  Atomic-Inv {w} (Atomic.stops_sender update) v = stop_sender-Inv C update w v
  Atomic-Inv {w} (Atomic.stops_listener update) v = stop_listener-Inv C update w v
  Atomic-Inv {w} (Atomic.marks_sender srv) v = mark_sender_stopped-Inv C srv w v
  Atomic-Inv {w} Atomic.marks_listener v = mark_listener_stopped-Inv C w v
  Atomic-Inv {w} (Atomic.hears_event ev) v = apply_sender_event-Inv C ev w v
  Atomic-Inv {w} (Atomic.hears_advert id ts) v = heard-Inv C id ts w v
  Atomic-Inv {w} (Atomic.notes ev) v = add_listener_event-Inv C ev w v
  Atomic-Inv {w} (Atomic.cancels ctx) v = cancelled_Inv C ctx w v

  commit-Inv : (p : Pending C env) (w : World C) → Inv C w → Inv C (commit C env p w)
  commit-Inv (sender s cfg advert) w v = commit_sender-Inv C s cfg advert w v
  commit-Inv (listener s cert roots) w v = commit_listener-Inv C s cert roots w v

  Step-Inv : {s t : System C env} → Step C env s t → Inv C s.world → Inv C t.world
  Step-Inv (Step.acts a) v = Atomic-Inv a v
  Step-Inv (Step.begins_sender {w = w} update s files cfg advert e b) v =
      subst (Inv C) (ap (λ r. r.0) e) (begin_sender-Inv C update w v)
  Step-Inv (Step.begins_listener {w = w} update s cert roots e b) v =
      subst (Inv C) (ap (λ r. r.0) e) (begin_listener-Inv C update w v)
  Step-Inv (Step.finds_running {w = w} update e) v =
      subst (Inv C) (ap (λ r. r.0) e) (begin_sender-Inv C update w v)
  Step-Inv (Step.finds_listening {w = w} update e) v =
      subst (Inv C) (ap (λ r. r.0) e) (begin_listener-Inv C update w v)
  Step-Inv (Step.commits {w = w} before p behind e) v = commit-Inv p w v

  -- Whatever the order in which calls and goroutines take the lock, from a new daemon only states
  -- with the invariant are reached: a half of the daemon runs exactly while it holds what stops it, the
  -- settings are usable, no file is listed twice, at most 64 events are kept, and each connection is
  -- filed under its own id.
  pub Reach-Inv :
      (settings : Settings) {s : System C env}
      → Reach C env (record { world = start_world C settings; pending = [] }) s
      → Inv C s.world
  Reach-Inv settings Reach.here = start_world-Inv C settings
  Reach-Inv settings (Reach.next r st) = Step-Inv st (Reach-Inv settings r)
