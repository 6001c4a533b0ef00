-- ===== src/Daemon/Step/StaleExit.antt =====
-- A goroutine of an earlier run that ends while a later run goes on.
use m_tlsling.Base.{
  ℕ, ◌≡◌, ◌≢◌, refl, sym, subst, ap, String, Bool, true, false, Option, none, some, List, ok, arith,
}
use mathlib.Core.List.{Memᴰ}
use m_tlsling.Config.{Crypto, Certificate}
use m_tlsling.Daemon.Types.{ListenerSettings}
use m_tlsling.Daemon.State.{World, Env, run_listener, is_cancelled, cancel_ctx}
use m_tlsling.Daemon.Sender.{server_exits, tell_server_error, set_sender_error, mark_sender_stopped}
use m_tlsling.Daemon.Listener.{
  begin_listener, build_listener, commit_listener, start_listener, stop_listener, listener_exits,
  mark_listener_stopped,
}

-- When a server ends, with an error or without, while the daemon holds another, later one, the sender is
-- neither marked as stopped nor loses what stops it.
pub server_exits-later :
    (C : Crypto) (ctx srv later : ℕ) (error : Option String) (w : World C)
    → w.daemon.sender.srv ≡ some later
    → later ≢ srv
    → let s = (server_exits C ctx srv error w).daemon.sender in
      (s.running ≡ w.daemon.sender.running)
      × (s.cancel ≡ w.daemon.sender.cancel)
      × (s.srv ≡ some later)
unfolding server_exits tell_server_error set_sender_error mark_sender_stopped
server_exits-later C ctx srv later none w h other = ground arith
server_exits-later C ctx srv later (some e) w h other = ground arith

-- A listener runs whose context nobody holds.
pub record OrphanedListener (C : Crypto) (ctx : ℕ) (s : ListenerSettings) (cert : Certificate C)
    (roots : Option C.CertPool) (w : World C) : Type 0 where
  pub not_running : w.daemon.listener.running ≡ false
  pub no_handle : w.daemon.listener.cancel ≡ none
  pub not_cancelled : is_cancelled ctx w.cancelled ≡ false
  pub listening : Memᴰ (run_listener ctx s cert roots) w.tasks

begin_stopped :
    (C : Crypto) (w : World C)
    → w.daemon.listener.running ≡ false
    → begin_listener C false w ≡ (w, some w.daemon.settings.listener)
unfolding begin_listener
begin_stopped C w off = ground arith

start_stopped :
    (C : Crypto) (env : Env C) (w : World C) {cert : Certificate C} {roots : Option C.CertPool}
    → w.daemon.listener.running ≡ false
    → build_listener C env w.daemon.settings.listener ≡ ok (cert, roots)
    → start_listener C env false w
      ≡ (commit_listener C w.daemon.settings.listener cert roots w, none)
unfolding start_listener
start_stopped C env w {cert = cert} {roots = roots} off built =
    rw (begin_stopped C w off, start_listener)
      (rw built (
        ap (λ r. (commit_listener C w.daemon.settings.listener cert roots r.0, none))
          (begin_stopped C w off)))

stopped_facts :
    (C : Crypto) (w : World C)
    → w.daemon.listener.running ≡ true
    → let t = stop_listener C false w in
      (t.daemon.listener.running ≡ false)
      × (t.daemon.settings ≡ w.daemon.settings)
      × (t.next_ctx ≡ w.next_ctx)
      × (t.cancelled ≡ cancel_ctx w.daemon.listener.cancel w.cancelled)
unfolding stop_listener
stopped_facts C w on = ground arith

exit_orphans :
    (C : Crypto) (s : ListenerSettings) (cert : Certificate C) (roots : Option C.CertPool)
    (w : World C) (update : Bool)
    → is_cancelled w.next_ctx w.cancelled ≡ false
    → OrphanedListener C w.next_ctx s cert roots
        (stop_listener C update (listener_exits C none (commit_listener C s cert roots w)))
unfolding commit_listener listener_exits mark_listener_stopped stop_listener
exit_orphans C s cert roots w update fresh = record {
  not_running = refl;
  no_handle = refl;
  not_cancelled = fresh;
  listening = Memᴰ.head refl;
}

not_cancelled :
    (ctx : ℕ) (o : Option ℕ) (cs : List ℕ)
    → o ≢ some ctx
    → is_cancelled ctx cs ≡ false
    → is_cancelled ctx (cancel_ctx o cs) ≡ false
unfolding is_cancelled
not_cancelled ctx none cs other h = h
not_cancelled ctx (some c) cs other h = ground arith

-- The listener has no such test. If it runs, is stopped, is started again with success, and only then
-- the goroutine of the first run ends, the second run is marked as stopped, and its context, a new one, is
-- held by nobody: it stays uncancelled also when `StopListener` is called.
pub listener_exits-later :
    (C : Crypto) (env : Env C) (w : World C) (cert : Certificate C) (roots : Option C.CertPool)
    (update : Bool)
    → w.daemon.listener.running ≡ true
    → w.daemon.listener.cancel ≢ some w.next_ctx
    → is_cancelled w.next_ctx w.cancelled ≡ false
    → let s = w.daemon.settings.listener in
      build_listener C env s ≡ ok (cert, roots)
      → let again = (start_listener C env false (stop_listener C false w)).0 in
        OrphanedListener C w.next_ctx s cert roots
          (stop_listener C update (listener_exits C none again))
listener_exits-later C env w cert roots update on other fresh built =
    let t = stop_listener C false w in
    let (off, same, next, gone) = stopped_facts C w on in
    let rebuilt : build_listener C env t.daemon.settings.listener ≡ ok (cert, roots) =
      subst (λ r. build_listener C env r.listener ≡ ok (cert, roots)) (sym same) built in
    let kept : is_cancelled w.next_ctx t.cancelled ≡ false =
      subst (λ cs. is_cancelled w.next_ctx cs ≡ false) (sym gone)
        (not_cancelled w.next_ctx w.daemon.listener.cancel w.cancelled other fresh) in
    let still : is_cancelled t.next_ctx t.cancelled ≡ false =
      subst (λ n. is_cancelled n t.cancelled ≡ false) (sym next) kept in
    let at_exit = exit_orphans C t.daemon.settings.listener cert roots t update still in
    let at_settings =
      subst
        (λ r. OrphanedListener C t.next_ctx r.listener cert roots (
          stop_listener C update
            (listener_exits C none (commit_listener C t.daemon.settings.listener cert roots t))))
        same at_exit in
    let at_ctx =
      subst
        (λ n. OrphanedListener C n w.daemon.settings.listener cert roots (
          stop_listener C update
            (listener_exits C none (commit_listener C t.daemon.settings.listener cert roots t))))
        next at_settings in
    subst
      (λ r.
        OrphanedListener C w.next_ctx w.daemon.settings.listener cert roots
          (stop_listener C update (listener_exits C none r.0)))
      (sym (start_stopped C env t off rebuilt)) at_ctx
