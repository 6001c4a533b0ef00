-- ===== src/Senderd/Exit.antt =====
-- The end of the daemon command, alone and beside a second one.
use m_tlsling.Base.{
  ℕ, ◌<◌, String, Bool, true, false, Option, none, some, List, ◌∷◌, ok, ◌≡◌, refl, sym, subst, ap,
  ◌∙◌, arith, lookup, Map, erase, lookup-erase, eq_iff, is_some, if◌then◌else◌,
}
use m_tlsling.Config.{Crypto}
use m_tlsling.Daemon.State.{World, Env, is_cancelled, cancel_ctx, SenderRuntime, ListenerRuntime}
use m_tlsling.Daemon.Sender.{stop_sender}
use m_tlsling.Daemon.Listener.{stop_listener}
use m_tlsling.Daemon.Control.{shutdown}
use m_tlsling.Daemon.Control.Effects.{
  stop_sender-running, stop_listener-running, stop_listener-sender,
}
use m_tlsling.Daemon.Invariant.Defs.{Inv}
use m_tlsling.Ipc.{
  normalize_endpoint, Listener, Sockets, RemoveFault, Faults, remove, without, close, listen, dial,
}
use m_tlsling.Ipc.Listening.{AreOld, Listened, listen-Listened}
use m_tlsling.Senderd.{Flags, leave}

module _ (C : Crypto) where
  -- A context or a server that was held is ended.
  abbrev pub IsEnded : Option ℕ → List ℕ → Type 0
  IsEnded none over = Unit {0}
  IsEnded (some n) over = is_cancelled n over ≡ true

  -- The handles that are ended, of a half that runs.
  abbrev ended_with : Bool → Option ℕ → List ℕ → List ℕ
  ended_with running handle over = if running then cancel_ctx handle over else over

  IsEnded-held :
      (b : Bool) (o : Option ℕ) (over : List ℕ) → is_some o ≡ b → IsEnded o (ended_with b o over)
  unfolding is_cancelled
  IsEnded-held true none over h = tt
  IsEnded-held true (some n) over h = ground arith
  IsEnded-held false none over h = tt
  IsEnded-held false (some n) over h = cc

  IsEnded-more :
      (b : Bool) (o p : Option ℕ) (over : List ℕ) → IsEnded o over → IsEnded o (ended_with b p over)
  unfolding is_cancelled
  IsEnded-more b none p over h = tt
  IsEnded-more false (some n) p over h = h
  IsEnded-more true (some n) none over h = h
  IsEnded-more true (some n) (some m) over h = ground arith

  stop_sender_handles :
      (w : World C)
      → ((stop_sender C false w).cancelled
          ≡ ended_with w.daemon.sender.running w.daemon.sender.cancel w.cancelled)
        × ((stop_sender C false w).stopped
            ≡ ended_with w.daemon.sender.running w.daemon.sender.srv w.stopped)
        × ((stop_sender C false w).daemon.listener ≡ w.daemon.listener)
  unfolding stop_sender
  stop_sender_handles w = (ground arith, ground arith, ground arith)

  stop_listener_handles :
      (w : World C)
      → ((stop_listener C false w).cancelled
          ≡ ended_with w.daemon.listener.running w.daemon.listener.cancel w.cancelled)
        × ((stop_listener C false w).stopped ≡ w.stopped)
  unfolding stop_listener
  stop_listener_handles w = (ground arith, ground arith)

  -- All that a daemon had started is ended.
  pub record IsDown (w v : World C) : Type 0 where
    pub sender : v.daemon.sender.running ≡ false
    pub listener : v.daemon.listener.running ≡ false
    pub sender_ctx : IsEnded w.daemon.sender.cancel v.cancelled
    pub listener_ctx : IsEnded w.daemon.listener.cancel v.cancelled
    pub srv : IsEnded w.daemon.sender.srv v.stopped

  shutdown-IsDown : (env : Env C) (w : World C) → Inv C w → IsDown w (shutdown C w)
  unfolding shutdown
  shutdown-IsDown env w v =
      let u = stop_sender C false w in
      let first = stop_sender_handles w in
      let second = stop_listener_handles u in
      record {
        sender =
            ap (λ (s : SenderRuntime). s.running) (stop_listener-sender C env u)
            ∙ stop_sender-running C env false w;
        listener = stop_listener-running C env false u;
        sender_ctx = subst (IsEnded w.daemon.sender.cancel) (sym second.0) (
            IsEnded-more u.daemon.listener.running w.daemon.sender.cancel u.daemon.listener.cancel
              u.cancelled
              (subst (IsEnded w.daemon.sender.cancel) (sym first.0)
                (IsEnded-held w.daemon.sender.running _ w.cancelled v.sender.held)));
        listener_ctx = subst (IsEnded w.daemon.listener.cancel) (sym second.0) (
            subst
              (λ (l : ListenerRuntime).
                IsEnded w.daemon.listener.cancel (ended_with l.running l.cancel u.cancelled))
              (sym first.2) (IsEnded-held w.daemon.listener.running _ u.cancelled v.listener.held));
        srv =
            subst (IsEnded w.daemon.sender.srv) (sym (second.1 ∙ first.1))
              (IsEnded-held w.daemon.sender.running _ w.stopped v.sender.served);
      }

lookup-erase_self : (k : String) (m : Map ℕ) → lookup k (erase k m) ≡ none
lookup-erase_self k m = ground (arith, lookup-erase k k m, eq_iff k k)

without-other :
    (n m : ℕ) (k : Listener) (ls : List Listener)
    → n < m
    → k.number ≡ m
    → without n (k ∷ ls) ≡ k ∷ without n ls
unfolding without
without-other n m k ls h e = ground arith

-- Once a socket is gone, removing its path changes nothing.
removed-none :
    (faults : Faults) (path : String) (s : Sockets)
    → lookup path s.modes ≡ none
    → lookup path (remove faults path s).0.modes ≡ none
removed-none faults path s h = by_fault (faults.remove path)
  where
    by_fault :
        (o : Option RemoveFault)
        → lookup path
            (elim o as (λ _. Sockets × Option RemoveFault) [
              | none ↦ (record s { modes = erase path s.modes }, none)
              | some e ↦ (s, some e)
            ]).0.modes
          ≡ none
    by_fault none = lookup-erase_self path s.modes
    by_fault (some e) = h

removed-listeners :
    (faults : Faults) (path : String) (s : Sockets)
    → (remove faults path s).0.listeners ≡ s.listeners
removed-listeners faults path s = by_fault (faults.remove path)
  where
    by_fault :
        (o : Option RemoveFault)
        → (elim o as (λ _. Sockets × Option RemoveFault) [
          | none ↦ (record s { modes = erase path s.modes }, none)
          | some e ↦ (s, some e)
        ]).0.listeners
          ≡ s.listeners
    by_fault none = refl
    by_fault (some e) = refl

module _ (C : Crypto) (faults : Faults) (f : Flags) where
  -- The sockets after the end: the path of the endpoint is free, and the listener is closed.
  leave_sockets :
      (l : Listener) (w : World C) (s : Sockets)
      → l.path ≡ dial f.ipc_socket
      → (lookup (dial f.ipc_socket) (leave C faults f l w s).1.modes ≡ none)
        × ((leave C faults f l w s).1.listeners ≡ without l.number s.listeners)
  unfolding leave close dial
  leave_sockets l w s p = (
    removed-none faults (normalize_endpoint f.ipc_socket) (close l s)
        (subst (λ q. lookup q (close l s).modes ≡ none) p (lookup-erase_self l.path s.modes)),
    removed-listeners faults (normalize_endpoint f.ipc_socket) (close l s),
  )

  -- A daemon that serves, with its invariant and its listener at the endpoint: after the signal neither half
  -- runs, the contexts and the server that it held are ended, its listener is closed and no socket stands at
  -- the endpoint.
  pub leave-IsDown :
      (env : Env C) (l : Listener) (w : World C) (s : Sockets)
      → Inv C w
      → l.path ≡ dial f.ipc_socket
      → IsDown C w (leave C faults f l w s).0
        × (lookup (dial f.ipc_socket) (leave C faults f l w s).1.modes ≡ none)
        × ((leave C faults f l w s).1.listeners ≡ without l.number s.listeners)
  unfolding leave
  leave-IsDown env l w s v p =
      let sockets = leave_sockets l w s p in (shutdown-IsDown C env w v, sockets.0, sockets.1)

  -- A second daemon may be started while one serves at the same endpoint. When the first ends, no socket
  -- stands at the endpoint any more, although the second still listens: no client can reach it.
  pub leave-unlinks :
      (l k : Listener) (w : World C) (s t : Sockets)
      → AreOld s.next s.listeners
      → l.path ≡ dial f.ipc_socket
      → l.number < s.next
      → listen faults f.ipc_socket s ≡ (t, ok k)
      → (k.path ≡ dial f.ipc_socket)
        × ((leave C faults f l w t).1.listeners ≡ k ∷ without l.number s.listeners)
        × (lookup (dial f.ipc_socket) (leave C faults f l w t).1.modes ≡ none)
  leave-unlinks l k w s t old p n e =
      let told : Listened (dial f.ipc_socket) s (t, ok k) =
        subst (Listened (dial f.ipc_socket) s) e (listen-Listened faults f.ipc_socket s old) in
      let sockets = leave_sockets l w t p in
      (
        told.0,
        sockets.1
            ∙ ap (without l.number) told.2
            ∙ without-other l.number s.next k s.listeners n told.5,
        sockets.0,
      )
