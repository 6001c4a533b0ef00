-- ===== src/Daemon/Invariant/Sender.antt =====
-- The steps of the sender keep the invariant.
use m_tlsling.Base.{
  ℕ, ◌≡◌, refl, inl, inr, String, ◌<>◌, Bool, true, false, Option, none, some, List, [], ◌∷◌, Map,
  eq_iff, insert, lookup, insert-IsMap, arith, Option-cases, Result-cases, Bool-cases,
}
use m_tlsling.Server.Types.{ConnEvent}
use m_tlsling.Config.{Crypto, TlsConfig}
use m_tlsling.Discovery.{Advert}
use m_tlsling.Daemon.Types.{SenderSettings}
use m_tlsling.Daemon.State.{ConnState, SenderRuntime, World, Env, is_cancelled}
use m_tlsling.Daemon.Normalize.Laws.{normalize_files_lem}
use m_tlsling.Daemon.Sender.{
  apply_to_conn, new_conn, apply_event, set_sender_files, set_sender_error, apply_sender_event,
  begin_sender, build_sender, commit_sender, start_sender, stop_sender, mark_sender_stopped,
  tell_server_error, server_exits, broadcast_exits,
}
use m_tlsling.Daemon.Invariant.Defs.{AreKeyed, SenderInv, Inv}

apply_to_conn-id : (ev : ConnEvent) (c : ConnState) → (apply_to_conn ev c).id ≡ c.id
unfolding apply_to_conn
apply_to_conn-id ev c = ground arith

insert-AreKeyed :
    (id : String) (c : ConnState) (m : Map ConnState)
    → c.id ≡ id
    → AreKeyed m
    → AreKeyed (insert id c m)
unfolding insert
insert-AreKeyed id c [] e k = (e, tt)
insert-AreKeyed id c ((j, d) ∷ m) e k = ground (arith, eq_iff j id, insert-AreKeyed id c m e k.1)

lookup-AreKeyed :
    (id : String) (m : Map ConnState) {c : ConnState}
    → AreKeyed m
    → lookup id m ≡ some c
    → c.id ≡ id
unfolding lookup
lookup-AreKeyed id [] k h = absurd (ground arith)
lookup-AreKeyed id ((j, d) ∷ m) {c} k h =
    ground (arith, eq_iff j id, lookup-AreKeyed id m {c = c} k.1)

pub apply_event-SenderInv :
    (ev : ConnEvent) (s : SenderRuntime) → SenderInv s → SenderInv (apply_event ev s)
unfolding apply_event
apply_event-SenderInv ev s v = elim (Option-cases (lookup ev.id s.connections)) [
  | inl h ↦ record {
    held = v.held;
    served = v.served;
    distinct = insert-IsMap ev.id _ s.connections v.distinct;
    keyed =
        insert-AreKeyed ev.id _ s.connections (ground (arith, apply_to_conn-id ev (new_conn ev)))
          v.keyed;
  }
  | inr (c, h) ↦ record {
    held = v.held;
    served = v.served;
    distinct = insert-IsMap ev.id _ s.connections v.distinct;
    keyed =
        insert-AreKeyed ev.id _ s.connections
          (ground
            (arith, apply_to_conn-id ev c, lookup-AreKeyed ev.id s.connections {c = c} v.keyed))
          v.keyed;
  }
]

module _ (C : Crypto) where
  pub apply_sender_event-Inv :
      (ev : ConnEvent) (w : World C) → Inv C w → Inv C (apply_sender_event C ev w)
  unfolding apply_sender_event
  apply_sender_event-Inv ev w v = record {
    sender = apply_event-SenderInv ev w.daemon.sender v.sender;
    listener = v.listener;
    usable = v.usable;
    files = v.files;
    ctx = v.ctx;
    srv = v.srv;
    listener_ctx = v.listener_ctx;
  }

  pub set_sender_files-Inv :
      (files : List String) (w : World C) → Inv C w → Inv C (set_sender_files C files w)
  unfolding set_sender_files
  set_sender_files-Inv files w v = record {
    sender = v.sender;
    listener = v.listener;
    usable = v.usable;
    files = (normalize_files_lem files).0;
    ctx = v.ctx;
    srv = v.srv;
    listener_ctx = v.listener_ctx;
  }

  pub set_sender_error-Inv : (e : String) (w : World C) → Inv C w → Inv C (set_sender_error C e w)
  unfolding set_sender_error
  set_sender_error-Inv e w v = record {
    sender = record {
      held = v.sender.held;
      served = v.sender.served;
      distinct = v.sender.distinct;
      keyed = v.sender.keyed;
    };
    listener = v.listener;
    usable = v.usable;
    files = v.files;
    ctx = v.ctx;
    srv = v.srv;
    listener_ctx = v.listener_ctx;
  }

  pub begin_sender-Inv : (update : Bool) (w : World C) → Inv C w → Inv C (begin_sender C update w).0
  unfolding begin_sender
  begin_sender-Inv true w v = ground arith
  begin_sender-Inv false w v = ground arith

  pub commit_sender-Inv :
      (s : SenderSettings) (cfg : TlsConfig C) (advert : Advert) (w : World C)
      → Inv C w
      → Inv C (commit_sender C s cfg advert w)
  unfolding commit_sender
  commit_sender-Inv s cfg advert w v = ground arith

  pub start_sender-Inv :
      (env : Env C) (update : Bool) (w : World C) → Inv C w → Inv C (start_sender C env update w).0
  unfolding start_sender
  start_sender-Inv env update w v = go (begin_sender C update w).1 refl
    where
      w1 : World C
      w1 = (begin_sender C update w).0

      go :
          (ready : Option (SenderSettings × List String))
          → (begin_sender C update w).1 ≡ ready
          → Inv C (start_sender C env update w).0
      go none e = rw (e, start_sender) (begin_sender-Inv update w v)
      go (some (s, files)) e = elim (Result-cases (build_sender C env s files)) [
        | inl ((cfg, advert), k) ↦
            rw (e, start_sender)
              (rw k (commit_sender-Inv s cfg advert w1 (begin_sender-Inv update w v)))
        | inr (m, k) ↦
            rw (e, start_sender) (rw k (set_sender_error-Inv m w1 (begin_sender-Inv update w v)))
      ]

  pub stop_sender-Inv : (update : Bool) (w : World C) → Inv C w → Inv C (stop_sender C update w)
  unfolding stop_sender
  stop_sender-Inv update w v = ground arith

  pub mark_sender_stopped-Inv :
      (srv : ℕ) (w : World C) → Inv C w → Inv C (mark_sender_stopped C srv w)
  unfolding mark_sender_stopped
  mark_sender_stopped-Inv srv w v = ground arith

  tell_server_error-Inv :
      (ctx : ℕ) (error : Option String) (w : World C)
      → Inv C w
      → Inv C (tell_server_error C ctx error w)
  unfolding tell_server_error
  tell_server_error-Inv ctx none w v = v
  tell_server_error-Inv ctx (some e) w v = elim (Bool-cases (is_cancelled ctx w.cancelled)) [
    | inl k ↦ rw k v
    | inr k ↦ rw k (set_sender_error-Inv ("sender server stopped: " <> e) w v)
  ]

  pub cancelled_Inv :
      (ctx : ℕ) (w : World C) → Inv C w → Inv C (record w { cancelled = ctx ∷ w.cancelled })
  cancelled_Inv ctx w v = ground arith

  pub server_exits-Inv :
      (ctx srv : ℕ) (error : Option String) (w : World C)
      → Inv C w
      → Inv C (server_exits C ctx srv error w)
  unfolding server_exits
  server_exits-Inv ctx srv error w v =
      mark_sender_stopped-Inv srv _ (cancelled_Inv ctx _ (tell_server_error-Inv ctx error w v))

  pub broadcast_exits-Inv :
      (ctx : ℕ) (error : Option String) (w : World C)
      → Inv C w
      → Inv C (broadcast_exits C ctx error w)
  unfolding broadcast_exits set_sender_error
  broadcast_exits-Inv ctx error w v = ground arith
