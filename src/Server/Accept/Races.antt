-- ===== src/Server/Accept/Races.antt =====
-- Two orders of `Start` and `Stop` after which something goes on that `Stop` no longer ends.
use mathlib.Core.List.{Memᴰ}
use m_tlsling.Base.{
  ℕ, ◌<◌, ◌≡◌, refl, sym, subst, ap, ◌∙◌, String, true, false, some, [], ◌++◌, has, keys, lookup,
  lookup-insert, arith, if◌then◌else◌, eq_refl, Bool-cases, inl, inr,
}
use m_tlsling.Server.Accept.Closing.{Memᴰ-append-right}
use m_tlsling.Server.Accept.{
  listening, unstarted, accepting, holding, Server, stop, close_socket, conns_of, capacity,
  register, announce, end_conn, Step, Reach,
}

-- The server counts as stopped and its listener is open.
pub record IsLeaked (s : Server) : Type 0 where
  pub marked : s.is_stopped ≡ true
  pub unclosed : s.ln ≡ listening

-- `Stop`, called for the first time.
abbrev stopped_now : Server → Server
stopped_now s = record s {
  is_stopped = true;
  ln = close_socket s.ln;
  shut = conns_of s.connections ++ s.shut;
  connections = [];
}

stop_again : (s : Server) → s.is_stopped ≡ true → stop s ≡ s
unfolding stop
stop_again s h = ap (λ b. if b then s else stopped_now s) h

Step-IsLeaked : {s t : Server} → Step s t → IsLeaked s → IsLeaked t
unfolding stop register announce end_conn
Step-IsLeaked (Step.listens e) v = record { marked = v.marked; unclosed = refl }
Step-IsLeaked (Step.fails_to_listen x e) v = record { marked = v.marked; unclosed = v.unclosed }
Step-IsLeaked (Step.accepts conn e f) v = record { marked = v.marked; unclosed = v.unclosed }
Step-IsLeaked (Step.registers id conn e f) v = record { marked = v.marked; unclosed = v.unclosed }
Step-IsLeaked (Step.announces id conn e f) v = record { marked = v.marked; unclosed = v.unclosed }
Step-IsLeaked (Step.reports id conn e f) v = record { marked = v.marked; unclosed = v.unclosed }
Step-IsLeaked (Step.takes n e) v = record { marked = v.marked; unclosed = v.unclosed }
Step-IsLeaked (Step.fails_to_accept x e) v = record { marked = v.marked; unclosed = v.unclosed }
Step-IsLeaked {s} Step.stops v = subst IsLeaked (sym (stop_again s v.marked)) v
Step-IsLeaked (Step.ends id conn e why) v = record { marked = v.marked; unclosed = v.unclosed }

Reach-IsLeaked : {s t : Server} → IsLeaked s → Reach s t → IsLeaked t
Reach-IsLeaked v Reach.here = v
Reach-IsLeaked v (Reach.next r st) = Step-IsLeaked st (Reach-IsLeaked v r)

stop-is_stopped : (s : Server) → (stop s).is_stopped ≡ true
unfolding stop
stop-is_stopped s = ground arith

stop-phase : (s : Server) → (stop s).phase ≡ s.phase
unfolding stop
stop-phase s = ground arith

stop-handlers : (s : Server) → (stop s).handlers ≡ s.handlers
unfolding stop
stop-handlers s = ground arith

stop-events : (s : Server) → (stop s).events ≡ s.events
unfolding stop
stop-events s = ground arith

stop-shut :
    (s : Server) (conn : ℕ) → Memᴰ conn (stop s).shut → Memᴰ conn (conns_of s.connections ++ s.shut)
unfolding stop
stop-shut s conn m = elim (Bool-cases s.is_stopped) [
  | inl h ↦
      Memᴰ-append-right conn (conns_of s.connections) s.shut
        (subst (λ r. Memᴰ conn r.shut) (stop_again s h) m)
  | inr h ↦ subst (λ b. Memᴰ conn (if b then s else stopped_now s).shut) h m
]

-- `Stop` may be called before `Start` has made its listener. Then the listener is made all the same, and
-- whatever happens from there on, `Stop` included, it stays open while the server counts as stopped.
pub stop_before_listen :
    (s end : Server)
    → s.phase ≡ unstarted
    → Reach (record (stop s) { ln = listening; phase = accepting }) end
    → Reach s (record (stop s) { ln = listening; phase = accepting })
      × (end.is_stopped ≡ true)
      × (end.ln ≡ listening)
stop_before_listen s end new later =
    let leak : IsLeaked (record (stop s) { ln = listening; phase = accepting }) = record {
      marked = stop-is_stopped s;
      unclosed = refl;
    } in
    let kept = Reach-IsLeaked leak later in
    (
      Reach.next (Reach.next Reach.here Step.stops) (Step.listens (stop-phase s ∙ new)),
      kept.marked,
      kept.unclosed,
    )

-- A connection that `Accept` has returned when `Stop` is called, and that is registered after that and
-- announced while the channel has room, has a handler and stays open, also when `Stop` is called again.
pub stop_before_register :
    (s : Server) (id : String) (conn : ℕ)
    → s.phase ≡ holding conn
    → has id (keys s.handlers) ≡ false
    → s.events < capacity
    → (Memᴰ conn (conns_of s.connections ++ s.shut) → ⊥)
    → let t = stop (announce id conn (register id conn (stop s))) in
      Reach s t × (lookup id t.handlers ≡ some conn) × (Memᴰ conn t.shut → ⊥)
unfolding register announce
stop_before_register s id conn at fresh room unshut =
    let held : (stop s).phase ≡ holding conn = stop-phase s ∙ at in
    let new : has id (keys (stop s).handlers) ≡ false =
      ap (λ m. has id (keys m)) (stop-handlers s) ∙ fresh in
    let some_room : (stop s).events < capacity =
      subst (λ n. n < capacity) (sym (stop-events s)) room in
    let same = stop_again (announce id conn (register id conn (stop s))) (stop-is_stopped s) in
    (
      Reach.next
          (Reach.next
            (Reach.next (Reach.next Reach.here Step.stops) (Step.registers id conn held new))
            (Step.announces id conn refl some_room))
          Step.stops,
      ap (λ r. lookup id r.handlers) same
          ∙ ground (arith, lookup-insert id id conn (stop s).handlers, eq_refl id),
      λ m. unshut (stop-shut s conn (subst (λ r. Memᴰ conn r.shut) same m)),
    )

-- `Stop` may come too early in two ways. In a server whose `Start` has not made its listener yet, the
-- listener is made all the same, and whatever happens from there on, `Stop` included, it stays open while
-- the server counts as stopped. In a server that holds a new connection that `Accept` has returned, with an
-- id that no handler has and room in the channel, the connection is put into the map after the `Stop`, gets
-- a handler, and stays open, also when `Stop` is called again.
pub stop_early :
    (s end u : Server) (id : String) (conn : ℕ)
    → s.phase ≡ unstarted
    → Reach (record (stop s) { ln = listening; phase = accepting }) end
    → u.phase ≡ holding conn
    → has id (keys u.handlers) ≡ false
    → u.events < capacity
    → (Memᴰ conn (conns_of u.connections ++ u.shut) → ⊥)
    → let t = stop (announce id conn (register id conn (stop u))) in
      Reach s (record (stop s) { ln = listening; phase = accepting })
      × (end.is_stopped ≡ true)
      × (end.ln ≡ listening)
      × Reach u t
      × (lookup id t.handlers ≡ some conn)
      × (Memᴰ conn t.shut → ⊥)
stop_early s end u id conn new later at fresh room unshut =
    let (a, b, c) = stop_before_listen s end new later in
    let (d, e, f) = stop_before_register u id conn at fresh room unshut in (a, b, c, d, e, f)
