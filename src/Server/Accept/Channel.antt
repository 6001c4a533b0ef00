-- ===== src/Server/Accept/Channel.antt =====
-- The events channel of the server, when nobody reads it.
use m_tlsling.Base.{ℕ, ◌≤◌, ◌≡◌, ◌∙◌, String, arith}
use m_tlsling.Server.Accept.{
  announcing, Server, new_server, stop, capacity, register, announce, end_conn, Step, Reach,
}

stop-parts : (s : Server) → ((stop s).phase ≡ s.phase) × ((stop s).events ≡ s.events)
unfolding stop
stop-parts s = ground arith

Step-events : {s t : Server} → Step s t → s.events ≤ capacity → t.events ≤ capacity
unfolding register announce end_conn
Step-events (Step.listens e) h = h
Step-events (Step.fails_to_listen x e) h = h
Step-events (Step.accepts conn e f) h = h
Step-events (Step.registers id conn e f) h = h
Step-events (Step.announces id conn e f) h = omega arith
Step-events (Step.fails_to_accept x e) h = h
Step-events {s} Step.stops h = omega (arith, (stop-parts s).1)
Step-events (Step.reports id conn e f) h = omega arith
Step-events (Step.takes n e) h = omega arith
Step-events (Step.ends id conn e why) h = h

-- The channel never holds more events than it has room for.
pub Reach-events : {s : Server} → Reach new_server s → s.events ≤ capacity
unfolding new_server
Reach-events Reach.here = omega arith
Reach-events (Reach.next r st) = Step-events st (Reach-events r)

-- A step that takes no event out of the channel.
abbrev pub LeavesEvents : {s t : Server} → Step s t → Type 0
LeavesEvents (Step.listens e) = Unit {0}
LeavesEvents (Step.fails_to_listen x e) = Unit {0}
LeavesEvents (Step.accepts conn e f) = Unit {0}
LeavesEvents (Step.registers id conn e f) = Unit {0}
LeavesEvents (Step.announces id conn e f) = Unit {0}
LeavesEvents (Step.fails_to_accept x e) = Unit {0}
LeavesEvents Step.stops = Unit {0}
LeavesEvents (Step.reports id conn e f) = Unit {0}
LeavesEvents (Step.takes n e) = ⊥
LeavesEvents (Step.ends id conn e why) = Unit {0}

-- What happens while nobody reads.
pub data Unread (s : Server) : Server → Type 0 where
  here : Unread s s
  next : {t u : Server} → Unread s t → (st : Step t u) → LeavesEvents st → Unread s u

-- `Start` waits to send, and the channel is full.
pub record IsStuck (id : String) (conn : ℕ) (s : Server) : Type 0 where
  pub waits : s.phase ≡ announcing id conn
  pub full : s.events ≡ capacity

Step-IsStuck :
    {id : String} {conn : ℕ} {s t : Server} (st : Step s t)
    → LeavesEvents st
    → IsStuck id conn s
    → IsStuck id conn t
unfolding register announce end_conn
Step-IsStuck (Step.listens e) l v = absurd (ground arith)
Step-IsStuck (Step.fails_to_listen x e) l v = absurd (ground arith)
Step-IsStuck (Step.accepts conn e f) l v = absurd (ground arith)
Step-IsStuck (Step.registers id conn e f) l v = absurd (ground arith)
Step-IsStuck (Step.announces id conn e f) l v = absurd (ground arith)
Step-IsStuck (Step.fails_to_accept x e) l v = absurd (ground arith)
Step-IsStuck {s = s} Step.stops l v = record {
  waits = (stop-parts s).0 ∙ v.waits;
  full = (stop-parts s).1 ∙ v.full;
}
Step-IsStuck (Step.reports id conn e f) l v = absurd (ground arith)
Step-IsStuck (Step.takes n e) l v = absurd l
Step-IsStuck (Step.ends id conn e why) l v = record { waits = v.waits; full = v.full }

-- When the channel is full, and `Start` waits to send the event of a connection, then as long as nobody
-- takes an event `Start` waits, whatever else happens: `Stop` and the ends of handlers do not help it.
pub Unread-IsStuck :
    (id : String) (conn : ℕ) {s t : Server} → Unread s t → IsStuck id conn s → IsStuck id conn t
Unread-IsStuck id conn Unread.here v = v
Unread-IsStuck id conn (Unread.next r st l) v = Step-IsStuck st l (Unread-IsStuck id conn r v)
