-- ===== src/Server/Accept.antt =====
-- `New`, `Start` and `Stop` of internal/server/server.go, as steps between two points at which nobody
-- holds the lock. A connection is known by a number. Of the events channel the number of events that wait
-- in it is kept.
pub mod Closing
pub mod Races
pub mod Channel
pub mod Falling
pub mod Ending
use mathlib.Core.List.{Memᴰ}
use m_tlsling.Base.{
  ℕ, suc, ◌+◌, ◌<◌, ◌≡◌, String, ◌<>◌, Bool, true, false, Option, none, some, List, [], ◌∷◌, ◌++◌,
  map, Map, has, keys, lookup, insert, erase, if◌then◌else◌,
}

-- `s.ln`: nil, a listener, or a listener that was closed.
pub data Socket : Type 0 where
  unset listening closed : Socket

-- Where the goroutine of `Start` is: before `tls.Listen`, in `Accept`, with a connection that `Accept`
-- has returned and that is not in the map, with one that is in the map and not announced, or at its end.
pub data Phase : Type 0 where
  unstarted accepting : Phase
  holding : ℕ → Phase
  announcing : String → ℕ → Phase
  returned : Option String → Phase

-- `Server`, with the connections that were closed, the handlers that run, and the events that wait.
pub record Server : Type 0 where
  pub ln : Socket
  pub is_stopped : Bool
  pub connections : Map ℕ
  pub shut : List ℕ
  pub handlers : Map ℕ
  pub events : ℕ
  pub phase : Phase

-- `New`
unfoldable pub new_server : Server
new_server = record {
  ln = unset;
  is_stopped = false;
  connections = [];
  shut = [];
  handlers = [];
  events = 0;
  phase = unstarted;
}

-- `s.ln.Close()`, if there is one.
abbrev pub close_socket : Socket → Socket
close_socket unset = unset
close_socket listening = closed
close_socket closed = closed

abbrev pub conns_of : Map ℕ → List ℕ
conns_of = map (λ x. x.1)

-- `Stop`
unfoldable pub stop : Server → Server
stop s = if s.is_stopped then s else record s {
  is_stopped = true;
  ln = close_socket s.ln;
  shut = conns_of s.connections ++ s.shut;
  connections = [];
}

-- The room of the events channel.
abbrev pub capacity : ℕ
capacity = 64

-- A round of the loop in `Start`, with the connection that was accepted, up to the event.
unfoldable pub register : String → ℕ → Server → Server
register id conn s = record s {
  connections = insert id conn s.connections;
  phase = announcing id conn;
}

-- The rest of the round: the event is sent, and then the handler runs.
unfoldable pub announce : String → ℕ → Server → Server
announce id conn s = record s {
  events = s.events + 1;
  handlers = insert id conn s.handlers;
  phase = accepting;
}

-- What `Start` returns if `Accept` fails.
unfoldable pub accept_result : Bool → String → Option String
accept_result is_stopped e = if is_stopped then none else some ("accept: " <> e)

-- The deferred function of `handleConn`.
unfoldable pub end_conn : String → ℕ → Server → Server
end_conn id conn s = record s {
  shut = conn ∷ s.shut;
  connections = erase id s.connections;
  handlers = erase id s.handlers;
}

-- Why a handler ends: its connection was closed here, so its read or write fails; or the client, or the
-- files, have brought it to its end, which on an open connection nothing here can do.
pub data EndsBy (s : Server) (conn : ℕ) : Type 0 where
  closed_here : Memᴰ conn s.shut → EndsBy s conn
  by_client : EndsBy s conn

-- `Start` does not look at `stopped` before it listens. A send waits for room in the channel, from which
-- any reader of `Events` takes; `reports` is an event of a handler. An id is the time in nanoseconds: no handler that
-- runs is taken to have the same.
pub data Step (s : Server) : Server → Type 0 where
  listens : s.phase ≡ unstarted → Step s (record s { ln = listening; phase = accepting })
  fails_to_listen :
      (e : String)
      → s.phase ≡ unstarted
      → Step s (record s { phase = returned (some ("listen: " <> e)) })
  accepts :
      (conn : ℕ)
      → s.phase ≡ accepting
      → s.ln ≡ listening
      → Step s (record s { phase = holding conn })
  registers :
      (id : String) (conn : ℕ)
      → s.phase ≡ holding conn
      → has id (keys s.handlers) ≡ false
      → Step s (register id conn s)
  announces :
      (id : String) (conn : ℕ)
      → s.phase ≡ announcing id conn
      → s.events < capacity
      → Step s (announce id conn s)
  fails_to_accept :
      (e : String)
      → s.phase ≡ accepting
      → Step s (record s { phase = returned (accept_result s.is_stopped e) })
  stops : Step s (stop s)
  reports :
      (id : String) (conn : ℕ)
      → lookup id s.handlers ≡ some conn
      → s.events < capacity
      → Step s (record s { events = s.events + 1 })
  takes : (n : ℕ) → s.events ≡ suc n → Step s (record s { events = n })
  ends :
      (id : String) (conn : ℕ)
      → lookup id s.handlers ≡ some conn
      → EndsBy s conn
      → Step s (end_conn id conn s)

pub data Reach (s : Server) : Server → Type 0 where
  here : Reach s s
  next : {t u : Server} → Reach s t → Step t u → Reach s u
