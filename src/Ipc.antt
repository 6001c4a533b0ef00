-- ===== src/Ipc.antt =====
-- internal/ipc: the endpoint of the daemon on the local host. The file system holds the paths of sockets
-- with their modes, and the listeners that are open, each with its path.
pub mod Listening
use m_tlsling.Base.{
  ℕ, ◌+◌, String, Bool, true, false, ◌&&◌, Option, none, some, List, [], ◌∷◌, Map, erase, insert,
  Result, ok, err, wrap, if◌then◌else◌, ◌=ˢ◌, ◌==◌,
}
use m_tlsling.FilePath.{dir}

abbrev pub default_endpoint : String
default_endpoint = "/tmp/multi-cast-transfer.sock"

-- `NormalizeEndpoint`
unfoldable pub normalize_endpoint : String → String
normalize_endpoint endpoint = if endpoint =ˢ "" then default_endpoint else endpoint

-- A listener by a number, and where it listens.
pub record Listener : Type 0 where
  pub number : ℕ
  pub path : String

pub record Sockets : Type 0 where
  pub modes : Map ℕ
  pub listeners : List Listener
  pub next : ℕ

-- How `os.Remove` fails.
pub data RemoveFault : Type 0 where
  not_exist : RemoveFault
  other : String → RemoveFault

-- The errors of the operating system at a path, and the mode that a new socket has.
pub record Faults : Type 0 where
  pub mkdir : String → Option String
  pub remove : String → Option RemoveFault
  pub bind : String → Option String
  pub chmod : String → Option String
  pub umask_mode : ℕ

-- `os.Remove`
abbrev pub remove : Faults → String → Sockets → Sockets × Option RemoveFault
remove faults path s = elim (faults.remove path) [
  | none ↦ (record s { modes = erase path s.modes }, none)
  | some e ↦ (s, some e)
]

unfoldable pub without : ℕ → List Listener → List Listener
without n [] = []
without n (l ∷ ls) = if l.number == n then without n ls else l ∷ without n ls

-- `Close` of a listener on a path: it removes its socket.
unfoldable pub close : Listener → Sockets → Sockets
unfolding without
close l s = record s { modes = erase l.path s.modes; listeners = without l.number s.listeners }

-- `net.Listen` at a path, when it succeeds.
abbrev pub bound : Faults → String → Sockets → Sockets
bound faults path s = record {
  modes = insert path faults.umask_mode s.modes;
  listeners = record { number = s.next; path = path } ∷ s.listeners;
  next = s.next + 1;
}

-- The rest of `Listen`, behind `os.Remove`.
unfoldable pub bind_socket : Faults → String → Sockets → Sockets × Result Listener
unfolding close
bind_socket faults path s = elim (faults.bind path) [
  | some e ↦ (s, err e)
  | none ↦
      let l : Listener = record { number = s.next; path = path } in
      elim (faults.chmod path) [
        | some e ↦ (close l (bound faults path s), wrap "chmod ipc socket" (err e))
        | none ↦ (
          record (bound faults path s) { modes = insert path 0o600 (bound faults path s).modes },
          ok l,
        )
      ]
]

abbrev pub after_remove : Faults → String → Sockets × Option RemoveFault → Sockets × Result Listener
after_remove faults path (s, none) = bind_socket faults path s
after_remove faults path (s, some not_exist) = bind_socket faults path s
after_remove faults path (s, some (other e)) = (s, wrap "remove stale socket" (err e))

-- `Listen` on Unix
unfoldable pub listen : Faults → String → Sockets → Sockets × Result Listener
unfolding bind_socket normalize_endpoint
listen faults endpoint s =
    let path = normalize_endpoint endpoint in
    elim (faults.mkdir (dir path)) [
      | some e ↦ (s, wrap "mkdir ipc dir" (err e))
      | none ↦ after_remove faults path (remove faults path s)
    ]

-- `DialContext` on Unix: where a client dials.
unfoldable pub dial : String → String
dial endpoint = normalize_endpoint endpoint
