-- ===== src/Server/Conn.antt =====
-- `handleConn` of internal/server/server.go: the manifest of the listed files, then a loop that
-- waits for the client's decision on each entry. What is left out of a run is its last step, that
-- the connection is closed and forgotten.
pub mod Listing
pub mod Serving
use m_tlsling.Base.{
  ℕ, suc, ◌+◌, String, ◌<>◌, Bool, true, false, Option, none, some, List, [], ◌∷◌, ◌++◌, Result, ok,
  err, ◌>>=◌, ◌>>◌, wrap, ◌==◌, if◌then◌else◌, get_elem?,
}
use m_tlsling.Base.Int.{ℤ, pos, pos_part}
use m_tlsling.FilePath.{base, relative_path}
use m_tlsling.Server.Types.{
  Bytes, FileEntry, Manifest, ConnEvent, Codec, Disk, stat, open_file, read_all,
}
use m_tlsling.Server.Hex.{hex}
use m_tlsling.Server.Protocol.{write_manifest}
use m_tlsling.Server.Progress.{Chunk, ProgressWriter, copy_file}

-- What a handler takes from outside. The disk may change between the listing and the transfer.
pub record ServerEnv : Type 0 where
  pub remote : String
  pub listed : Disk
  pub opened : Disk
  pub blake3 : Bytes → Bytes
  pub codec : Codec Manifest
  pub fault : Bytes → Option String
  pub reads : Bytes → List Chunk

-- `fileHash`
unfoldable pub file_hash : (Bytes → Bytes) → Disk → String → Result String
unfolding read_all hex
file_hash blake3 disk path = do content ← read_all disk path; ok (hex (blake3 content))

-- A `ConnEvent` with an id, a remote end and a state only.
abbrev pub conn_event : ServerEnv → String → String → Option String → ConnEvent
conn_event env id state error = record {
  id = id;
  remote = env.remote;
  state = state;
  error = error;
  file = "";
  transferred = 0;
  total = 0;
}

-- The entry of one file, in front of the entries of the files behind it.
unfoldable pub list_file :
    ServerEnv → String → ℕ → Result (List FileEntry) → Result (List FileEntry)
list_file env path size rest = do
  hash ← wrap ("hash " <> path) (file_hash env.blake3 env.listed path)
  entries ← rest
  ok (
      record { name = base path; path = relative_path path; size = pos size; hash = hash }
      ∷ entries)

-- The loop that makes the entries. A directory has none.
unfoldable pub list_entries : ServerEnv → List String → Result (List FileEntry)
unfolding stat list_file
list_entries env [] = ok []
list_entries env (path ∷ paths) =
    let rest = list_entries env paths in
    do
      info ← wrap ("stat " <> path) (stat env.listed path)
      if info.is_dir then rest else list_file env path info.length rest

-- What a handler has sent, the events that it told, and the error that ended it.
pub record Served : Type 0 where
  pub output : Bytes
  pub events : List ConnEvent
  pub error : Option String

-- The transfer of one entry: `files[i]` is opened, and as many bytes as the entry tells are copied.
unfoldable pub serve_entry : ServerEnv → String → List String → ℕ → FileEntry → Served
serve_entry env id files i entry = elim (get_elem? files i) [
  | none ↦ record { output = []; events = []; error = some "index out of range" }
  | some path ↦ elim (open_file env.opened path) [
    | err e ↦ record { output = []; events = []; error = some e }
    | ok f ↦
        let copied = copy_file env.reads writer f (pos_part entry.size) in
        record { output = copied.output; events = copied.events; error = copied.error }
  ]
]
  where
    writer : ProgressWriter
    writer = record {
      id = id;
      remote = env.remote;
      file = entry.path;
      total = pos_part entry.size;
      sent = 0;
      last = none;
    }

abbrev pub after_output : Bytes → List ConnEvent → Served → Served
after_output out evs r = record r { output = out ++ r.output; events = evs ++ r.events }

-- A run that ends with an error tells it.
abbrev pub failed : ServerEnv → String → String → Served
failed env id e = record {
  output = [];
  events = conn_event env id "error" (some e) ∷ [];
  error = some e;
}

-- The loop over the entries. `input` holds the decisions that the client sends before it closes.
unfoldable pub serve_loop : ServerEnv → String → List String → ℕ → List FileEntry → Bytes → Served
serve_loop env id files i [] input = record {
  output = [];
  events = conn_event env id "completed" none ∷ [];
  error = none;
}
serve_loop env id files i (entry ∷ entries) [] = failed env id "read decision: EOF"
serve_loop env id files i (entry ∷ entries) (decision ∷ input) =
    let rest = serve_loop env id files (suc i) entries input in
    if decision == 0
    then rest
    else (let r = serve_entry env id files i entry in
        elim r.error [
          | none ↦ after_output r.output r.events rest
          | some e ↦ after_output r.output r.events (failed env id e)
        ])

-- `handleConn`, after `ListFiles`.
unfoldable pub handle_conn : ServerEnv → String → List String → Bytes → Served
handle_conn env id files input = elim (list_entries env files) [
  | err e ↦ failed env id e
  | ok entries ↦ elim (write_manifest env.codec env.fault (record { files = entries })) [
    | err e ↦ failed env id e
    | ok out ↦ after_output out [] (serve_loop env id files 0 entries input)
  ]
]
