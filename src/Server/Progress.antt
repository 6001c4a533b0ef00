-- ===== src/Server/Progress.antt =====
-- `progressWriter` of internal/server/server.go, and the copy of a file through it.
pub mod Counts
use m_tlsling.Base.{
  ℕ, ◌+◌, ◌-◌, ◌*◌, String, Bool, true, false, ◌&&◌, ◌||◌, Option, none, some, List, [], ◌∷◌, ◌++◌,
  ltb, ◌==◌, if◌then◌else◌, length, take, is_some,
}
use m_tlsling.Server.Types.{Bytes, File, ConnEvent}

-- `last` is nil for the zero time. Times are in nanoseconds.
pub record ProgressWriter : Type 0 where
  pub id : String
  pub remote : String
  pub file : String
  pub total : ℕ
  pub sent : ℕ
  pub last : Option ℕ

-- One call of `Write`, with what the environment answers: the connection may take fewer bytes and
-- fail, the clock shows `now`, and the events channel has room or not.
pub record Chunk : Type 0 where
  pub bytes : Bytes
  pub fault : Option (ℕ × String)
  pub now : ℕ
  pub room : Bool

abbrev pub written : Chunk → Bytes
written c = elim c.fault [ none ↦ c.bytes | some (n, e) ↦ take n c.bytes ]

abbrev pub write_error : Chunk → Option String
write_error c = elim c.fault [ none ↦ none | some (n, e) ↦ some e ]

-- `now.Sub(w.last) > 150*time.Millisecond`; from the zero time that is always so.
abbrev pub is_due : Option ℕ → ℕ → Bool
is_due none now = true
is_due (some last) now = ltb (150 * 1000 * 1000) (now - last)

abbrev pub progress_event : ProgressWriter → ConnEvent
progress_event w = record {
  id = w.id;
  remote = w.remote;
  state = "progress";
  error = none;
  file = w.file;
  transferred = w.sent;
  total = w.total;
}

-- `Write`: the writer after it and the event that went out, if one did.
unfoldable pub write : ProgressWriter → Chunk → ProgressWriter × List ConnEvent
write w c =
    let w = record w { sent = w.sent + length (written c) } in
    if ltb 0 w.total && (is_due w.last c.now || w.sent == w.total)
    then (record w { last = some c.now }, (if c.room then progress_event w ∷ [] else []))
    else (w, [])

pub record Copied : Type 0 where
  pub writer : ProgressWriter
  pub output : Bytes
  pub events : List ConnEvent
  pub error : Option String

abbrev pub before : Bytes → List ConnEvent → Copied → Copied
before out evs r = record r { output = out ++ r.output; events = evs ++ r.events }

-- The loop of `io.Copy` over the reads of the file. A write that fails ends it.
unfoldable pub copy_chunks : ProgressWriter → List Chunk → Copied
copy_chunks w [] = record { writer = w; output = []; events = []; error = none }
copy_chunks w (c ∷ cs) =
    let (w', evs) = write w c in
    let rest = copy_chunks w' cs in
    elim (write_error c) [
      | none ↦ before (written c) evs rest
      | some e ↦ record { writer = w'; output = written c; events = evs; error = some e }
    ]

-- What ends a copy that has not written all: a failed write, else a failed read, else the end of the file.
abbrev pub copy_error : Option String → Option String → Option String
copy_error (some e) broken = some e
copy_error none (some e) = some e
copy_error none none = some "EOF"

-- `io.CopyN(pw, f, size)` of an open file. `reads` says in which pieces the first `size` bytes are read. It
-- is no error once `size` bytes are written, whatever the last write or read answered.
unfoldable pub copy_file : (Bytes → List Chunk) → ProgressWriter → File → ℕ → Copied
copy_file reads w f size =
    let r = copy_chunks w (reads (take size f.content)) in
    record r { error = if length r.output == size then none else copy_error r.error f.broken }
