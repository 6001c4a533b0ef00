-- ===== src/Server/Types.antt =====
-- The data of internal/server, and what the server takes from outside: `encoding/json`, the disk
-- and BLAKE3.
use m_tlsling.Base.{
  ℕ, String, Bool, true, false, Option, none, some, List, [], Result, ok, err, length, ◌<>◌,
}
use m_tlsling.Base.Int.{ℤ}

abbrev pub Bytes : Type 0
Bytes = List ℕ

-- `FileEntry`. The size is an `int64`: what the server lists is not negative, what a client reads
-- may be anything.
pub record FileEntry : Type 0 where
  pub name : String
  pub path : String
  pub size : ℤ
  pub hash : String

-- `Manifest`
pub record Manifest : Type 0 where
  pub files : List FileEntry

-- `ConnEvent`; `error` is nil or has a text.
pub record ConnEvent : Type 0 where
  pub id : String
  pub remote : String
  pub state : String
  pub error : Option String
  pub file : String
  pub transferred : ℕ
  pub total : ℕ

-- `json.Marshal` and `json.Unmarshal` at one type.
pub record Codec (A : Type 0) : Type 0 where
  pub marshal : A → Result Bytes
  pub unmarshal : Bytes → Result A

-- What stands at a path. `absent` has nothing to stat; `locked` is a file of that size that cannot be
-- opened; `damaged` is one of that size that gives some bytes and then an error when it is read.
pub data Node : Type 0 where
  absent : String → Node
  regular : Bytes → Node
  locked : ℕ → String → Node
  damaged : ℕ → Bytes → String → Node
  directory : Node

abbrev pub Disk : Type 0
Disk = String → Node

pub record FileInfo : Type 0 where
  pub is_dir : Bool
  pub length : ℕ

-- `os.Stat`
unfoldable pub stat : Disk → String → Result FileInfo
stat disk path = elim (disk path) [
  | absent e ↦ err e
  | regular content ↦ ok (record { is_dir = false; length = length content })
  | locked size e ↦ ok (record { is_dir = false; length = size })
  | damaged size content e ↦ ok (record { is_dir = false; length = size })
  | directory ↦ ok (record { is_dir = true; length = 0 })
]

-- An open file: the bytes that reading gives, and the error, if any, that comes behind them.
pub record File : Type 0 where
  pub content : Bytes
  pub broken : Option String

-- `os.Open`. A directory opens, and fails when it is read.
unfoldable pub open_file : Disk → String → Result File
open_file disk path = elim (disk path) [
  | absent e ↦ err e
  | regular content ↦ ok (record { content = content; broken = none })
  | locked size e ↦ err e
  | damaged size content e ↦ ok (record { content = content; broken = some e })
  | directory ↦
      ok (record { content = []; broken = some ("read " <> (path <> ": is a directory")) })
]

abbrev pub all_of : File → Result Bytes
all_of f = elim f.broken [ none ↦ ok f.content | some e ↦ err e ]

-- `os.Open`, and reading to the end.
unfoldable pub read_all : Disk → String → Result Bytes
unfolding open_file
read_all disk path = elim (open_file disk path) [ err e ↦ err e | ok f ↦ all_of f ]
