-- ===== src/Client.antt =====
-- internal/client: `Download` reads the manifest, tells the server for each entry whether it wants
-- the file, and writes what comes through a temporary file.
pub mod Steps
pub mod Atomic
pub mod Keeps
pub mod PartFile
pub mod Outside
use m_tlsling.Base.{
  ℕ, String, ◌<>◌, Bool, true, false, not, Option, none, some, List, [], ◌∷◌, ◌++◌, Result, ok, err,
  ◌>>=◌, if◌then◌else◌, ◌=ˢ◌, Map, lookup, insert, erase,
}
use m_tlsling.FilePath.{join, dir}
use m_tlsling.Server.Types.{Bytes, FileEntry, Manifest, Codec}
use m_tlsling.Server.Hex.{hex}
use m_tlsling.Server.Protocol.{read_manifest, copy_exactly}

-- The other end of the connection, whoever that is: it answers each byte that it gets with bytes, or
-- the write of that byte fails. A peer that sends no more is taken to have closed.
pub record Peer : Type 1 where
  pub State : Type 0
  pub on_byte : State → ℕ → Result (State × Bytes)

-- The regular files of the client's disk, by path.
abbrev pub Files : Type 0
Files = Map Bytes

-- What the client takes from outside. A fault is the error of that call on that path. `taken` is
-- how many of the bytes behind the manifest have come into the `bufio.Reader` that `ReadManifest` drops.
pub record ClientEnv : Type 0 where
  pub blake3 : Bytes → Bytes
  pub codec : Codec Manifest
  pub taken : Bytes → ℕ
  pub open_fault : String → Option String
  pub mkdir_fault : String → Option String
  pub create_fault : String → Option String
  pub store_fault : String → Option String
  pub rename_fault : String → Option String

abbrev pub bool_to_byte : Bool → ℕ
bool_to_byte b = if b then 1 else 0

-- `hashIfExists`
unfoldable pub hash_if_exists : ClientEnv → Files → String → Result String
hash_if_exists env files path = elim (env.open_fault path) [
  | some e ↦ err e
  | none ↦ elim (lookup path files) [
    | none ↦ err ("open " <> path <> ": no such file or directory")
    | some content ↦ ok (hex (env.blake3 content))
  ]
]

-- `needDownload`: no copy that can be hashed, or another hash.
unfoldable pub need_download : ClientEnv → Files → String → FileEntry → Bool
need_download env files dest f = elim (hash_if_exists env files dest) [
  | ok hash ↦ not (hash =ˢ f.hash)
  | err e ↦ true
]

abbrev pub part_of : String → String
part_of dest = dest <> ".part"

module _ (P : Peer) where
  -- The connection and the disk. `inbox` holds the bytes that have come and are not read.
  pub record Client : Type 0 where
    pub peer : P.State
    pub inbox : Bytes
    pub files : Files

  -- From `os.Create` to `os.Rename`.
  unfoldable pub receive : ClientEnv → String → FileEntry → Client → Client × Option String
  receive env dest f c = elim (env.create_fault (part_of dest)) [
    | some e ↦ (c, some ("create " <> part_of dest <> ": " <> e))
    | none ↦ elim (env.store_fault (part_of dest)) [
      | some e ↦ (
        record c { files = insert (part_of dest) [] c.files },
        some ("download " <> f.path <> ": " <> e),
      )
      | none ↦
          let (got, problem, rest) = copy_exactly c.inbox f.size in
          let stored = insert (part_of dest) got c.files in
          elim problem [
            | some e ↦ (
              record c { inbox = rest; files = stored },
              some ("download " <> f.path <> ": " <> e),
            )
            | none ↦ elim (env.rename_fault dest) [
              | some e ↦
                  (record c { inbox = rest; files = stored }, some ("rename " <> dest <> ": " <> e))
              | none ↦ (
                record c { inbox = rest; files = insert dest got (erase (part_of dest) stored) },
                none,
              )
            ]
          ]
    ]
  ]

  -- The body of the loop in `Download`.
  unfoldable pub download_entry : ClientEnv → String → FileEntry → Client → Client × Option String
  download_entry env out_dir f c =
      let dest = join out_dir f.path in
      elim (env.mkdir_fault (dir dest)) [
        | some e ↦ (c, some ("mkdir: " <> e))
        | none ↦
            let need = need_download env c.files dest f in
            elim (P.on_byte c.peer (bool_to_byte need)) [
              | err e ↦ (c, some ("send decision: " <> e))
              | ok (peer, sent) ↦
                  let c = record c { peer = peer; inbox = c.inbox ++ sent } in
                  if need then receive env dest f c else (c, none)
            ]
      ]

  -- The loop over the manifest's entries. The first error ends it.
  unfoldable pub download_loop :
      ClientEnv → String → List FileEntry → Client → Client × Option String
  download_loop env out_dir [] c = (c, none)
  download_loop env out_dir (f ∷ fs) c =
      let (c', problem) = download_entry env out_dir f c in
      let rest = download_loop env out_dir fs c' in
      elim problem [ some e ↦ (c', some e) | none ↦ rest ]

  -- `Download`. A dial gives the peer and what it sends at first.
  unfoldable pub download :
      ClientEnv → Result (P.State × Bytes) → String → Files → Files × Option String
  download env dial out_dir files = elim dial [
    | err e ↦ (files, some ("dial tls: " <> e))
    | ok (peer, sent) ↦ elim (read_manifest env.codec env.taken sent) [
      | err e ↦ (files, some ("read manifest: " <> e))
      | ok (manifest, left) ↦
          let c : Client = record { peer = peer; inbox = left; files = files } in
          let (c', problem) = download_loop env out_dir manifest.files c in (c'.files, problem)
    ]
  ]
