-- ===== src/Tests/Data.antt =====
-- Two files on a server's disk, the manifest that lists them, and a codec that knows that manifest.
use m_tlsling.Base.{List, [], ◌∷◌, none, true, ok, err, if◌then◌else◌, ◌=ˢ◌}
use m_tlsling.Base.Int.{pos}
use m_tlsling.Server.Types.{Bytes, FileEntry, Manifest, Codec, Disk, absent, regular, directory}
use m_tlsling.Server.Protocol.{same_bytes}
use m_tlsling.Server.Progress.{Chunk}
use m_tlsling.Server.Conn.{ServerEnv}
use m_tlsling.Client.{ClientEnv}

abbrev pub hello : Bytes
hello = 104 ∷ 101 ∷ 108 ∷ 108 ∷ 111 ∷ []

abbrev pub disk : Disk
disk path =
    if path =ˢ "/srv/hello.md"
    then regular hello
    else if path =ˢ "/srv/empty.txt"
    then regular []
    else if path =ˢ "/srv"
    then directory
    else absent "no such file or directory"

abbrev pub hello_entry : FileEntry
hello_entry = record { name = "hello.md"; path = "srv/hello.md"; size = pos 5; hash = "68656c6c6f" }

abbrev pub empty_entry : FileEntry
empty_entry = record { name = "empty.txt"; path = "srv/empty.txt"; size = pos 0; hash = "" }

abbrev pub two_files : Manifest
two_files = record { files = hello_entry ∷ empty_entry ∷ [] }

abbrev pub payload : Bytes
payload = 123 ∷ 125 ∷ []

unfoldable pub codec : Codec Manifest
unfolding same_bytes
codec = record {
  marshal = λ m. ok payload;
  unmarshal = λ bytes. if same_bytes bytes payload then ok two_files else err "unexpected input";
}

unfoldable pub chunks : Bytes → List Chunk
chunks [] = []
chunks (b ∷ bs) = record { bytes = b ∷ bs; fault = none; now = 0; room = true } ∷ []

abbrev pub server : ServerEnv
server = record {
  remote = "10.0.0.2:5000";
  listed = disk;
  opened = disk;
  blake3 = λ content. content;
  codec = codec;
  fault = λ out. none;
  reads = chunks;
}

abbrev pub client : ClientEnv
client = record {
  blake3 = λ content. content;
  codec = codec;
  taken = λ behind. 4096;
  open_fault = λ path. none;
  mkdir_fault = λ path. none;
  create_fault = λ path. none;
  store_fault = λ path. none;
  rename_fault = λ path. none;
}
