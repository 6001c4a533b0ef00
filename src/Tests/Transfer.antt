-- ===== src/Tests/Transfer.antt =====
-- A session in which two files are sent, and runs of the handler and of the client alone.
use Prim.Native.Char.{code}
use text.Mathlib.TextLemmas.{cons-append}
use mathlib.Core.List.{Memᴰ, append-nil}
use m_tlsling.Base.{
  ℕ, ◌≡◌, ◌≢◌, ◌⊎◌, ◌↔◌, refl, ap, String, ◌<>◌, ◌=ˢ◌, eq_iff, false, none, some, List, [], ◌∷◌,
  ◌++◌, ok, length, arith, Result, lookup,
}
use m_tlsling.Base.Int.{pos_part}
use m_tlsling.FilePath.{
  dir, join, base, clean, is_abs, render, parts, relative_path, split, walk, push_part, trim_slash,
  join_slash,
}
use m_tlsling.Server.Types.{Bytes, Manifest, FileEntry, stat, open_file, read_all}
use m_tlsling.Server.Hex.{hex}
use m_tlsling.Server.Protocol.{write_manifest, copy_exactly}
use m_tlsling.Server.Progress.{copy_file, copy_chunks}
use m_tlsling.Server.Progress.Counts.{content_of, NoFault}
use m_tlsling.Server.Conn.{file_hash, list_file, list_entries, conn_event, serve_entry, handle_conn}
use m_tlsling.Server.Conn.Listing.{Lists, list_entries_iff}
use m_tlsling.Server.Conn.Serving.{Ends, handle_conn-Ends, handle_conn-directory}
use m_tlsling.Client.{
  Client, part_of, need_download, hash_if_exists, receive, download_entry, download,
}
use m_tlsling.Client.Atomic.{Told, download-atomic}
use m_tlsling.Client.Outside.{download_entry-escapes}
use m_tlsling.FilePath.Clean.{is_name}
use m_tlsling.FilePath.Split.{is_plain}
use m_tlsling.Session.{Waiting, serve_byte, server_peer, run_session}
use m_tlsling.Session.Transfer.{Faultless}
use m_tlsling.Session.Delivery.{Item, Separate, Delivered, run_session-delivers}
use m_tlsling.Tests.Data.{
  hello, hello_entry, empty_entry, two_files, payload, codec, chunks, server, client,
}
use m_tlsling.Tests.Wire.{frame}

abbrev listed : List String
listed = "/srv/hello.md" ∷ "/srv/empty.txt" ∷ []

list_two : list_entries server listed ≡ ok (hello_entry ∷ empty_entry ∷ [])
unfolding list_entries list_file stat open_file read_all file_hash hex base relative_path clean
    trim_slash is_abs render parts split walk push_part join_slash
list_two = refl

list_entries_iff_example :
    (list_entries server listed ≡ ok (hello_entry ∷ empty_entry ∷ []))
    ↔ Lists server listed (hello_entry ∷ empty_entry ∷ [])
list_entries_iff_example = list_entries_iff server listed (hello_entry ∷ empty_entry ∷ [])

handle_conn-Ends_example : Ends (handle_conn server "conn-1" listed (1 ∷ 0 ∷ []))
handle_conn-Ends_example = handle_conn-Ends server "conn-1" listed (1 ∷ 0 ∷ [])

list_with_directory : list_entries server ("/srv" ∷ listed) ≡ ok (hello_entry ∷ empty_entry ∷ [])
unfolding list_entries list_file stat open_file read_all file_hash hex base relative_path clean
    trim_slash is_abs render parts split walk push_part join_slash
list_with_directory = refl

pub write_two : write_manifest codec (λ out. none) two_files ≡ ok frame
unfolding write_manifest codec
write_two = refl

handle_conn-directory_example : handle_conn server "conn-1" ("/srv" ∷ listed) (1 ∷ 1 ∷ []) ≡ (
    let e = "read " <> ("/srv" <> ": is a directory") in
    record {
      output = frame ++ [];
      events = conn_event server "conn-1" "error" (some e) ∷ [];
      error = some e;
    })
unfolding chunks
handle_conn-directory_example =
    handle_conn-directory server "conn-1" "/srv" listed 1 (1 ∷ []) frame hello_entry
      (empty_entry ∷ []) 4 refl refl refl list_with_directory write_two (omega arith)

-- The two files with what is on the disk.
abbrev pub items : List Item
items = ("/srv/hello.md", hello) ∷ ("/srv/empty.txt", []) ∷ []

differ : (a b : String) → (a =ˢ b) ≡ false → a ≢ b
differ a b h = ground (arith, eq_iff a b)

pub items-Separate : Separate "out" items
unfolding join relative_path clean trim_slash is_abs render parts split walk push_part join_slash
items-Separate = (
  (differ "out/srv/hello.md" "out/srv/empty.txt" refl, tt),
  (differ "out/srv/hello.md" "out/srv/empty.txt.part" refl, tt),
  (tt, tt, tt),
)

chunks-content_of : (content : Bytes) → content_of (chunks content) ≡ content
unfolding chunks
chunks-content_of [] = refl
chunks-content_of (b ∷ bs) = append-nil (b ∷ bs)

chunks-NoFault : (content : Bytes) → NoFault (chunks content)
unfolding chunks
chunks-NoFault [] = tt
chunks-NoFault (b ∷ bs) = (refl, tt)

pub ends-Faultless : Faultless server client
ends-Faultless = record {
  same_disk = λ path. refl;
  reads_whole = chunks-content_of;
  sends = chunks-NoFault;
  same_hash = λ content. refl;
  makes_dir = λ path. refl;
  creates = λ path. refl;
  stores = λ path. refl;
  renames = λ path. refl;
}

run_session-delivers_example :
    let r = run_session server "conn-1" listed client "out" (("out/srv/hello.md", 1 ∷ []) ∷ []) in
    (r.1 ≡ none) × Delivered server "out" items r.0
unfolding codec hex base relative_path clean trim_slash is_abs render parts split walk push_part
    join_slash
run_session-delivers_example =
    run_session-delivers server client "conn-1" "out" ends-Faultless items
      (("out/srv/hello.md", 1 ∷ []) ∷ []) payload frame (refl, (refl, tt)) items-Separate refl refl
      refl (omega arith) write_two

last_char : ℕ → String → ℕ
last_char d String.[] = d
last_char d (String.◌∷◌ c s) = last_char (code c) s

last_char-part : (d : ℕ) (s : String) → last_char d (s <> ".part") ≡ 116
unfolding last_char
last_char-part d String.[] = refl
last_char-part d (String.◌∷◌ c s) = rw cons-append (last_char-part (code c) s)

not_part : (s : String) → "out/srv/hello.md" ≢ part_of s
unfolding last_char
not_part s e = omega (arith, ap (last_char 0) e, last_char-part 0 s)

-- The dial to the handler that has two files to send.
abbrev dialled : Result (Waiting × Bytes)
dialled = ok (record { index = 0; entries = hello_entry ∷ empty_entry ∷ [] }, frame)

download-atomic_example :
    let P = server_peer server "conn-1" listed in
    let after = (download P client dialled "out" (("out/srv/hello.md", 1 ∷ []) ∷ [])).0 in
    (lookup "out/srv/hello.md" after
      ≡ lookup "out/srv/hello.md" (("out/srv/hello.md", 1 ∷ []) ∷ []))
    ⊎ ((m : Manifest) × Told P client "out" "out/srv/hello.md" dialled m
        × (f : FileEntry) × Memᴰ f m.files
        × ("out/srv/hello.md" ≡ join "out" f.path)
        × ((content : Bytes) × (lookup "out/srv/hello.md" after ≡ some content)
            × (length content ≡ pos_part f.size)))
download-atomic_example =
    download-atomic (server_peer server "conn-1" listed) client "out" "out/srv/hello.md" dialled
      (("out/srv/hello.md", 1 ∷ []) ∷ []) not_part

-- A client that has a file of its own in the place of the temporary one.
abbrev with_part : Client (server_peer server "conn-1" listed)
with_part = record {
  peer = record { index = 0; entries = hello_entry ∷ [] };
  inbox = [];
  files = ("out/srv/hello.md.part", 9 ∷ []) ∷ [];
}

-- A peer that announces a file outside, and sends it.
abbrev outside_entry : FileEntry
outside_entry = record hello_entry { path = "../hello.md" }

abbrev waiting : Client (server_peer server "conn-1" listed)
waiting = record {
  peer = record { index = 0; entries = outside_entry ∷ [] };
  inbox = [];
  files = [];
}

download_entry-escapes_example :
    (x : Bytes) × (lookup "hello.md"
        (download_entry
          (server_peer server "conn-1" listed)
          client
          "out"
          outside_entry
          waiting).0.files
      ≡ some x)
unfolding join dir clean is_abs render parts split walk push_part join_slash download_entry
    need_download hash_if_exists lookup serve_byte serve_entry open_file copy_file copy_chunks
    chunks receive copy_exactly is_name is_plain
download_entry-escapes_example =
    download_entry-escapes (server_peer server "conn-1" listed) client "out" "hello.md"
      outside_entry waiting refl refl refl refl refl
