-- ===== src/Session/Transfer.antt =====
-- One entry, from the decision to the file under its name, when nothing fails.
use m_tlsling.Base.{
  ℕ, suc, ◌≡◌, refl, ◌∙◌, ap, inl, inr, String, false, none, some, List, [], ◌∷◌, ◌++◌, ok, eq_iff,
  eq_refl, arith, Bool-cases, Option-cases, length, take, drop, get_elem?, lookup, insert, erase,
  lookup-insert,
}
use m_tlsling.Base.Int.{pos}
use m_tlsling.FilePath.{join, dir}
use m_tlsling.Server.Types.{Bytes, FileEntry, File, regular, open_file}
use m_tlsling.Server.Hex.{hex}
use m_tlsling.Server.Protocol.{copy_exactly}
use m_tlsling.Server.Progress.{ProgressWriter, Chunk, copy_file}
use m_tlsling.Server.Progress.Counts.{content_of, NoFault, copy_chunks_total}
use m_tlsling.Server.Conn.{ServerEnv, serve_entry}
use m_tlsling.Server.Conn.Listing.{entry_of}
use m_tlsling.Client.{
  Peer, Files, ClientEnv, Client, hash_if_exists, need_download, part_of, receive, download_entry,
}
use m_tlsling.Session.{Waiting, serve_byte, server_peer}

-- The files do not change while they are sent, all of them are read and written, and both ends use the same hash.
pub record Faultless (env : ServerEnv) (cenv : ClientEnv) : Type 0 where
  pub same_disk : (path : String) → env.opened path ≡ env.listed path
  pub reads_whole : (content : Bytes) → content_of (env.reads content) ≡ content
  pub sends : (content : Bytes) → NoFault (env.reads content)
  pub same_hash : (content : Bytes) → cenv.blake3 content ≡ env.blake3 content
  pub makes_dir : (path : String) → cenv.mkdir_fault path ≡ none
  pub creates : (path : String) → cenv.create_fault path ≡ none
  pub stores : (path : String) → cenv.store_fault path ≡ none
  pub renames : (path : String) → cenv.rename_fault path ≡ none

-- The path holds a file with the hash of the content.
abbrev pub Holds : ServerEnv → Files → String → Bytes → Type 0
Holds env fs dest content =
    (x : Bytes) × (lookup dest fs ≡ some x) × (hex (env.blake3 x) ≡ hex (env.blake3 content))

take-length : (xs : Bytes) → take (length xs) xs ≡ xs
take-length [] = refl
take-length (x ∷ xs) = ap (◌∷◌ x) (take-length xs)

drop-length : (xs : Bytes) → drop (length xs) xs ≡ []
drop-length [] = refl
drop-length (x ∷ xs) = drop-length xs

copy_exactly_all : (xs : Bytes) → copy_exactly xs (pos (length xs)) ≡ (xs, none, [])
unfolding copy_exactly
copy_exactly_all xs = ground (arith, take-length xs, drop-length xs)

copy_file_all :
    (reads : Bytes → List Chunk) (w : ProgressWriter) (content : Bytes)
    → content_of (reads content) ≡ content
    → NoFault (reads content)
    → let f : File = record { content = content; broken = none } in
      ((copy_file reads w f (length content)).output ≡ content)
      × ((copy_file reads w f (length content)).error ≡ none)
unfolding copy_file
copy_file_all reads w content whole sends =
    rw (take-length content) (ground (arith, copy_chunks_total w (reads content) sends))

module _ (env : ServerEnv) (cenv : ClientEnv) (id out_dir : String) (files : List String)
    (h : Faultless env cenv) where
  serve_entry_all :
      (i : ℕ) (path : String) (content : Bytes)
      → get_elem? files i ≡ some path
      → env.listed path ≡ regular content
      → ((serve_entry env id files i (entry_of env path content)).output ≡ content)
        × ((serve_entry env id files i (entry_of env path content)).error ≡ none)
  unfolding serve_entry open_file
  serve_entry_all i path content at there =
      let opened : env.opened path ≡ regular content = h.same_disk path ∙ there in
      rw (at, serve_entry)
        (rw (opened, open_file)
          (copy_file_all env.reads _ content (h.reads_whole content) (h.sends content)))

  receive_all :
      (P : Peer) (dest : String) (f : FileEntry) (c : Client P) (content : Bytes)
      → c.inbox ≡ content
      → f.size ≡ pos (length content)
      → receive P cenv dest f c ≡ (
        record c {
          inbox = [];
          files =
              insert dest content (erase (part_of dest) (insert (part_of dest) content c.files));
        },
        none,
      )
  unfolding receive
  receive_all P dest f c content came size =
      let all : copy_exactly c.inbox f.size ≡ (content, none, []) =
        rw (came, size) (copy_exactly_all content) in
      rw (h.creates (part_of dest), receive)
        (rw (h.stores (part_of dest)) (rw all (rw (h.renames dest) (rw all))))

  -- A file whose hash is right already is not asked for.
  need_download-false :
      (old : Files) (dest : String) (f : FileEntry)
      → need_download cenv old dest f ≡ false
      → (x : Bytes) × (lookup dest old ≡ some x) × (hex (cenv.blake3 x) ≡ f.hash)
  unfolding need_download hash_if_exists
  need_download-false old dest f no_need = elim (Option-cases (lookup dest old)) [
    | inl e ↦ absurd (ground arith)
    | inr (x, e) ↦ (x, e, (eq_iff _ _).0 (ground arith))
  ]

  serve_byte_skip :
      (s : Waiting) (i : ℕ) (e : FileEntry) (es : List FileEntry)
      → s ≡ record { index = i; entries = e ∷ es }
      → serve_byte env id files s 0 ≡ ok (record { index = suc i; entries = es }, [])
  unfolding serve_byte
  serve_byte_skip s i e es w = rw w refl

  serve_byte_send :
      (s : Waiting) (i : ℕ) (path : String) (content : Bytes) (es : List FileEntry)
      → get_elem? files i ≡ some path
      → env.listed path ≡ regular content
      → s ≡ record { index = i; entries = entry_of env path content ∷ es }
      → serve_byte env id files s 1 ≡ ok (record { index = suc i; entries = es }, content)
  unfolding serve_byte
  serve_byte_send s i path content es at there w =
      let (out, fine) = serve_entry_all i path content at there in
      rw w (rw (fine, serve_byte) (rw out))

  -- From a server that waits for the decision on an entry, with nothing on the wire.
  pub download_entry-Holds :
      (i : ℕ) (path : String) (content : Bytes) (es : List FileEntry)
      (c : Client (server_peer env id files))
      → get_elem? files i ≡ some path
      → env.listed path ≡ regular content
      → c.peer ≡ record { index = i; entries = entry_of env path content ∷ es }
      → c.inbox ≡ []
      → let e = entry_of env path content in
        let r = download_entry (server_peer env id files) cenv out_dir e c in
        (r.1 ≡ none)
        × (r.0.peer ≡ record { index = suc i; entries = es })
        × (r.0.inbox ≡ [])
        × Holds env r.0.files (join out_dir e.path) content
  unfolding download_entry
  download_entry-Holds i path content es c at there waits quiet =
      elim (Bool-cases (need_download cenv c.files dest e)) [
        | inr k ↦
            let (x, found, same) = need_download-false c.files dest e k in
            let skip = serve_byte_skip c.peer i e es waits in
            let done : download_entry P cenv out_dir e c ≡ (
              record c { peer = record { index = suc i; entries = es }; inbox = c.inbox ++ [] },
              none,
            ) =
              rw (h.makes_dir (dir dest), download_entry) (rw k (rw skip (rw k))) in
            rw done (refl, refl, rw (quiet) refl, (x, found, rw (h.same_hash x) at same))
        | inl k ↦
            let send = serve_byte_send c.peer i path content es at there waits in
            let c2 : Client P = record c {
              peer = record { index = suc i; entries = es };
              inbox = c.inbox ++ content;
            } in
            let done : download_entry P cenv out_dir e c ≡ receive P cenv dest e c2 =
              rw (h.makes_dir (dir dest), download_entry) (rw k (rw send (rw k))) in
            rw done (
              rw (receive_all P dest e c2 content (rw quiet refl) refl)
                (refl, refl, refl, (content, rw lookup-insert (rw eq_refl), refl)))
      ]
    where
      P : Peer
      P = server_peer env id files

      e : FileEntry
      e = entry_of env path content

      dest : String
      dest = join out_dir e.path
