-- ===== src/Client/Outside.antt =====
-- Where a download writes.
use m_tlsling.Base.{
  ◌≡◌, sym, subst, ap, ◌∙◌, String, ◌<>◌, true, Option, none, some, lookup, insert, erase,
  lookup-insert, eq_refl, arith,
}
use m_tlsling.FilePath.{join}
use m_tlsling.FilePath.Clean.{IsName}
use m_tlsling.FilePath.Escape.{join-escapes}
use m_tlsling.Server.Types.{Bytes, FileEntry}
use m_tlsling.Server.Protocol.{copy_exactly}
use m_tlsling.Client.Steps.{download_entry-receive}
use m_tlsling.Client.{Peer, ClientEnv, Client, need_download, part_of, receive, download_entry}

module _ (P : Peer) (env : ClientEnv) where
  receive-puts :
      (dest : String) (f : FileEntry) (c : Client P)
      → (receive P env dest f c).1 ≡ none
      → (x : Bytes) × (lookup dest (receive P env dest f c).0.files ≡ some x)
  unfolding receive
  receive-puts dest f c fine =
      let got = (copy_exactly c.inbox f.size).0 in
      let renamed = erase (part_of dest) (insert (part_of dest) got c.files) in
      (got, ground (arith, lookup-insert dest dest got renamed, eq_refl dest))

  -- For an output directory and a file that are each one plain name: an entry with the path `../name` that
  -- is needed and fetched with no error puts its file at `name`, beside the output directory.
  pub download_entry-escapes :
      (out_dir name : String) (f : FileEntry) (c : Client P)
      → IsName out_dir
      → IsName name
      → f.path ≡ ".." <> ("/" <> name)
      → need_download env c.files (join out_dir f.path) f ≡ true
      → (download_entry P env out_dir f c).1 ≡ none
      → (x : Bytes) × (lookup name (download_entry P env out_dir f c).0.files ≡ some x)
  download_entry-escapes out_dir name f c d n at need fine =
      let (e, same, done) = download_entry-receive P env out_dir f c need fine in
      let (x, found) = receive-puts (join out_dir f.path) f e done in
      let outside : join out_dir f.path ≡ name =
        ap (join out_dir) at ∙ join-escapes out_dir name d n in
      (
        x,
        subst (λ p. lookup p (download_entry P env out_dir f c).0.files ≡ some x) outside
            (subst
              (λ (r : Client P × Option String). lookup (join out_dir f.path) r.0.files ≡ some x)
              (sym same) found),
      )
