-- ===== src/Client/PartFile.antt =====
-- The temporary file of a transfer is a path like any other.
use Prim.Native.String.{count}
use text.Mathlib.TextLemmas.{length-append}
use m_tlsling.Base.{
  ◌≡◌, ◌≢◌, ap, sym, subst, Option, String, true, none, eq_iff, eq_refl, lookup, insert, erase,
  lookup-insert, lookup-erase, arith,
}
use m_tlsling.FilePath.{join}
use m_tlsling.Server.Types.{Bytes, FileEntry}
use m_tlsling.Server.Protocol.{copy_exactly}
use m_tlsling.Client.Steps.{download_entry-receive}
use m_tlsling.Client.{
  Peer, Files, ClientEnv, Client, need_download, part_of, receive, download_entry,
}

pub part_of-ne : (dest : String) → part_of dest ≢ dest
part_of-ne dest e = omega (arith, ap count e, length-append dest ".part")

lookup_renamed :
    (dest : String) (x y : Bytes) (old : Files)
    → lookup (part_of dest) (insert dest x (erase (part_of dest) (insert (part_of dest) y old)))
      ≡ none
lookup_renamed dest x y old =
    rw (lookup-insert, lookup-erase)
      (ground (arith, part_of-ne dest, eq_iff dest (part_of dest), eq_refl (part_of dest)))

module _ (P : Peer) (env : ClientEnv) where
  receive-loses_part :
      (dest : String) (f : FileEntry) (c : Client P)
      → (receive P env dest f c).1 ≡ none
      → lookup (part_of dest) (receive P env dest f c).0.files ≡ none
  unfolding receive
  receive-loses_part dest f c fine =
      let got = (copy_exactly c.inbox f.size).0 in
      ground (arith, lookup_renamed dest got got c.files)

  -- An entry that is needed and fetched with no error takes away whatever the client had at its path with
  -- `.part` behind it, be that a file of the same manifest.
  pub download_entry-loses_part :
      (out_dir : String) (f : FileEntry) (c : Client P)
      → need_download env c.files (join out_dir f.path) f ≡ true
      → (download_entry P env out_dir f c).1 ≡ none
      → lookup (part_of (join out_dir f.path)) (download_entry P env out_dir f c).0.files ≡ none
  download_entry-loses_part out_dir f c need fine =
      let (d, same, done) = download_entry-receive P env out_dir f c need fine in
      subst
        (λ (r : Client P × Option String). lookup (part_of (join out_dir f.path)) r.0.files ≡ none)
        (sym same) (receive-loses_part (join out_dir f.path) f d done)
