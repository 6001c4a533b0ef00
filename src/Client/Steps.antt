-- ===== src/Client/Steps.antt =====
-- The loop of `Download`, one entry at a time.
use m_tlsling.Base.{
  ◌≡◌, inl, inr, String, true, none, some, List, ◌∷◌, ◌++◌, arith, Option-cases, Result-cases,
}
use m_tlsling.FilePath.{join, dir}
use m_tlsling.Server.Types.{FileEntry}
use m_tlsling.Client.{
  Peer, ClientEnv, Client, need_download, receive, download_entry, download_loop,
}

module _ (P : Peer) (env : ClientEnv) (out_dir : String) (f : FileEntry) (fs : List FileEntry)
    (c : Client P) where
  pub download_loop-stops :
      {e : String}
      → (download_entry P env out_dir f c).1 ≡ some e
      → download_loop P env out_dir (f ∷ fs) c ≡ ((download_entry P env out_dir f c).0, some e)
  unfolding download_loop
  download_loop-stops k = rw (k, download_loop)

  pub download_loop-goes_on :
      (download_entry P env out_dir f c).1 ≡ none
      → download_loop P env out_dir (f ∷ fs) c
        ≡ download_loop P env out_dir fs (download_entry P env out_dir f c).0
  unfolding download_loop
  download_loop-goes_on k = rw (k, download_loop)

-- An entry that is needed and fetched with no error goes through `receive`, with no error.
pub download_entry-receive :
    (P : Peer) (env : ClientEnv) (out_dir : String) (f : FileEntry) (c : Client P)
    → need_download env c.files (join out_dir f.path) f ≡ true
    → (download_entry P env out_dir f c).1 ≡ none
    → (d : Client P) × (download_entry P env out_dir f c ≡ receive P env (join out_dir f.path) f d)
      × ((receive P env (join out_dir f.path) f d).1 ≡ none)
unfolding download_entry
download_entry-receive P env out_dir f c need fine =
    elim (Option-cases (env.mkdir_fault (dir dest))) [
      | inr (e, h) ↦ absurd (ground arith)
      | inl h ↦ elim (Result-cases (P.on_byte c.peer 1)) [
        | inr (e, k) ↦ absurd (ground arith)
        | inl ((peer, sent), k) ↦
            let d : Client P = record c { peer = peer; inbox = c.inbox ++ sent } in
            let same : download_entry P env out_dir f c ≡ receive P env dest f d =
              rw (h, download_entry) (rw need (rw k (rw need))) in
            (d, same, rw same at fine)
      ]
    ]
  where
    dest : String
    dest = join out_dir f.path
