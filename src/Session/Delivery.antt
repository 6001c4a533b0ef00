-- ===== src/Session/Delivery.antt =====
-- A whole session: every listed file is on the client's disk in the end.
use mathlib.Core.List.{append-nil}
use m_tlsling.Base.{
  ℕ, zero, suc, drop, ◌≤◌, Result, ◌^◌, ◌<◌, ◌≡◌, ◌≢◌, refl, ◌∙◌, ap, sym, subst, String, Option,
  none, some, List, [], ◌∷◌, map, ok, length, get_elem?, All,
}
use m_tlsling.FilePath.{join, relative_path}
use m_tlsling.Server.Types.{Bytes, FileEntry, Manifest, regular}
use m_tlsling.Server.Protocol.{write_manifest, read_manifest}
use m_tlsling.Server.Protocol.RoundTrip.{read_manifest-write_manifest}
use m_tlsling.Server.Conn.{ServerEnv}
use m_tlsling.Server.Conn.Listing.{entry_of, Lists, Lists-list_entries}
use m_tlsling.Client.{
  Peer, Files, ClientEnv, Client, part_of, download_entry, download_loop, download,
}
use m_tlsling.Client.Steps.{download_loop-goes_on}
use m_tlsling.Client.Keeps.{download_loop-keeps}
use m_tlsling.Session.{Waiting, server_peer, greet, run_session}
use m_tlsling.Session.Transfer.{Faultless, Holds, download_entry-Holds}

-- A listed path with what stands there.
abbrev pub Item : Type 0
Item = String × Bytes

abbrev pub paths_of : List Item → List String
paths_of = map (λ x. x.0)

abbrev pub entries_of : ServerEnv → List Item → List FileEntry
entries_of env = map (λ x. entry_of env x.0 x.1)

abbrev pub dest_of : String → String → String
dest_of out_dir path = join out_dir (relative_path path)

-- No file is written to, or through, the place of one before it.
abbrev pub Separate : String → List Item → Type 0
Separate out_dir [] = Unit
Separate out_dir (x ∷ xs) =
    All (λ y. dest_of out_dir x.0 ≢ dest_of out_dir y.0) xs
    × All (λ y. dest_of out_dir x.0 ≢ part_of (dest_of out_dir y.0)) xs
    × Separate out_dir xs

abbrev pub OnDisk : ServerEnv → List Item → Type 0
OnDisk env = All (λ x. env.listed x.0 ≡ regular x.1)

abbrev Aligned : List String → ℕ → List Item → Type 0
Aligned files i [] = Unit
Aligned files i (x ∷ xs) = (get_elem? files i ≡ some x.0) × Aligned files (suc i) xs

All-map {ℓ κ μ} :
    {A : Type ℓ} {B : Type κ} (Q : B → Type μ) (g : A → B) (xs : List A)
    → All (λ x. Q (g x)) xs
    → All Q (map g xs)
All-map Q g [] h = tt
All-map Q g (x ∷ xs) h = (h.0, All-map Q g xs h.1)

Aligned-shift :
    (y : String) (files : List String) (i : ℕ) (xs : List Item)
    → Aligned files i xs
    → Aligned (y ∷ files) (suc i) xs
Aligned-shift y files i [] h = tt
Aligned-shift y files i (x ∷ xs) h = (h.0, Aligned-shift y files (suc i) xs h.1)

Aligned-paths_of : (xs : List Item) → Aligned (paths_of xs) 0 xs
Aligned-paths_of [] = tt
Aligned-paths_of (x ∷ xs) = (refl, Aligned-shift x.0 (paths_of xs) 0 xs (Aligned-paths_of xs))

OnDisk-Lists :
    (env : ServerEnv) (xs : List Item) → OnDisk env xs → Lists env (paths_of xs) (entries_of env xs)
OnDisk-Lists env [] h = Lists.nothing
OnDisk-Lists env (x ∷ xs) h = Lists.entry x.1 h.0 (OnDisk-Lists env xs h.1)

-- Every item is at its place.
abbrev pub Delivered : ServerEnv → String → List Item → Files → Type 0
Delivered env out_dir xs fs = All (λ x. Holds env fs (dest_of out_dir x.0) x.1) xs

greet-out :
    (env : ServerEnv) (xs : List Item) (out : Bytes)
    → OnDisk env xs
    → write_manifest env.codec env.fault (record { files = entries_of env xs }) ≡ ok out
    → greet env (paths_of xs) ≡ (record { index = 0; entries = entries_of env xs }, out)
unfolding greet
greet-out env xs out disk wrote =
    rw (Lists-list_entries env (paths_of xs) (OnDisk-Lists env xs disk), greet) (rw wrote)

download-ok :
    (P : Peer) (env : ClientEnv) (out_dir : String) (peer : P.State) (sent : Bytes) (m : Manifest)
    (left : Bytes) (old : Files)
    → read_manifest env.codec env.taken sent ≡ ok (m, left)
    → let c : Client P = record { peer = peer; inbox = left; files = old } in
      let r = download_loop P env out_dir m.files c in
      download P env (ok (peer, sent)) out_dir old ≡ (r.0.files, r.1)
unfolding download
download-ok P env out_dir peer sent m left old read = rw (read, download)

drop-nil : (n : ℕ) → drop {A = ℕ} n [] ≡ []
drop-nil zero = refl
drop-nil (suc n) = refl

-- Behind the manifest there is nothing to lose.
read_manifest-alone :
    {r : Result (Manifest × Bytes)} {m : Manifest}
    → ((n : ℕ) × (n ≤ 4096) × (r ≡ ok (m, drop n [])))
    → r ≡ ok (m, [])
read_manifest-alone {r} {m} (n, most, e) = e ∙ ap (λ left. ok (m, left)) (drop-nil n)

module _ (env : ServerEnv) (cenv : ClientEnv) (id out_dir : String) (h : Faultless env cenv) where
  loop_delivers :
      (files : List String) (xs : List Item) (i : ℕ) (c : Client (server_peer env id files))
      → Aligned files i xs
      → OnDisk env xs
      → Separate out_dir xs
      → c.peer ≡ record { index = i; entries = entries_of env xs }
      → c.inbox ≡ []
      → let r = download_loop (server_peer env id files) cenv out_dir (entries_of env xs) c in
        (r.1 ≡ none) × Delivered env out_dir xs r.0.files
  unfolding download_loop
  loop_delivers files [] i c a d s w q = (refl, tt)
  loop_delivers files (x ∷ xs) i c a d s w q =
      let e = entry_of env x.0 x.1 in
      let one = download_entry P cenv out_dir e c in
      let (fine, waits, quiet, held) =
        download_entry-Holds env cenv id out_dir files h i x.0 x.1 (entries_of env xs) c a.0 d.0 w
          q in
      let (rest_fine, rest_held) = loop_delivers files xs (suc i) one.0 a.1 d.1 s.2 waits quiet in
      let kept =
        download_loop-keeps P cenv out_dir (dest_of out_dir x.0) (entries_of env xs) one.0
          (All-map (λ f. dest_of out_dir x.0 ≢ join out_dir f.path) (λ y. entry_of env y.0 y.1) xs
            s.0)
          (All-map (λ f. dest_of out_dir x.0 ≢ part_of (join out_dir f.path))
            (λ y. entry_of env y.0 y.1) xs s.1) in
      let (content, found, same) = held in
      subst
        (λ (r : Client P × Option String). (r.1 ≡ none) × Delivered env out_dir (x ∷ xs) r.0.files)
        (sym (download_loop-goes_on P cenv out_dir e (entries_of env xs) c fine))
        (rest_fine, ((content, kept ∙ found, same), rest_held))
    where
      P : Peer
      P = server_peer env id files

  -- If all listed paths are files, nothing fails, both ends use the same hash, the manifest has fewer than
  -- 2^32 bytes, comes back from JSON as it went and is sent, and no file is written to, or through, the
  -- place of one listed before it, then the download from the handler ends with no error, and every
  -- listed file is in its place with the hash of the server's content, whatever the client had before.
  pub run_session-delivers :
      (xs : List Item) (old : Files) (payload out : Bytes)
      → OnDisk env xs
      → Separate out_dir xs
      → cenv.codec ≡ env.codec
      → env.codec.marshal (record { files = entries_of env xs }) ≡ ok payload
      → env.codec.unmarshal payload ≡ ok (record { files = entries_of env xs })
      → length payload < 2 ^ 32
      → write_manifest env.codec env.fault (record { files = entries_of env xs }) ≡ ok out
      → let r = run_session env id (paths_of xs) cenv out_dir old in
        (r.1 ≡ none) × Delivered env out_dir xs r.0
  unfolding run_session
  run_session-delivers xs old payload out disk apart codec marshal unmarshal small wrote =
      let met = greet-out env xs out disk wrote in
      let read : read_manifest cenv.codec cenv.taken out
          ≡ ok (record { files = entries_of env xs }, []) =
        rw codec (
          rw (← append-nil out) (
            read_manifest-alone (
              read_manifest-write_manifest env.codec cenv.taken env.fault _ payload out [] marshal
                unmarshal small wrote))) in
      let c : Client P = record {
        peer = record { index = 0; entries = entries_of env xs };
        inbox = [];
        files = old;
      } in
      let ran =
        download-ok P cenv out_dir c.peer out (record { files = entries_of env xs }) [] old read in
      subst (λ (r : Files × Option String). (r.1 ≡ none) × Delivered env out_dir xs r.0)
        (sym (ap (λ (g : Waiting × Bytes). download P cenv (ok g) out_dir old) met ∙ ran))
        (loop_delivers (paths_of xs) xs 0 c (Aligned-paths_of xs) disk apart refl refl)
    where
      P : Peer
      P = server_peer env id (paths_of xs)
