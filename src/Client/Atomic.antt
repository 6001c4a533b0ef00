-- ===== src/Client/Atomic.antt =====
-- What a download leaves on the client's disk, whoever the peer is and however it ends.
use mathlib.Core.List.{Memᴰ}
use m_tlsling.Base.{
  ℕ, zero, suc, ◌≡◌, ◌≢◌, ◌⊎◌, inl, inr, refl, ◌∙◌, ap, sym, String, false, Option, none, some,
  List, [], ◌∷◌, ◌++◌, Result, ok, err, ◌=ˢ◌, eq_iff, lookup, insert, erase, lookup-insert,
  lookup-erase, arith, length, take, All, Bool-cases, Option-cases, Result-cases, ltb,
}
use m_tlsling.Base.Int.{ℤ, pos, negsuc, pos_part}
use m_tlsling.FilePath.{join, dir}
use m_tlsling.Server.Types.{Bytes, FileEntry, Manifest}
use m_tlsling.Server.Protocol.{copy_exactly, read_manifest}
use m_tlsling.Client.Steps.{download_loop-stops, download_loop-goes_on}
use m_tlsling.Client.{
  Peer, Files, ClientEnv, Client, bool_to_byte, need_download, part_of, receive, download_entry,
  download_loop, download,
}

-- What a path holds after a transfer of `f` to `dest`, if it is not the temporary file: what it held
-- before, or, at `dest`, a whole file of the size that the manifest tells.
abbrev pub Fetched : String → FileEntry → String → Files → Files → Type 0
Fetched dest f p old new =
    (lookup p new ≡ lookup p old)
    ⊎ ((p ≡ dest)
        × ((content : Bytes) × (lookup p new ≡ some content) × (length content ≡ pos_part f.size)))

copied_size :
    (input : Bytes) (size : ℤ)
    → (copy_exactly input size).1 ≡ none
    → length (copy_exactly input size).0 ≡ pos_part size
unfolding copy_exactly
copied_size input (negsuc n) h = refl
copied_size input (pos n) h = enough n input (ground arith)
  where
    enough : (n : ℕ) (xs : Bytes) → ltb (length xs) n ≡ false → length (take n xs) ≡ n
    enough zero xs h = refl
    enough (suc n) [] h = absurd (ground arith)
    enough (suc n) (x ∷ xs) h = ap suc (enough n xs (ground arith))

-- The three disks that a transfer may leave.
abbrev Left : String → FileEntry → Files → Files → Type 0
Left dest f old new =
    (new ≡ old)
    ⊎ (((x : Bytes) × (new ≡ insert (part_of dest) x old))
        ⊎ ((x : Bytes) × (new ≡ insert dest x (erase (part_of dest) (insert (part_of dest) x old)))
            × (length x ≡ pos_part f.size)))

module _ (P : Peer) (env : ClientEnv) where
  receive-Left :
      (dest : String) (f : FileEntry) (c : Client P)
      → Left dest f c.files (receive P env dest f c).0.files
  unfolding receive
  receive-Left dest f c = elim (Option-cases (env.create_fault (part_of dest))) [
    | inr (e, h) ↦ inl (ground arith)
    | inl h ↦ elim (Option-cases (env.store_fault (part_of dest))) [
      | inr (e, k) ↦ inr (inl ([], ground arith))
      | inl k ↦
          let got = (copy_exactly c.inbox f.size).0 in
          elim (Option-cases (copy_exactly c.inbox f.size).1) [
            | inr (e, l) ↦ inr (inl (got, ground arith))
            | inl l ↦ elim (Option-cases (env.rename_fault dest)) [
              | inr (e, m) ↦ inr (inl (got, ground arith))
              | inl m ↦ inr (inr (got, ground arith, copied_size c.inbox f.size l))
            ]
          ]
    ]
  ]

  Left-Fetched :
      (dest : String) (f : FileEntry) (old new : Files) (p : String)
      → p ≢ part_of dest
      → Left dest f old new
      → Fetched dest f p old new
  Left-Fetched dest f old new p other (inl e) = inl (rw e)
  Left-Fetched dest f old new p other (inr (inl (x, e))) =
      inl (rw e (ground (arith, lookup-insert p (part_of dest) x old, eq_iff (part_of dest) p)))
  Left-Fetched dest f old new p other (inr (inr (x, e, l))) = elim (Bool-cases (dest =ˢ p)) [
    | inl h ↦ inr (sym ((eq_iff dest p).0 h), (x, rw e (rw lookup-insert (rw h)), l))
    | inr h ↦ inl (
        rw e (
          rw (lookup-insert, h, lookup-erase, lookup-insert)
            (ground (arith, eq_iff (part_of dest) p))))
  ]

  -- One entry of the loop.
  download_entry-Fetched :
      (out_dir : String) (f : FileEntry) (c : Client P) (p : String)
      → p ≢ part_of (join out_dir f.path)
      → Fetched (join out_dir f.path) f p c.files (download_entry P env out_dir f c).0.files
  unfolding download_entry
  download_entry-Fetched out_dir f c p other =
      let dest = join out_dir f.path in
      let byte = bool_to_byte (need_download env c.files dest f) in
      elim (Option-cases (env.mkdir_fault (dir dest))) [
        | inr (e, h) ↦ inl (ground arith)
        | inl h ↦ elim (Result-cases (P.on_byte c.peer byte)) [
          | inr (e, k) ↦ inl (ground arith)
          | inl ((peer, sent), k) ↦ elim (Bool-cases (need_download env c.files dest f)) [
            | inr l ↦ inl (ground arith)
            | inl l ↦
                let c' : Client P = record c { peer = peer; inbox = c.inbox ++ sent } in
                let got : download_entry P env out_dir f c ≡ receive P env dest f c' =
                  ground arith in
                rw (ap (λ (r : Client P × Option String). r.0.files) got)
                  (Left-Fetched dest f c.files _ p other (receive-Left dest f c'))
          ]
        ]
      ]

-- What a path holds after the loop: what it held before, or a whole file of one of the entries.
abbrev pub FromEntries : String → List FileEntry → String → Files → Files → Type 0
FromEntries out_dir fs p old new =
    (lookup p new ≡ lookup p old)
    ⊎ ((f : FileEntry) × Memᴰ f fs
        × (p ≡ join out_dir f.path)
        × ((content : Bytes) × (lookup p new ≡ some content) × (length content ≡ pos_part f.size)))

Fetched-FromEntries :
    (out_dir : String) (f : FileEntry) (fs : List FileEntry) (p : String) (old new : Files)
    → Fetched (join out_dir f.path) f p old new
    → FromEntries out_dir (f ∷ fs) p old new
Fetched-FromEntries out_dir f fs p old new (inl e) = inl e
Fetched-FromEntries out_dir f fs p old new (inr (e, c)) = inr (f, Memᴰ.head refl, e, c)

FromEntries-step :
    (out_dir : String) (f : FileEntry) (fs : List FileEntry) (p : String) (old mid new : Files)
    → Fetched (join out_dir f.path) f p old mid
    → FromEntries out_dir fs p mid new
    → FromEntries out_dir (f ∷ fs) p old new
FromEntries-step out_dir f fs p old mid new first (inr (g, m, e, c)) = inr (g, Memᴰ.tail m, e, c)
FromEntries-step out_dir f fs p old mid new (inl a) (inl b) = inl (b ∙ a)
FromEntries-step out_dir f fs p old mid new (inr (e, (c, a, l))) (inl b) =
    inr (f, Memᴰ.head refl, e, (c, b ∙ a, l))

module _ (P : Peer) (env : ClientEnv) (out_dir : String) (p : String) where
  pub download_loop-FromEntries :
      (fs : List FileEntry) (c : Client P)
      → All (λ f. p ≢ part_of (join out_dir f.path)) fs
      → FromEntries out_dir fs p c.files (download_loop P env out_dir fs c).0.files
  unfolding download_loop
  download_loop-FromEntries [] c h = inl refl
  download_loop-FromEntries (f ∷ fs) c h =
      let step = download_entry P env out_dir f c in
      let first = download_entry-Fetched P env out_dir f c p h.0 in
      elim (Option-cases step.1) [
        | inr (e, k) ↦
            rw
              (ap (λ (r : Client P × Option String). r.0.files)
                (download_loop-stops P env out_dir f fs c k))
              (Fetched-FromEntries out_dir f fs p c.files step.0.files first)
        | inl k ↦ rw (download_loop-goes_on P env out_dir f fs c k) (
            FromEntries-step out_dir f fs p c.files step.0.files _ first
              (download_loop-FromEntries fs step.0 h.1))
      ]

  -- The manifest that the peer's first bytes hold.
  abbrev pub Told : Result (P.State × Bytes) → Manifest → Type 0
  Told (err e) m = ⊥
  Told (ok (peer, sent)) m =
      (left : Bytes) × (read_manifest env.codec env.taken sent ≡ ok (m, left))

  -- Whoever the peer is, and however the download ends, a path that does not end in `.part` holds what
  -- it held before, or as many bytes as the manifest that the peer has sent tells for an entry with that
  -- place (none, if that size is negative).
  pub download-atomic :
      (dial : Result (P.State × Bytes)) (files : Files)
      → ((s : String) → p ≢ part_of s)
      → (lookup p (download P env dial out_dir files).0 ≡ lookup p files)
        ⊎ ((m : Manifest) × Told dial m
            × (f : FileEntry) × Memᴰ f m.files
            × (p ≡ join out_dir f.path)
            × ((content : Bytes) × (lookup p (download P env dial out_dir files).0 ≡ some content)
                × (length content ≡ pos_part f.size)))
  unfolding download
  download-atomic (err e) files h = inl refl
  download-atomic (ok (peer, sent)) files h =
      elim (Result-cases (read_manifest env.codec env.taken sent)) [
        | inr (e, k) ↦ inl (ground arith)
        | inl ((m, left), k) ↦
            let c : Client P = record { peer = peer; inbox = left; files = files } in
            let same : (download P env (ok (peer, sent)) out_dir files).0
                ≡ (download_loop P env out_dir m.files c).0.files =
              rw (k, download) in
            rw same (
              of_entries m (left, k) c.files _
                (download_loop-FromEntries m.files c (no_part m.files)))
      ]
    where
      no_part : (fs : List FileEntry) → All (λ f. p ≢ part_of (join out_dir f.path)) fs
      no_part [] = tt
      no_part (f ∷ fs) = (h (join out_dir f.path), no_part fs)

      of_entries :
          (m : Manifest) (told : Told (ok (peer, sent)) m) (old new : Files)
          → FromEntries out_dir m.files p old new
          → (lookup p new ≡ lookup p old)
            ⊎ ((m : Manifest) × Told (ok (peer, sent)) m
                × (f : FileEntry) × Memᴰ f m.files
                × (p ≡ join out_dir f.path)
                × ((content : Bytes) × (lookup p new ≡ some content)
                    × (length content ≡ pos_part f.size)))
      of_entries m told old new (inl e) = inl e
      of_entries m told old new (inr (f, i, e, c)) = inr (m, told, f, i, e, c)
