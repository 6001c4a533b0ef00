-- ===== src/Server/Conn/Serving.antt =====
-- How a handler's run ends.
use m_tlsling.Base.{
  ℕ, suc, ◌≡◌, ◌≢◌, ◌⊎◌, inl, inr, eq_iff, refl, ◌∙◌, String, ◌<>◌, Option, none, some, List, [],
  ◌∷◌, ◌++◌, ok, ◌==◌, arith, Result-cases, Option-cases, Bool-cases,
}
use m_tlsling.Server.Types.{Bytes, FileEntry, ConnEvent, directory, open_file}
use m_tlsling.Base.Int.{pos}
use m_tlsling.Server.Progress.{copy_file, copy_chunks}
use m_tlsling.Server.Protocol.{write_manifest}
use m_tlsling.Server.Conn.{
  ServerEnv, list_entries, conn_event, Served, serve_entry, after_output, failed, serve_loop,
  handle_conn,
}

-- The state and the error of the last event.
abbrev pub last_told : List ConnEvent → String × Option String
last_told [] = ("", none)
last_told (e ∷ []) = (e.state, e.error)
last_told (e ∷ f ∷ es) = last_told (f ∷ es)

-- The last event tells how the run ended.
abbrev pub Ends : Served → Type 0
Ends r =
    ((r.error ≡ none) × (last_told r.events ≡ ("completed", none)))
    ⊎ ((e : String) × (r.error ≡ some e) × (last_told r.events ≡ ("error", some e)))

last_told-append :
    (es : List ConnEvent) (f : ConnEvent) (fs : List ConnEvent)
    → last_told (es ++ (f ∷ fs)) ≡ last_told (f ∷ fs)
last_told-append [] f fs = refl
last_told-append (e ∷ []) f fs = refl
last_told-append (e ∷ e' ∷ es) f fs = last_told-append (e' ∷ es) f fs

after_output-Ends :
    (out : Bytes) (evs : List ConnEvent) (r : Served) → Ends r → Ends (after_output out evs r)
after_output-Ends out evs r h = go r.events h
  where
    go :
        (fs : List ConnEvent)
        → (((r.error ≡ none) × (last_told fs ≡ ("completed", none)))
            ⊎ ((e : String) × (r.error ≡ some e) × (last_told fs ≡ ("error", some e))))
        → (((r.error ≡ none) × (last_told (evs ++ fs) ≡ ("completed", none)))
            ⊎ ((e : String) × (r.error ≡ some e) × (last_told (evs ++ fs) ≡ ("error", some e))))
    go [] (inl (a, b)) = absurd (ground (arith, eq_iff "" "completed"))
    go [] (inr (e, a, b)) = absurd (ground (arith, eq_iff "" "error"))
    go (f ∷ fs) (inl (a, b)) = inl (a, last_told-append evs f fs ∙ b)
    go (f ∷ fs) (inr (e, a, b)) = inr (e, a, last_told-append evs f fs ∙ b)

failed-Ends : (env : ServerEnv) (id e : String) → Ends (failed env id e)
failed-Ends env id e = inr (e, refl, refl)

serve_loop-Ends :
    (env : ServerEnv) (id : String) (files : List String) (i : ℕ) (entries : List FileEntry)
    (input : Bytes)
    → Ends (serve_loop env id files i entries input)
unfolding serve_loop
serve_loop-Ends env id files i [] input = inl (refl, refl)
serve_loop-Ends env id files i (entry ∷ entries) [] = failed-Ends env id _
serve_loop-Ends env id files i (entry ∷ entries) (b ∷ input) =
    let r = serve_entry env id files i entry in
    elim (Bool-cases (b == 0)) [
      | inl k ↦ rw k (serve_loop-Ends env id files (suc i) entries input)
      | inr k ↦ rw k (elim (Option-cases r.error) [
        | inl l ↦ rw (l) (
            after_output-Ends r.output r.events (serve_loop env id files (suc i) entries input)
              (serve_loop-Ends env id files (suc i) entries input))
        | inr (e, l) ↦
            rw l (after_output-Ends r.output r.events (failed env id e) (failed-Ends env id e))
      ])
    ]

-- Every run of `handleConn` tells how it ended in its last event: `completed` if there was no error,
-- `error` with that error if there was one.
pub handle_conn-Ends :
    (env : ServerEnv) (id : String) (files : List String) (input : Bytes)
    → Ends (handle_conn env id files input)
unfolding handle_conn
handle_conn-Ends env id files input = elim (Result-cases (list_entries env files)) [
  | inr (e, k) ↦ rw (k, handle_conn) (failed-Ends env id e)
  | inl (entries, k) ↦
      rw (k, handle_conn)
        (elim (Result-cases (write_manifest env.codec env.fault (record { files = entries }))) [
          | inr (e, l) ↦ rw l (failed-Ends env id e)
          | inl (out, l) ↦ rw l (
              after_output-Ends out [] (serve_loop env id files 0 entries input)
                (serve_loop-Ends env id files 0 entries input))
        ])
]

-- If the first listed path is a directory, and the files behind it are listed, the first of them not empty,
-- and their manifest is sent, then a client that asks for the first file gets nothing: `files[i]` is the
-- directory, the run fails as it is read, and the error is told. A read that gives no bytes makes no write.
pub handle_conn-directory :
    (env : ServerEnv) (id dir : String) (files : List String) (decision : ℕ) (input out : Bytes)
    (entry : FileEntry) (entries : List FileEntry) (n : ℕ)
    → env.opened dir ≡ directory
    → entry.size ≡ pos (suc n)
    → env.reads [] ≡ []
    → list_entries env (dir ∷ files) ≡ ok (entry ∷ entries)
    → write_manifest env.codec env.fault (record { files = entry ∷ entries }) ≡ ok out
    → decision ≢ 0
    → handle_conn env id (dir ∷ files) (decision ∷ input) ≡ (
        let e = "read " <> (dir <> ": is a directory") in
        record {
          output = out ++ [];
          events = conn_event env id "error" (some e) ∷ [];
          error = some e;
        })
unfolding handle_conn
handle_conn-directory env id dir files decision input out entry entries n here long quiet listed
      wrote asked =
    rw (listed, handle_conn) (rw wrote (rw (loop_fails) refl))
  where
    loop_fails :
        serve_loop env id (dir ∷ files) 0 (entry ∷ entries) (decision ∷ input)
        ≡ failed env id ("read " <> (dir <> ": is a directory"))
    loop_fails =
        unfold serve_loop serve_entry copy_file copy_chunks open_file in
        rw (here) (rw (long) (rw (quiet) (ground arith)))
