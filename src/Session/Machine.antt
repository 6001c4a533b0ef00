-- ===== src/Session/Machine.antt =====
-- The machine sends what the handler's loop sends.
use m_tlsling.Base.{ℕ, suc, ◌≡◌, refl, sym, String, List, [], ◌∷◌, ◌++◌, ok, err, arith}
use m_tlsling.Server.Types.{Bytes, FileEntry}
use m_tlsling.Server.Conn.{ServerEnv, serve_loop}
use m_tlsling.Session.{Waiting, serve_byte}

module _ (env : ServerEnv) (id : String) (files : List String) where
  -- All that the machine answers to a row of bytes. A byte that cannot be sent ends it.
  unfoldable pub replies : Waiting → Bytes → Bytes
  replies s [] = []
  replies s (b ∷ bs) = elim (serve_byte env id files s b) [
    | err e ↦ []
    | ok (s', out) ↦ out ++ replies s' bs
  ]

  replies_closed : (i : ℕ) (bs : Bytes) → replies (record { index = i; entries = [] }) bs ≡ []
  unfolding replies serve_byte
  replies_closed i [] = refl
  replies_closed i (b ∷ bs) = refl

  -- For each row of decisions, the loop of `handleConn` sends what the machine answers.
  pub serve_loop-replies :
      (i : ℕ) (entries : List FileEntry) (bs : Bytes)
      → (serve_loop env id files i entries bs).output
        ≡ replies (record { index = i; entries = entries }) bs
  unfolding replies serve_byte serve_loop
  serve_loop-replies i [] bs = sym (replies_closed i bs)
  serve_loop-replies i (entry ∷ entries) [] = refl
  serve_loop-replies i (entry ∷ entries) (b ∷ bs) =
      ground (arith, replies_closed i bs, serve_loop-replies (suc i) entries bs)
