-- ===== src/Client/Keeps.antt =====
-- What a download leaves alone.
use mathlib.Core.List.{Memᴰ}
use m_tlsling.Base.{◌≡◌, ◌≢◌, inl, inr, sym, subst, String, List, [], ◌∷◌, lookup, All}
use m_tlsling.FilePath.{join}
use m_tlsling.Server.Types.{FileEntry}
use m_tlsling.Client.{Peer, ClientEnv, Client, part_of, download_loop}
use m_tlsling.Client.Atomic.{download_loop-FromEntries}

All-Memᴰ {ℓ κ} : {A : Type ℓ} (Q : A → Type κ) (f : A) (fs : List A) → All Q fs → Memᴰ f fs → Q f
All-Memᴰ Q f [] h m = elim m [ ]
All-Memᴰ Q f (g ∷ fs) h (Memᴰ.head e) = subst Q (sym e) h.0
All-Memᴰ Q f (g ∷ fs) h (Memᴰ.tail m) = All-Memᴰ Q f fs h.1 m

-- A path that no entry is written to, nor through, keeps what it held.
pub download_loop-keeps :
    (P : Peer) (env : ClientEnv) (out_dir p : String) (fs : List FileEntry) (c : Client P)
    → All (λ f. p ≢ join out_dir f.path) fs
    → All (λ f. p ≢ part_of (join out_dir f.path)) fs
    → lookup p (download_loop P env out_dir fs c).0.files ≡ lookup p c.files
download_loop-keeps P env out_dir p fs c apart no_part =
    elim (download_loop-FromEntries P env out_dir p fs c no_part) [
      | inl e ↦ e
      | inr (f, m, e, rest) ↦ absurd (All-Memᴰ (λ g. p ≢ join out_dir g.path) f fs apart m e)
    ]
