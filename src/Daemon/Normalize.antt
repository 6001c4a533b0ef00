-- ===== src/Daemon/Normalize.antt =====
-- `normalizeFiles` and `normalizeSettings` of internal/senderdaemon/daemon.go.
pub mod Laws
use m_tlsling.Base.{String, Bool, true, false, ◌||◌, List, [], ◌∷◌, ◌++◌, if◌then◌else◌, ◌=ˢ◌, has}
use m_tlsling.Base.Int.{ℤ, pos, lebℤ}
use m_tlsling.Daemon.Types.{Settings}

-- The loop of `normalizeFiles`; `seen` holds the keys of the map.
unfoldable pub normalize_from : List String → List String → List String
unfolding has
normalize_from seen [] = []
normalize_from seen (f ∷ fs) =
    if f =ˢ "" || has f seen then normalize_from seen fs else f ∷ normalize_from (f ∷ seen) fs

unfoldable pub normalize_files : List String → List String
unfolding normalize_from
normalize_files files = normalize_from [] files

unfoldable pub normalize_settings : Settings → Settings
normalize_settings s =
    let sender =
      if lebℤ s.sender.broadcast_interval_seconds (pos 0)
      then record (s.sender) { broadcast_interval_seconds = pos 5 }
      else s.sender in
    let listener =
      if s.listener.out_dir =ˢ ""
      then record (s.listener) { out_dir = "downloads" }
      else s.listener in
    record { sender = sender; listener = listener }
