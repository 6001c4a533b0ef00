-- ===== src/Daemon/Invariant/Defs.antt =====
-- The invariant of the daemon.
use m_tlsling.Base.{
  ℕ, ◌≤◌, ◌<◌, ◌≡◌, Option, none, some, [], ◌∷◌, is_some, length, Map, IsMap, is_some,
}
use m_tlsling.Config.{Crypto}
use m_tlsling.Daemon.State.{ConnState, SenderRuntime, ListenerRuntime, World}
use m_tlsling.Daemon.Normalize.Laws.{AreNormal, IsUsable}

-- A handle in use was given out before, and is not given out again.
abbrev pub Below : Option ℕ → ℕ → Type 0
Below none n = Unit
Below (some h) n = h < n

-- Each connection is filed under its own id.
abbrev pub AreKeyed : Map ConnState → Type 0
AreKeyed [] = Unit
AreKeyed ((id, c) ∷ m) = (c.id ≡ id) × AreKeyed m

-- The sender runs exactly while it holds a context and a server to stop.
pub record SenderInv (s : SenderRuntime) : Type 0 where
  pub held : is_some s.cancel ≡ s.running
  pub served : is_some s.srv ≡ s.running
  pub distinct : IsMap s.connections
  pub keyed : AreKeyed s.connections

pub record ListenerInv (l : ListenerRuntime) : Type 0 where
  pub held : is_some l.cancel ≡ l.running
  pub recent_capped : length l.recent ≤ 64
  pub distinct : IsMap l.seen

module _ (C : Crypto) where
  pub record Inv (w : World C) : Type 0 where
    pub sender : SenderInv w.daemon.sender
    pub listener : ListenerInv w.daemon.listener
    pub usable : IsUsable w.daemon.settings
    pub files : AreNormal w.daemon.sender_files
    pub ctx : Below w.daemon.sender.cancel w.next_ctx
    pub srv : Below w.daemon.sender.srv w.next_srv
    pub listener_ctx : Below w.daemon.listener.cancel w.next_ctx
