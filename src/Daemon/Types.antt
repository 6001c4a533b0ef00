-- ===== src/Daemon/Types.antt =====
-- internal/senderdaemon/types.go: the settings and what a snapshot shows.
use m_tlsling.Base.{ℕ, String, Bool, List}
use m_tlsling.Base.Int.{ℤ}

pub record SenderSettings : Type 0 where
  pub enabled : Bool
  pub cert_path : String
  pub key_path : String
  pub ca_path : String
  pub addr : String
  pub multicast : String
  pub server_name : String
  pub id : String
  pub insecure_skip_verify : Bool
  pub broadcast_interval_seconds : ℤ

pub record ListenerSettings : Type 0 where
  pub enabled : Bool
  pub cert_path : String
  pub key_path : String
  pub ca_path : String
  pub multicast : String
  pub out_dir : String
  pub server_name_override : String
  pub insecure_skip_verify : Bool

pub record Settings : Type 0 where
  pub sender : SenderSettings
  pub listener : ListenerSettings

pub record FileProgressSnapshot : Type 0 where
  pub name : String
  pub transferred : ℕ
  pub total : ℕ

pub record ConnectionSnapshot : Type 0 where
  pub id : String
  pub remote : String
  pub state : String
  pub files : List FileProgressSnapshot

pub record SenderState : Type 0 where
  pub running : Bool
  pub files : List String
  pub connections : List ConnectionSnapshot
  pub last_error : String

-- The time is that of the wall clock, in nanoseconds.
pub record ListenerEvent : Type 0 where
  pub timestamp : ℕ
  pub advert_id : String
  pub callback : String
  pub status : String
  pub detail : String

pub record ListenerState : Type 0 where
  pub running : Bool
  pub last_error : String
  pub recent : List ListenerEvent

pub record Snapshot : Type 0 where
  pub settings : Settings
  pub sender : SenderState
  pub listener : ListenerState
