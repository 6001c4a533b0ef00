-- ===== src/Daemon/State.antt =====
-- The daemon's state, and the world around it: the contexts that were cancelled, the servers that were
-- stopped, and the goroutines that run. A context and a server are known by a number.
use m_tlsling.Base.{
  ℕ, ◌+◌, ◌*◌, ◌%◌, ◌^◌, ◌==◌, String, Bool, false, ◌||◌, Option, none, some, List, [], ◌∷◌, Map,
  Result,
}
use m_tlsling.Base.Int.{ℤ, pos, negsuc, int64_of}
use m_tlsling.Config.{Crypto, Certificate, TlsConfig}
use m_tlsling.Discovery.{Advert}
use m_tlsling.Daemon.Types.{Settings, ListenerSettings, FileProgressSnapshot, ListenerEvent}
use m_tlsling.Daemon.Normalize.{normalize_settings}

-- `connState`
pub record ConnState : Type 0 where
  pub id : String
  pub remote : String
  pub state : String
  pub files : Map FileProgressSnapshot

-- `senderRuntime`
pub record SenderRuntime : Type 0 where
  pub running : Bool
  pub last_error : String
  pub connections : Map ConnState
  pub cancel : Option ℕ
  pub srv : Option ℕ

-- `listenerRuntime`
pub record ListenerRuntime : Type 0 where
  pub running : Bool
  pub last_error : String
  pub recent : List ListenerEvent
  pub seen : Map ℤ
  pub cancel : Option ℕ

pub record Daemon : Type 0 where
  pub settings : Settings
  pub sender_files : List String
  pub sender : SenderRuntime
  pub listener : ListenerRuntime

-- `New`
unfoldable pub new_daemon : Settings → Daemon
unfolding normalize_settings
new_daemon settings = record {
  settings = normalize_settings settings;
  sender_files = [];
  sender = record { running = false; last_error = ""; connections = []; cancel = none; srv = none };
  listener = record { running = false; last_error = ""; recent = []; seen = []; cancel = none };
}

-- `time.Duration(n) * time.Second`, on `int64`.
abbrev pub seconds : ℤ → ℤ
seconds (pos n) = int64_of (n * 1000000000) 0
seconds (negsuc n) = int64_of 0 ((n + 1) * 1000000000 % 2 ^ 64)

module _ (C : Crypto) where
  -- A goroutine that the daemon has started.
  pub data Task : Type 0 where
    consume_events : ℕ → ℕ → Task
    run_server : ℕ → ℕ → String → TlsConfig C → Task
    run_broadcast : ℕ → String → Advert → ℤ → Task
    run_listener : ℕ → ListenerSettings → Certificate C → Option (C.CertPool) → Task

  pub record World : Type 0 where
    pub daemon : Daemon
    pub next_ctx : ℕ
    pub next_srv : ℕ
    pub cancelled : List ℕ
    pub stopped : List ℕ
    pub tasks : List Task

  unfoldable pub start_world : Settings → World
  unfolding new_daemon
  start_world settings = record {
    daemon = new_daemon settings;
    next_ctx = 0;
    next_srv = 0;
    cancelled = [];
    stopped = [];
    tasks = [];
  }

  -- What the daemon takes from outside.
  pub record Env : Type 0 where
    pub load_x509_key_pair : String → String → Result (Certificate C)
    pub now : ℤ

  -- The critical sections write through these.
  abbrev pub with_sender : SenderRuntime → World → World
  with_sender s w = record w { daemon = record (w.daemon) { sender = s } }

  abbrev pub with_listener : ListenerRuntime → World → World
  with_listener l w = record w { daemon = record (w.daemon) { listener = l } }

  abbrev pub with_settings : Settings → World → World
  with_settings s w = record w { daemon = record (w.daemon) { settings = s } }

-- `ctx.Err() != nil`
unfoldable pub is_cancelled : ℕ → List ℕ → Bool
is_cancelled ctx [] = false
is_cancelled ctx (c ∷ cs) = c == ctx || is_cancelled ctx cs

-- `cancel != nil { cancel() }`
abbrev pub cancel_ctx : Option ℕ → List ℕ → List ℕ
cancel_ctx none cs = cs
cancel_ctx (some ctx) cs = ctx ∷ cs
