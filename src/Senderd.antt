-- ===== src/Senderd.antt =====
-- cmd/senderd/main.go: from the flags to a daemon that serves, and from the signal to its end. Logging and
-- `http.Server` are left out; its `Shutdown` closes the listener that it serves.
pub mod Boot
pub mod Exit
use m_tlsling.Base.{
  String, ◌<>◌, Bool, true, false, Option, none, some, List, [], ◌∷◌, Result, ok, err,
}
use m_tlsling.Base.Int.{ℤ, pos}
use m_tlsling.Config.{Crypto}
use m_tlsling.Daemon.Types.{Settings}
use m_tlsling.Daemon.State.{World, Env, start_world}
use m_tlsling.Daemon.Control.{reconcile, shutdown}
use m_tlsling.Ipc.{
  default_endpoint, normalize_endpoint, Listener, Sockets, Faults, remove, close, listen,
}

-- The flags of the command line.
pub record Flags : Type 0 where
  pub sender_cert : String
  pub sender_key : String
  pub sender_ca : String
  pub sender_addr : String
  pub sender_multicast : String
  pub sender_server_name : String
  pub sender_id : String
  pub sender_insecure_skip_verify : Bool
  pub sender_enabled : Bool
  pub sender_broadcast_interval_seconds : ℤ
  pub listener_cert : String
  pub listener_key : String
  pub listener_ca : String
  pub listener_multicast : String
  pub listener_out : String
  pub listener_server_name : String
  pub listener_insecure_skip_verify : Bool
  pub listener_enabled : Bool
  pub ipc_socket : String

-- Their defaults.
abbrev pub default_flags : Flags
default_flags = record {
  sender_cert = "certs/server.crt";
  sender_key = "certs/server.key";
  sender_ca = "certs/ca.crt";
  sender_addr = ":8443";
  sender_multicast = "239.255.42.99:9999";
  sender_server_name = "transfer.local";
  sender_id = "sender-1";
  sender_insecure_skip_verify = false;
  sender_enabled = false;
  sender_broadcast_interval_seconds = pos 5;
  listener_cert = "certs/client.crt";
  listener_key = "certs/client.key";
  listener_ca = "certs/ca.crt";
  listener_multicast = "239.255.42.99:9999";
  listener_out = "downloads";
  listener_server_name = "";
  listener_insecure_skip_verify = false;
  listener_enabled = false;
  ipc_socket = default_endpoint;
}

-- The settings that the daemon is made with.
unfoldable pub settings_of : Flags → Settings
settings_of f = record {
  sender = record {
    enabled = f.sender_enabled;
    cert_path = f.sender_cert;
    key_path = f.sender_key;
    ca_path = f.sender_ca;
    addr = f.sender_addr;
    multicast = f.sender_multicast;
    server_name = f.sender_server_name;
    id = f.sender_id;
    insecure_skip_verify = f.sender_insecure_skip_verify;
    broadcast_interval_seconds = f.sender_broadcast_interval_seconds;
  };
  listener = record {
    enabled = f.listener_enabled;
    cert_path = f.listener_cert;
    key_path = f.listener_key;
    ca_path = f.listener_ca;
    multicast = f.listener_multicast;
    out_dir = f.listener_out;
    server_name_override = f.listener_server_name;
    insecure_skip_verify = f.listener_insecure_skip_verify;
  };
}

module _ (C : Crypto) where
  -- `log.Fatalf` ends the process; else it serves until a signal.
  pub data Started : Type 0 where
    fatal : String → World C → Sockets → Started
    serving : World C → Sockets → Listener → Started

  abbrev pub after_listen : World C → Sockets × Result Listener → Started
  after_listen w (s, err e) = fatal ("listen ipc: " <> e) w s
  after_listen w (s, ok l) = serving w s l

  -- The endpoint is opened when the initial settings were applied.
  abbrev pub after_reconcile : Faults → Flags → Sockets → World C × Option String → Started
  after_reconcile faults f s (w, some e) = fatal ("apply initial settings: " <> e) w s
  after_reconcile faults f s (w, none) = after_listen w (listen faults f.ipc_socket s)

  -- `main`, up to the wait for a signal.
  unfoldable pub boot : Env C → Faults → Flags → Sockets → Started
  unfolding settings_of
  boot env faults f s = after_reconcile faults f s (reconcile C env (start_world C (settings_of f)))

  -- The rest of `main`, with the deferred calls.
  unfoldable pub leave : Faults → Flags → Listener → World C → Sockets → World C × Sockets
  leave faults f l w s =
      let w = shutdown C w in
      let s = close l s in (w, (remove faults (normalize_endpoint f.ipc_socket) s).0)
