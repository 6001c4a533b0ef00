-- ===== src/Tests/Daemons.antt =====
-- Daemons at work.
use m_tlsling.Base.{
  ◌≡◌, refl, arith, String, true, false, Option, none, some, List, [], ◌∷◌, take, ok,
}
use m_tlsling.Base.Int.{pos}
use m_tlsling.Config.{TlsConfig, server_tls_config, load_certificate}
use m_tlsling.Discovery.{Advert, new_advert}
use m_tlsling.Discovery.Signature.{sign}
use m_tlsling.Daemon.Types.{Settings, ListenerEvent}
use m_tlsling.Daemon.State.{World, Env, start_world, is_cancelled}
use m_tlsling.Daemon.Sender.{load_tls, set_sender_files, build_sender}
use m_tlsling.Daemon.Listener.{
  build_listener, start_listener, stop_listener, listener_exits, hear_advert, listener_event,
}
use m_tlsling.Daemon.Invariant.Defs.{Inv}
use m_tlsling.Daemon.Step.{System, Atomic, Step, Reach}
use m_tlsling.Daemon.Step.Reachable.{Reach-Inv}
use m_tlsling.Daemon.Step.DoubleStart.{OrphanedSender, double_start}
use m_tlsling.Daemon.Step.StaleExit.{OrphanedListener, listener_exits-later}
use m_tlsling.Daemon.History.{heard_since}
use m_tlsling.Daemon.History.Loop.{hear_all, outcome, hear_advert-old, hear_advert-fresh}
use m_tlsling.Tests.Keys.{unary, small}
use m_tlsling.Tests.Adverts.{cert, made}

abbrev pub settings : Settings
settings = record {
  sender = record {
    enabled = false;
    cert_path = "cert.pem";
    key_path = "key.pem";
    ca_path = "ca.pem";
    addr = ":9000";
    multicast = "239.255.42.99:9999";
    server_name = "sender";
    id = "sender-1";
    insecure_skip_verify = true;
    broadcast_interval_seconds = pos 5;
  };
  listener = record {
    enabled = false;
    cert_path = "cert.pem";
    key_path = "key.pem";
    ca_path = "ca.pem";
    multicast = "239.255.42.99:9999";
    out_dir = "downloads";
    server_name_override = "";
    insecure_skip_verify = true;
  };
}

abbrev pub env : Env small
env = record { load_x509_key_pair = λ c k. ok cert; now = pos 1700000000 }

abbrev pub new : World small
new = start_world small settings

-- The daemon after `SetSenderFiles`.
abbrev one_file : List String
one_file = "/srv/hello.md" ∷ []

Reach-Inv_example : Inv small (set_sender_files small one_file new)
Reach-Inv_example =
    Reach-Inv small env settings (Reach.next Reach.here (Step.acts (Atomic.sets_files one_file)))

abbrev pub ready : World small
ready = record {
  daemon = record {
    settings = settings;
    sender_files = one_file;
    sender = record {
      running = false;
      last_error = "";
      connections = [];
      cancel = none;
      srv = none;
    };
    listener = record { running = true; last_error = ""; recent = []; seen = []; cancel = some 0 };
  };
  next_ctx = 1;
  next_srv = 0;
  cancelled = [];
  stopped = [];
  tasks = [];
}

abbrev advert : Advert
advert = record made { callback = ":9000" }

build_ready :
    build_sender small env settings.sender one_file
    ≡ ok (server_tls_config small cert none true, advert)
unfolding build_sender load_tls load_certificate new_advert sign unary
build_ready = refl

double_start_example :
    (end : System small env) × Reach small env (record { world = ready; pending = [] }) end
    × OrphanedSender small 1 0 settings.sender (server_tls_config small cert none true) end.world
unfolding is_cancelled
double_start_example =
    double_start small env ready (server_tls_config small cert none true) advert refl refl refl
      build_ready

build_listening : build_listener small env settings.listener ≡ ok (cert, none)
unfolding build_listener load_tls load_certificate
build_listening = refl

listener_exits-later_example :
    let again = (start_listener small env false (stop_listener small false ready)).0 in
    OrphanedListener small 1 settings.listener cert none
      (stop_listener small true (listener_exits small none again))
unfolding is_cancelled
listener_exits-later_example =
    listener_exits-later small env ready cert none true refl (ground arith) refl build_listening

abbrev serving : World small
serving = record ready {
  daemon = record (ready.daemon) {
    sender = record {
      running = true;
      last_error = "";
      connections = [];
      cancel = some 3;
      srv = some 1;
    };
  };
}

abbrev failing : String → TlsConfig small → String → Option String
failing addr cfg out_dir = some "dial tls: refused"

hear_advert-old_example :
    hear_advert small failing 30 40 settings.listener cert none made
      (hear_all small failing settings.listener cert none ((10, 20, made) ∷ []) new)
    ≡ hear_all small failing settings.listener cert none ((10, 20, made) ∷ []) new
unfolding heard_since start_world
hear_advert-old_example =
    hear_advert-old small failing settings.listener cert none ((10, 20, made) ∷ []) new 30 40 made
      refl refl

-- The same sender, some seconds later.
abbrev newer : Advert
newer = record made { timestamp = pos 1700000005 }

hear_advert-fresh_example :
    (hear_advert small failing 30 40 settings.listener cert none newer (
      hear_all small failing settings.listener cert none
        ((10, 20, made) ∷ [])
        new)).daemon.listener.recent
    ≡ take 64 (
        outcome small failing settings.listener cert none 40 newer
        ∷ listener_event small 30 newer "connecting" "starting download session"
        ∷ (hear_all small failing settings.listener cert none
            ((10, 20, made) ∷ [])
            new).daemon.listener.recent)
unfolding heard_since start_world
hear_advert-fresh_example =
    hear_advert-fresh small failing settings.listener cert none ((10, 20, made) ∷ []) new 30 40
      newer refl refl

abbrev connecting : ListenerEvent
connecting = listener_event small 30 made "connecting" "starting download session"
