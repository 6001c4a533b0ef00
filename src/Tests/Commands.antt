-- ===== src/Tests/Commands.antt =====
-- The daemon command and its endpoint at work.
use m_tlsling.Base.{insert, erase, true, none, some, [], ◌∷◌, ◌≡◌, refl, arith, lookup, ok}
use m_tlsling.Daemon.State.{World, start_world}
use m_tlsling.Daemon.Invariant.Control.{start_world-Inv}
use m_tlsling.Ipc.{Listener, Sockets, Faults, without, listen, dial, normalize_endpoint}
use m_tlsling.Ipc.Listening.{Listened, listen-Listened}
use m_tlsling.Senderd.{Flags, default_flags, settings_of, fatal, boot, leave}
use m_tlsling.Senderd.Boot.{Boots, boot-Boots, boot-sender_enabled}
use m_tlsling.Senderd.Exit.{IsDown, leave-IsDown, leave-unlinks}
use m_tlsling.Tests.Keys.{small}
use m_tlsling.Tests.Daemons.{env}

-- Nothing fails.
abbrev quiet : Faults
quiet = record {
  mkdir = λ path. none;
  remove = λ path. none;
  bind = λ path. none;
  chmod = λ path. none;
  umask_mode = 0o755;
}

-- The mode of a socket cannot be changed.
abbrev strict : Faults
strict = record quiet { chmod = λ path. some "operation not permitted" }

abbrev no_sockets : Sockets
no_sockets = record { modes = []; listeners = []; next = 0 }

listen-Listened_example : Listened (dial "") no_sockets (listen strict "" no_sockets)
listen-Listened_example = listen-Listened strict "" no_sockets tt

abbrev with_listener : Flags
with_listener = record default_flags {
  listener_enabled = true;
  listener_insecure_skip_verify = true;
}

boot-Boots_example :
    Boots small env with_listener no_sockets (boot small env quiet with_listener no_sockets)
boot-Boots_example = boot-Boots small env quiet with_listener no_sockets tt

abbrev with_sender : Flags
with_sender = record default_flags { sender_enabled = true }

boot-sender_enabled_example :
    (w : World small) × (boot small env quiet with_sender no_sockets
      ≡ fatal "apply initial settings: no sender files configured" w no_sockets)
boot-sender_enabled_example = boot-sender_enabled small env quiet with_sender no_sockets refl

-- The first daemon, and its endpoint.
abbrev first : Listener
first = record { number = 0; path = "/tmp/multi-cast-transfer.sock" }

abbrev one_socket : Sockets
one_socket = record {
  modes = ("/tmp/multi-cast-transfer.sock", 0o600) ∷ [];
  listeners = first ∷ [];
  next = 1;
}

abbrev served : World small
served = start_world small (settings_of default_flags)

first_path : first.path ≡ dial default_flags.ipc_socket
unfolding dial normalize_endpoint
first_path = refl

leave-IsDown_example :
    IsDown small served (leave small quiet default_flags first served one_socket).0
    × (lookup
          (dial default_flags.ipc_socket)
          (leave small quiet default_flags first served one_socket).1.modes
        ≡ none)
    × ((leave small quiet default_flags first served one_socket).1.listeners
        ≡ without first.number one_socket.listeners)
leave-IsDown_example =
    leave-IsDown small quiet default_flags env first served one_socket
      (start_world-Inv small (settings_of default_flags)) first_path

-- A second daemon at the same endpoint.
abbrev second : Listener
second = record { number = 1; path = "/tmp/multi-cast-transfer.sock" }

abbrev two_sockets : Sockets
two_sockets = record {
  modes = ("/tmp/multi-cast-transfer.sock", 0o600) ∷ [];
  listeners = second ∷ first ∷ [];
  next = 2;
}

second_listens : listen quiet default_flags.ipc_socket one_socket ≡ (two_sockets, ok second)
unfolding listen normalize_endpoint insert erase
second_listens = refl

leave-unlinks_example :
    (second.path ≡ dial default_flags.ipc_socket)
    × ((leave small quiet default_flags first served two_sockets).1.listeners
        ≡ second ∷ without first.number one_socket.listeners)
    × (lookup
          (dial default_flags.ipc_socket)
          (leave small quiet default_flags first served two_sockets).1.modes
        ≡ none)
leave-unlinks_example =
    leave-unlinks small quiet default_flags first second served one_socket two_sockets
      (omega arith, tt) first_path (omega arith) second_listens
