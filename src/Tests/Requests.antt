-- ===== src/Tests/Requests.antt =====
-- Snapshots, and a request to start the sender.
use m_tlsling.Base.{List, Result, arith, ◌<>◌, ◌≡◌, refl, String, [], ◌∷◌, ok, err}
use m_tlsling.Daemon.Types.{FileProgressSnapshot, Snapshot, Settings}
use m_tlsling.Daemon.State.{ConnState, World}
use m_tlsling.Daemon.Invariant.Control.{start_world-Inv}
use m_tlsling.Api.{Request, Reply, Decoders, message, state, handle}
use m_tlsling.Api.Client.{Reader, Encoders, start_sender_call, lost, do_json}
use m_tlsling.Api.Client.Refinement.{IsFaithful, delivered, do_json-direct}
use m_tlsling.Server.Types.{Bytes}
use m_tlsling.Api.Laws.{IsAnswer, handle-IsAnswer}
use m_tlsling.Tests.Keys.{small}
use m_tlsling.Tests.Daemons.{settings, env, new, ready}

abbrev conn : String → ConnState
conn id = record { id = id; remote = "10.0.0.3:4000"; state = "accepted"; files = [] }

abbrev two_conns : World small
two_conns = record ready {
  daemon = record (ready.daemon) {
    sender = record (ready.daemon.sender) { connections = ("2", conn "2") ∷ ("1", conn "1") ∷ [] };
  };
}

abbrev part : String → FileProgressSnapshot
part name = record { name = name; transferred = 1; total = 2 }

abbrev two_parts : ConnState
two_parts = record (conn "1") { files = ("b", part "b") ∷ ("a", part "a") ∷ [] }

abbrev decoders : Decoders
decoders = record { files = λ body. ok ("/srv/hello.md" ∷ []); settings = λ body. err "EOF" }

abbrev start_request : Request
start_request = record { method = "POST"; path = "/v1/sender/start"; body = [] }

handle-IsAnswer_example :
    IsAnswer small env decoders start_request new (handle small env decoders start_request new)
handle-IsAnswer_example =
    handle-IsAnswer small env decoders start_request new (start_world-Inv small settings)

-- A client that can send the empty list only.
abbrev read_text : Reply → String
read_text (message e) = e <> "\n"
read_text (state s) = "{}"
read_text (Reply.settings s) = "{}"

abbrev read_snapshot : Reply → Result Snapshot
read_snapshot (message e) = err "invalid character"
read_snapshot (state s) = ok s
read_snapshot (Reply.settings s) = err "invalid character"

abbrev read_settings : Reply → Result Settings
read_settings (message e) = err "invalid character"
read_settings (state s) = err "invalid character"
read_settings (Reply.settings s) = ok s

abbrev pub reader : Reader
reader = record { text = read_text; snapshot = read_snapshot; settings = read_settings }

abbrev encode_files : List String → Result Bytes
encode_files [] = ok []
encode_files (f ∷ fs) = err "unsupported"

abbrev pub encoders : Encoders
encoders = record { files = encode_files; settings = λ s. err "unsupported" }

abbrev pub empty_decoders : Decoders
empty_decoders = record { files = λ body. ok []; settings = λ body. err "EOF" }

encode_files-decoded :
    (fs : List String) (bytes : Bytes)
    → encoders.files fs ≡ ok bytes
    → empty_decoders.files bytes ≡ ok fs
encode_files-decoded [] bytes e = refl
encode_files-decoded (f ∷ fs) bytes e = ground arith

pub encoders-IsFaithful : IsFaithful empty_decoders encoders reader
encoders-IsFaithful = record {
  files = encode_files-decoded;
  settings = λ s bytes e. ground arith;
  snapshot = λ s. refl;
  read_settings = λ s. refl;
  text = λ e. refl;
}

do_json-direct_example :
    do_json small env empty_decoders encoders reader (lost "timeout") start_sender_call ready
    ≡ delivered small env (lost "timeout") start_sender_call ready
do_json-direct_example =
    do_json-direct small env empty_decoders encoders reader (lost "timeout") start_sender_call []
      ready encoders-IsFaithful refl
