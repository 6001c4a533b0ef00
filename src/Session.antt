-- ===== src/Session.antt =====
-- A client's `Download` (internal/client) that talks to a server's `handleConn` (internal/server).
-- The handler is seen as the client's peer: it is waiting for the decision on an entry, and answers
-- the byte with the bytes that it sends until it waits again.
pub mod Machine
pub mod Transfer
pub mod Delivery
use m_tlsling.Base.{
  ℕ, suc, String, Option, none, some, List, [], ◌∷◌, Result, ok, err, ◌==◌, if◌then◌else◌,
}
use m_tlsling.Server.Types.{Bytes, FileEntry}
use m_tlsling.Server.Conn.{ServerEnv, serve_entry, list_entries}
use m_tlsling.Server.Protocol.{write_manifest}
use m_tlsling.Client.{Peer, ClientEnv, Files, download}

-- The loop variable `i` and the entries from there on. With none left the connection is closed.
pub record Waiting : Type 0 where
  pub index : ℕ
  pub entries : List FileEntry

-- One round of the loop of `handleConn`, on the byte that it has read.
unfoldable pub serve_byte :
    ServerEnv → String → List String → Waiting → ℕ → Result (Waiting × Bytes)
serve_byte env id files s decision = elim s.entries [
  | [] ↦ err "use of closed connection"
  | entry ∷ entries ↦
      let next : Waiting = record { index = suc s.index; entries = entries } in
      if decision == 0
      then ok (next, [])
      else (let r = serve_entry env id files s.index entry in
          elim r.error [
            | none ↦ ok (next, r.output)
            | some e ↦ ok (record { index = s.index; entries = [] }, r.output)
          ])
]

abbrev pub server_peer : ServerEnv → String → List String → Peer
server_peer env id files = record { State = Waiting; on_byte = serve_byte env id files }

-- What the handler does before its loop, seen from the client: it waits for the first decision and
-- has sent the manifest, or it has closed the connection and sent nothing.
unfoldable pub greet : ServerEnv → List String → Waiting × Bytes
greet env files =
    let closed : Waiting = record { index = 0; entries = [] } in
    elim (list_entries env files) [
      | err e ↦ (closed, [])
      | ok entries ↦ elim (write_manifest env.codec env.fault (record { files = entries })) [
        | err e ↦ (closed, [])
        | ok out ↦ (record { index = 0; entries = entries }, out)
      ]
    ]

-- A whole download from one handler.
unfoldable pub run_session :
    ServerEnv → String → List String → ClientEnv → String → Files → Files × Option String
run_session env id files cenv out_dir old =
    download (server_peer env id files) cenv (ok (greet env files)) out_dir old
