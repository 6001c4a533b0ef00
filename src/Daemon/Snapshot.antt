-- ===== src/Daemon/Snapshot.antt =====
-- `Snapshot` of internal/senderdaemon/daemon.go.
pub mod Order
use m_tlsling.Base.{ℕ, String, Option, none, some, List, [], ◌∷◌, Map, lookup, keys}
use m_tlsling.Base.Sort.{sort_strings}
use m_tlsling.Config.{Crypto}
use m_tlsling.Daemon.Types.{Snapshot, FileProgressSnapshot, ConnectionSnapshot}
use m_tlsling.Daemon.State.{ConnState, World}

abbrev pub with_value : {V : Type 0} → Option V → List V → List V
with_value none rest = rest
with_value (some v) rest = v ∷ rest

-- The values of a map, in the order of a list of keys.
unfoldable pub values_at : {V : Type 0} → Map V → List String → List V
values_at m [] = []
values_at m (k ∷ ks) = with_value (lookup k m) (values_at m ks)

-- The values of a map, by sorted keys.
unfoldable pub sorted_values : {V : Type 0} → Map V → List V
sorted_values m = values_at m (sort_strings (keys m))

unfoldable pub connection_snapshot : ConnState → ConnectionSnapshot
connection_snapshot c = record {
  id = c.id;
  remote = c.remote;
  state = c.state;
  files = sorted_values c.files;
}

abbrev pub connection_snapshots : List ConnState → List ConnectionSnapshot
connection_snapshots [] = []
connection_snapshots (c ∷ cs) = connection_snapshot c ∷ connection_snapshots cs

module _ (C : Crypto) where
  -- `Snapshot`
  unfoldable pub snapshot : World C → Snapshot
  snapshot w = record {
    settings = w.daemon.settings;
    sender = record {
      running = w.daemon.sender.running;
      files = w.daemon.sender_files;
      connections = connection_snapshots (sorted_values w.daemon.sender.connections);
      last_error = w.daemon.sender.last_error;
    };
    listener = record {
      running = w.daemon.listener.running;
      last_error = w.daemon.listener.last_error;
      recent = w.daemon.listener.recent;
    };
  }
