-- ===== src/Tui/Remote/Shows.antt =====
-- The terminal and the daemon together: what is shown after a call.
use m_tlsling.Base.{
  String, map, sym, subst, Bool, true, false, not, ◌&&◌, Option, none, some, ◌≡◌, refl, ◌∙◌, arith,
  if◌then◌else◌, ◌=ˢ◌, lookup,
}
use m_tlsling.Daemon.Types.{Snapshot, ConnectionSnapshot}
use m_tlsling.Tui.Widgets.{file_item, Widgets, KeepsItems}
use m_tlsling.Tui.Types.{connections_page, Model}
use m_tlsling.Tui.Lists.{sync_files, leave_details}
use m_tlsling.Tui.Sorted.{
  Listed, latest, file_items_lem, sorted_conns-Listed, lookup-connections_from,
}
use m_tlsling.Tui.Settings.{
  rebuild_settings_list, take_settings, show_states, show_connections, apply_snapshot,
}

module _ (W : Widgets) (keeps : KeepsItems W) where
  -- All that a snapshot shows, but the settings: each file in its order, each connection in the order of
  -- the ids, and for the details of an id its last connection.
  pub record ShowsState (s : Snapshot) (m : Model W) : Type 0 where
    pub sender_running : m.sender_running ≡ s.sender.running
    pub listener_running : m.listener_running ≡ s.listener.running
    pub sender_error : m.sender_error ≡ s.sender.last_error
    pub listener_error : m.listener_error ≡ s.listener.last_error
    pub recent : m.recent ≡ s.listener.recent
    pub files : W.items m.file_list ≡ map file_item s.sender.files
    pub listed : Listed s.sender.connections (W.items m.conn_list)
    pub connections : (id : String) → lookup id m.connections ≡ latest id s.sender.connections

  leave_details-ShowsState :
      (s : Snapshot) (m : Model W) → ShowsState s m → ShowsState s (leave_details W m)
  unfolding leave_details
  leave_details-ShowsState s m v = by_id (m.detail_id =ˢ "") (lookup m.detail_id m.connections)
    where
      gone : ShowsState s (record m { detail_id = ""; page = connections_page })
      gone = record {
        sender_running = v.sender_running;
        listener_running = v.listener_running;
        sender_error = v.sender_error;
        listener_error = v.listener_error;
        recent = v.recent;
        files = v.files;
        listed = v.listed;
        connections = v.connections;
      }

      by_id :
          (b : Bool) (o : Option ConnectionSnapshot)
          → ShowsState s (
              if b then m else elim o as (λ _. Model W) [
                | some c ↦ m
                | none ↦ record m { detail_id = ""; page = connections_page }
              ])
      by_id true o = v
      by_id false (some c) = v
      by_id false none = gone

  -- The settings may be taken or not.
  with_settings-ShowsState :
      (s : Snapshot) (m : Model W)
      → ShowsState s (
          show_connections W s
            (sync_files W s.sender.files (take_settings W s.settings (show_states W s m))))
  unfolding take_settings sync_files rebuild_settings_list
  with_settings-ShowsState s m = by_mark (not m.settings_dirty && not m.editing)
    where
      by_mark :
          (b : Bool)
          → ShowsState s (
              show_connections W s (
                sync_files W s.sender.files (
                  if b
                  then rebuild_settings_list W
                      (record (show_states W s m) { settings = s.settings })
                  else show_states W s m)))
      by_mark true = record {
        sender_running = refl;
        listener_running = refl;
        sender_error = refl;
        listener_error = refl;
        recent = refl;
        files = keeps.set_items _ _ ∙ file_items_lem s.sender.files;
        listed =
            subst (Listed s.sender.connections) (sym (keeps.set_items _ _))
              (sorted_conns-Listed s.sender.connections);
        connections = λ id. lookup-connections_from id s.sender.connections;
      }
      by_mark false = record {
        sender_running = refl;
        listener_running = refl;
        sender_error = refl;
        listener_error = refl;
        recent = refl;
        files = keeps.set_items _ _ ∙ file_items_lem s.sender.files;
        listed =
            subst (Listed s.sender.connections) (sym (keeps.set_items _ _))
              (sorted_conns-Listed s.sender.connections);
        connections = λ id. lookup-connections_from id s.sender.connections;
      }

  pub apply_snapshot-ShowsState : (s : Snapshot) (m : Model W) → ShowsState s (apply_snapshot W s m)
  unfolding apply_snapshot
  apply_snapshot-ShowsState s m = leave_details-ShowsState s _ (with_settings-ShowsState s m)

  leave_details-settings : (m : Model W) → (leave_details W m).settings ≡ m.settings
  unfolding leave_details
  leave_details-settings m = ground arith

  -- Without edits the settings are those of the snapshot.
  pub apply_snapshot-settings :
      (s : Snapshot) (m : Model W)
      → m.settings_dirty ≡ false
      → m.editing ≡ false
      → (apply_snapshot W s m).settings ≡ s.settings
  unfolding apply_snapshot sync_files take_settings rebuild_settings_list
  apply_snapshot-settings s m d e = leave_details-settings _ ∙ ground arith

  pub apply_snapshot-dirty :
      (s : Snapshot) (m : Model W) → (apply_snapshot W s m).settings_dirty ≡ m.settings_dirty
  unfolding apply_snapshot sync_files take_settings rebuild_settings_list leave_details
  apply_snapshot-dirty s m = ground arith
