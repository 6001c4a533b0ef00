-- ===== src/Tui/Settings.antt =====
-- cmd/tui/main.go: the list of settings in the model, and the changes that its keys make.
use m_tlsling.Base.{
  ℕ, ◌-◌, zero, suc, true, not, ◌&&◌, Option, none, some, [], if◌then◌else◌, length,
}
use m_tlsling.Base.Int.{ℤ, pos, negsuc, lebℤ}
use m_tlsling.Daemon.Types.{Settings, Snapshot}
use m_tlsling.Tui.Widgets.{Item, SettingItem, setting_item, file_item, conn_item, Widgets}
use m_tlsling.Tui.Types.{Model}
use m_tlsling.Tui.Fields.{setting_items, toggle_field}
use m_tlsling.Tui.Lists.{sync_files, leave_details, connections_from, sorted_conns}

-- The place that is selected again, of a list with some items.
unfoldable pub clamp_index : ℤ → ℕ → ℤ
clamp_index (negsuc i) n = if lebℤ (pos n) (pos 0) then pos (n - 1) else pos 0
clamp_index (pos i) n = if lebℤ (pos n) (pos i) then pos (n - 1) else pos i

abbrev pub setting_of : Option Item → Option SettingItem
setting_of none = none
setting_of (some (setting_item it)) = some it
setting_of (some (file_item _)) = none
setting_of (some (conn_item _)) = none

module _ (W : Widgets) where
  abbrev reselect : ℤ → ℕ → W.ListModel → W.ListModel
  reselect i zero l = l
  reselect i (suc n) l = W.select (clamp_index i (suc n)) l

  -- `rebuildSettingsList`
  unfoldable pub rebuild_settings_list : Model W → Model W
  unfolding clamp_index
  rebuild_settings_list m =
      let is = setting_items m.settings in
      record m {
        settings_list =
            reselect (W.index m.settings_list) (length is) (W.set_items is m.settings_list);
      }

  -- `selectedSetting`
  unfoldable pub selected_setting : Model W → Option SettingItem
  selected_setting m = setting_of (W.selected_item m.settings_list)

  abbrev pub toggled : Option Settings → Model W → Option (Model W)
  toggled none m = none
  toggled (some s) m =
      some (rebuild_settings_list (record m { settings = s; settings_dirty = true }))

  -- `toggleSelectedSetting`: `none` where it returns false, and the model is as it was.
  unfoldable pub toggle_selected_setting : Model W → Option (Model W)
  toggle_selected_setting m = elim (selected_setting m) [
    | none ↦ none
    | some it ↦ if it.togglable then toggled (toggle_field it.key m.settings) m else none
  ]

  -- `beginEditSelectedSetting`
  unfoldable pub begin_edit_selected_setting : Model W → Model W
  begin_edit_selected_setting m = elim (selected_setting m) [
    | none ↦ m
    | some it ↦
        if it.editable
        then record m {
          editing = true;
          edit_key = it.key;
          edit_input = W.focus (W.set_value it.value m.edit_input);
        }
        else m
  ]

  -- The settings of a snapshot are taken unless there are edits.
  unfoldable pub take_settings : Settings → Model W → Model W
  take_settings s m =
      if not m.settings_dirty && not m.editing
      then rebuild_settings_list (record m { settings = s })
      else m

  abbrev pub show_states : Snapshot → Model W → Model W
  show_states s m = record m {
    sender_running = s.sender.running;
    listener_running = s.listener.running;
    sender_error = s.sender.last_error;
    listener_error = s.listener.last_error;
    recent = s.listener.recent;
  }

  abbrev pub show_connections : Snapshot → Model W → Model W
  show_connections s m = record m {
    connections = connections_from [] s.sender.connections;
    conn_list = W.set_items (sorted_conns s.sender.connections) m.conn_list;
  }

  -- `applySnapshot`
  unfoldable pub apply_snapshot : Snapshot → Model W → Model W
  unfolding take_settings
  apply_snapshot s m =
      let m = take_settings s.settings (show_states s m) in
      let m = sync_files W s.sender.files m in leave_details W (show_connections s m)
