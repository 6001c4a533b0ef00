-- ===== src/Tui/Update.antt =====
-- `Update` of cmd/tui/main.go: what a message does to the model, and the command that it gives.
use m_tlsling.Base.{
  suc, ◌/◌, ◌-◌, String, Bool, true, false, ◌&&◌, Option, none, some, [], Result, ok, err,
  if◌then◌else◌, ◌=ˢ◌, ltb,
}
use m_tlsling.Base.Int.{ℤ, pos, negsuc, lebℤ, sub_int64}
use m_tlsling.Daemon.Types.{Settings}
use m_tlsling.Api.Client.{set_files_call, trim_space}
use m_tlsling.Tui.Widgets.{SettingKey, Widgets}
use m_tlsling.Tui.Types.{
  Page, picker_page, selected_page, connections_page, details_page, settings_page, Model, Msg,
  event, window_size, state_msg, action_msg, tick_msg, Cmd, no_cmd, next_poll, request_state,
  action, foreign, batch,
}
use m_tlsling.Tui.Fields.{commit_setting_edit}
use m_tlsling.Tui.Lists.{list_items_to_paths, append_unique, sync_files}
use m_tlsling.Tui.Settings.{rebuild_settings_list, apply_snapshot}
use m_tlsling.Tui.Keys.{Flow, return, go_on, global_key, then_page, is_settings_page}

-- The zero value of `Settings`.
abbrev pub no_settings : Settings
no_settings = record {
  sender = record {
    enabled = false;
    cert_path = "";
    key_path = "";
    ca_path = "";
    addr = "";
    multicast = "";
    server_name = "";
    id = "";
    insecure_skip_verify = false;
    broadcast_interval_seconds = pos 0;
  };
  listener = record {
    enabled = false;
    cert_path = "";
    key_path = "";
    ca_path = "";
    multicast = "";
    out_dir = "";
    server_name_override = "";
    insecure_skip_verify = false;
  };
}

-- The height of the lists, from that of the window.
abbrev pub list_height : ℤ → ℤ
list_height height = let h = sub_int64 height (pos 9) in if lebℤ (pos 6) h then h else pos 6

-- `h / 2`, which is used at heights that are not negative.
abbrev half : ℤ → ℤ
half (pos n) = pos (n / 2)
half (negsuc n) = if ltb n 1 then pos 0 else negsuc (suc n / 2 - 1)

module _ (W : Widgets) where
  -- The literal of `newModel`.
  abbrev pub blank_model : Model W
  blank_model = record {
    page = picker_page;
    fp = W.set_height (pos 12) W.new_picker;
    file_list = W.new_list;
    conn_list = W.new_list;
    settings_list = W.new_list;
    edit_input = W.new_input;
    editing = false;
    edit_key = SettingKey.no_key;
    detail_id = "";
    connections = [];
    recent = [];
    settings = no_settings;
    settings_dirty = false;
    sender_running = false;
    listener_running = false;
    sender_error = "";
    listener_error = "";
    ui_error = "";
    width = pos 0;
    height = pos 0;
  }

  -- `newModel`
  unfoldable pub new_model : Model W
  unfolding rebuild_settings_list
  new_model = rebuild_settings_list W blank_model

  -- `Init`
  unfoldable pub init : Cmd W
  init = batch (foreign W.init_picker) request_state

  -- The path that the picker has selected.
  unfoldable pub pick : Option String → Cmd W → Model W → Model W × Cmd W
  pick none c m = (m, c)
  pick (some path) c m =
      let files = append_unique (list_items_to_paths (W.items m.file_list)) path in
      (sync_files W files m, batch c (action (set_files_call files) false))

  -- The end of `Update`: the component of the page.
  unfoldable pub update_component : Page → W.Event → Model W → Model W × Cmd W
  update_component picker_page e m =
      let (fp, c) = W.update_picker e m.fp in
      pick (W.did_select_file e fp) (foreign c) (record m { fp = fp })
  update_component selected_page e m =
      let (l, c) = W.update_list e m.file_list in (record m { file_list = l }, foreign c)
  update_component connections_page e m =
      let (l, c) = W.update_list e m.conn_list in (record m { conn_list = l }, foreign c)
  update_component details_page e m = (m, no_cmd)
  update_component settings_page e m =
      let (l, c) = W.update_list e m.settings_list in (record m { settings_list = l }, foreign c)

  unfoldable pub finish : W.Event → Flow W → Model W × Cmd W
  finish e (return m c) = (m, c)
  finish e (go_on m) = update_component m.page e m

  -- The key `enter` while a setting is edited.
  unfoldable pub committed : Result Settings → Model W → Model W
  committed (err e) m = record m { ui_error = e }
  committed (ok s) m = rebuild_settings_list W (record m {
    settings = s;
    editing = false;
    edit_key = SettingKey.no_key;
    settings_dirty = true;
  })

  -- `updateEditing`
  unfoldable pub update_editing : String → W.Event → Model W → Model W × Cmd W
  unfolding committed
  update_editing k e m =
      if k =ˢ "esc"
      then (record m { editing = false; edit_key = SettingKey.no_key }, no_cmd)
      else if k =ˢ "enter"
      then (
        committed (commit_setting_edit m.edit_key (trim_space (W.value m.edit_input)) m.settings) m,
        no_cmd,
      )
      else let (i, c) = W.update_input e m.edit_input in (record m { edit_input = i }, foreign c)

  unfoldable pub update_event : Option String → W.Event → Model W → Model W × Cmd W
  update_event none e m = update_component m.page e m
  update_event (some k) e m =
      if is_settings_page m.page && m.editing
      then update_editing k e m
      else finish e (then_page W k (global_key W k m))

  -- The case of `tea.WindowSizeMsg`.
  unfoldable pub resize : ℤ → ℤ → Model W → Model W
  resize w height m =
      let h = list_height height in
      record m {
        width = w;
        height = height;
        fp = W.set_height h m.fp;
        file_list = W.set_size w h m.file_list;
        conn_list = W.set_size w (half h) m.conn_list;
        settings_list = W.set_size w h m.settings_list;
      }

  abbrev pub clear_dirty : Bool → Model W → Model W
  clear_dirty true m = record m { settings_dirty = false }
  clear_dirty false m = m

  -- `Update`
  unfoldable pub update : Msg W → Model W → Model W × Cmd W
  update (event e) m = update_event (W.key_name e) e m
  update (window_size w h) m = (resize w h m, no_cmd)
  update (state_msg (err e)) m = (record m { ui_error = e }, next_poll)
  update (state_msg (ok s)) m = (apply_snapshot W s (record m { ui_error = "" }), next_poll)
  update (action_msg (err e) clear) m = (record m { ui_error = e }, request_state)
  update (action_msg (ok s) clear) m =
      (apply_snapshot W s (record (clear_dirty clear m) { ui_error = "" }), no_cmd)
  update tick_msg m = (m, request_state)
