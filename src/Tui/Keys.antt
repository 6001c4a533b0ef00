-- ===== src/Tui/Keys.antt =====
-- `Update` of cmd/tui/main.go: the two switches on a key.
use m_tlsling.Base.{
  suc, ◌++◌, String, Bool, true, false, ◌&&◌, ◌||◌, Option, none, some, if◌then◌else◌, ◌=ˢ◌, ltb,
  length, take, drop,
}
use m_tlsling.Base.Int.{ℤ, pos, negsuc}
use m_tlsling.Api.Client.{
  start_sender_call, stop_sender_call, start_listener_call, stop_listener_call, set_files_call,
  update_settings_call,
}
use m_tlsling.Tui.Widgets.{Item, setting_item, file_item, conn_item, Widgets}
use m_tlsling.Tui.Types.{
  Page, picker_page, selected_page, connections_page, details_page, settings_page, Model, Cmd,
  no_cmd, quit, action,
}
use m_tlsling.Tui.Lists.{list_items_to_paths, sync_files}
use m_tlsling.Tui.Settings.{toggle_selected_setting, begin_edit_selected_setting}

-- `(m.page + 1) % 5`
abbrev next_page : Page → Page
next_page picker_page = selected_page
next_page selected_page = connections_page
next_page connections_page = details_page
next_page details_page = settings_page
next_page settings_page = picker_page

-- The key `b`.
abbrev back : Page → Page
back picker_page = picker_page
back selected_page = selected_page
back connections_page = connections_page
back details_page = connections_page
back settings_page = settings_page

abbrev pub is_settings_page : Page → Bool
is_settings_page picker_page = false
is_settings_page selected_page = false
is_settings_page connections_page = false
is_settings_page details_page = false
is_settings_page settings_page = true

module _ (W : Widgets) where
  -- A case of the switches either returns, or goes on behind them.
  pub data Flow : Type 0 where
    return : Model W → Cmd W → Flow
    go_on : Model W → Flow

  -- The switch on the key, for every page.
  unfoldable pub global_key : String → Model W → Flow
  global_key k m =
      if k =ˢ "ctrl+c" || k =ˢ "q"
      then return m quit
      else if k =ˢ "tab"
      then go_on (record m { page = next_page m.page })
      else if k =ˢ "p" || k =ˢ "f"
      then go_on (record m { page = picker_page })
      else if k =ˢ "l"
      then go_on (record m { page = selected_page })
      else if k =ˢ "c"
      then go_on (record m { page = connections_page })
      else if k =ˢ "g"
      then go_on (record m { page = settings_page })
      else if k =ˢ "b"
      then go_on (record m { page = back m.page })
      else if k =ˢ "s"
      then return m
          (action (if m.sender_running then stop_sender_call else start_sender_call) false)
      else if k =ˢ "r"
      then return m
          (action (if m.listener_running then stop_listener_call else start_listener_call) false)
      else go_on m

  -- The key `d`, at the place of the list of files.
  unfoldable pub remove_at : ℤ → Model W → Flow
  remove_at (negsuc i) m = go_on m
  remove_at (pos i) m =
      let is = W.items m.file_list in
      let paths = list_items_to_paths (take i is ++ drop (suc i) is) in
      if ltb i (length is)
      then return (sync_files W paths m) (action (set_files_call paths) false)
      else go_on m

  -- The key `enter`, at an item of the list of connections.
  unfoldable pub open_details : Option Item → Model W → Flow
  open_details none m = go_on m
  open_details (some (setting_item _)) m = go_on m
  open_details (some (file_item _)) m = go_on m
  open_details (some (conn_item it)) m = go_on (record m { detail_id = it.id; page = details_page })

  unfoldable pub settings_key : String → Model W → Flow
  settings_key k m =
      if k =ˢ "space"
      then elim (toggle_selected_setting W m) [ some m' ↦ return m' no_cmd | none ↦ go_on m ]
      else if k =ˢ "e"
      then return (begin_edit_selected_setting W m) no_cmd
      else if k =ˢ "w"
      then return m (action (update_settings_call m.settings) true)
      else go_on m

  -- The switch on the page.
  unfoldable pub page_key : Page → String → Model W → Flow
  page_key picker_page k m = go_on m
  page_key selected_page k m =
      if k =ˢ "d" && ltb 0 (length (W.items m.file_list))
      then remove_at (W.index m.file_list) m
      else go_on m
  page_key connections_page k m =
      if k =ˢ "enter" && ltb 0 (length (W.items m.conn_list))
      then open_details (W.selected_item m.conn_list) m
      else go_on m
  page_key details_page k m = go_on m
  page_key settings_page k m = settings_key k m

  unfoldable pub then_page : String → Flow → Flow
  then_page k (return m c) = return m c
  then_page k (go_on m) = page_key m.page k m
