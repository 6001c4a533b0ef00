-- ===== src/Tui/Shown.antt =====
-- What the lists show is what the model holds: the statement, and the keys.
pub mod Keys
use m_tlsling.Base.{
  ℕ, zero, suc, ◌+◌, ◌≤◌, String, Bool, true, false, not, ◌&&◌, ◌||◌, Option, none, some, List, [],
  ◌∷◌, ◌++◌, ◌≡◌, ◌⊎◌, inl, inr, refl, sym, subst, ap, ◌∙◌, Result, ok, err, arith, if◌then◌else◌,
  ◌=ˢ◌, Map, lookup, insert, lookup-insert, All, get_elem?, is_some, eq_iff, Bool-cases,
  Option-cases, length, ltb,
}
use m_tlsling.Base.Int.{ℤ, pos, negsuc}
use m_tlsling.Base.Sort.{leb_string}
use m_tlsling.Daemon.Types.{Settings, Snapshot, ConnectionSnapshot}
use m_tlsling.Tui.Widgets.{
  SettingKey, SettingItem, ConnItem, Item, setting_item, file_item, conn_item, Widgets, KeepsItems,
}
use m_tlsling.Tui.Types.{
  Page, picker_page, selected_page, connections_page, details_page, settings_page, Model, Msg,
  event, window_size, state_msg, action_msg, tick_msg, Cmd,
}
use m_tlsling.Tui.Fields.{setting_items, toggle_field}
use m_tlsling.Tui.Lists.{
  connections_from, conn_item_of, insert_by, sort_by, conn_items, conn_items_of, sorted_conns,
  sync_files, leave_details,
}
use m_tlsling.Tui.Settings.{
  setting_of, rebuild_settings_list, selected_setting, toggle_selected_setting,
  begin_edit_selected_setting, take_settings, apply_snapshot,
}
use m_tlsling.Tui.Keys.{
  Flow, return, go_on, global_key, remove_at, open_details, settings_key, page_key, then_page,
}
use m_tlsling.Tui.Update.{
  new_model, pick, update_component, finish, committed, update_editing, update_event, resize,
  clear_dirty, update,
}
use m_tlsling.Tui.Edits.{IsEditable, IsSound, All-get_elem?, setting_items-IsSound}
use m_tlsling.Tui.Known.{IsKnown}
use m_tlsling.Tui.Sorted.{HasLines}

-- The details of each connection that is listed are there, and each connection that is there is listed.
abbrev pub IsComplete : Map ConnectionSnapshot → List Item → Type 0
IsComplete known items = All (IsKnown known) items × HasLines known items

module _ (W : Widgets) where
  pub record ShownBy (l : W.ListModel) (s : Settings) (conns : W.ListModel)
      (known : Map ConnectionSnapshot) (editing : Bool) (key : SettingKey) : Type 0 where
    pub settings_shown : W.items l ≡ setting_items s
    pub conns_known : IsComplete known (W.items conns)
    pub edit_known : editing ≡ true → IsEditable key

  -- The list of settings shows the settings, that of the connections those of the map, and what is edited is
  -- a setting that can be.
  abbrev pub IsShown : Model W → Type 0
  IsShown m = ShownBy m.settings_list m.settings m.conn_list m.connections m.editing m.edit_key

  pub data FlowShown : Flow W → Type 0 where
    returns : {m : Model W} {c : Cmd W} → IsShown m → FlowShown (return m c)
    goes_on : {m : Model W} → IsShown m → FlowShown (go_on m)

  pub either-FlowShown :
      (b : Bool) {x y : Flow W} → FlowShown x → FlowShown y → FlowShown (if b then x else y)
  either-FlowShown true h k = h
  either-FlowShown false h k = k

  pub global_key-FlowShown : (k : String) (m : Model W) → IsShown m → FlowShown (global_key W k m)
  unfolding global_key
  global_key-FlowShown k m v = either-FlowShown (k =ˢ "ctrl+c" || k =ˢ "q") (returns v) (
      either-FlowShown (k =ˢ "tab") (goes_on v) (
        either-FlowShown (k =ˢ "p" || k =ˢ "f") (goes_on v) (
          either-FlowShown (k =ˢ "l") (goes_on v) (
            either-FlowShown (k =ˢ "c") (goes_on v) (
              either-FlowShown (k =ˢ "g") (goes_on v) (
                either-FlowShown (k =ˢ "b") (goes_on v) (
                  either-FlowShown (k =ˢ "s") (returns v)
                    (either-FlowShown (k =ˢ "r") (returns v) (goes_on v)))))))))

  -- `rebuildSettingsList` makes the list show the settings.
  module _ (keeps : KeepsItems W) where
    rebuild-items :
        (m : Model W) → W.items (rebuild_settings_list W m).settings_list ≡ setting_items m.settings
    unfolding rebuild_settings_list setting_items
    rebuild-items m =
        keeps.select _ (W.set_items (setting_items m.settings) m.settings_list)
        ∙ keeps.set_items (setting_items m.settings) m.settings_list

    pub rebuild-IsShown :
        (m : Model W)
        → IsComplete m.connections (W.items m.conn_list)
        → (m.editing ≡ true → IsEditable m.edit_key)
        → IsShown (rebuild_settings_list W m)
    unfolding rebuild_settings_list
    rebuild-IsShown m known edit = record {
      settings_shown = rebuild-items m;
      conns_known = known;
      edit_known = edit;
    }

    pub remove_at-FlowShown : (i : ℤ) (m : Model W) → IsShown m → FlowShown (remove_at W i m)
    unfolding remove_at sync_files
    remove_at-FlowShown (pos i) m v =
        either-FlowShown (ltb i (length (W.items m.file_list))) (returns v) (goes_on v)
    remove_at-FlowShown (negsuc i) m v = goes_on v

    pub open_details-FlowShown :
        (o : Option Item) (m : Model W) → IsShown m → FlowShown (open_details W o m)
    unfolding open_details
    open_details-FlowShown none m v = goes_on v
    open_details-FlowShown (some (setting_item _)) m v = goes_on v
    open_details-FlowShown (some (file_item _)) m v = goes_on v
    open_details-FlowShown (some (conn_item _)) m v = goes_on v

    -- A setting that is selected is one of the items of the settings.
    pub selected_setting-IsSound :
        (m : Model W) (it : SettingItem)
        → IsShown m
        → selected_setting W m ≡ some it
        → it.editable ≡ true
        → IsEditable it.key
    unfolding selected_setting
    selected_setting-IsSound m it v e = by_item (W.selected_item m.settings_list) refl e
      where
        by_item :
            (o : Option Item)
            → W.selected_item m.settings_list ≡ o
            → setting_of o ≡ some it
            → it.editable ≡ true
            → IsEditable it.key
        by_item none h e = cc
        by_item (some (file_item _)) h e = cc
        by_item (some (conn_item _)) h e = cc
        by_item (some (setting_item it')) h e =
            let (i, at) = keeps.selected_item m.settings_list (setting_item it') h in
            let same : it' ≡ it = cc in
            subst (λ (t : SettingItem). t.editable ≡ true → IsEditable t.key) same
              (All-get_elem? IsSound (setting_items m.settings) i (setting_item it')
                (setting_items-IsSound m.settings)
                (subst (λ is. get_elem? is i ≡ some (setting_item it')) v.settings_shown at))
