-- ===== src/Tui/Shown/Keys.antt =====
-- The keys of each page keep what the lists show.
use m_tlsling.Base.{
  String, Bool, true, false, ◌&&◌, Option, none, some, ◌≡◌, refl, subst, if◌then◌else◌, ◌=ˢ◌,
  length, ltb,
}
use m_tlsling.Daemon.Types.{Settings}
use m_tlsling.Tui.Widgets.{SettingItem, Widgets, KeepsItems}
use m_tlsling.Tui.Types.{
  Page, picker_page, selected_page, connections_page, details_page, settings_page, Model, no_cmd,
}
use m_tlsling.Tui.Fields.{toggle_field}
use m_tlsling.Tui.Settings.{
  rebuild_settings_list, selected_setting, toggle_selected_setting, begin_edit_selected_setting,
  toggled,
}
use m_tlsling.Tui.Keys.{Flow, return, go_on, settings_key, page_key}
use m_tlsling.Tui.Edits.{IsEditable}
use m_tlsling.Tui.Shown.{
  IsShown, FlowShown, returns, goes_on, either-FlowShown, rebuild-IsShown, remove_at-FlowShown,
  open_details-FlowShown, selected_setting-IsSound,
}

module _ (W : Widgets) (keeps : KeepsItems W) where
  begin_edit-IsShown : (m : Model W) → IsShown W m → IsShown W (begin_edit_selected_setting W m)
  unfolding begin_edit_selected_setting
  begin_edit-IsShown m v = by_item (selected_setting W m) refl
    where
      begun :
          (b : Bool) (it : SettingItem)
          → (b ≡ true → IsEditable it.key)
          → IsShown W (
              if b
              then record m {
                editing = true;
                edit_key = it.key;
                edit_input = W.focus (W.set_value it.value m.edit_input);
              }
              else m)
      begun true it h = record {
        settings_shown = v.settings_shown;
        conns_known = v.conns_known;
        edit_known = λ _. h refl;
      }
      begun false it h = v

      by_item :
          (o : Option SettingItem)
          → selected_setting W m ≡ o
          → IsShown W (elim o as (λ _. Model W) [
            | none ↦ m
            | some it ↦
                if it.editable
                then record m {
                  editing = true;
                  edit_key = it.key;
                  edit_input = W.focus (W.set_value it.value m.edit_input);
                }
                else m
          ])
      by_item none e = v
      by_item (some it) e = begun it.editable it (selected_setting-IsSound W keeps m it v e)

  toggle-IsShown :
      (m m' : Model W) → IsShown W m → toggle_selected_setting W m ≡ some m' → IsShown W m'
  unfolding toggle_selected_setting
  toggle-IsShown m m' v h = by_item (selected_setting W m) h
    where
      by_field : (o : Option Settings) → toggled W o m ≡ some m' → IsShown W m'
      by_field none h = cc
      by_field (some s) h =
          let same : rebuild_settings_list W (record m { settings = s; settings_dirty = true })
              ≡ m' =
            cc in
          subst (IsShown W) same (
            rebuild-IsShown W keeps (record m { settings = s; settings_dirty = true }) v.conns_known
              v.edit_known)

      by_mark :
          (b : Bool) (o : Option Settings)
          → (if b then toggled W o m else none) ≡ some m'
          → IsShown W m'
      by_mark true o h = by_field o h
      by_mark false o h = cc

      by_item :
          (o : Option SettingItem)
          → (elim o as (λ _. Option (Model W)) [
            | none ↦ none
            | some it ↦ if it.togglable then toggled W (toggle_field it.key m.settings) m else none
          ])
            ≡ some m'
          → IsShown W m'
      by_item none h = cc
      by_item (some it) h = by_mark it.togglable (toggle_field it.key m.settings) h

  settings_key-FlowShown :
      (k : String) (m : Model W) → IsShown W m → FlowShown W (settings_key W k m)
  unfolding settings_key
  settings_key-FlowShown k m v =
      either-FlowShown W (k =ˢ "space") (by_toggle (toggle_selected_setting W m) refl) (
        either-FlowShown W (k =ˢ "e") (returns (begin_edit-IsShown m v))
          (either-FlowShown W (k =ˢ "w") (returns v) (goes_on v)))
    where
      by_toggle :
          (t : Option (Model W))
          → toggle_selected_setting W m ≡ t
          → FlowShown W (elim t as (λ _. Flow W) [ some m' ↦ return m' no_cmd | none ↦ go_on m ])
      by_toggle (some m') e = returns (toggle-IsShown m m' v e)
      by_toggle none e = goes_on v

  pub page_key-FlowShown :
      (p : Page) (k : String) (m : Model W) → IsShown W m → FlowShown W (page_key W p k m)
  unfolding page_key
  page_key-FlowShown picker_page k m v = goes_on v
  page_key-FlowShown selected_page k m v =
      either-FlowShown W (k =ˢ "d" && ltb 0 (length (W.items m.file_list)))
        (remove_at-FlowShown W keeps (W.index m.file_list) m v) (goes_on v)
  page_key-FlowShown connections_page k m v =
      either-FlowShown W (k =ˢ "enter" && ltb 0 (length (W.items m.conn_list)))
        (open_details-FlowShown W keeps (W.selected_item m.conn_list) m v) (goes_on v)
  page_key-FlowShown details_page k m v = goes_on v
  page_key-FlowShown settings_page k m v = settings_key-FlowShown k m v
