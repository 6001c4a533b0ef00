-- ===== src/Tui/Toggling.antt =====
-- Which keys change the settings, when none is edited.
use m_tlsling.Base.{
  String, Bool, false, Option, none, some, ◌≡◌, refl, sym, subst, ap, ◌∙◌, arith, ◌=ˢ◌,
}
use m_tlsling.Base.Int.{ℤ, pos, negsuc}
use m_tlsling.Daemon.Types.{Settings}
use m_tlsling.Tui.Widgets.{Item, setting_item, file_item, conn_item, Widgets}
use m_tlsling.Tui.Types.{
  Page, picker_page, selected_page, connections_page, details_page, settings_page, Model, event,
  Cmd,
}
use m_tlsling.Tui.Lists.{sync_files}
use m_tlsling.Tui.Settings.{begin_edit_selected_setting}
use m_tlsling.Tui.Keys.{
  Flow, return, go_on, global_key, remove_at, open_details, settings_key, page_key, then_page,
}
use m_tlsling.Tui.Update.{pick, update_component, finish, update_event, update}
use m_tlsling.Tui.Reopen.{update_event-key}

module _ (W : Widgets) where
  -- The settings, and whether they are modified.
  abbrev pub kept_part : Model W → Settings × Bool
  kept_part m = (m.settings, m.settings_dirty)

  abbrev model_of : Flow W → Model W
  model_of (return m c) = m
  model_of (go_on m) = m

  global_key-kept :
      (k : String) (m : Model W) → kept_part (model_of (global_key W k m)) ≡ kept_part m
  unfolding global_key
  global_key-kept k m = ground arith

  remove_at-kept : (i : ℤ) (m : Model W) → kept_part (model_of (remove_at W i m)) ≡ kept_part m
  unfolding remove_at sync_files
  remove_at-kept (pos i) m = ground arith
  remove_at-kept (negsuc i) m = refl

  open_details-kept :
      (o : Option Item) (m : Model W) → kept_part (model_of (open_details W o m)) ≡ kept_part m
  unfolding open_details
  open_details-kept none m = refl
  open_details-kept (some (setting_item _)) m = refl
  open_details-kept (some (file_item _)) m = refl
  open_details-kept (some (conn_item _)) m = refl

  begin_edit-kept : (m : Model W) → kept_part (begin_edit_selected_setting W m) ≡ kept_part m
  unfolding begin_edit_selected_setting
  begin_edit-kept m = ground arith

  settings_key-kept :
      (k : String) (m : Model W)
      → (k =ˢ "space") ≡ false
      → kept_part (model_of (settings_key W k m)) ≡ kept_part m
  unfolding settings_key
  settings_key-kept k m h = ground (arith, begin_edit-kept m)

  page_key-kept :
      (p : Page) (k : String) (m : Model W)
      → (k =ˢ "space") ≡ false
      → kept_part (model_of (page_key W p k m)) ≡ kept_part m
  unfolding page_key
  page_key-kept picker_page k m h = refl
  page_key-kept selected_page k m h = ground (arith, remove_at-kept (W.index m.file_list) m)
  page_key-kept connections_page k m h =
      ground (arith, open_details-kept (W.selected_item m.conn_list) m)
  page_key-kept details_page k m h = refl
  page_key-kept settings_page k m h = settings_key-kept k m h

  then_page-kept :
      (k : String) (f : Flow W)
      → (k =ˢ "space") ≡ false
      → kept_part (model_of (then_page W k f)) ≡ kept_part (model_of f)
  unfolding then_page
  then_page-kept k (return m c) h = refl
  then_page-kept k (go_on m) h = page_key-kept m.page k m h

  pick-kept :
      (o : Option String) (c : Cmd W) (m : Model W) → kept_part (pick W o c m).0 ≡ kept_part m
  unfolding pick sync_files
  pick-kept none c m = refl
  pick-kept (some path) c m = refl

  update_component-kept :
      (p : Page) (e : W.Event) (m : Model W) → kept_part (update_component W p e m).0 ≡ kept_part m
  unfolding update_component
  update_component-kept picker_page e m =
      pick-kept (W.did_select_file e (W.update_picker e m.fp).0) _ _
  update_component-kept selected_page e m = refl
  update_component-kept connections_page e m = refl
  update_component-kept details_page e m = refl
  update_component-kept settings_page e m = refl

  finish-kept : (e : W.Event) (f : Flow W) → kept_part (finish W e f).0 ≡ kept_part (model_of f)
  unfolding finish
  finish-kept e (return m c) = refl
  finish-kept e (go_on m) = update_component-kept m.page e m

  -- When no setting is edited, a key that is not named `space` keeps the settings and their mark, on each
  -- page: no other name toggles a setting.
  pub update-kept_part :
      (k : String) (e : W.Event) (m : Model W)
      → W.key_name e ≡ some k
      → (k =ˢ "space") ≡ false
      → m.editing ≡ false
      → kept_part (update W (event e) m).0 ≡ kept_part m
  unfolding update
  update-kept_part k e m n h d =
      subst (λ name. kept_part (update_event W name e m).0 ≡ kept_part m) (sym n)
        (ap (λ (r : Model W × Cmd W). kept_part r.0) (update_event-key W k e m d)
          ∙ finish-kept e (then_page W k (global_key W k m))
          ∙ then_page-kept k (global_key W k m) h
          ∙ global_key-kept k m)
