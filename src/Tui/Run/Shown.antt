-- ===== src/Tui/Run/Shown.antt =====
-- What the lists show is what the model holds, in every state that the terminal reaches.
use m_tlsling.Base.{
  String, Bool, true, false, not, ◌&&◌, Option, none, some, [], sym, subst, ◌∙◌, ◌≡◌, Result, ok,
  err, if◌then◌else◌, ◌=ˢ◌, lookup,
}
use m_tlsling.Base.Int.{ℤ}
use m_tlsling.Daemon.Types.{Settings, Snapshot, ConnectionSnapshot}
use m_tlsling.Api.Client.{trim_space}
use m_tlsling.Tui.Widgets.{SettingKey, Widgets, KeepsItems}
use m_tlsling.Tui.Types.{
  Page, picker_page, selected_page, connections_page, details_page, settings_page, Model, Msg,
  event, window_size, state_msg, action_msg, tick_msg, Cmd,
}
use m_tlsling.Tui.Fields.{commit_setting_edit}
use m_tlsling.Tui.Lists.{connections_from, sorted_conns, sync_files, leave_details}
use m_tlsling.Tui.Settings.{
  rebuild_settings_list, take_settings, show_states, show_connections, apply_snapshot,
}
use m_tlsling.Tui.Keys.{Flow, is_settings_page, then_page}
use m_tlsling.Tui.Update.{
  blank_model, new_model, pick, update_component, finish, committed, update_editing, update_event,
  resize, update,
}
use m_tlsling.Tui.Run.{
  Session, start_session, happens, resized, told, ticked, answered, split, Reach, started, next,
}
use m_tlsling.Tui.Known.{sorted_conns-IsKnown}
use m_tlsling.Tui.Sorted.{sorted_conns-HasLines}
use m_tlsling.Tui.Shown.{
  IsComplete, IsShown, FlowShown, returns, goes_on, global_key-FlowShown, rebuild-IsShown,
}
use m_tlsling.Tui.Shown.Keys.{page_key-FlowShown}

module _ (W : Widgets) (keeps : KeepsItems W) where
  pick-IsShown :
      (o : Option String) (c : Cmd W) (m : Model W) → IsShown W m → IsShown W (pick W o c m).0
  unfolding pick sync_files
  pick-IsShown none c m v = v
  pick-IsShown (some path) c m v = v

  update_component-IsShown :
      (p : Page) (e : W.Event) (m : Model W) → IsShown W m → IsShown W (update_component W p e m).0
  unfolding update_component
  update_component-IsShown picker_page e m v =
      pick-IsShown (W.did_select_file e (W.update_picker e m.fp).0) _ _ v
  update_component-IsShown selected_page e m v = v
  update_component-IsShown connections_page e m v = record {
    settings_shown = v.settings_shown;
    conns_known =
        subst (IsComplete m.connections) (sym (keeps.update_list e m.conn_list)) v.conns_known;
    edit_known = v.edit_known;
  }
  update_component-IsShown details_page e m v = v
  update_component-IsShown settings_page e m v = record {
    settings_shown = keeps.update_list e m.settings_list ∙ v.settings_shown;
    conns_known = v.conns_known;
    edit_known = v.edit_known;
  }

  finish-IsShown : (e : W.Event) {f : Flow W} → FlowShown W f → IsShown W (finish W e f).0
  unfolding finish
  finish-IsShown e (returns v) = v
  finish-IsShown e (goes_on {m} v) = update_component-IsShown m.page e m v

  then_page-FlowShown : (k : String) {f : Flow W} → FlowShown W f → FlowShown W (then_page W k f)
  unfolding then_page
  then_page-FlowShown k (returns v) = returns v
  then_page-FlowShown k (goes_on {m} v) = page_key-FlowShown W keeps m.page k m v

  committed-IsShown :
      (r : Result Settings) (m : Model W) → IsShown W m → IsShown W (committed W r m)
  unfolding committed
  committed-IsShown (err e) m v = v
  committed-IsShown (ok s) m v = rebuild-IsShown W keeps _ v.conns_known (λ h. cc)

  stop_editing-IsShown :
      (m : Model W)
      → IsShown W m
      → IsShown W (record m { editing = false; edit_key = SettingKey.no_key })
  stop_editing-IsShown m v = record {
    settings_shown = v.settings_shown;
    conns_known = v.conns_known;
    edit_known = λ h. cc;
  }

  record PairShown (r : Model W × Cmd W) : Type 0 where
    shown : IsShown W r.0

  either-PairShown :
      (b : Bool) {x y : Model W × Cmd W}
      → PairShown x
      → PairShown y
      → PairShown (if b then x else y)
  either-PairShown true h k = h
  either-PairShown false h k = k

  update_editing-PairShown :
      (k : String) (e : W.Event) (m : Model W) → IsShown W m → PairShown (update_editing W k e m)
  unfolding update_editing
  update_editing-PairShown k e m v =
      either-PairShown (k =ˢ "esc") (record { shown = stop_editing-IsShown m v })
        (either-PairShown (k =ˢ "enter")
          (record {
            shown =
                committed-IsShown
                  (commit_setting_edit m.edit_key (trim_space (W.value m.edit_input)) m.settings) m
                  v;
          })
          (record { shown = v }))

  update_event-PairShown :
      (k : Option String) (e : W.Event) (m : Model W)
      → IsShown W m
      → PairShown (update_event W k e m)
  unfolding update_event
  update_event-PairShown none e m v = record { shown = update_component-IsShown m.page e m v }
  update_event-PairShown (some k) e m v =
      either-PairShown (is_settings_page m.page && m.editing) (update_editing-PairShown k e m v)
        (record { shown = finish-IsShown e (then_page-FlowShown k (global_key-FlowShown W k m v)) })

  take_settings-IsShown :
      (s : Settings) (m : Model W) → IsShown W m → IsShown W (take_settings W s m)
  unfolding take_settings
  take_settings-IsShown s m v = by_mark (not m.settings_dirty && not m.editing)
    where
      by_mark :
          (b : Bool)
          → IsShown W (if b then rebuild_settings_list W (record m { settings = s }) else m)
      by_mark true = rebuild-IsShown W keeps (record m { settings = s }) v.conns_known v.edit_known
      by_mark false = v

  leave_details-IsShown : (m : Model W) → IsShown W m → IsShown W (leave_details W m)
  unfolding leave_details
  leave_details-IsShown m v = by_id (m.detail_id =ˢ "") (lookup m.detail_id m.connections)
    where
      by_id :
          (b : Bool) (o : Option ConnectionSnapshot)
          → IsShown W (
              if b then m else elim o as (λ _. Model W) [
                | some c ↦ m
                | none ↦ record m { detail_id = ""; page = connections_page }
              ])
      by_id true o = v
      by_id false (some c) = v
      by_id false none = v

  show_connections-IsShown :
      (s : Snapshot) (m : Model W) → IsShown W m → IsShown W (show_connections W s m)
  show_connections-IsShown s m v = record {
    settings_shown = v.settings_shown;
    conns_known =
        subst (IsComplete (connections_from [] s.sender.connections))
          (sym (keeps.set_items (sorted_conns s.sender.connections) m.conn_list))
          (sorted_conns-IsKnown s.sender.connections, sorted_conns-HasLines s.sender.connections);
    edit_known = v.edit_known;
  }

  apply_snapshot-IsShown :
      (s : Snapshot) (m : Model W) → IsShown W m → IsShown W (apply_snapshot W s m)
  unfolding apply_snapshot sync_files
  apply_snapshot-IsShown s m v = leave_details-IsShown _ (
      show_connections-IsShown s
        (sync_files W s.sender.files (take_settings W s.settings (show_states W s m)))
        (take_settings-IsShown s.settings (show_states W s m) v))

  resize-IsShown : (w h : ℤ) (m : Model W) → IsShown W m → IsShown W (resize W w h m)
  unfolding resize
  resize-IsShown w h m v = record {
    settings_shown = keeps.set_size w _ m.settings_list ∙ v.settings_shown;
    conns_known =
        subst (IsComplete m.connections) (sym (keeps.set_size w _ m.conn_list)) v.conns_known;
    edit_known = v.edit_known;
  }

  update-IsShown : (msg : Msg W) (m : Model W) → IsShown W m → IsShown W (update W msg m).0
  unfolding update
  update-IsShown (event e) m v = (update_event-PairShown (W.key_name e) e m v).shown
  update-IsShown (window_size w h) m v = resize-IsShown w h m v
  update-IsShown (state_msg (ok s)) m v = apply_snapshot-IsShown s _ v
  update-IsShown (state_msg (err e)) m v = v
  update-IsShown (action_msg (ok s) true) m v = apply_snapshot-IsShown s _ v
  update-IsShown (action_msg (ok s) false) m v = apply_snapshot-IsShown s _ v
  update-IsShown (action_msg (err e) clear) m v = v
  update-IsShown tick_msg m v = v

  nothing : (id : String) {c : ConnectionSnapshot} → lookup id [] ≡ some c → ⊥
  unfolding lookup
  nothing id e = cc

  -- If the lists of `bubbles` keep their items, then in every state that a run of the terminal reaches the
  -- list of settings shows the settings of the model, each connection of the model is listed with its
  -- remote end and its state, the details of each listed connection are at hand, and a setting that is
  -- being edited is one that can be edited.
  pub Reach-IsShown : {s : Session W} → Reach W s → IsShown W s.model
  unfolding start_session new_model
  Reach-IsShown started =
      rebuild-IsShown W keeps (blank_model W)
        (subst (IsComplete []) (sym keeps.new_list) (tt, λ id c e. absurd (nothing id e))) (λ h. cc)
  Reach-IsShown (next {s} r (happens e)) = update-IsShown (event e) s.model (Reach-IsShown r)
  Reach-IsShown (next {s} r (resized w h)) =
      update-IsShown (window_size w h) s.model (Reach-IsShown r)
  Reach-IsShown (next {s} r (told xs ys a e)) =
      update-IsShown (state_msg a) s.model (Reach-IsShown r)
  Reach-IsShown (next {s} r (ticked xs ys e)) = update-IsShown tick_msg s.model (Reach-IsShown r)
  Reach-IsShown (next {s} r (answered xs ys call clear a e)) =
      update-IsShown (action_msg a clear) s.model (Reach-IsShown r)
  Reach-IsShown (next {s} r (split xs ys c d e)) = Reach-IsShown r
