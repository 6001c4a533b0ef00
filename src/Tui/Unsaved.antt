-- ===== src/Tui/Unsaved.antt =====
-- Edits of the settings that are not written yet, and what the daemon's messages do to them.
use m_tlsling.Base.{
  String, Bool, true, false, Option, none, some, List, [], ◌∷◌, ok, err, ◌≡◌, ◌⊎◌, inl, inr, refl,
  sym, subst, ap, ◌∙◌, arith, ◌=ˢ◌, lookup, All,
}
use m_tlsling.Daemon.Types.{Settings, Snapshot}
use m_tlsling.Tui.Widgets.{SettingKey, Widgets}
use m_tlsling.Tui.Types.{
  Page, picker_page, selected_page, connections_page, details_page, settings_page, Model, Msg,
  event, window_size, state_msg, action_msg, tick_msg, Cmd, quit,
}
use m_tlsling.Tui.Lists.{sync_files, leave_details, connections_from}
use m_tlsling.Tui.Settings.{take_settings, show_states, show_connections, apply_snapshot}
use m_tlsling.Tui.Update.{pick, update_component, finish, update_event, resize, update}
use m_tlsling.Tui.Keys.{global_key, then_page}

module _ (W : Widgets) where
  -- The part of the model that is an edit: the settings, whether they are modified, and the open field.
  pub record Edits : Type 0 where
    pub settings : Settings
    pub settings_dirty : Bool
    pub editing : Bool
    pub edit_key : SettingKey
    pub edit_input : W.Input

  abbrev pub edits_of : Model W → Edits
  edits_of m = record {
    settings = m.settings;
    settings_dirty = m.settings_dirty;
    editing = m.editing;
    edit_key = m.edit_key;
    edit_input = m.edit_input;
  }

  abbrev pub HasEdits : Edits → Type 0
  HasEdits u = (u.settings_dirty ≡ true) ⊎ (u.editing ≡ true)

  -- All that is not a key, but the answer to a write that succeeded.
  abbrev pub IsBackground : Msg W → Type 0
  IsBackground (event e) = W.key_name e ≡ none
  IsBackground (window_size w h) = Unit {0}
  IsBackground (state_msg r) = Unit {0}
  IsBackground (action_msg (ok s) clear) = clear ≡ false
  IsBackground (action_msg (err e) clear) = Unit {0}
  IsBackground tick_msg = Unit {0}

  take_settings-edits :
      (s : Settings) (m : Model W) → HasEdits (edits_of m) → take_settings W s m ≡ m
  unfolding take_settings
  take_settings-edits s m (inl h) = rw h refl
  take_settings-edits s m (inr h) = ground arith

  leave_details-edits : (m : Model W) → edits_of (leave_details W m) ≡ edits_of m
  unfolding leave_details
  leave_details-edits m = ground arith

  apply_snapshot-edits :
      (s : Snapshot) (m : Model W)
      → HasEdits (edits_of m)
      → edits_of (apply_snapshot W s m) ≡ edits_of m
  unfolding apply_snapshot sync_files
  apply_snapshot-edits s m h =
      leave_details-edits _ ∙ ap edits_of (take_settings-edits s.settings (show_states W s m) h)

  pick-edits :
      (o : Option String) (c : Cmd W) (m : Model W) → edits_of (pick W o c m).0 ≡ edits_of m
  unfolding pick sync_files
  pick-edits none c m = refl
  pick-edits (some path) c m = refl

  update_component-edits :
      (p : Page) (e : W.Event) (m : Model W) → edits_of (update_component W p e m).0 ≡ edits_of m
  unfolding update_component
  update_component-edits picker_page e m =
      pick-edits (W.did_select_file e (W.update_picker e m.fp).0) _ _
  update_component-edits selected_page e m = refl
  update_component-edits connections_page e m = refl
  update_component-edits details_page e m = refl
  update_component-edits settings_page e m = refl

  update-edits :
      (msg : Msg W) (m : Model W)
      → HasEdits (edits_of m)
      → IsBackground msg
      → edits_of (update W msg m).0 ≡ edits_of m
  unfolding update update_event resize
  update-edits (event e) m h b =
      subst (λ n. edits_of (update_event W n e m).0 ≡ edits_of m) (sym b)
        (update_component-edits m.page e m)
  update-edits (window_size w k) m h b = refl
  update-edits (state_msg (ok s)) m h b = apply_snapshot-edits s (record m { ui_error = "" }) h
  update-edits (state_msg (err e)) m h b = refl
  update-edits (action_msg (ok s) true) m h b = cc
  update-edits (action_msg (ok s) false) m h b =
      apply_snapshot-edits s (record m { ui_error = "" }) h
  update-edits (action_msg (err e) clear) m h b = refl
  update-edits tick_msg m h b = refl

  -- The messages of a list, one after the other.
  abbrev pub updates : List (Msg W) → Model W → Model W
  updates [] m = m
  updates (msg ∷ msgs) m = updates msgs (update W msg m).0

  -- While there are edits that are not written, or an open field, no sequence of messages without a key and
  -- without the answer to a write that succeeded changes the settings, their mark, the open field or its
  -- text: snapshots, answers to other actions, failures, ticks, sizes and the components' own messages.
  pub updates-edits :
      (msgs : List (Msg W)) (m : Model W)
      → HasEdits (edits_of m)
      → All IsBackground msgs
      → edits_of (updates msgs m) ≡ edits_of m
  updates-edits [] m h bs = refl
  updates-edits (msg ∷ msgs) m h bs =
      let same = update-edits msg m h bs.0 in
      updates-edits msgs (update W msg m).0 (subst HasEdits (sym same) h) bs.1 ∙ same

  leave_details-gone :
      (m : Model W)
      → (m.detail_id =ˢ "") ≡ false
      → lookup m.detail_id m.connections ≡ none
      → leave_details W m ≡ record m { detail_id = ""; page = connections_page }
  unfolding leave_details
  leave_details-gone m d l = rw d (rw l refl)

  interrupted : Snapshot → Model W → Model W
  interrupted s m =
      record (show_connections W s (sync_files W s.sender.files (show_states W s m))) {
        detail_id = "";
        page = connections_page;
        ui_error = "";
      }

  state_msg-interrupted :
      (s : Snapshot) (m : Model W)
      → m.editing ≡ true
      → (m.detail_id =ˢ "") ≡ false
      → lookup m.detail_id (connections_from [] s.sender.connections) ≡ none
      → (update W (state_msg (ok s)) m).0 ≡ interrupted s m
  unfolding update apply_snapshot interrupted sync_files
  state_msg-interrupted s m h d l =
      ap (λ (t : Model W). leave_details W (show_connections W s (sync_files W s.sender.files t)))
        (take_settings-edits s.settings (show_states W s (record m { ui_error = "" })) (inr h))
      ∙ leave_details-gone _ d l

  quits :
      (s : Snapshot) (m : Model W) (e : W.Event)
      → W.key_name e ≡ some "q"
      → (update W (event e) (interrupted s m)).1 ≡ quit
  unfolding update update_event finish then_page global_key interrupted sync_files
  quits s m e k = subst (λ n. (update_event W n e (interrupted s m)).1 ≡ quit) (sym k) refl

  -- A snapshot without the connection whose details were looked at last leaves the page of settings, also
  -- while a setting is edited: the field stays open, but the keys are no longer its own, and the next `q`
  -- ends the program.
  state_msg-interrupts :
      (s : Snapshot) (m : Model W) (e : W.Event)
      → m.editing ≡ true
      → (m.detail_id =ˢ "") ≡ false
      → lookup m.detail_id (connections_from [] s.sender.connections) ≡ none
      → W.key_name e ≡ some "q"
      → (let m' = (update W (state_msg (ok s)) m).0 in
          (m'.page ≡ connections_page) × (m'.editing ≡ true) × ((update W (event e) m').1 ≡ quit))
  unfolding interrupted sync_files
  state_msg-interrupts s m e h d l k =
      subst
        (λ m'.
          (m'.page ≡ connections_page) × (m'.editing ≡ true) × ((update W (event e) m').1 ≡ quit))
        (sym (state_msg-interrupted s m h d l)) (refl, h, quits s m e k)
