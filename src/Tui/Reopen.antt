-- ===== src/Tui/Reopen.antt =====
-- An edit that is opened and closed with `enter` keeps the settings.
use m_tlsling.Base.{
  ℕ, suc, ◌<◌, ◌^◌, String, true, false, ◌&&◌, Option, none, some, ok, ◌≡◌, refl, sym, subst, ap,
  ◌∙◌, arith, if◌then◌else◌, All, get_elem?, show_int,
}
use m_tlsling.Base.Int.{pos}
use m_tlsling.Base.Atoi.{atoi-show_int}
use m_tlsling.Daemon.Types.{Settings}
use m_tlsling.Api.Client.{trim_space}
use m_tlsling.Tui.Widgets.{
  SettingKey, SettingItem, Item, setting_item, file_item, conn_item, Widgets, KeepsItems,
}
use m_tlsling.Tui.Types.{settings_page, Model, event, Cmd, no_cmd}
use m_tlsling.Tui.Fields.{setting_items, read_interval, commit_setting_edit}
use m_tlsling.Tui.Edits.{All-get_elem?}
use m_tlsling.Tui.Edits.Commit.{read_interval-positive}
use m_tlsling.Tui.Settings.{
  setting_of, rebuild_settings_list, selected_setting, begin_edit_selected_setting,
}
use m_tlsling.Tui.Shown.{IsShown}
use m_tlsling.Tui.Keys.{global_key, settings_key, page_key, then_page, is_settings_page}
use m_tlsling.Tui.Update.{committed, update_editing, update_event, finish, update}

-- The interval is one that an `int` holds.
abbrev pub HasInterval : Settings → Type 0
HasInterval s = (k : ℕ) × (s.sender.broadcast_interval_seconds ≡ pos (suc k)) × (suc k < 2 ^ 63)

-- To commit what an item shows changes nothing.
abbrev IsKept : Settings → Item → Type 0
IsKept s (setting_item it) = it.editable ≡ true → commit_setting_edit it.key it.value s ≡ ok s
IsKept s (file_item p) = Unit {0}
IsKept s (conn_item c) = Unit {0}

interval_kept :
    (s : Settings) (k : ℕ)
    → s.sender.broadcast_interval_seconds ≡ pos (suc k)
    → suc k < 2 ^ 63
    → commit_setting_edit SettingKey.sender_broadcast_interval
        (show_int s.sender.broadcast_interval_seconds)
        s
      ≡ ok s
unfolding commit_setting_edit
interval_kept s k e h =
    let read : read_interval (show_int s.sender.broadcast_interval_seconds)
        ≡ ok s.sender.broadcast_interval_seconds =
      subst (λ i. read_interval (show_int i) ≡ ok i) (sym e)
        (read_interval-positive _ k (atoi-show_int (suc k) h)) in
    rw read refl

setting_items-IsKept : (s : Settings) → HasInterval s → All (IsKept s) (setting_items s)
unfolding setting_items commit_setting_edit
setting_items-IsKept s (k, e, lt) = (
  λ h. cc,
  (
    λ h. refl,
    (
      λ h. refl,
      (
        λ h. refl,
        (
          λ h. refl,
          (
            λ h. refl,
            (
              λ h. refl,
              (
                λ h. refl,
                (
                  λ h. cc,
                  (
                    λ h. interval_kept s k e lt,
                    (
                      λ h. cc,
                      (
                        λ h. refl,
                        (
                          λ h. refl,
                          (λ h. refl, (λ h. refl, (λ h. refl, (λ h. refl, (λ h. cc, tt))))),
                        ),
                      ),
                    ),
                  ),
                ),
              ),
            ),
          ),
        ),
      ),
    ),
  ),
)

module _ (W : Widgets) where
  -- A key, when no setting is edited.
  pub update_event-key :
      (k : String) (e : W.Event) (m : Model W)
      → m.editing ≡ false
      → update_event W (some k) e m ≡ finish W e (then_page W k (global_key W k m))
  unfolding update_event
  update_event-key k e m h = ground arith

  update_event-edit :
      (e : W.Event) (m : Model W)
      → m.page ≡ settings_page
      → m.editing ≡ false
      → update_event W (some "e") e m ≡ (begin_edit_selected_setting W m, no_cmd)
  unfolding then_page global_key page_key settings_key finish
  update_event-edit e m p h =
      update_event-key "e" e m h
      ∙ subst (λ pg. finish W e (page_key W pg "e" m) ≡ (begin_edit_selected_setting W m, no_cmd))
          (sym p) refl

  begun : (m : Model W) → SettingItem → Model W
  begun m it = record m {
    editing = true;
    edit_key = it.key;
    edit_input = W.focus (W.set_value it.value m.edit_input);
  }

  begin_edit-begun :
      (m : Model W) (it : SettingItem)
      → selected_setting W m ≡ some it
      → it.editable ≡ true
      → begin_edit_selected_setting W m ≡ begun m it
  unfolding begin_edit_selected_setting begun
  begin_edit-begun m it e b = rw (e, begin_edit_selected_setting) (rw b refl)

  update_event-enter :
      (e : W.Event) (m : Model W)
      → m.page ≡ settings_page
      → m.editing ≡ true
      → update_event W (some "enter") e m ≡ (
        committed W
            (commit_setting_edit m.edit_key (trim_space (W.value m.edit_input)) m.settings)
            m,
        no_cmd,
      )
  unfolding update_event update_editing
  update_event-enter e m p h =
      let guard : (is_settings_page m.page && m.editing) ≡ true =
        subst (λ pg. (is_settings_page pg && m.editing) ≡ true) (sym p) h in
      subst
        (λ b.
          (if b
            then update_editing W "enter" e m
            else finish W e (then_page W "enter" (global_key W "enter" m)))
          ≡ update_editing W "enter" e m)
        (sym guard) refl

  selected-IsKept :
      (keeps : KeepsItems W) (m : Model W) (it : SettingItem)
      → IsShown W m
      → HasInterval m.settings
      → selected_setting W m ≡ some it
      → it.editable ≡ true
      → commit_setting_edit it.key it.value m.settings ≡ ok m.settings
  unfolding selected_setting
  selected-IsKept keeps m it v i e b = by_item (W.selected_item m.settings_list) refl e b
    where
      by_item :
          (o : Option Item)
          → W.selected_item m.settings_list ≡ o
          → setting_of o ≡ some it
          → it.editable ≡ true
          → commit_setting_edit it.key it.value m.settings ≡ ok m.settings
      by_item none h e = cc
      by_item (some (file_item _)) h e = cc
      by_item (some (conn_item _)) h e = cc
      by_item (some (setting_item it')) h e =
          let same : it' ≡ it = cc in
          let (n, at) = keeps.selected_item m.settings_list (setting_item it') h in
          subst (λ (t : SettingItem). IsKept m.settings (setting_item t)) same
            (All-get_elem? (IsKept m.settings) (setting_items m.settings) n (setting_item it')
              (setting_items-IsKept m.settings i)
              (subst (λ is. get_elem? is n ≡ some (setting_item it')) v.settings_shown at))

  closed : (m : Model W) → SettingItem → Model W
  closed m it = committed W (ok m.settings) (begun m it)

  closed_fields :
      (m : Model W) (it : SettingItem)
      → ((closed m it).settings ≡ m.settings)
        × ((closed m it).editing ≡ false)
        × ((closed m it).settings_dirty ≡ true)
  unfolding closed committed begun rebuild_settings_list
  closed_fields m it = (refl, refl, refl)

  opened :
      (m : Model W) (it : SettingItem) (e : W.Event)
      → W.key_name e ≡ some "e"
      → m.page ≡ settings_page
      → m.editing ≡ false
      → selected_setting W m ≡ some it
      → it.editable ≡ true
      → (update W (event e) m).0 ≡ begun m it
  unfolding update
  opened m it e k p h s b =
      ap (λ (r : Model W × Cmd W). r.0)
        (subst (λ n. update_event W n e m ≡ (begin_edit_selected_setting W m, no_cmd)) (sym k)
          (update_event-edit e m p h))
      ∙ begin_edit-begun m it s b

  entered :
      (m : Model W) (it : SettingItem) (e : W.Event)
      → W.key_name e ≡ some "enter"
      → m.page ≡ settings_page
      → (update W (event e) (begun m it)).0
        ≡ committed W
            (commit_setting_edit it.key
              (trim_space (W.value (W.focus (W.set_value it.value m.edit_input))))
              m.settings)
            (begun m it)
  unfolding update begun
  entered m it e k p =
      ap (λ (r : Model W × Cmd W). r.0)
        (subst (λ n. update_event W n e (begun m it) ≡ update_event W (some "enter") e (begun m it))
            (sym k) refl
          ∙ update_event-enter e (begun m it) p refl)

  reopened :
      (keeps : KeepsItems W) (m : Model W) (it : SettingItem) (e1 e2 : W.Event)
      → W.key_name e1 ≡ some "e"
      → W.key_name e2 ≡ some "enter"
      → IsShown W m
      → HasInterval m.settings
      → m.page ≡ settings_page
      → m.editing ≡ false
      → selected_setting W m ≡ some it
      → it.editable ≡ true
      → W.value (W.focus (W.set_value it.value m.edit_input)) ≡ it.value
      → trim_space it.value ≡ it.value
      → (update W (event e2) (update W (event e1) m).0).0 ≡ closed m it
  unfolding closed
  reopened keeps m it e1 e2 k1 k2 v i p h s b g t =
      ap (λ m'. (update W (event e2) m').0) (opened m it e1 k1 p h s b)
      ∙ entered m it e2 k2 p
      ∙ ap (λ text. committed W (commit_setting_edit it.key text m.settings) (begun m it))
          (ap trim_space g ∙ t)
      ∙ ap (λ r. committed W r (begun m it)) (selected-IsKept keeps m it v i s b)

  -- On the page of settings, at an item that can be edited: the key `e` and then `enter`, with nothing typed
  -- between, keep the settings and end the edit, but mark the settings as modified. The interval is
  -- positive, the value of the item has no blanks around it, which `enter` would cut off, and the input gives
  -- back the value that it was set to.
  pub update-reopen :
      (keeps : KeepsItems W) (m : Model W) (it : SettingItem) (e1 e2 : W.Event)
      → W.key_name e1 ≡ some "e"
      → W.key_name e2 ≡ some "enter"
      → IsShown W m
      → HasInterval m.settings
      → m.page ≡ settings_page
      → m.editing ≡ false
      → selected_setting W m ≡ some it
      → it.editable ≡ true
      → W.value (W.focus (W.set_value it.value m.edit_input)) ≡ it.value
      → trim_space it.value ≡ it.value
      → (let m' = (update W (event e2) (update W (event e1) m).0).0 in
          (m'.settings ≡ m.settings) × (m'.editing ≡ false) × (m'.settings_dirty ≡ true))
  update-reopen keeps m it e1 e2 k1 k2 v i p h s b g t =
      subst (λ m'. (m'.settings ≡ m.settings) × (m'.editing ≡ false) × (m'.settings_dirty ≡ true))
        (sym (reopened keeps m it e1 e2 k1 k2 v i p h s b g t)) (closed_fields m it)
