-- ===== src/Tests/Terminals.antt =====
-- The terminal at work.
use m_tlsling.Base.{
  ◌+◌, true, false, none, some, List, [], ◌∷◌, ◌≡◌, refl, inl, ok, err, lookup, arith, String,
}
use m_tlsling.Daemon.Types.{Snapshot, ConnectionSnapshot}
use m_tlsling.Daemon.State.{start_world}
use m_tlsling.Base.Sort.{sort_strings}
use m_tlsling.Daemon.Snapshot.{snapshot, sorted_values, values_at}
use m_tlsling.Tui.Lists.{connections_from}
use m_tlsling.Daemon.Normalize.{normalize_settings}
use m_tlsling.Daemon.Listener.{stop_listener}
use m_tlsling.Daemon.Control.{
  update_settings, reconcile, bring_sender, bring_listener, stop_running,
}
use m_tlsling.Api.Client.{
  start_sender_call, update_settings_call, trim_space, trim_left, trim_right,
}
use m_tlsling.Api.Client.Refinement.{direct}
use m_tlsling.Tui.Widgets.{SettingKey, SettingItem}
use m_tlsling.Tui.Types.{settings_page, Model, Msg, event, state_msg, action_msg, tick_msg, action}
use m_tlsling.Tui.Fields.{setting_items, commit_setting_edit}
use m_tlsling.Tui.Edits.Commit.{Commits, commit_setting_edit-Commits}
use m_tlsling.Tui.Keys.{global_key, then_page}
use m_tlsling.Tui.Update.{blank_model, new_model, init, finish, update_event, update}
use m_tlsling.Tui.Run.{Session, deliver, start_session, Step, Reach}
use m_tlsling.Tui.Run.Polls.{total_polls, Reach-polls}
use m_tlsling.Tui.Run.Shown.{Reach-IsShown}
use m_tlsling.Tui.Shown.{IsShown}
use m_tlsling.Tui.Settings.{selected_setting}
use m_tlsling.Tui.Reopen.{update-reopen}
use m_tlsling.Tui.Unsaved.{edits_of, updates, updates-edits}
use m_tlsling.Tui.Remote.{answer}
use m_tlsling.Tui.Remote.Calls.{Outcome, answer-Outcome}
use m_tlsling.Tui.Remote.Keys.{Toggled, sender_key-Toggled, write_key-settings}
use m_tlsling.Tests.Keys.{small}
use m_tlsling.Tests.Daemons.{settings, env, new, ready}
use m_tlsling.Tests.Requests.{empty_decoders, encoders, reader, encoders-IsFaithful}
use m_tlsling.Tests.Screens.{
  plain, plain-KeepsItems, settings_encoders, settings_decoders, settings_encoders-IsFaithful,
  encode_settings_known,
}

-- The key `s`, and then the answer that the daemon has no files.
abbrev pressed : Session plain
pressed = deliver plain (event "s") (start_session plain).pending (start_session plain)

abbrev after_failure : Session plain
after_failure =
    deliver plain (action_msg (err "no sender files configured") false) (init plain ∷ [])
      (record pressed { failures = pressed.failures + 1 })

after_failure_reached : Reach plain after_failure
unfolding start_session new_model update update_event finish then_page global_key
after_failure_reached = Reach.next (Reach.next Reach.started (Step.happens "s")) (
    Step.answered [] (init plain ∷ []) start_sender_call false (err "no sender files configured")
      refl)

Reach-polls_example : total_polls plain after_failure.pending ≡ 1 + after_failure.failures
Reach-polls_example = Reach-polls plain after_failure_reached

Reach-IsShown_example : IsShown plain after_failure.model
Reach-IsShown_example = Reach-IsShown plain plain-KeepsItems after_failure_reached

commit_setting_edit-Commits_example :
    Commits SettingKey.sender_broadcast_interval "+030" settings
      (commit_setting_edit SettingKey.sender_broadcast_interval "+030" settings)
commit_setting_edit-Commits_example =
    commit_setting_edit-Commits SettingKey.sender_broadcast_interval "+030" settings tt

-- The page of settings, at the item of the certificate.
abbrev opened : Model plain
opened = record (blank_model plain) {
  page = settings_page;
  settings = settings;
  settings_list = (setting_items settings, 1);
}

abbrev cert_item : SettingItem
cert_item = record {
  key = SettingKey.sender_cert;
  label = "sender.cert_path";
  value = "cert.pem";
  editable = true;
  togglable = false;
}

no_connection : (id : String) {c : ConnectionSnapshot} → lookup id [] ≡ some c → ⊥
unfolding lookup
no_connection id e = cc

opened-IsShown : IsShown plain opened
opened-IsShown = record {
  settings_shown = refl;
  conns_known = (tt, λ id c e. absurd (no_connection id e));
  edit_known = λ h. cc;
}

opened_selected : selected_setting plain opened ≡ some cert_item
unfolding selected_setting setting_items
opened_selected = refl

cert_trimmed : trim_space "cert.pem" ≡ "cert.pem"
unfolding trim_space trim_left trim_right
cert_trimmed = refl

update-reopen_example :
    (let m' = (update plain (event "enter") (update plain (event "e") opened).0).0 in
      (m'.settings ≡ settings) × (m'.editing ≡ false) × (m'.settings_dirty ≡ true))
update-reopen_example =
    update-reopen plain plain-KeepsItems opened cert_item "e" "enter" refl refl opened-IsShown
      (4, refl, omega arith) refl refl opened_selected refl refl cert_trimmed

-- Edits that are not written.
abbrev modified : Model plain
modified = record opened { settings_dirty = true }

abbrev background : List (Msg plain)
background = state_msg (ok (snapshot small new)) ∷ tick_msg ∷ action_msg (err "timeout") true ∷ []

updates-edits_example : edits_of plain (updates plain background modified) ≡ edits_of plain modified
updates-edits_example = updates-edits plain background modified (inl refl) (tt, (tt, (tt, tt)))

-- A setting is edited, after the details of a connection that is gone.
abbrev distracted : Model plain
distracted = record opened { editing = true; detail_id = "7" }

abbrev shown : Snapshot
shown = snapshot small new

shown_none : lookup "7" (connections_from [] shown.sender.connections) ≡ none
unfolding connections_from lookup snapshot sorted_values values_at sort_strings start_world
shown_none = refl

-- The terminal beside a daemon that is ready, with a sender that does not run.
abbrev idle : Model plain
idle = blank_model plain

answer-Outcome_example :
    Outcome plain plain-KeepsItems small env empty_decoders encoders reader encoders-IsFaithful
      start_sender_call false idle
      (direct small env start_sender_call ready)
      (answer plain small env empty_decoders encoders reader start_sender_call false ready)
answer-Outcome_example =
    answer-Outcome plain plain-KeepsItems small env empty_decoders encoders reader
      encoders-IsFaithful start_sender_call false [] ready idle refl

sender_key-Toggled_example :
    (update plain (event "s") idle ≡ (idle, action start_sender_call false))
    × Toggled plain plain-KeepsItems small env empty_decoders encoders reader encoders-IsFaithful
        ready
        (update plain
          (answer plain small env empty_decoders encoders reader start_sender_call false ready).1
          idle).0
        (direct small env start_sender_call ready)
sender_key-Toggled_example =
    sender_key-Toggled plain plain-KeepsItems small env empty_decoders encoders reader
      encoders-IsFaithful "s" idle idle ready refl refl refl

settings_taken : (update_settings small env settings ready).1 ≡ none
unfolding update_settings reconcile bring_sender bring_listener stop_running stop_listener
    normalize_settings
settings_taken = refl

-- The settings are written while the field of another edit was closed.
write_key-settings_example :
    (let r =
        answer plain small env settings_decoders settings_encoders reader
          (update_settings_call settings)
          true
          ready in
      (update plain (event "w") opened ≡ (opened, action (update_settings_call settings) true))
      × (r.0.daemon.settings ≡ normalize_settings settings)
      × ((update plain r.1 modified).0.settings ≡ normalize_settings settings)
      × ((update plain r.1 modified).0.settings_dirty ≡ false))
write_key-settings_example =
    write_key-settings plain plain-KeepsItems small env settings_decoders settings_encoders reader
      settings_encoders-IsFaithful "w" opened modified ready [] refl refl refl encode_settings_known
      refl settings_taken
