-- ===== src/Tui/Remote/Keys.antt =====
-- The keys `s` and `w`, from the key to what is shown after the answer.
use m_tlsling.Base.{
  String, Bool, true, false, not, Option, none, some, [], ok, ◌≡◌, refl, sym, subst, ap, ◌∙◌,
  if◌then◌else◌,
}
use m_tlsling.Config.{Crypto}
use m_tlsling.Server.Types.{Bytes}
use m_tlsling.Daemon.Types.{Settings}
use m_tlsling.Daemon.State.{World, Env}
use m_tlsling.Daemon.Normalize.{normalize_settings}
use m_tlsling.Daemon.Control.{update_settings}
use m_tlsling.Daemon.Control.Effects.{
  start_sender-running, stop_sender-running, update_settings-settings,
}
use m_tlsling.Daemon.Sender.{start_sender, stop_sender}
use m_tlsling.Daemon.Snapshot.{snapshot}
use m_tlsling.Api.{Decoders}
use m_tlsling.Api.Client.{
  Reader, Encoders, start_sender_call, stop_sender_call, update_settings_call,
}
use m_tlsling.Api.Client.Refinement.{refusal, IsFaithful, direct}
use m_tlsling.Tui.Widgets.{Widgets, KeepsItems}
use m_tlsling.Tui.Types.{settings_page, Model, Msg, event, action}
use m_tlsling.Tui.Update.{finish, update_event, update}
use m_tlsling.Tui.Remote.{answer}
use m_tlsling.Tui.Reopen.{update_event-key}
use m_tlsling.Tui.Keys.{global_key, settings_key, page_key, then_page}
use m_tlsling.Tui.Remote.Calls.{Outcome, answer-Outcome}

module _ (W : Widgets) (keeps : KeepsItems W) (C : Crypto) (env : Env C) (dec : Decoders)
    (enc : Encoders) (reader : Reader) (faithful : IsFaithful dec enc reader) where
  sender_key :
      (e : W.Event) (m : Model W)
      → W.key_name e ≡ some "s"
      → m.editing ≡ false
      → update W (event e) m
        ≡ (m, action (if m.sender_running then stop_sender_call else start_sender_call) false)
  unfolding update finish then_page global_key
  sender_key e m k h =
      subst
        (λ n.
          update_event W n e m
          ≡ (m, action (if m.sender_running then stop_sender_call else start_sender_call) false))
        (sym k) (update_event-key W "s" e m h)

  -- What the key `s` should do.
  abbrev pub Toggled : World C → Model W → World C × Option String → Type 0
  Toggled w m (w', none) =
      (w'.daemon.sender.running ≡ not w.daemon.sender.running)
      × (m.sender_running ≡ w'.daemon.sender.running)
  Toggled w m (w', some e) =
      (w.daemon.sender.running ≡ false) × (m.ui_error ≡ refusal "POST" "/v1/sender/start" e)

  -- `toggled` says what the outcome of the call that the key makes is.
  by_call :
      (running : Bool) (w : World C) (m : Model W)
      → running ≡ w.daemon.sender.running
      → (let call = if running then stop_sender_call else start_sender_call in
          Toggled w
            (update W (answer W C env dec enc reader call false w).1 m).0
            (direct C env call w))
  unfolding stop_sender snapshot
  by_call true w m r =
      let told =
        answer-Outcome W keeps C env dec enc reader faithful stop_sender_call false [] w m refl in
      (stop_sender-running C env true w ∙ ap not r, told.1.sender_running)
  by_call false w m r =
      by_end (start_sender C env true w)
        (answer-Outcome W keeps C env dec enc reader faithful start_sender_call false [] w m refl)
        (start_sender-running C env true w)
    where
      by_end :
          (d : World C × Option String)
          → Outcome W keeps C env dec enc reader faithful start_sender_call false m d
              (answer W C env dec enc reader start_sender_call false w)
          → (d.1 ≡ none → d.0.daemon.sender.running ≡ true)
          → Toggled w (update W (answer W C env dec enc reader start_sender_call false w).1 m).0 d
      by_end (w', none) told runs = (runs refl ∙ ap not r, told.1.sender_running)
      by_end (w', some e) told runs = (sym r, ap (λ (m : Model W). m.ui_error) told.1)

  -- If the terminal shows whether the sender runs, and no setting is edited, then the key `s` gives a call
  -- that stops a sender that runs, and starts one that does not. With the answer, whatever has happened in
  -- the terminal meanwhile: after a success the sender is the other way round and the terminal shows that,
  -- and the only failure is that of a start, which is shown.
  pub sender_key-Toggled :
      (e : W.Event) (m later : Model W) (w : World C)
      → W.key_name e ≡ some "s"
      → m.editing ≡ false
      → m.sender_running ≡ w.daemon.sender.running
      → (let call = if m.sender_running then stop_sender_call else start_sender_call in
          (update W (event e) m ≡ (m, action call false))
          × Toggled w
              (update W (answer W C env dec enc reader call false w).1 later).0
              (direct C env call w))
  sender_key-Toggled e m later w k h r = (sender_key e m k h, by_call m.sender_running w later r)

  write_key :
      (e : W.Event) (m : Model W)
      → W.key_name e ≡ some "w"
      → m.page ≡ settings_page
      → m.editing ≡ false
      → update W (event e) m ≡ (m, action (update_settings_call m.settings) true)
  unfolding update finish then_page global_key page_key settings_key
  write_key e m k p h =
      subst (λ n. update_event W n e m ≡ (m, action (update_settings_call m.settings) true)) (sym k)
        (update_event-key W "w" e m h
          ∙ subst
              (λ pg.
                finish W e (page_key W pg "w" m)
                ≡ (m, action (update_settings_call m.settings) true))
              (sym p) refl)

  written_outcome :
      (s : Settings) (later : Model W) (d : World C × Option String) (r : World C × Msg W)
      → d.1 ≡ none
      → later.editing ≡ false
      → d.0.daemon.settings ≡ normalize_settings s
      → Outcome W keeps C env dec enc reader faithful (update_settings_call s) true later d r
      → (r.0.daemon.settings ≡ normalize_settings s)
        × ((update W r.1 later).0.settings ≡ normalize_settings s)
        × ((update W r.1 later).0.settings_dirty ≡ false)
  written_outcome s later (w', some e) (w, msg) n l q told = cc
  written_outcome s later (w', none) (w, msg) n l q told =
      (ap (λ (v : World C). v.daemon.settings) told.0 ∙ q, told.4 refl l ∙ q, told.3)

  -- The key `w` sends the settings of the moment. When the answer comes, no field is open in the terminal,
  -- and the daemon has taken the settings, then both the daemon and the terminal have the settings that were
  -- sent, in their normal form, and the terminal shows them as saved: settings that were changed in the
  -- terminal between the two are lost.
  pub write_key-settings :
      (e : W.Event) (m later : Model W) (w : World C) (body : Bytes)
      → W.key_name e ≡ some "w"
      → m.page ≡ settings_page
      → m.editing ≡ false
      → enc.settings m.settings ≡ ok body
      → later.editing ≡ false
      → (update_settings C env m.settings w).1 ≡ none
      → (let call = update_settings_call m.settings in
          let r = answer W C env dec enc reader call true w in
          (update W (event e) m ≡ (m, action call true))
          × (r.0.daemon.settings ≡ normalize_settings m.settings)
          × ((update W r.1 later).0.settings ≡ normalize_settings m.settings)
          × ((update W r.1 later).0.settings_dirty ≡ false))
  write_key-settings e m later w body k p h b l n =
      let call = update_settings_call m.settings in
      let parts =
        written_outcome m.settings later (update_settings C env m.settings w)
          (answer W C env dec enc reader call true w) n l
          (update_settings-settings C env m.settings w)
          (answer-Outcome W keeps C env dec enc reader faithful call true body w later b) in
      (write_key e m k p h, parts.0, parts.1, parts.2)
