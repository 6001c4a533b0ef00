-- ===== src/Tui/Remote/Calls.antt =====
-- Keys that call the daemon, from the key to what is shown after the answer.
use m_tlsling.Base.{
  String, Bool, true, false, Option, none, some, Result, ok, ◌≡◌, refl, sym, subst, ap, ◌∙◌,
}
use m_tlsling.Config.{Crypto}
use m_tlsling.Server.Types.{Bytes}
use m_tlsling.Daemon.Types.{Snapshot}
use m_tlsling.Daemon.State.{World, Env}
use m_tlsling.Daemon.Snapshot.{snapshot}
use m_tlsling.Api.{Decoders}
use m_tlsling.Api.Client.{Reader, Encoders, Call, arrives, method_of, path_of, payload_of}
use m_tlsling.Api.Client.Refinement.{refusal, IsFaithful, direct, returned, do_json-direct}
use m_tlsling.Tui.Widgets.{Widgets, KeepsItems}
use m_tlsling.Tui.Types.{Model, Msg, action_msg, no_cmd, request_state}
use m_tlsling.Tui.Update.{clear_dirty, update}
use m_tlsling.Tui.Remote.{answer}
use m_tlsling.Tui.Remote.Shows.{
  ShowsState, apply_snapshot-ShowsState, apply_snapshot-settings, apply_snapshot-dirty,
}

module _ (W : Widgets) (keeps : KeepsItems W) (C : Crypto) (env : Env C) (dec : Decoders)
    (enc : Encoders) (reader : Reader) (faithful : IsFaithful dec enc reader) where
  -- The answer of a call is what the daemon's own function gives.
  answer-direct :
      (call : Call) (clear : Bool) (body : Bytes) (w : World C)
      → payload_of enc call ≡ ok body
      → answer W C env dec enc reader call clear w ≡ (
        (returned C env call (direct C env call w)).0,
        action_msg (returned C env call (direct C env call w)).1 clear,
      )
  unfolding answer
  answer-direct call clear body w p =
      ap (λ (r : World C × Result Snapshot). (r.0, action_msg r.1 clear))
        (do_json-direct C env dec enc reader arrives call body w faithful p)

  -- What the terminal shows after an answer, by how the daemon's function ended.
  abbrev pub Outcome : Call → Bool → Model W → World C × Option String → World C × Msg W → Type 0
  Outcome call clear m (w', none) (w, msg) =
      (w ≡ w')
      × ShowsState W keeps (snapshot C w') (update W msg m).0
      × ((update W msg m).1 ≡ no_cmd)
      × ((update W msg m).0.settings_dirty ≡ (clear_dirty W clear m).settings_dirty)
      × ((clear_dirty W clear m).settings_dirty ≡ false
          → m.editing ≡ false
          → (update W msg m).0.settings ≡ w'.daemon.settings)
  Outcome call clear m (w', some e) (w, msg) =
      (w ≡ w')
      × ((update W msg m).0 ≡ record m { ui_error = refusal (method_of call) (path_of call) e })
      × ((update W msg m).1 ≡ request_state)

  clear_dirty-editing : (clear : Bool) (m : Model W) → (clear_dirty W clear m).editing ≡ m.editing
  clear_dirty-editing true m = refl
  clear_dirty-editing false m = refl

  outcome :
      (call : Call) (clear : Bool) (m : Model W) (r : World C × Option String)
      → Outcome call clear m r
          ((returned C env call r).0, action_msg (returned C env call r).1 clear)
  unfolding update snapshot
  outcome call clear m (w', none) = (
    refl,
    apply_snapshot-ShowsState W keeps _ _,
    refl,
    apply_snapshot-dirty W keeps (snapshot C w') _,
    λ d e. apply_snapshot-settings W keeps (snapshot C w') _ d (clear_dirty-editing clear m ∙ e),
  )
  outcome call clear m (w', some e) = (refl, refl, refl)

  -- JSON and error texts are read as they were written, and the payload of the call can be encoded. After a
  -- call that succeeds, whatever has happened in the terminal meanwhile, it shows the sender, the listener,
  -- the files and the connections as the daemon then has them, and the daemon's settings too unless there
  -- are edits; after one that fails it shows the error, keeps all else, and asks for the state.
  pub answer-Outcome :
      (call : Call) (clear : Bool) (body : Bytes) (w : World C) (m : Model W)
      → payload_of enc call ≡ ok body
      → Outcome call clear m (direct C env call w) (answer W C env dec enc reader call clear w)
  answer-Outcome call clear body w m p =
      subst (Outcome call clear m (direct C env call w)) (sym (answer-direct call clear body w p))
        (outcome call clear m (direct C env call w))
