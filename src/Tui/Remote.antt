-- ===== src/Tui/Remote.antt =====
-- cmd/tui/main.go: the commands that call the daemon, run against the handler of internal/ipcapi, when
-- requests and responses arrive.
pub mod Shows
pub mod Calls
pub mod Keys
use m_tlsling.Base.{Bool, Result}
use m_tlsling.Config.{Crypto}
use m_tlsling.Daemon.Types.{Snapshot}
use m_tlsling.Daemon.State.{World, Env}
use m_tlsling.Api.{Decoders}
use m_tlsling.Api.Client.{Reader, Encoders, Call, get_state, arrives, do_json}
use m_tlsling.Tui.Widgets.{Widgets}
use m_tlsling.Tui.Types.{Msg, state_msg, action_msg}

module _ (W : Widgets) (C : Crypto) (env : Env C) (dec : Decoders) (enc : Encoders)
    (reader : Reader) where
  -- `setFilesCmd`, `updateSettingsCmd`, `startSenderCmd`, `stopSenderCmd`, `startListenerCmd` and
  -- `stopListenerCmd`: the call, and its answer as a message.
  unfoldable pub answer : Call → Bool → World C → World C × Msg W
  answer call clear w =
      let (w', r) = do_json C env dec enc reader arrives call w in (w', action_msg r clear)

  -- `requestStateCmd`
  unfoldable pub ask : World C → World C × Msg W
  ask w = let (w', r) = do_json C env dec enc reader arrives get_state w in (w', state_msg r)
