-- ===== src/Tui/Types.antt =====
-- cmd/tui/main.go: the pages, the model, the messages and the commands of the terminal program.
use m_tlsling.Base.{String, Bool, Map, Result, List}
use m_tlsling.Base.Int.{ℤ}
use m_tlsling.Daemon.Types.{Settings, Snapshot, ConnectionSnapshot, ListenerEvent}
use m_tlsling.Api.Client.{Call}
use m_tlsling.Tui.Widgets.{SettingKey, Widgets}

-- `page`
pub data Page : Type 0 where
  picker_page selected_page connections_page details_page settings_page : Page

module _ (W : Widgets) where
  -- `model`; the calls of its client are in the commands.
  pub record Model : Type 0 where
    pub page : Page
    pub fp : W.Picker
    pub file_list : W.ListModel
    pub conn_list : W.ListModel
    pub settings_list : W.ListModel
    pub edit_input : W.Input
    pub editing : Bool
    pub edit_key : SettingKey
    pub detail_id : String
    pub connections : Map ConnectionSnapshot
    pub recent : List ListenerEvent
    pub settings : Settings
    pub settings_dirty : Bool
    pub sender_running : Bool
    pub listener_running : Bool
    pub sender_error : String
    pub listener_error : String
    pub ui_error : String
    pub width : ℤ
    pub height : ℤ

  -- `tea.Msg`: the messages that `Update` names, and the other events. An `action_msg` tells whether it
  -- clears the mark of unsaved settings.
  pub data Msg : Type 0 where
    event : W.Event → Msg
    window_size : ℤ → ℤ → Msg
    state_msg : Result Snapshot → Msg
    action_msg : Result Snapshot → Bool → Msg
    tick_msg : Msg

  -- `tea.Cmd`: the functions that the program makes, by what they do when they are run. `action` makes a
  -- call of the client and answers with an `action_msg`, `request_state` answers with a `state_msg`, and
  -- `next_poll` with a `tick_msg` a second later.
  pub data Cmd : Type 0 where
    no_cmd : Cmd
    quit : Cmd
    next_poll : Cmd
    request_state : Cmd
    action : Call → Bool → Cmd
    foreign : W.Command → Cmd
    batch : Cmd → Cmd → Cmd
