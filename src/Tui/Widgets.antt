-- ===== src/Tui/Widgets.antt =====
-- cmd/tui/main.go: the items of its lists; and the components of `bubbles` that the terminal is built from,
-- as parameters, with what the program relies on.
use m_tlsling.Base.{ℕ, String, Bool, Option, some, List, [], ◌≡◌, get_elem?}
use m_tlsling.Base.Int.{ℤ}

-- `settingKey`; `no_key` is the empty text.
pub data SettingKey : Type 0 where
  no_key : SettingKey
  sender_enabled sender_cert sender_key sender_ca sender_addr sender_multicast : SettingKey
  sender_server_name sender_id sender_insecure sender_broadcast_interval : SettingKey
  listener_enabled listener_cert listener_key listener_ca listener_multicast : SettingKey
  listener_out listener_server_name listener_insecure : SettingKey

abbrev pub text_of_key : SettingKey → String
text_of_key SettingKey.no_key = ""
text_of_key SettingKey.sender_enabled = "sender.enabled"
text_of_key SettingKey.sender_cert = "sender.cert_path"
text_of_key SettingKey.sender_key = "sender.key_path"
text_of_key SettingKey.sender_ca = "sender.ca_path"
text_of_key SettingKey.sender_addr = "sender.addr"
text_of_key SettingKey.sender_multicast = "sender.multicast"
text_of_key SettingKey.sender_server_name = "sender.server_name"
text_of_key SettingKey.sender_id = "sender.id"
text_of_key SettingKey.sender_insecure = "sender.insecure_skip_verify"
text_of_key SettingKey.sender_broadcast_interval = "sender.broadcast_interval_seconds"
text_of_key SettingKey.listener_enabled = "listener.enabled"
text_of_key SettingKey.listener_cert = "listener.cert_path"
text_of_key SettingKey.listener_key = "listener.key_path"
text_of_key SettingKey.listener_ca = "listener.ca_path"
text_of_key SettingKey.listener_multicast = "listener.multicast"
text_of_key SettingKey.listener_out = "listener.out_dir"
text_of_key SettingKey.listener_server_name = "listener.server_name_override"
text_of_key SettingKey.listener_insecure = "listener.insecure_skip_verify"

pub record SettingItem : Type 0 where
  pub key : SettingKey
  pub label : String
  pub value : String
  pub editable : Bool
  pub togglable : Bool

pub record ConnItem : Type 0 where
  pub id : String
  pub remote : String
  pub state : String

-- `list.Item`, of which the program has three kinds.
pub data Item : Type 0 where
  setting_item : SettingItem → Item
  file_item : String → Item
  conn_item : ConnItem → Item

-- `list.Model`, `textinput.Model`, `filepicker.Model` and their messages. An event is a message that none
-- of the program's own types has; a key is an event with a name.
pub record Widgets : Type 1 where
  pub Event : Type 0
  pub key_name : Event → Option String
  pub Command : Type 0
  pub ListModel : Type 0
  pub new_list : ListModel
  pub items : ListModel → List Item
  pub index : ListModel → ℤ
  pub selected_item : ListModel → Option Item
  pub set_items : List Item → ListModel → ListModel
  pub select : ℤ → ListModel → ListModel
  pub set_size : ℤ → ℤ → ListModel → ListModel
  pub update_list : Event → ListModel → ListModel × Command
  pub Input : Type 0
  pub new_input : Input
  pub value : Input → String
  pub set_value : String → Input → Input
  pub focus : Input → Input
  pub update_input : Event → Input → Input × Command
  pub Picker : Type 0
  pub new_picker : Picker
  pub init_picker : Command
  pub set_height : ℤ → Picker → Picker
  pub update_picker : Event → Picker → Picker × Command
  pub did_select_file : Event → Picker → Option String

-- `list.New` has the items that it is given, here none; a list keeps its items until `SetItems`, and the
-- selected item is one of them.
pub record KeepsItems (W : Widgets) : Type 0 where
  pub new_list : W.items W.new_list ≡ []
  pub set_items : (is : List Item) (l : W.ListModel) → W.items (W.set_items is l) ≡ is
  pub select : (i : ℤ) (l : W.ListModel) → W.items (W.select i l) ≡ W.items l
  pub set_size : (w h : ℤ) (l : W.ListModel) → W.items (W.set_size w h l) ≡ W.items l
  pub update_list : (e : W.Event) (l : W.ListModel) → W.items (W.update_list e l).0 ≡ W.items l
  pub selected_item :
      (l : W.ListModel) (it : Item)
      → W.selected_item l ≡ some it
      → (i : ℕ) × (get_elem? (W.items l) i ≡ some it)
