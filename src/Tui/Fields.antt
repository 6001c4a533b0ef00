-- ===== src/Tui/Fields.antt =====
-- cmd/tui/main.go: the settings as items of a list, and what an edit or a toggle does to them.
use m_tlsling.Base.{
  String, ◌<>◌, Bool, true, false, not, Option, none, some, List, [], ◌∷◌, Result, ok, err,
  if◌then◌else◌, show_int,
}
use m_tlsling.Base.Int.{ℤ, pos, lebℤ}
use m_tlsling.Base.Atoi.{atoi}
use m_tlsling.Daemon.Types.{Settings, SenderSettings, ListenerSettings}
use m_tlsling.Tui.Widgets.{SettingKey, Item, setting_item, text_of_key}

-- `strconv.FormatBool`
abbrev pub format_bool : Bool → String
format_bool true = "true"
format_bool false = "false"

abbrev text_item : SettingKey → String → Item
text_item key value = setting_item (record {
  key = key;
  label = text_of_key key;
  value = value;
  editable = true;
  togglable = false;
})

abbrev bool_item : SettingKey → Bool → Item
bool_item key value = setting_item (record {
  key = key;
  label = text_of_key key;
  value = format_bool value;
  editable = false;
  togglable = true;
})

-- The items that `rebuildSettingsList` makes.
unfoldable pub setting_items : Settings → List Item
setting_items s =
    bool_item SettingKey.sender_enabled s.sender.enabled
    ∷ text_item SettingKey.sender_cert s.sender.cert_path
    ∷ text_item SettingKey.sender_key s.sender.key_path
    ∷ text_item SettingKey.sender_ca s.sender.ca_path
    ∷ text_item SettingKey.sender_addr s.sender.addr
    ∷ text_item SettingKey.sender_multicast s.sender.multicast
    ∷ text_item SettingKey.sender_server_name s.sender.server_name
    ∷ text_item SettingKey.sender_id s.sender.id
    ∷ bool_item SettingKey.sender_insecure s.sender.insecure_skip_verify
    ∷ text_item SettingKey.sender_broadcast_interval (show_int s.sender.broadcast_interval_seconds)
    ∷ bool_item SettingKey.listener_enabled s.listener.enabled
    ∷ text_item SettingKey.listener_cert s.listener.cert_path
    ∷ text_item SettingKey.listener_key s.listener.key_path
    ∷ text_item SettingKey.listener_ca s.listener.ca_path
    ∷ text_item SettingKey.listener_multicast s.listener.multicast
    ∷ text_item SettingKey.listener_out s.listener.out_dir
    ∷ text_item SettingKey.listener_server_name s.listener.server_name_override
    ∷ bool_item SettingKey.listener_insecure s.listener.insecure_skip_verify
    ∷ []

abbrev pub with_sender : SenderSettings → Settings → Settings
with_sender half s = record s { sender = half }

abbrev pub with_listener : ListenerSettings → Settings → Settings
with_listener half s = record s { listener = half }

-- The switch of `toggleSelectedSetting`; `none` is its default.
unfoldable pub toggle_field : SettingKey → Settings → Option Settings
toggle_field SettingKey.sender_enabled s =
    some (with_sender (record (s.sender) { enabled = not s.sender.enabled }) s)
toggle_field SettingKey.sender_insecure s =
    some (
      with_sender (record (s.sender) { insecure_skip_verify = not s.sender.insecure_skip_verify })
        s)
toggle_field SettingKey.listener_enabled s =
    some (with_listener (record (s.listener) { enabled = not s.listener.enabled }) s)
toggle_field SettingKey.listener_insecure s = some (
    with_listener
      (record (s.listener) { insecure_skip_verify = not s.listener.insecure_skip_verify }) s)
toggle_field _ s = none

-- The interval that a text gives.
unfoldable pub read_interval : String → Result ℤ
read_interval text = elim (atoi text) [
  | none ↦ err "broadcast interval must be a positive integer"
  | some n ↦ if lebℤ n (pos 0) then err "broadcast interval must be a positive integer" else ok n
]

-- The case of `commitSettingEdit` that reads a number.
unfoldable pub with_interval : Result ℤ → Settings → Result Settings
with_interval (err e) s = err e
with_interval (ok n) s = ok (with_sender (record (s.sender) { broadcast_interval_seconds = n }) s)

-- `commitSettingEdit`
unfoldable pub commit_setting_edit : SettingKey → String → Settings → Result Settings
unfolding with_interval
commit_setting_edit SettingKey.sender_cert v s =
    ok (with_sender (record (s.sender) { cert_path = v }) s)
commit_setting_edit SettingKey.sender_key v s =
    ok (with_sender (record (s.sender) { key_path = v }) s)
commit_setting_edit SettingKey.sender_ca v s =
    ok (with_sender (record (s.sender) { ca_path = v }) s)
commit_setting_edit SettingKey.sender_addr v s = ok (with_sender (record (s.sender) { addr = v }) s)
commit_setting_edit SettingKey.sender_multicast v s =
    ok (with_sender (record (s.sender) { multicast = v }) s)
commit_setting_edit SettingKey.sender_server_name v s =
    ok (with_sender (record (s.sender) { server_name = v }) s)
commit_setting_edit SettingKey.sender_id v s = ok (with_sender (record (s.sender) { id = v }) s)
commit_setting_edit SettingKey.sender_broadcast_interval v s = with_interval (read_interval v) s
commit_setting_edit SettingKey.listener_cert v s =
    ok (with_listener (record (s.listener) { cert_path = v }) s)
commit_setting_edit SettingKey.listener_key v s =
    ok (with_listener (record (s.listener) { key_path = v }) s)
commit_setting_edit SettingKey.listener_ca v s =
    ok (with_listener (record (s.listener) { ca_path = v }) s)
commit_setting_edit SettingKey.listener_multicast v s =
    ok (with_listener (record (s.listener) { multicast = v }) s)
commit_setting_edit SettingKey.listener_out v s =
    ok (with_listener (record (s.listener) { out_dir = v }) s)
commit_setting_edit SettingKey.listener_server_name v s =
    ok (with_listener (record (s.listener) { server_name_override = v }) s)
commit_setting_edit key v s = err ("setting " <> (text_of_key key <> " is not editable"))
