-- ===== src/Tui/Edits/Commit.antt =====
-- `commitSettingEdit` of cmd/tui/main.go: which item an edit changes, and when it is refused.
use m_tlsling.Base.{
  ℕ, zero, suc, String, Option, none, some, List, [], ◌∷◌, Result, ok, err, ◌≡◌, refl, subst, arith,
  if◌then◌else◌, ◌=ˢ◌, show_int,
}
use m_tlsling.Base.Int.{ℤ, pos, negsuc, lebℤ}
use m_tlsling.Base.Atoi.{atoi}
use m_tlsling.Daemon.Types.{Settings}
use m_tlsling.Tui.Widgets.{SettingKey, Item, setting_item, file_item, conn_item, text_of_key}
use m_tlsling.Tui.Fields.{setting_items, read_interval, commit_setting_edit}
use m_tlsling.Tui.Edits.{IsEditable}

-- The item of one key gets another value.
abbrev put_value : SettingKey → String → Item → Item
put_value key v (setting_item it) =
    if text_of_key it.key =ˢ text_of_key key
    then setting_item (record it { value = v })
    else setting_item it
put_value key v (file_item p) = file_item p
put_value key v (conn_item c) = conn_item c

abbrev pub put_in : SettingKey → String → List Item → List Item
put_in key v [] = []
put_in key v (it ∷ is) = put_value key v it ∷ put_in key v is

-- How a text is shown after it was entered: an interval is written in its shortest form.
abbrev pub shown_as : SettingKey → String → String
shown_as SettingKey.sender_broadcast_interval v = elim (atoi v) [ some n ↦ show_int n | none ↦ v ]
shown_as _ v = v

abbrev IsPositive : Option ℤ → Type 0
IsPositive (some (pos (suc n))) = Unit {0}
IsPositive _ = ⊥

-- What a committed edit does.
abbrev pub Commits : SettingKey → String → Settings → Result Settings → Type 0
Commits key v s (ok s') = setting_items s' ≡ put_in key (shown_as key v) (setting_items s)
Commits key v s (err e) =
    (key ≡ SettingKey.sender_broadcast_interval)
    × (IsPositive (atoi v) → ⊥)
    × (e ≡ "broadcast interval must be a positive integer")

pub read_interval-positive :
    (v : String) (k : ℕ) → atoi v ≡ some (pos (suc k)) → read_interval v ≡ ok (pos (suc k))
unfolding read_interval
read_interval-positive v k e = ground arith

read_interval-other :
    (v : String)
    → (IsPositive (atoi v) → ⊥)
    → read_interval v ≡ err "broadcast interval must be a positive integer"
unfolding read_interval
read_interval-other v h = by_number (atoi v) h
  where
    by_number :
        (n : Option ℤ)
        → (IsPositive n → ⊥)
        → (elim n as (λ _. Result ℤ) [
          | none ↦ err "broadcast interval must be a positive integer"
          | some n ↦
              if lebℤ n (pos 0) then err "broadcast interval must be a positive integer" else ok n
        ])
          ≡ err "broadcast interval must be a positive integer"
    by_number none h = refl
    by_number (some (pos zero)) h = refl
    by_number (some (pos (suc k))) h = absurd (h tt)
    by_number (some (negsuc k)) h = ground arith

interval-refused :
    (v : String) (s : Settings)
    → (IsPositive (atoi v) → ⊥)
    → Commits SettingKey.sender_broadcast_interval v s
        (commit_setting_edit SettingKey.sender_broadcast_interval v s)
unfolding commit_setting_edit
interval-refused v s h = rw (read_interval-other v h) (refl, h, refl)

interval-Commits :
    (v : String) (s : Settings) (n : Option ℤ)
    → atoi v ≡ n
    → Commits SettingKey.sender_broadcast_interval v s
        (commit_setting_edit SettingKey.sender_broadcast_interval v s)
unfolding commit_setting_edit setting_items
interval-Commits v s (some (pos (suc k))) e =
    rw (read_interval-positive v k e) (rw (e, shown_as) refl)
interval-Commits v s (some (pos zero)) e = interval-refused v s (subst IsPositive e)
interval-Commits v s (some (negsuc k)) e = interval-refused v s (subst IsPositive e)
interval-Commits v s none e = interval-refused v s (subst IsPositive e)

-- An edit of a setting that can be edited changes the item of that setting to the text, or to the shortest
-- form of its number, and no other item; it is refused only where the interval is not a positive number.
pub commit_setting_edit-Commits :
    (key : SettingKey) (v : String) (s : Settings)
    → IsEditable key
    → Commits key v s (commit_setting_edit key v s)
unfolding commit_setting_edit setting_items
commit_setting_edit-Commits SettingKey.sender_broadcast_interval v s h =
    interval-Commits v s (atoi v) refl
commit_setting_edit-Commits SettingKey.sender_cert v s h = refl
commit_setting_edit-Commits SettingKey.sender_key v s h = refl
commit_setting_edit-Commits SettingKey.sender_ca v s h = refl
commit_setting_edit-Commits SettingKey.sender_addr v s h = refl
commit_setting_edit-Commits SettingKey.sender_multicast v s h = refl
commit_setting_edit-Commits SettingKey.sender_server_name v s h = refl
commit_setting_edit-Commits SettingKey.sender_id v s h = refl
commit_setting_edit-Commits SettingKey.listener_cert v s h = refl
commit_setting_edit-Commits SettingKey.listener_key v s h = refl
commit_setting_edit-Commits SettingKey.listener_ca v s h = refl
commit_setting_edit-Commits SettingKey.listener_multicast v s h = refl
commit_setting_edit-Commits SettingKey.listener_out v s h = refl
commit_setting_edit-Commits SettingKey.listener_server_name v s h = refl
commit_setting_edit-Commits SettingKey.no_key v s h = absurd h
commit_setting_edit-Commits SettingKey.sender_enabled v s h = absurd h
commit_setting_edit-Commits SettingKey.sender_insecure v s h = absurd h
commit_setting_edit-Commits SettingKey.listener_enabled v s h = absurd h
commit_setting_edit-Commits SettingKey.listener_insecure v s h = absurd h
