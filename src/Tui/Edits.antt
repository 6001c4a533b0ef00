-- ===== src/Tui/Edits.antt =====
-- Which settings can be edited as texts, and that the items say so.
pub mod Commit
use m_tlsling.Base.{ℕ, zero, suc, List, [], ◌∷◌, some, ◌≡◌, true, subst, arith, All, get_elem?}
use m_tlsling.Daemon.Types.{Settings}
use m_tlsling.Tui.Widgets.{SettingKey, Item, setting_item, file_item, conn_item}
use m_tlsling.Tui.Fields.{setting_items}

-- The keys whose settings are edited as texts.
abbrev pub IsEditable : SettingKey → Type 0
IsEditable SettingKey.no_key = ⊥
IsEditable SettingKey.sender_enabled = ⊥
IsEditable SettingKey.sender_insecure = ⊥
IsEditable SettingKey.listener_enabled = ⊥
IsEditable SettingKey.listener_insecure = ⊥
IsEditable _ = Unit {0}

abbrev pub IsSound : Item → Type 0
IsSound (setting_item it) = it.editable ≡ true → IsEditable it.key
IsSound (file_item p) = Unit {0}
IsSound (conn_item c) = Unit {0}

pub All-get_elem? :
    (P : Item → Type 0) (is : List Item) (i : ℕ) (it : Item)
    → All P is
    → get_elem? is i ≡ some it
    → P it
All-get_elem? P [] i it h e = cc
All-get_elem? P (x ∷ xs) zero it h e = subst P (cc) h.0
All-get_elem? P (x ∷ xs) (suc i) it h e = All-get_elem? P xs i it h.1 e

pub setting_items-IsSound : (s : Settings) → All IsSound (setting_items s)
unfolding setting_items
setting_items-IsSound s = grind arith
