-- ===== src/Tui/Known.antt =====
-- Each connection that is listed is in the map that its details are looked up in.
use m_tlsling.Base.{
  String, true, List, [], ◌∷◌, ◌≡◌, inl, inr, arith, Map, lookup, insert, lookup-insert, All,
  is_some, eq_iff, Bool-cases,
}
use m_tlsling.Base.Sort.{leb_string}
use m_tlsling.Daemon.Types.{ConnectionSnapshot}
use m_tlsling.Tui.Widgets.{ConnItem, Item, setting_item, file_item, conn_item}
use m_tlsling.Tui.Lists.{
  connections_from, insert_by, sort_by, conn_items, conn_items_of, sorted_conns,
}

-- An item of the list of connections, and the map that the details are looked up in.
abbrev pub IsKnown : Map ConnectionSnapshot → Item → Type 0
IsKnown known (conn_item it) = is_some (lookup it.id known) ≡ true
IsKnown known (setting_item it) = ⊥
IsKnown known (file_item p) = ⊥

connections_from-keeps :
    (cs : List ConnectionSnapshot) (m : Map ConnectionSnapshot) (id : String)
    → is_some (lookup id m) ≡ true
    → is_some (lookup id (connections_from m cs)) ≡ true
unfolding connections_from
connections_from-keeps [] m id h = h
connections_from-keeps (c ∷ cs) m id h =
    connections_from-keeps cs (insert c.id c m) id (ground (arith, lookup-insert id c.id c m))

-- Each connection of a snapshot is in the map that is made of it.
abbrev IsIn : Map ConnectionSnapshot → ConnItem → Type 0
IsIn known it = is_some (lookup it.id known) ≡ true

connections_from-IsIn :
    (cs : List ConnectionSnapshot) (m : Map ConnectionSnapshot)
    → All (IsIn (connections_from m cs)) (conn_items_of cs)
unfolding connections_from conn_items_of
connections_from-IsIn [] m = tt
connections_from-IsIn (c ∷ cs) m = (
  connections_from-keeps cs (insert c.id c m) c.id
      (ground (arith, lookup-insert c.id c.id c m, eq_iff c.id c.id)),
  connections_from-IsIn cs (insert c.id c m),
)

module _ {A : Type 0} (key : A → String) (P : A → Type 0) where
  pub insert_by-All : (x : A) (xs : List A) → P x → All P xs → All P (insert_by key x xs)
  unfolding insert_by
  insert_by-All x [] h k = (h, tt)
  insert_by-All x (y ∷ ys) h k = elim (Bool-cases (leb_string (key x) (key y))) [
    | inl e ↦ rw e (h, k)
    | inr e ↦ rw e (k.0, insert_by-All x ys h k.1)
  ]

  sort_by-All : (xs : List A) → All P xs → All P (sort_by key xs)
  unfolding sort_by
  sort_by-All [] h = tt
  sort_by-All (x ∷ xs) h = insert_by-All x (sort_by key xs) h.0 (sort_by-All xs h.1)

conn_items-IsKnown :
    (known : Map ConnectionSnapshot) (cs : List ConnItem)
    → All (IsIn known) cs
    → All (IsKnown known) (conn_items cs)
unfolding conn_items
conn_items-IsKnown known [] h = tt
conn_items-IsKnown known (c ∷ cs) h = (h.0, conn_items-IsKnown known cs h.1)

pub sorted_conns-IsKnown :
    (cs : List ConnectionSnapshot) → All (IsKnown (connections_from [] cs)) (sorted_conns cs)
unfolding sorted_conns
sorted_conns-IsKnown cs = conn_items-IsKnown _ _ (
    sort_by-All (λ (c : ConnItem). c.id) (IsIn (connections_from [] cs)) (conn_items_of cs)
      (connections_from-IsIn cs []))
