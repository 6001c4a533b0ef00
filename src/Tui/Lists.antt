-- ===== src/Tui/Lists.antt =====
-- cmd/tui/main.go: what a snapshot of the daemon does to the lists.
use m_tlsling.Base.{
  String, Bool, false, ◌||◌, none, some, List, [], ◌∷◌, ◌++◌, Map, insert, lookup, if◌then◌else◌,
  ◌=ˢ◌,
}
use m_tlsling.Base.Sort.{leb_string}
use m_tlsling.Daemon.Types.{ConnectionSnapshot}
use m_tlsling.Tui.Widgets.{Item, ConnItem, setting_item, file_item, conn_item, Widgets}
use m_tlsling.Tui.Types.{Model, connections_page}

-- `listItemsToPaths`
unfoldable pub list_items_to_paths : List Item → List String
list_items_to_paths [] = []
list_items_to_paths (file_item path ∷ is) = path ∷ list_items_to_paths is
list_items_to_paths (setting_item _ ∷ is) = list_items_to_paths is
list_items_to_paths (conn_item _ ∷ is) = list_items_to_paths is

-- The first loop of `appendUnique`.
unfoldable pub is_listed : List String → String → Bool
is_listed [] path = false
is_listed (p ∷ ps) path = p =ˢ path || is_listed ps path

unfoldable pub append_unique : List String → String → List String
unfolding is_listed
append_unique paths path = if is_listed paths path then paths else paths ++ path ∷ []

unfoldable pub file_items : List String → List Item
file_items [] = []
file_items (p ∷ ps) = file_item p ∷ file_items ps

-- The map of connections of `applySnapshot`: a later connection replaces one of the same id.
unfoldable pub connections_from :
    Map ConnectionSnapshot → List ConnectionSnapshot → Map ConnectionSnapshot
connections_from m [] = m
connections_from m (c ∷ cs) = connections_from (insert c.id c m) cs

abbrev pub conn_item_of : ConnectionSnapshot → ConnItem
conn_item_of c = record { id = c.id; remote = c.remote; state = c.state }

-- A sort by a text: the order that `sort.Slice` gives when no text stands twice.
module _ {ℓ} {A : Type ℓ} (key : A → String) where
  unfoldable pub insert_by : A → List A → List A
  insert_by x [] = x ∷ []
  insert_by x (y ∷ ys) = if leb_string (key x) (key y) then x ∷ y ∷ ys else y ∷ insert_by x ys

  unfoldable pub sort_by : List A → List A
  unfolding insert_by
  sort_by [] = []
  sort_by (x ∷ xs) = insert_by x (sort_by xs)

unfoldable pub conn_items : List ConnItem → List Item
conn_items [] = []
conn_items (c ∷ cs) = conn_item c ∷ conn_items cs

unfoldable pub conn_items_of : List ConnectionSnapshot → List ConnItem
conn_items_of [] = []
conn_items_of (c ∷ cs) = conn_item_of c ∷ conn_items_of cs

-- The items of the list of connections.
unfoldable pub sorted_conns : List ConnectionSnapshot → List Item
unfolding conn_items conn_items_of sort_by
sorted_conns cs = conn_items (sort_by (λ (c : ConnItem). c.id) (conn_items_of cs))

module _ (W : Widgets) where
  -- `syncFiles`
  unfoldable pub sync_files : List String → Model W → Model W
  unfolding file_items
  sync_files paths m = record m { file_list = W.set_items (file_items paths) m.file_list }

  -- The end of `applySnapshot`: the page of a connection that is gone is left.
  unfoldable pub leave_details : Model W → Model W
  leave_details m = if m.detail_id =ˢ "" then m else elim (lookup m.detail_id m.connections) [
    | some c ↦ m
    | none ↦ record m { detail_id = ""; page = connections_page }
  ]
