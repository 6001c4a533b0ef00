-- ===== src/Tui/Sorted.antt =====
-- What the list of connections should show of a snapshot, and the map that the details are looked up in.
use mathlib.Core.List.{Memᴰ, Permᴰ}
use m_tlsling.Base.{
  String, true, Option, none, some, List, [], ◌∷◌, map, ◌≡◌, refl, sym, ap, ◌∙◌, subst, inl, inr,
  arith, Map, lookup, insert, lookup-insert, All, Bool-cases, ◌=ˢ◌, if◌then◌else◌,
}
use m_tlsling.Base.Sort.{leb_string, leb_string_total, leb_string_trans}
use m_tlsling.Daemon.Types.{ConnectionSnapshot}
use m_tlsling.Tui.Widgets.{ConnItem, Item, file_item, conn_item}
use m_tlsling.Tui.Lists.{
  file_items, connections_from, insert_by, sort_by, conn_items, conn_items_of, sorted_conns,
}
use m_tlsling.Tui.Known.{insert_by-All}

-- The line of a connection.
abbrev pub line_of : ConnectionSnapshot → ConnItem
line_of c = record { id = c.id; remote = c.remote; state = c.state }

abbrev pub IsOrdered : List ConnItem → Type 0
IsOrdered [] = Unit {0}
IsOrdered (x ∷ xs) = All (λ (y : ConnItem). leb_string x.id y.id ≡ true) xs × IsOrdered xs

-- Each connection has its line, as often as it stands there, in the order of the ids.
pub record Listed (cs : List ConnectionSnapshot) (items : List Item) : Type 0 where
  pub lines : List ConnItem
  pub same : Permᴰ lines (map line_of cs)
  pub ordered : IsOrdered lines
  pub shown : items ≡ map conn_item lines

-- The last connection of an id.
abbrev pub latest : String → List ConnectionSnapshot → Option ConnectionSnapshot
latest id [] = none
latest id (c ∷ cs) = elim (latest id cs) [
  | some d ↦ some d
  | none ↦ if c.id =ˢ id then some c else none
]

insert_by-Permᴰ :
    (x : ConnItem) (xs : List ConnItem) → Permᴰ (insert_by (λ (c : ConnItem). c.id) x xs) (x ∷ xs)
unfolding insert_by
insert_by-Permᴰ x [] = Permᴰ.cons refl Permᴰ.nil
insert_by-Permᴰ x (y ∷ ys) = elim (Bool-cases (leb_string x.id y.id)) [
  | inl h ↦ rw h (perm_refl (x ∷ y ∷ ys))
  | inr h ↦ rw h (Permᴰ.trans (Permᴰ.cons refl (insert_by-Permᴰ x ys)) (Permᴰ.swap refl refl))
]
  where
    perm_refl : (zs : List ConnItem) → Permᴰ zs zs
    perm_refl [] = Permᴰ.nil
    perm_refl (z ∷ zs) = Permᴰ.cons refl (perm_refl zs)

insert_by-IsOrdered :
    (x : ConnItem) (xs : List ConnItem)
    → IsOrdered xs
    → IsOrdered (insert_by (λ (c : ConnItem). c.id) x xs)
unfolding insert_by
insert_by-IsOrdered x [] h = (tt, tt)
insert_by-IsOrdered x (y ∷ ys) h = elim (Bool-cases (leb_string x.id y.id)) [
  | inl e ↦ rw e ((e, further y.id ys e h.0), h)
  | inr e ↦ rw e (
    insert_by-All (λ (c : ConnItem). c.id) (λ (z : ConnItem). leb_string y.id z.id ≡ true) x ys
        (leb_string_total x.id y.id e) h.0,
    insert_by-IsOrdered x ys h.1,
  )
]
  where
    further :
        (b : String) (zs : List ConnItem)
        → leb_string x.id b ≡ true
        → All (λ (z : ConnItem). leb_string b z.id ≡ true) zs
        → All (λ (z : ConnItem). leb_string x.id z.id ≡ true) zs
    further b [] e k = tt
    further b (z ∷ zs) e k = (leb_string_trans x.id b z.id e k.0, further b zs e k.1)

sort_by-Permᴰ : (xs : List ConnItem) → Permᴰ (sort_by (λ (c : ConnItem). c.id) xs) xs
unfolding sort_by
sort_by-Permᴰ [] = Permᴰ.nil
sort_by-Permᴰ (x ∷ xs) =
    Permᴰ.trans (insert_by-Permᴰ x (sort_by (λ (c : ConnItem). c.id) xs))
      (Permᴰ.cons refl (sort_by-Permᴰ xs))

sort_by-IsOrdered : (xs : List ConnItem) → IsOrdered (sort_by (λ (c : ConnItem). c.id) xs)
unfolding sort_by
sort_by-IsOrdered [] = tt
sort_by-IsOrdered (x ∷ xs) = insert_by-IsOrdered x _ (sort_by-IsOrdered xs)

conn_items_lem : (xs : List ConnItem) → conn_items xs ≡ map conn_item xs
unfolding conn_items
conn_items_lem [] = refl
conn_items_lem (x ∷ xs) = ap (◌∷◌ (conn_item x)) (conn_items_lem xs)

conn_items_of_lem : (cs : List ConnectionSnapshot) → conn_items_of cs ≡ map line_of cs
unfolding conn_items_of
conn_items_of_lem [] = refl
conn_items_of_lem (c ∷ cs) = ap (◌∷◌ (line_of c)) (conn_items_of_lem cs)

pub file_items_lem : (paths : List String) → file_items paths ≡ map file_item paths
unfolding file_items
file_items_lem [] = refl
file_items_lem (p ∷ ps) = ap (◌∷◌ (file_item p)) (file_items_lem ps)

pub sorted_conns-Listed : (cs : List ConnectionSnapshot) → Listed cs (sorted_conns cs)
unfolding sorted_conns
sorted_conns-Listed cs = record {
  lines = sort_by (λ (c : ConnItem). c.id) (conn_items_of cs);
  same =
      subst (Permᴰ (sort_by (λ (c : ConnItem). c.id) (conn_items_of cs))) (conn_items_of_lem cs)
        (sort_by-Permᴰ (conn_items_of cs));
  ordered = sort_by-IsOrdered (conn_items_of cs);
  shown = conn_items_lem _;
}

abbrev or_else : Option ConnectionSnapshot → Option ConnectionSnapshot → Option ConnectionSnapshot
or_else (some c) o = some c
or_else none o = o

lookup-connections_from_at :
    (id : String) (cs : List ConnectionSnapshot) (m : Map ConnectionSnapshot)
    → lookup id (connections_from m cs) ≡ or_else (latest id cs) (lookup id m)
unfolding connections_from
lookup-connections_from_at id [] m = refl
lookup-connections_from_at id (c ∷ cs) m =
    lookup-connections_from_at id cs (insert c.id c m)
    ∙ ap (or_else (latest id cs)) (lookup-insert id c.id c m)
    ∙ merge (latest id cs)
  where
    merge :
        (o : Option ConnectionSnapshot)
        → or_else o (if c.id =ˢ id then some c else lookup id m)
          ≡ or_else
              (elim o [ some d ↦ some d | none ↦ if c.id =ˢ id then some c else none ])
              (lookup id m)
    merge (some d) = refl
    merge none = elim (Bool-cases (c.id =ˢ id)) [ inl h ↦ rw h refl | inr h ↦ rw h refl ]

-- The details of an id are those of its last connection.
pub lookup-connections_from :
    (id : String) (cs : List ConnectionSnapshot) → lookup id (connections_from [] cs) ≡ latest id cs
unfolding lookup
lookup-connections_from id cs = lookup-connections_from_at id cs [] ∙ alone (latest id cs)
  where
    alone : (o : Option ConnectionSnapshot) → or_else o none ≡ o
    alone (some c) = refl
    alone none = refl

-- What stands in the map has its line.
latest-Memᴰ :
    (id : String) (c : ConnectionSnapshot) (cs : List ConnectionSnapshot)
    → latest id cs ≡ some c
    → Memᴰ c cs
latest-Memᴰ id c [] e = ground arith
latest-Memᴰ id c (d ∷ cs) e = by_rest (latest-Memᴰ id c cs) (latest id cs) refl e
  where
    by_rest :
        (latest id cs ≡ some c → Memᴰ c cs)
        → (o : Option ConnectionSnapshot) → latest id cs ≡ o
        → (elim o as (λ _. Option ConnectionSnapshot) [
          | some x ↦ some x
          | none ↦ if d.id =ˢ id then some d else none
        ])
          ≡ some c
        → Memᴰ c (d ∷ cs)
    by_rest ih (some x) e f = Memᴰ.tail (ih (e ∙ f))
    by_rest ih none e f = elim (Bool-cases (d.id =ˢ id)) [
      | inl h ↦ Memᴰ.head (ground arith)
      | inr h ↦ absurd (ground arith)
    ]

Memᴰ-map : {A B : Type 0} (g : A → B) (x : A) (xs : List A) → Memᴰ x xs → Memᴰ (g x) (map g xs)
Memᴰ-map g x [] m = elim m [ ]
Memᴰ-map g x (y ∷ ys) (Memᴰ.head e) = Memᴰ.head (ap g e)
Memᴰ-map g x (y ∷ ys) (Memᴰ.tail m) = Memᴰ.tail (Memᴰ-map g x ys m)

Memᴰ-Permᴰ : {A : Type 0} (x : A) {xs ys : List A} → Permᴰ xs ys → Memᴰ x ys → Memᴰ x xs
Memᴰ-Permᴰ x Permᴰ.nil m = m
Memᴰ-Permᴰ x (Permᴰ.cons e p) (Memᴰ.head h) = Memᴰ.head (h ∙ sym e)
Memᴰ-Permᴰ x (Permᴰ.cons e p) (Memᴰ.tail m) = Memᴰ.tail (Memᴰ-Permᴰ x p m)
Memᴰ-Permᴰ x (Permᴰ.swap e f) (Memᴰ.head h) = Memᴰ.tail (Memᴰ.head (h ∙ sym f))
Memᴰ-Permᴰ x (Permᴰ.swap e f) (Memᴰ.tail (Memᴰ.head h)) = Memᴰ.head (h ∙ sym e)
Memᴰ-Permᴰ x (Permᴰ.swap e f) (Memᴰ.tail (Memᴰ.tail m)) = Memᴰ.tail (Memᴰ.tail m)
Memᴰ-Permᴰ x (Permᴰ.trans p q) m = Memᴰ-Permᴰ x p (Memᴰ-Permᴰ x q m)

-- Every connection in the map is listed.
abbrev pub HasLines : Map ConnectionSnapshot → List Item → Type 0
HasLines known items =
    (id : String) (c : ConnectionSnapshot)
    → lookup id known ≡ some c
    → Memᴰ (conn_item (line_of c)) items

pub sorted_conns-HasLines :
    (cs : List ConnectionSnapshot) → HasLines (connections_from [] cs) (sorted_conns cs)
sorted_conns-HasLines cs id c e =
    let listed = sorted_conns-Listed cs in
    let found = latest-Memᴰ id c cs (sym (lookup-connections_from id cs) ∙ e) in
    subst (Memᴰ (conn_item (line_of c))) (sym listed.shown) (
      Memᴰ-map conn_item (line_of c) listed.lines
        (Memᴰ-Permᴰ (line_of c) listed.same (Memᴰ-map line_of c cs found)))
