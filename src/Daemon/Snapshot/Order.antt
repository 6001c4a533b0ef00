-- ===== src/Daemon/Snapshot/Order.antt =====
-- A snapshot does not depend on the order in which Go walks over its maps.
use mathlib.Core.List.{Permᴰ}
use m_tlsling.Base.{
  ◌≡◌, refl, sym, ap, subst, ◌∙◌, String, Bool, true, false, ◌||◌, some, List, [], ◌∷◌, Map, IsMap,
  has, keys, lookup, ◌=ˢ◌, if◌then◌else◌, eq_iff, arith,
}
use m_tlsling.Base.Sort.{sort_strings, sort_strings-Permᴰ}
use m_tlsling.Config.{Crypto}
use m_tlsling.Daemon.Types.{Snapshot, FileProgressSnapshot, ConnectionSnapshot}
use m_tlsling.Daemon.State.{ConnState, World, with_sender}
use m_tlsling.Daemon.Snapshot.{
  with_value, values_at, sorted_values, connection_snapshot, connection_snapshots, snapshot,
}

or_swap : (x y z : Bool) → (x || (y || z)) ≡ (y || (x || z))
or_swap true true z = refl
or_swap true false z = refl
or_swap false true z = refl
or_swap false false z = refl

has-Permᴰ : (k : String) {xs ys : List String} → Permᴰ xs ys → has k xs ≡ has k ys
unfolding has
has-Permᴰ k Permᴰ.nil = refl
has-Permᴰ k (Permᴰ.cons {a = a} {l₁ = l} {l₂ = m} e p) =
    rw (has-Permᴰ k p) (ap (λ x. x =ˢ k || has k m) e)
has-Permᴰ k (Permᴰ.swap {a = a} {b = b} {a' = c} {b' = d} {l = l} e f) =
    ap (λ x. x =ˢ k || (b =ˢ k || has k l)) e
    ∙ ap (λ x. d =ˢ k || (x =ˢ k || has k l)) f
    ∙ or_swap (d =ˢ k) (c =ˢ k) (has k l)
has-Permᴰ k (Permᴰ.trans p q) = has-Permᴰ k p ∙ has-Permᴰ k q

module _ {V : Type 0} where
  keys-Permᴰ : {m n : Map V} → Permᴰ m n → Permᴰ (keys m) (keys n)
  keys-Permᴰ Permᴰ.nil = Permᴰ.nil
  keys-Permᴰ (Permᴰ.cons e p) = Permᴰ.cons (ap (λ x. x.0) e) (keys-Permᴰ p)
  keys-Permᴰ (Permᴰ.swap e f) = Permᴰ.swap (ap (λ x. x.0) e) (ap (λ x. x.0) f)
  keys-Permᴰ (Permᴰ.trans p q) = Permᴰ.trans (keys-Permᴰ p) (keys-Permᴰ q)

  swapped-IsMap : (x y : String × V) (m : Map V) → IsMap (x ∷ y ∷ m) → IsMap (y ∷ x ∷ m)
  unfolding has
  swapped-IsMap (j, v) (k, u) m h = ground (arith, eq_iff j k, eq_iff k j)

  IsMap-Permᴰ : {m n : Map V} → Permᴰ m n → IsMap m → IsMap n
  IsMap-Permᴰ Permᴰ.nil h = h
  IsMap-Permᴰ (Permᴰ.cons {a = a} {b = b} {l₁ = l} {l₂ = m} e p) h = (
    subst (λ x. has x.0 (keys m) ≡ false) e (rw (← has-Permᴰ a.0 (keys-Permᴰ p)) h.0),
    IsMap-Permᴰ p h.1,
  )
  IsMap-Permᴰ (Permᴰ.swap {a = a} {b = b} {a' = c} {b' = d} {l = l} e f) h =
      subst (λ x. IsMap (x ∷ d ∷ l)) f (subst (λ x. IsMap (b ∷ x ∷ l)) e (swapped-IsMap a b l h))
  IsMap-Permᴰ (Permᴰ.trans p q) h = IsMap-Permᴰ q (IsMap-Permᴰ p h)

  lookup-swap :
      (k : String) (x y : String × V) (m : Map V)
      → IsMap (x ∷ y ∷ m)
      → lookup k (x ∷ y ∷ m) ≡ lookup k (y ∷ x ∷ m)
  unfolding lookup has
  lookup-swap k (i, v) (j, u) m h = ground (arith, eq_iff i k, eq_iff j k, eq_iff i j, eq_iff j i)

  lookup-Permᴰ : (k : String) {m n : Map V} → Permᴰ m n → IsMap m → lookup k m ≡ lookup k n
  unfolding lookup
  lookup-Permᴰ k Permᴰ.nil h = refl
  lookup-Permᴰ k (Permᴰ.cons {a = a} {b = b} {l₁ = l} {l₂ = m} e p) h =
      ap (λ r. if a.0 =ˢ k then some a.1 else r) (lookup-Permᴰ k p h.1)
      ∙ ap (λ x. if x.0 =ˢ k then some x.1 else lookup k m) e
  lookup-Permᴰ k (Permᴰ.swap {a = a} {b = b} {a' = c} {b' = d} {l = l} e f) h =
      lookup-swap k a b l h ∙ ap (λ x. lookup k (b ∷ x ∷ l)) e ∙ ap (λ x. lookup k (x ∷ d ∷ l)) f
  lookup-Permᴰ k (Permᴰ.trans p q) h = lookup-Permᴰ k p h ∙ lookup-Permᴰ k q (IsMap-Permᴰ p h)

  values_at-Permᴰ :
      {m n : Map V} (ks : List String) → Permᴰ m n → IsMap m → values_at m ks ≡ values_at n ks
  unfolding values_at
  values_at-Permᴰ [] p h = refl
  values_at-Permᴰ {m} {n} (k ∷ ks) p h =
      ap (λ o. with_value o (values_at m ks)) (lookup-Permᴰ k p h)
      ∙ ap (with_value (lookup k n)) (values_at-Permᴰ ks p h)

  sorted_values-Permᴰ : {m n : Map V} → Permᴰ m n → IsMap m → sorted_values m ≡ sorted_values n
  unfolding sorted_values
  sorted_values-Permᴰ {m} {n} p h =
      values_at-Permᴰ (sort_strings (keys m)) p h
      ∙ ap (values_at n) (sort_strings-Permᴰ (keys-Permᴰ p))

-- Two daemons that differ only in the order in which their map, with no key twice, gives the connections
-- have the same snapshot.
pub snapshot-Permᴰ :
    (C : Crypto) (w : World C) (conns : Map ConnState)
    → Permᴰ w.daemon.sender.connections conns
    → IsMap w.daemon.sender.connections
    → snapshot C (with_sender C (record (w.daemon.sender) { connections = conns }) w) ≡ snapshot C w
unfolding snapshot
snapshot-Permᴰ C w conns p h =
    let with_conns : List ConnState → Snapshot = λ cs. record (snapshot C w) {
      sender = record ((snapshot C w).sender) { connections = connection_snapshots cs };
    } in
    ap with_conns (sym (sorted_values-Permᴰ p h))

-- The files of a connection, in a map with no key twice, are told in the same way in whatever order the map
-- gives them.
pub connection_snapshot-Permᴰ :
    (c : ConnState) (files : Map FileProgressSnapshot)
    → Permᴰ c.files files
    → IsMap c.files
    → connection_snapshot (record c { files = files }) ≡ connection_snapshot c
unfolding connection_snapshot
connection_snapshot-Permᴰ c files p h =
    let with_files : List FileProgressSnapshot → ConnectionSnapshot =
      λ fs. record { id = c.id; remote = c.remote; state = c.state; files = fs } in
    ap with_files (sym (sorted_values-Permᴰ p h))
