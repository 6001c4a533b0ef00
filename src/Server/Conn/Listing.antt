-- ===== src/Server/Conn/Listing.antt =====
-- Which entries the server lists.
use m_tlsling.Base.{
  ℕ, ◌≡◌, ◌↔◌, ◌⊎◌, inl, inr, refl, ◌∙◌, sym, subst, String, ◌<>◌, List, [], ◌∷◌, ok, err, ◌>>=◌,
  arith, length, Result-cases,
}
use m_tlsling.Base.Int.{pos}
use m_tlsling.FilePath.{base, relative_path}
use m_tlsling.Server.Types.{
  Bytes, FileEntry, Node, absent, regular, locked, damaged, directory, read_all,
}
use m_tlsling.Server.Hex.{hex}
use m_tlsling.Server.Conn.{ServerEnv, file_hash, list_entries}

-- What the manifest should say of a file with the given content.
abbrev pub entry_of : ServerEnv → String → Bytes → FileEntry
entry_of env path content = record {
  name = base path;
  path = relative_path path;
  size = pos (length content);
  hash = hex (env.blake3 content);
}

-- The listing as a relation: each file that can be read has its entry, in order; a directory has
-- none, and a path that cannot be stated, opened or read to its end has no listing.
pub data Lists (env : ServerEnv) : List String → List FileEntry → Type 0 where
  nothing : Lists env [] []
  skip :
      {path : String} {paths : List String} {entries : List FileEntry}
      → env.listed path ≡ directory
      → Lists env paths entries
      → Lists env (path ∷ paths) entries
  entry :
      {path : String} {paths : List String} {entries : List FileEntry} (content : Bytes)
      → env.listed path ≡ regular content
      → Lists env paths entries
      → Lists env (path ∷ paths) (entry_of env path content ∷ entries)

-- What cannot be listed: nothing is there, or the file cannot be read to its end.
pub data IsUnreadable : Node → Type 0 where
  is_absent : {e : String} → IsUnreadable (absent e)
  is_locked : {size : ℕ} {e : String} → IsUnreadable (locked size e)
  is_damaged : {size : ℕ} {content : Bytes} {e : String} → IsUnreadable (damaged size content e)

Node-cases : (n : Node) → IsUnreadable n ⊎ (((c : Bytes) × (n ≡ regular c)) ⊎ (n ≡ directory))
Node-cases (absent e) = inl is_absent
Node-cases (locked size e) = inl is_locked
Node-cases (damaged size content e) = inl is_damaged
Node-cases (regular c) = inr (inl (c, refl))
Node-cases directory = inr (inr refl)

-- One step of the loop, for each kind of node.
list_unreadable :
    (env : ServerEnv) (path : String) (paths : List String) (n : Node)
    → env.listed path ≡ n
    → IsUnreadable n
    → (e : String) × (list_entries env (path ∷ paths) ≡ err e)
unfolding list_entries file_hash read_all
list_unreadable env path paths (absent e) h u = (("stat " <> path) <> ": " <> e, ground arith)
list_unreadable env path paths (locked size e) h u = (("hash " <> path) <> ": " <> e, ground arith)
list_unreadable env path paths (damaged size content e) h u =
    (("hash " <> path) <> ": " <> e, ground arith)
list_unreadable env path paths (regular c) h u = elim u [ ]
list_unreadable env path paths directory h u = elim u [ ]

list_directory :
    (env : ServerEnv) (path : String) (paths : List String)
    → env.listed path ≡ directory
    → list_entries env (path ∷ paths) ≡ list_entries env paths
unfolding list_entries
list_directory env path paths h = ground arith

list_regular :
    (env : ServerEnv) (path : String) (paths : List String) {content : Bytes}
    → env.listed path ≡ regular content
    → list_entries env (path ∷ paths)
      ≡ (do entries ← list_entries env paths; ok (entry_of env path content ∷ entries))
unfolding list_entries file_hash read_all
list_regular env path paths h = ground arith

pub Lists-list_entries :
    (env : ServerEnv) (paths : List String) {entries : List FileEntry}
    → Lists env paths entries
    → list_entries env paths ≡ ok entries
unfolding list_entries
Lists-list_entries env [] nothing = refl
Lists-list_entries env (path ∷ paths) (skip h l) =
    list_directory env path paths h ∙ Lists-list_entries env paths l
Lists-list_entries env (path ∷ paths) (entry content h l) =
    list_regular env path paths h ∙ rw (Lists-list_entries env paths l)

ok-ne-err : {xs : List FileEntry} {e : String} → ok xs ≡ err e → ⊥
ok-ne-err h = cc

ok-injective : {xs ys : List FileEntry} → ok xs ≡ ok ys → xs ≡ ys
ok-injective h = cc

-- A listing that comes back is the relation's.
list_entries-Lists :
    (env : ServerEnv) (paths : List String) {entries : List FileEntry}
    → list_entries env paths ≡ ok entries
    → Lists env paths entries
unfolding list_entries
list_entries-Lists env [] h = subst (Lists env []) (ok-injective h) nothing
list_entries-Lists env (path ∷ paths) {entries} h = elim (Node-cases (env.listed path)) [
  | inl u ↦ let (e, p) = list_unreadable env path paths _ refl u in absurd (ok-ne-err (sym h ∙ p))
  | inr (inr p) ↦ skip p (list_entries-Lists env paths (sym (list_directory env path paths p) ∙ h))
  | inr (inl (content, p)) ↦
      let (rest, found, same) = inversion content p in
      subst (Lists env (path ∷ paths)) same (entry content p (list_entries-Lists env paths found))
]
  where
    inversion :
        (content : Bytes)
        → env.listed path ≡ regular content
        → (rest : List FileEntry) × (list_entries env paths ≡ ok rest)
          × (entry_of env path content ∷ rest ≡ entries)
    inversion content p = go (Result-cases (list_entries env paths))
      where
        go :
            ((rest : List FileEntry) × (list_entries env paths ≡ ok rest))
              ⊎ ((e : String) × (list_entries env paths ≡ err e))
            → (rest : List FileEntry) × (list_entries env paths ≡ ok rest)
              × (entry_of env path content ∷ rest ≡ entries)
        go (inl (rest, q)) = (rest, q, ground (arith, list_regular env path paths p))
        go (inr (e, q)) = absurd (ground (arith, list_regular env path paths p))

-- The listing succeeds with some entries exactly when the relation has those entries: one for each
-- regular file, in order, with its base name, its relative path, its size and its hash. With a path that
-- cannot be stated, opened or read to the end there is no listing.
pub list_entries_iff :
    (env : ServerEnv) (paths : List String) (entries : List FileEntry)
    → (list_entries env paths ≡ ok entries) ↔ Lists env paths entries
list_entries_iff env paths entries =
    (λ h. list_entries-Lists env paths h, λ l. Lists-list_entries env paths l)
