-- ===== src/Ipc/Listening.antt =====
-- What `Listen` of internal/ipc leaves behind, on each way to its end.
use m_tlsling.Base.{
  ℕ, ◌+◌, ◌<◌, ◌≡◌, refl, String, false, Option, none, some, List, [], ◌∷◌, arith, All, Result, ok,
  err, wrap, ◌=ˢ◌, lookup, Map, insert, erase, lookup-insert, lookup-erase, eq_iff, ap, ◌∙◌, subst,
  sym,
}
use m_tlsling.FilePath.{dir}
use m_tlsling.Ipc.{
  normalize_endpoint, Listener, Sockets, RemoveFault, not_exist, other, Faults, remove, without,
  close, bound, bind_socket, after_remove, listen, dial,
}

-- Each number was given out before.
abbrev pub AreOld : ℕ → List Listener → Type 0
AreOld n ls = All (λ (l : Listener). l.number < n) ls

-- The modes of the other paths are as they were.
abbrev pub KeepsOthers : String → Sockets → Sockets → Type 0
KeepsOthers path s t = (p : String) → (path =ˢ p) ≡ false → lookup p t.modes ≡ lookup p s.modes

-- With a listener: it is at the path that clients dial, that only the owner may use, and it is new. With an
-- error no listener is left open.
abbrev pub Listened : String → Sockets → Sockets × Result Listener → Type 0
Listened path s (t, ok l) =
    (l.path ≡ path)
    × (lookup path t.modes ≡ some 0o600)
    × (t.listeners ≡ l ∷ s.listeners)
    × AreOld t.next t.listeners
    × KeepsOthers path s t
    × (l.number ≡ s.next)
Listened path s (t, err e) =
    (t.listeners ≡ s.listeners) × AreOld t.next t.listeners × KeepsOthers path s t

AreOld-next : (n : ℕ) (ls : List Listener) → AreOld n ls → AreOld (n + 1) ls
AreOld-next n [] h = tt
AreOld-next n (l ∷ ls) h = (omega arith, AreOld-next n ls h.1)

pub without-AreOld : (n : ℕ) (ls : List Listener) → AreOld n ls → without n ls ≡ ls
unfolding without
without-AreOld n [] h = refl
without-AreOld n (l ∷ ls) h = ground (arith, without-AreOld n ls h.1)

close-bound :
    (faults : Faults) (path : String) (s : Sockets)
    → AreOld s.next s.listeners
    → (close (record { number = s.next; path = path }) (bound faults path s)).listeners
      ≡ s.listeners
unfolding close without
close-bound faults path s h = ground (arith, without-AreOld s.next s.listeners h)

insert-other :
    (k j : String) (v : ℕ) (m : Map ℕ) → (k =ˢ j) ≡ false → lookup j (insert k v m) ≡ lookup j m
insert-other k j v m h = ground (arith, lookup-insert j k v m)

insert-same : (k : String) (v : ℕ) (m : Map ℕ) → lookup k (insert k v m) ≡ some v
insert-same k v m = ground (arith, lookup-insert k k v m, eq_iff k k)

erase-other : (k j : String) (m : Map ℕ) → (k =ˢ j) ≡ false → lookup j (erase k m) ≡ lookup j m
erase-other k j m h = ground (arith, lookup-erase j k m)

bind_socket-Listened :
    (faults : Faults) (path : String) (s : Sockets)
    → AreOld s.next s.listeners
    → Listened path s (bind_socket faults path s)
unfolding bind_socket
bind_socket-Listened faults path s h = by_faults (faults.bind path) (faults.chmod path)
  where
    others_closed :
        KeepsOthers path s (close (record { number = s.next; path = path }) (bound faults path s))
    others_closed p q =
        erase-other path p (insert path faults.umask_mode s.modes) q
        ∙ insert-other path p faults.umask_mode s.modes q

    others_bound :
        (m : ℕ) (p : String)
        → (path =ˢ p) ≡ false
        → lookup p (insert path m (bound faults path s).modes) ≡ lookup p s.modes
    others_bound m p q =
        insert-other path p m (insert path faults.umask_mode s.modes) q
        ∙ insert-other path p faults.umask_mode s.modes q

    by_faults :
        (b c : Option String)
        → Listened path s (elim b as (λ _. Sockets × Result Listener) [
          | some e ↦ (s, err e)
          | none ↦ elim c as (λ _. Sockets × Result Listener) [
            | some e ↦ (
              close (record { number = s.next; path = path }) (bound faults path s),
              wrap "chmod ipc socket" (err e),
            )
            | none ↦ (
              record (bound faults path s) {
                modes = insert path 0o600 (bound faults path s).modes;
              },
              ok (record { number = s.next; path = path }),
            )
          ]
        ])
    by_faults (some e) c = (refl, h, λ p q. refl)
    by_faults none (some e) = (
      close-bound faults path s h,
      subst (AreOld (s.next + 1)) (sym (close-bound faults path s h))
          (AreOld-next s.next s.listeners h),
      others_closed,
    )
    by_faults none none = (
      refl,
      insert-same path 0o600 (insert path faults.umask_mode s.modes),
      refl,
      (omega arith, AreOld-next s.next s.listeners h),
      others_bound 0o600,
      refl,
    )

-- Before `Listen`, a file at the path may have been removed.
Listened-from :
    (path : String) (s t : Sockets) (r : Sockets × Result Listener)
    → t.listeners ≡ s.listeners
    → t.next ≡ s.next
    → KeepsOthers path s t
    → Listened path t r
    → Listened path s r
Listened-from path s t (u, ok m) l n k h =
    (h.0, h.1, h.2 ∙ ap (◌∷◌ m) l, h.3, λ p q. h.4 p q ∙ k p q, h.5 ∙ n)
Listened-from path s t (u, err e) l n k h = (h.0 ∙ l, h.1, λ p q. h.2 p q ∙ k p q)

AreOld-moved :
    (s t : Sockets)
    → t.listeners ≡ s.listeners
    → t.next ≡ s.next
    → AreOld s.next s.listeners
    → AreOld t.next t.listeners
AreOld-moved s t l n h = subst (λ m. AreOld m t.listeners) (sym n) (subst (AreOld s.next) (sym l) h)

-- The errors of `Remove` make no difference but for the other paths.
after_remove-Listened :
    (faults : Faults) (path : String) (s : Sockets) (r : Sockets × Option RemoveFault)
    → r.0.listeners ≡ s.listeners
    → r.0.next ≡ s.next
    → KeepsOthers path s r.0
    → AreOld s.next s.listeners
    → Listened path s (after_remove faults path r)
after_remove-Listened faults path s (t, some (other e)) l n k h = (l, AreOld-moved s t l n h, k)
after_remove-Listened faults path s (t, some not_exist) l n k h =
    Listened-from path s t _ l n k (bind_socket-Listened faults path t (AreOld-moved s t l n h))
after_remove-Listened faults path s (t, none) l n k h =
    Listened-from path s t _ l n k (bind_socket-Listened faults path t (AreOld-moved s t l n h))

-- `Listen` on Unix, when the numbers of the open listeners were given out before: with a listener, it is at
-- the path that `DialContext` dials for the same endpoint, its socket is for the owner only, and the other
-- listeners are still open; with an error, whichever step fails, no listener is left open by it. The
-- sockets at other paths keep their modes.
pub listen-Listened :
    (faults : Faults) (endpoint : String) (s : Sockets)
    → AreOld s.next s.listeners
    → Listened (dial endpoint) s (listen faults endpoint s)
unfolding listen dial
listen-Listened faults endpoint s h =
    by_faults (normalize_endpoint endpoint) (faults.mkdir (dir (normalize_endpoint endpoint)))
  where
    removed : (path : String) → Listened path s (after_remove faults path (remove faults path s))
    removed path = by_fault (faults.remove path)
      where
        by_fault :
            (o : Option RemoveFault)
            → Listened path s (
                after_remove faults path (elim o as (λ _. Sockets × Option RemoveFault) [
                  | none ↦ (record s { modes = erase path s.modes }, none)
                  | some e ↦ (s, some e)
                ]))
        by_fault none =
            after_remove-Listened faults path s (record s { modes = erase path s.modes }, none) refl
              refl (λ p q. erase-other path p s.modes q) h
        by_fault (some e) =
            after_remove-Listened faults path s (s, some e) refl refl (λ p q. refl) h

    by_faults :
        (path : String) (o : Option String)
        → Listened path s (elim o as (λ _. Sockets × Result Listener) [
          | some e ↦ (s, wrap "mkdir ipc dir" (err e))
          | none ↦ after_remove faults path (remove faults path s)
        ])
    by_faults path (some e) = (refl, h, λ p q. refl)
    by_faults path none = removed path
