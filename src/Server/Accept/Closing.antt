-- ===== src/Server/Accept/Closing.antt =====
-- What `Stop` closes.
use mathlib.Core.List.{Memᴰ}
use m_tlsling.Base.{
  ℕ, ◌+◌, ◌≡◌, ◌⊎◌, inl, inr, refl, String, true, false, Option, none, some, sym, subst, ap, ◌∙◌,
  has, keys, eq_iff, List, [], ◌∷◌, ◌++◌, Map, lookup, arith, ◌=ˢ◌, lookup-insert, lookup-erase,
  Bool-cases,
}
use m_tlsling.Server.Accept.{
  Phase, unstarted, accepting, holding, announcing, returned, Server, new_server, stop, conns_of,
  close_socket, register, announce, end_conn, Step, Reach,
}

-- Each handler that runs has its connection in the map, or closed.
abbrev pub IsCovered : Server → Type 0
IsCovered s =
    (id : String) (conn : ℕ)
    → lookup id s.handlers ≡ some conn
    → (lookup id s.connections ≡ some conn) ⊎ Memᴰ conn s.shut

-- A connection is in the map, or closed.
abbrev IsFiled : String → ℕ → Server → Type 0
IsFiled id conn s = (lookup id s.connections ≡ some conn) ⊎ Memᴰ conn s.shut

-- So is the one that is to be announced, under an id that no handler has.
abbrev pub IsReady : Phase → Server → Type 0
IsReady unstarted s = Unit {0}
IsReady accepting s = Unit {0}
IsReady (holding conn) s = Unit {0}
IsReady (announcing id conn) s = IsFiled id conn s × (lookup id s.handlers ≡ none)
IsReady (returned e) s = Unit {0}

clash : {o : Option ℕ} {n : ℕ} → o ≡ none → o ≡ some n → ⊥
clash p q = cc

Memᴰ-append-left : {A : Type 0} (x : A) (xs ys : List A) → Memᴰ x xs → Memᴰ x (xs ++ ys)
Memᴰ-append-left x [] ys m = elim m [ ]
Memᴰ-append-left x (y ∷ xs) ys (Memᴰ.head e) = Memᴰ.head e
Memᴰ-append-left x (y ∷ xs) ys (Memᴰ.tail m) = Memᴰ.tail (Memᴰ-append-left x xs ys m)

pub Memᴰ-append-right : {A : Type 0} (x : A) (xs ys : List A) → Memᴰ x ys → Memᴰ x (xs ++ ys)
Memᴰ-append-right x [] ys m = m
Memᴰ-append-right x (y ∷ xs) ys m = Memᴰ.tail (Memᴰ-append-right x xs ys m)

lookup-conns_of :
    (id : String) (conn : ℕ) (m : Map ℕ) → lookup id m ≡ some conn → Memᴰ conn (conns_of m)
unfolding lookup
lookup-conns_of id conn [] e = ground arith
lookup-conns_of id conn ((k, c) ∷ m) e = elim (Bool-cases (k =ˢ id)) [
  | inl h ↦ Memᴰ.head (ground arith)
  | inr h ↦ Memᴰ.tail (lookup-conns_of id conn m (ground arith))
]

announce-IsCovered :
    (id : String) (conn : ℕ) (s : Server)
    → IsCovered s
    → IsFiled id conn s
    → IsCovered (announce id conn s)
unfolding announce
announce-IsCovered id conn s v f = λ j c e. elim (Bool-cases (id =ˢ j)) [
  | inl h ↦
      let same : conn ≡ c = ground (arith, lookup-insert j id conn s.handlers) in
      subst (λ k. IsFiled k c s) ((eq_iff id j).0 h) (subst (λ n. IsFiled id n s) same f)
  | inr h ↦ v j c (ground (arith, lookup-insert j id conn s.handlers))
]

lookup-has : (id : String) (m : Map ℕ) → has id (keys m) ≡ false → lookup id m ≡ none
unfolding lookup has
lookup-has id [] h = refl
lookup-has id ((k, c) ∷ m) h = ground (arith, lookup-has id m)

register-IsCovered :
    (id : String) (conn : ℕ) (s : Server)
    → IsCovered s
    → lookup id s.handlers ≡ none
    → IsCovered (register id conn s)
unfolding register
register-IsCovered id conn s v new = λ j c e. elim (v j c e) [
  | inl k ↦ elim (Bool-cases (id =ˢ j)) [
    | inl h ↦
        absurd (clash new (subst (λ x. lookup x s.handlers ≡ some c) (sym ((eq_iff id j).0 h)) e))
    | inr h ↦ inl (ground (arith, lookup-insert j id conn s.connections))
  ]
  | inr m ↦ inr m
]

end_conn-IsCovered :
    (id : String) (conn : ℕ) (s : Server) → IsCovered s → IsCovered (end_conn id conn s)
unfolding end_conn
end_conn-IsCovered id conn s v = λ j c e. elim (Bool-cases (id =ˢ j)) [
  | inl h ↦ absurd (ground (arith, lookup-erase j id s.handlers))
  | inr h ↦
      let before : lookup j s.handlers ≡ some c = ground (arith, lookup-erase j id s.handlers) in
      elim (v j c before) [
        | inl k ↦ inl (ground (arith, lookup-erase j id s.connections))
        | inr m ↦ inr (Memᴰ.tail m)
      ]
]

pub filed-closes :
    (s : Server) (id : String) (conn : ℕ)
    → IsFiled id conn s
    → Memᴰ conn (conns_of s.connections ++ s.shut)
filed-closes s id conn (inl k) =
    Memᴰ-append-left conn (conns_of s.connections) s.shut (lookup-conns_of id conn s.connections k)
filed-closes s id conn (inr m) = Memᴰ-append-right conn (conns_of s.connections) s.shut m

stop-IsCovered : (s : Server) → IsCovered s → IsCovered (stop s)
unfolding stop
stop-IsCovered s v = elim (Bool-cases s.is_stopped) [
  | inl h ↦ rw (h, stop) v
  | inr h ↦ rw (h, stop) (λ j c e. inr (filed-closes s j c (v j c e)))
]

stop-IsFiled : (s : Server) (id : String) (conn : ℕ) → IsFiled id conn s → IsFiled id conn (stop s)
unfolding stop
stop-IsFiled s id conn f = elim (Bool-cases s.is_stopped) [
  | inl h ↦ rw (h, stop) f
  | inr h ↦ rw (h, stop) (inr (filed-closes s id conn f))
]

stop_same : (s : Server) → ((stop s).phase ≡ s.phase) × ((stop s).handlers ≡ s.handlers)
unfolding stop
stop_same s = ground arith

stop-IsReady : (p : Phase) (s : Server) → IsReady p s → IsReady p (stop s)
stop-IsReady unstarted s r = tt
stop-IsReady accepting s r = tt
stop-IsReady (holding conn) s r = tt
stop-IsReady (announcing id conn) s r =
    (stop-IsFiled s id conn r.0, ap (lookup id) (stop_same s).1 ∙ r.1)
stop-IsReady (returned e) s r = tt

end_conn-IsReady :
    (p : Phase) (id : String) (conn : ℕ) (s : Server)
    → lookup id s.handlers ≡ some conn
    → IsReady p s
    → IsReady p (end_conn id conn s)
unfolding end_conn
end_conn-IsReady unstarted id conn s e r = tt
end_conn-IsReady accepting id conn s e r = tt
end_conn-IsReady (holding c) id conn s e r = tt
end_conn-IsReady (announcing k c) id conn s e r = elim (Bool-cases (id =ˢ k)) [
  | inl h ↦ absurd (clash r.1 (subst (λ x. lookup x s.handlers ≡ some conn) ((eq_iff id k).0 h) e))
  | inr h ↦ (
    elim r.0 [
      | inl f ↦ inl (ground (arith, lookup-erase k id s.connections))
      | inr m ↦ inr (Memᴰ.tail m)
    ],
    ground (arith, lookup-erase k id s.handlers),
  )
]
end_conn-IsReady (returned x) id conn s e r = tt

IsReady-events :
    (p : Phase) (s : Server) (n : ℕ) → IsReady p s → IsReady p (record s { events = n })
IsReady-events unstarted s n r = tt
IsReady-events accepting s n r = tt
IsReady-events (holding conn) s n r = tt
IsReady-events (announcing id conn) s n r = r
IsReady-events (returned e) s n r = tt

-- The invariant.
pub record IsTidy (s : Server) : Type 0 where
  pub covered : IsCovered s
  pub ready : IsReady s.phase s

Step-IsTidy : {s t : Server} → Step s t → IsTidy s → IsTidy t
unfolding register announce end_conn
Step-IsTidy (Step.listens e) v = record { covered = v.covered; ready = tt }
Step-IsTidy (Step.fails_to_listen x e) v = record { covered = v.covered; ready = tt }
Step-IsTidy (Step.accepts conn e f) v = record { covered = v.covered; ready = tt }
Step-IsTidy {s} (Step.registers id conn e f) v = record {
  covered = register-IsCovered id conn s v.covered (lookup-has id s.handlers f);
  ready = (
    inl (ground (arith, lookup-insert id id conn s.connections, eq_iff id id)),
    lookup-has id s.handlers f,
  );
}
Step-IsTidy {s} (Step.announces id conn e f) v =
    let filed : IsReady (announcing id conn) s = subst (λ p. IsReady p s) e v.ready in
    record { covered = announce-IsCovered id conn s v.covered filed.0; ready = tt }
Step-IsTidy (Step.fails_to_accept x e) v = record { covered = v.covered; ready = tt }
Step-IsTidy {s} Step.stops v = record {
  covered = stop-IsCovered s v.covered;
  ready = subst (λ p. IsReady p (stop s)) (sym (stop_same s).0) (stop-IsReady s.phase s v.ready);
}
Step-IsTidy {s} (Step.reports id conn e f) v = record {
  covered = v.covered;
  ready = IsReady-events s.phase s (s.events + 1) v.ready;
}
Step-IsTidy {s} (Step.takes n e) v = record {
  covered = v.covered;
  ready = IsReady-events s.phase s n v.ready;
}
Step-IsTidy {s} (Step.ends id conn e why) v = record {
  covered = end_conn-IsCovered id conn s v.covered;
  ready = end_conn-IsReady s.phase id conn s e v.ready;
}

new_server-IsCovered : IsCovered new_server
unfolding new_server lookup
new_server-IsCovered = λ id conn e. absurd (ground arith)

pub Reach-IsTidy : {s : Server} → Reach new_server s → IsTidy s
unfolding new_server
Reach-IsTidy Reach.here = record { covered = new_server-IsCovered; ready = tt }
Reach-IsTidy (Reach.next r st) = Step-IsTidy st (Reach-IsTidy r)

-- In a server that any steps have led to, `Stop`, called for the first time, closes the connection of each
-- handler that runs, empties the map, and closes the listener if there is one.
pub stop-closes :
    (s : Server) (id : String) (conn : ℕ)
    → Reach new_server s
    → s.is_stopped ≡ false
    → lookup id s.handlers ≡ some conn
    → Memᴰ conn (stop s).shut
      × ((stop s).connections ≡ [])
      × ((stop s).ln ≡ close_socket s.ln)
      × ((stop s).is_stopped ≡ true)
unfolding stop
stop-closes s id conn r running e =
    rw (running, stop)
      (filed-closes s id conn ((Reach-IsTidy r).covered id conn e), refl, refl, refl)
