-- ===== src/Server/Accept/Falling.antt =====
-- A server that `Stop` has closed: what each step leaves, and how many steps remain.
use mathlib.Core.List.{Memᴰ}
use m_tlsling.Base.{
  List, Bool-cases, ◌=ˢ◌, lookup-insert, lookup-erase, ℕ, suc, ◌+◌, ◌≤◌, ◌<◌, ◌≡◌, ◌≢◌, inl, inr,
  refl, sym, subst, ◌∙◌, String, true, some, [], ◌∷◌, Map, length, lookup, insert, erase, arith,
}
use m_tlsling.Server.Accept.{
  listening, closed, Phase, unstarted, accepting, holding, announcing, returned, Server, stop,
  register, announce, end_conn, EndsBy, closed_here, by_client, Step,
}

-- How many steps the goroutine of `Start` has at most, with the handler that it may start.
abbrev pub steps_of : Phase → ℕ
steps_of unstarted = 0
steps_of accepting = 1
steps_of (holding conn) = 4
steps_of (announcing id conn) = 3
steps_of (returned e) = 0

abbrev pub remaining : Server → ℕ
remaining s = steps_of s.phase + length s.handlers

-- `Start` runs or has returned, and holds no connection that is not in the map.
abbrev pub IsSettled : Phase → Type 0
IsSettled unstarted = ⊥
IsSettled accepting = Unit {0}
IsSettled (holding conn) = ⊥
IsSettled (announcing id conn) = Unit {0}
IsSettled (returned e) = Unit {0}

-- The connection that is to be announced is closed.
abbrev pub IsEnding : List ℕ → Phase → Type 0
IsEnding shut unstarted = ⊥
IsEnding shut accepting = Unit {0}
IsEnding shut (holding conn) = ⊥
IsEnding shut (announcing id conn) = Memᴰ conn shut
IsEnding shut (returned e) = Unit {0}

-- Stopped, with a listener and connections that are closed.
pub record IsClosing (s : Server) : Type 0 where
  pub marked : s.is_stopped ≡ true
  pub shut : s.ln ≡ closed
  pub ending : IsEnding s.shut s.phase
  pub cut : (id : String) (conn : ℕ) → lookup id s.handlers ≡ some conn → Memᴰ conn s.shut

-- The steps that bring the server on; the others only move events, or call `Stop` again.
abbrev pub progress : {s t : Server} → Step s t → ℕ
progress (Step.listens e) = 1
progress (Step.fails_to_listen x e) = 1
progress (Step.accepts conn e f) = 1
progress (Step.registers id conn e f) = 1
progress (Step.announces id conn e f) = 1
progress (Step.fails_to_accept x e) = 1
progress Step.stops = 0
progress (Step.reports id conn e f) = 0
progress (Step.takes n e) = 0
progress (Step.ends id conn e why) = 1

abbrev IsHere : {s : Server} {conn : ℕ} → EndsBy s conn → Type 0
IsHere (closed_here m) = Unit {0}
IsHere by_client = ⊥

-- A step that no client has to make: a handler ends since its connection was closed here.
abbrev pub IsOwn : {s t : Server} → Step s t → Type 0
IsOwn (Step.listens e) = Unit {0}
IsOwn (Step.fails_to_listen x e) = Unit {0}
IsOwn (Step.accepts conn e f) = ⊥
IsOwn (Step.registers id conn e f) = Unit {0}
IsOwn (Step.announces id conn e f) = Unit {0}
IsOwn (Step.fails_to_accept x e) = Unit {0}
IsOwn Step.stops = Unit {0}
IsOwn (Step.reports id conn e f) = Unit {0}
IsOwn (Step.takes n e) = Unit {0}
IsOwn (Step.ends id conn e why) = IsHere why

-- A run with the number of its steps that bring the server on.
pub data Run (s : Server) : ℕ → Server → Type 0 where
  here : Run s 0 s
  next : {n k : ℕ} {t u : Server} → Run s n t → (st : Step t u) → k ≡ n + progress st → Run s k u

length-insert-le : (id : String) (c : ℕ) (m : Map ℕ) → length (insert id c m) ≤ suc (length m)
unfolding insert
length-insert-le id c [] = omega arith
length-insert-le id c ((k, d) ∷ m) = ground (arith, length-insert-le id c m)

length-erase-le : (id : String) (m : Map ℕ) → length (erase id m) ≤ length m
unfolding erase
length-erase-le id [] = omega arith
length-erase-le id ((k, d) ∷ m) = ground (arith, length-erase-le id m)

length-erase-lt :
    (id : String) (c : ℕ) (m : Map ℕ) → lookup id m ≡ some c → length (erase id m) < length m
unfolding erase lookup
length-erase-lt id c [] h = absurd (ground arith)
length-erase-lt id c ((k, d) ∷ m) h = ground (arith, length-erase-le id m, length-erase-lt id c m)

stop_again : (s : Server) → s.is_stopped ≡ true → stop s ≡ s
unfolding stop
stop_again s h = rw (h, stop) refl

closed-ne-listening : closed ≢ listening
closed-ne-listening e = cc

-- Each step keeps the server closing, and what remains falls with the steps that bring it on.
abbrev pub Falls : ℕ → Server → Server → Type 0
Falls n s t = IsClosing t × (n + remaining t ≤ remaining s)

cut-announce :
    (id : String) (conn : ℕ) (s : Server)
    → IsClosing s
    → Memᴰ conn s.shut
    → (j : String) (c : ℕ) → lookup j (insert id conn s.handlers) ≡ some c
    → Memᴰ c s.shut
cut-announce id conn s v m j c e = elim (Bool-cases (id =ˢ j)) [
  | inl h ↦
      let same : conn ≡ c = ground (arith, lookup-insert j id conn s.handlers) in
      subst (λ n. Memᴰ n s.shut) same m
  | inr h ↦ v.cut j c (ground (arith, lookup-insert j id conn s.handlers))
]

cut-end_conn :
    (id : String) (conn : ℕ) (s : Server)
    → IsClosing s
    → (j : String) (c : ℕ) → lookup j (erase id s.handlers) ≡ some c
    → Memᴰ c (conn ∷ s.shut)
cut-end_conn id conn s v j c e = elim (Bool-cases (id =ˢ j)) [
  | inl h ↦ absurd (ground (arith, lookup-erase j id s.handlers))
  | inr h ↦ Memᴰ.tail (v.cut j c (ground (arith, lookup-erase j id s.handlers)))
]

IsEnding-cons : (n : ℕ) (shut : List ℕ) (p : Phase) → IsEnding shut p → IsEnding (n ∷ shut) p
IsEnding-cons n shut unstarted e = e
IsEnding-cons n shut accepting e = tt
IsEnding-cons n shut (holding conn) e = e
IsEnding-cons n shut (announcing id conn) e = Memᴰ.tail e
IsEnding-cons n shut (returned x) e = tt

Step-Falls : {s t : Server} (st : Step s t) → IsClosing s → Falls (progress st) s t
unfolding register announce end_conn
Step-Falls {s} (Step.listens e) v = absurd (subst (IsEnding s.shut) e v.ending)
Step-Falls {s} (Step.fails_to_listen x e) v = absurd (subst (IsEnding s.shut) e v.ending)
Step-Falls (Step.accepts conn e f) v = absurd (closed-ne-listening (sym v.shut ∙ f))
Step-Falls {s} (Step.registers id conn e f) v = absurd (subst (IsEnding s.shut) e v.ending)
Step-Falls {s} (Step.announces id conn e f) v =
    let closed_one : Memᴰ conn s.shut = subst (IsEnding s.shut) e v.ending in
    (
      record {
        marked = v.marked;
        shut = v.shut;
        ending = tt;
        cut = cut-announce id conn s v closed_one;
      },
      ground (arith, length-insert-le id conn s.handlers),
    )
Step-Falls (Step.fails_to_accept x e) v =
    (record { marked = v.marked; shut = v.shut; ending = tt; cut = v.cut }, ground arith)
Step-Falls {s} Step.stops v = subst (Falls 0 s) (sym (stop_again s v.marked)) (v, omega arith)
Step-Falls (Step.reports id conn e f) v =
    (record { marked = v.marked; shut = v.shut; ending = v.ending; cut = v.cut }, omega arith)
Step-Falls (Step.takes n e) v =
    (record { marked = v.marked; shut = v.shut; ending = v.ending; cut = v.cut }, omega arith)
Step-Falls {s} (Step.ends id conn e why) v = (
  record {
    marked = v.marked;
    shut = v.shut;
    ending = IsEnding-cons conn s.shut s.phase v.ending;
    cut = cut-end_conn id conn s v;
  },
  omega (arith, length-erase-lt id conn s.handlers e),
)

pub Run-Falls : {s t : Server} {n : ℕ} → Run s n t → IsClosing s → Falls n s t
Run-Falls Run.here v = (v, omega arith)
Run-Falls (Run.next r st e) v =
    let before = Run-Falls r v in
    let after = Step-Falls st before.0 in (after.0, omega (arith, before.1, after.1, e))
