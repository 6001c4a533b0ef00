-- ===== src/Server/Accept/Ending.antt =====
-- After `Stop` the server comes to its end.
use m_tlsling.Base.{
  ◌++◌, List, ℕ, ◌+◌, ◌≤◌, ◌<◌, ◌≡◌, ◌⊎◌, inl, inr, refl, subst, ap, ◌∙◌, String, false, Option,
  some, [], ◌∷◌, Map, lookup, arith, eq_refl,
}
use m_tlsling.Server.Accept.{
  listening, Phase, unstarted, accepting, holding, announcing, returned, Server, stop, close_socket,
  capacity, end_conn, closed_here, Step, new_server, Reach, conns_of,
}
use m_tlsling.Server.Accept.Closing.{IsReady, Reach-IsTidy, filed-closes}
use m_tlsling.Server.Accept.Falling.{
  remaining, IsSettled, IsEnding, IsClosing, progress, IsOwn, Run, Run-Falls,
}

-- `Start` has returned, and no handler runs.
pub record IsOver (s : Server) : Type 0 where
  pub result : Option String
  pub ended : s.phase ≡ returned result
  pub no_handlers : s.handlers ≡ []

-- A step that brings the server on, and that needs no client, can be made.
pub record Moves (s : Server) : Type 0 where
  pub to : Server
  pub step : Step s to
  pub on : progress step ≡ 1
  pub own : IsOwn step

handler-Moves : (s : Server) (m : Map ℕ) → IsClosing s → s.handlers ≡ m → (m ≡ []) ⊎ Moves s
unfolding lookup
handler-Moves s [] v e = inl refl
handler-Moves s ((k, c) ∷ m) v e =
    let first : lookup k s.handlers ≡ some c = ap (lookup k) e ∙ ground (arith, eq_refl k) in
    inr (record {
      to = end_conn k c s;
      step = Step.ends k c first (closed_here (v.cut k c first));
      on = refl;
      own = tt;
    })

IsClosing-Moves :
    (s : Server) (p : Phase) → IsClosing s → s.phase ≡ p → s.events < capacity → IsOver s ⊎ Moves s
IsClosing-Moves s unstarted v e room = absurd (subst (IsEnding s.shut) e v.ending)
IsClosing-Moves s accepting v e room = inr (record {
  to = _;
  step = Step.fails_to_accept "use of closed network connection" e;
  on = refl;
  own = tt;
})
IsClosing-Moves s (holding conn) v e room = absurd (subst (IsEnding s.shut) e v.ending)
IsClosing-Moves s (announcing k conn) v e room =
    inr (record { to = _; step = Step.announces k conn e room; on = refl; own = tt })
IsClosing-Moves s (returned x) v e room = elim (handler-Moves s s.handlers v refl) [
  | inl none_left ↦ inl (record { result = x; ended = e; no_handlers = none_left })
  | inr moves ↦ inr moves
]

-- What `Stop` closes of a server that is in order.
closes : Server → List ℕ
closes s = conns_of s.connections ++ s.shut

settled-IsEnding : (s : Server) (p : Phase) → IsReady p s → IsSettled p → IsEnding (closes s) p
unfolding closes
settled-IsEnding s unstarted r b = b
settled-IsEnding s accepting r b = tt
settled-IsEnding s (holding conn) r b = b
settled-IsEnding s (announcing id conn) r b = filed-closes s id conn r.0
settled-IsEnding s (returned e) r b = tt

stop-IsClosing :
    (s : Server)
    → Reach new_server s
    → s.is_stopped ≡ false
    → s.ln ≡ listening
    → IsSettled s.phase
    → IsClosing (stop s) × (remaining (stop s) ≡ remaining s)
unfolding stop closes
stop-IsClosing s r h l b =
    let tidy = Reach-IsTidy r in
    rw (h, stop)
      (
        record {
          marked = refl;
          shut = ap close_socket l;
          ending = settled-IsEnding s s.phase tidy.ready b;
          cut = λ id conn e. filed-closes s id conn (tidy.covered id conn e);
        },
        refl,
      )

-- `Stop` ends a server that any steps have led to, that listens, and whose loop in `Start` does not just
-- hold a connection which it has accepted and not yet put into the map. From its first call on, the steps
-- that announce, return or end a handler are at most one for each handler and three for the loop, whatever
-- else happens between them; and as long as `Start` has not returned or a handler runs, such a step can be
-- made when the channel has room, and needs no client: every handler has lost its connection.
pub stop-ends :
    (s t : Server) (n : ℕ)
    → Reach new_server s
    → s.is_stopped ≡ false
    → s.ln ≡ listening
    → IsSettled s.phase
    → Run (stop s) n t
    → t.events < capacity
    → (n + remaining t ≤ remaining s) × (IsOver t ⊎ Moves t)
stop-ends s t n r h l b run room =
    let closing = stop-IsClosing s r h l b in
    let fallen = Run-Falls run closing.0 in
    (omega (arith, fallen.1, closing.1), IsClosing-Moves t t.phase fallen.0 refl room)
