-- ===== src/Tests/Lifecycle.antt =====
-- A server that is started and stopped.
use mathlib.Core.List.{Memᴰ}
use m_tlsling.Base.{
  ◌+◌, ◌≤◌, ◌⊎◌, none, arith, ◌≡◌, refl, true, false, some, [], ◌∷◌, lookup, insert, has,
}
use m_tlsling.Server.Accept.{
  accept_result, listening, accepting, holding, announcing, returned, Server, new_server, stop,
  close_socket, register, announce, Step, Reach,
}
use m_tlsling.Server.Accept.Closing.{stop-closes}
use m_tlsling.Server.Accept.Races.{stop_early}
use m_tlsling.Server.Accept.Channel.{Unread, IsStuck, Unread-IsStuck}
use m_tlsling.Server.Accept.Falling.{remaining, Run}
use m_tlsling.Server.Accept.Ending.{IsOver, Moves, stop-ends}

abbrev holding_one : Server
holding_one = record {
  ln = listening;
  is_stopped = false;
  connections = [];
  shut = [];
  handlers = [];
  events = 0;
  phase = holding 4;
}

abbrev serving_one : Server
serving_one = record holding_one {
  connections = ("17", 4) ∷ [];
  handlers = ("17", 4) ∷ [];
  events = 1;
  phase = accepting;
}

to_holding : Reach new_server holding_one
unfolding new_server
to_holding = Reach.next (Reach.next Reach.here (Step.listens refl)) (Step.accepts 4 refl refl)

to_serving : Reach new_server serving_one
unfolding register announce insert has
to_serving =
    Reach.next (Reach.next to_holding (Step.registers "17" 4 refl refl))
      (Step.announces "17" 4 refl (omega arith))

stop-closes_example :
    Memᴰ 4 (stop serving_one).shut
    × ((stop serving_one).connections ≡ [])
    × ((stop serving_one).ln ≡ close_socket listening)
    × ((stop serving_one).is_stopped ≡ true)
unfolding lookup
stop-closes_example = stop-closes serving_one "17" 4 to_serving refl refl

abbrev leaked : Server
leaked = record (stop new_server) { ln = listening; phase = accepting }

abbrev unclosed : Server
unclosed = stop (announce "17" 4 (register "17" 4 (stop holding_one)))

stop_early_example :
    Reach new_server leaked
    × (leaked.is_stopped ≡ true)
    × (leaked.ln ≡ listening)
    × Reach holding_one unclosed
    × (lookup "17" unclosed.handlers ≡ some 4)
    × (Memᴰ 4 unclosed.shut → ⊥)
unfolding new_server has
stop_early_example =
    stop_early new_server leaked holding_one "17" 4 refl Reach.here refl refl (omega arith)
      (λ m. elim m [ ])

-- A connection is announced to a channel that is full.
abbrev crowded : Server
crowded = record serving_one { events = 64; phase = announcing "18" 5 }

crowded_stopped : Unread crowded (stop crowded)
crowded_stopped = Unread.next Unread.here Step.stops tt

Unread-IsStuck_example : IsStuck "18" 5 (stop crowded)
Unread-IsStuck_example =
    Unread-IsStuck "18" 5 crowded_stopped (record { waits = refl; full = refl })

-- After the stop the loop returns, and then the handler ends.
abbrev returned_one : Server
returned_one = record (stop serving_one) { phase = returned none }

to_returned : Run (stop serving_one) 1 returned_one
unfolding stop accept_result
to_returned = Run.next Run.here (Step.fails_to_accept "closed" refl) refl

stop-ends_example :
    (1 + remaining returned_one ≤ remaining serving_one)
    × (IsOver returned_one ⊎ Moves returned_one)
unfolding stop
stop-ends_example =
    stop-ends serving_one returned_one 1 to_serving refl refl tt to_returned (omega arith)
