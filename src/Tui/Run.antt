-- ===== src/Tui/Run.antt =====
-- cmd/tui/main.go: the program as `tea.Program` runs it. Commands run at the same time; the message of each
-- is delivered when it is there. What `quit` ends is not ended here, so a run is one of the program up to
-- its end.
pub mod Polls
pub mod Shown
use m_tlsling.Base.{ℕ, zero, suc, ◌+◌, Bool, true, false, List, [], ◌∷◌, ◌++◌, ◌≡◌, Result, ok, err}
use m_tlsling.Base.Int.{ℤ}
use m_tlsling.Daemon.Types.{Snapshot}
use m_tlsling.Api.Client.{Call}
use m_tlsling.Tui.Widgets.{Widgets}
use m_tlsling.Tui.Types.{
  Model, Msg, event, window_size, state_msg, action_msg, tick_msg, Cmd, no_cmd, quit, next_poll,
  request_state, action, foreign, batch,
}
use m_tlsling.Tui.Update.{new_model, init, update}

module _ (W : Widgets) where
  -- The model, the commands that run, and how many actions have failed.
  pub record Session : Type 0 where
    pub model : Model W
    pub pending : List (Cmd W)
    pub failures : ℕ

  abbrev pub deliver : Msg W → List (Cmd W) → Session → Session
  deliver msg others s = record s {
    model = (update W msg s.model).0;
    pending = (update W msg s.model).1 ∷ others;
  }

  abbrev pub failure_count : {A : Type 0} → Result A → ℕ
  failure_count (ok a) = 0
  failure_count (err e) = 1

  -- `main` and `newModel`: the program begins with the command of `Init`.
  unfoldable pub start_session : Session
  start_session = record { model = new_model W; pending = init W ∷ []; failures = 0 }

  -- A step takes one command that runs, at any place among the others. The daemon may answer anything.
  pub data Step (s : Session) : Session → Type 0 where
    happens : (e : W.Event) → Step s (deliver (event e) s.pending s)
    resized : (w h : ℤ) → Step s (deliver (window_size w h) s.pending s)
    told :
        (xs ys : List (Cmd W)) (r : Result Snapshot)
        → s.pending ≡ xs ++ request_state ∷ ys
        → Step s (deliver (state_msg r) (xs ++ ys) s)
    ticked :
        (xs ys : List (Cmd W))
        → s.pending ≡ xs ++ next_poll ∷ ys
        → Step s (deliver tick_msg (xs ++ ys) s)
    answered :
        (xs ys : List (Cmd W)) (call : Call) (clear : Bool) (r : Result Snapshot)
        → s.pending ≡ xs ++ action call clear ∷ ys
        → Step s (
            deliver
              (action_msg r clear)
              (xs ++ ys)
              (record s { failures = s.failures + failure_count r }))
    split :
        (xs ys : List (Cmd W)) (c d : Cmd W)
        → s.pending ≡ xs ++ batch c d ∷ ys
        → Step s (record s { pending = c ∷ d ∷ xs ++ ys })

  pub data Reach : Session → Type 0 where
    started : Reach start_session
    next : {s t : Session} → Reach s → Step s t → Reach t
