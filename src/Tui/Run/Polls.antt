-- ===== src/Tui/Run/Polls.antt =====
-- How often the terminal asks the daemon for its state: the commands that ask, or wait to ask.
use m_tlsling.Base.{
  ℕ, ◌+◌, String, Bool, Option, none, some, List, [], ◌∷◌, ◌++◌, ◌≡◌, refl, ap, ◌∙◌, Result, ok,
  err, arith,
}
use m_tlsling.Base.Int.{ℤ, pos, negsuc}
use m_tlsling.Tui.Widgets.{Item, setting_item, file_item, conn_item, Widgets}
use m_tlsling.Tui.Types.{
  Page, picker_page, selected_page, connections_page, details_page, settings_page, Model, Msg,
  event, window_size, state_msg, action_msg, tick_msg, Cmd, no_cmd, quit, next_poll, request_state,
  action, foreign, batch,
}
use m_tlsling.Tui.Keys.{
  Flow, return, go_on, global_key, remove_at, open_details, settings_key, page_key, then_page,
}
use m_tlsling.Tui.Update.{
  init, pick, update_component, finish, update_editing, update_event, update,
}
use m_tlsling.Tui.Run.{
  Session, failure_count, start_session, Step, happens, resized, told, ticked, answered, split,
  Reach, started, next,
}

module _ (W : Widgets) where
  -- The polls of a command: each asks once, and then again and again.
  abbrev pub polls : Cmd W → ℕ
  polls no_cmd = 0
  polls quit = 0
  polls next_poll = 1
  polls request_state = 1
  polls (action _ _) = 0
  polls (foreign _) = 0
  polls (batch c d) = polls c + polls d

  abbrev pub total_polls : List (Cmd W) → ℕ
  total_polls [] = 0
  total_polls (c ∷ cs) = polls c + total_polls cs

  -- A message that stands for a poll gives one, and a failed action too.
  abbrev polls_of : Msg W → ℕ
  polls_of (event _) = 0
  polls_of (window_size _ _) = 0
  polls_of (state_msg _) = 1
  polls_of (action_msg (ok _) _) = 0
  polls_of (action_msg (err _) _) = 1
  polls_of tick_msg = 1

  abbrev IsQuiet : Flow W → Type 0
  IsQuiet (return m c) = polls c ≡ 0
  IsQuiet (go_on m) = Unit {0}

  global_key-IsQuiet : (k : String) (m : Model W) → IsQuiet (global_key W k m)
  unfolding global_key
  global_key-IsQuiet k m = ground arith

  remove_at-IsQuiet : (i : ℤ) (m : Model W) → IsQuiet (remove_at W i m)
  unfolding remove_at
  remove_at-IsQuiet (pos i) m = ground arith
  remove_at-IsQuiet (negsuc i) m = tt

  open_details-IsQuiet : (it : Option Item) (m : Model W) → IsQuiet (open_details W it m)
  unfolding open_details
  open_details-IsQuiet none m = tt
  open_details-IsQuiet (some (setting_item _)) m = tt
  open_details-IsQuiet (some (file_item _)) m = tt
  open_details-IsQuiet (some (conn_item _)) m = tt

  settings_key-IsQuiet : (k : String) (m : Model W) → IsQuiet (settings_key W k m)
  unfolding settings_key
  settings_key-IsQuiet k m = ground arith

  page_key-IsQuiet : (p : Page) (k : String) (m : Model W) → IsQuiet (page_key W p k m)
  unfolding page_key
  page_key-IsQuiet picker_page k m = tt
  page_key-IsQuiet selected_page k m = ground (arith, remove_at-IsQuiet (W.index m.file_list) m)
  page_key-IsQuiet connections_page k m =
      ground (arith, open_details-IsQuiet (W.selected_item m.conn_list) m)
  page_key-IsQuiet details_page k m = tt
  page_key-IsQuiet settings_page k m = settings_key-IsQuiet k m

  pick-polls :
      (o : Option String) (c : W.Command) (m : Model W) → polls (pick W o (foreign c) m).1 ≡ 0
  unfolding pick
  pick-polls none c m = refl
  pick-polls (some path) c m = omega arith

  update_component-polls :
      (p : Page) (e : W.Event) (m : Model W) → polls (update_component W p e m).1 ≡ 0
  unfolding update_component
  update_component-polls picker_page e m = pick-polls (W.did_select_file e _) _ _
  update_component-polls selected_page e m = refl
  update_component-polls connections_page e m = refl
  update_component-polls details_page e m = refl
  update_component-polls settings_page e m = refl

  finish-polls : (e : W.Event) (f : Flow W) → IsQuiet f → polls (finish W e f).1 ≡ 0
  unfolding finish
  finish-polls e (return m c) h = h
  finish-polls e (go_on m) h = update_component-polls m.page e m

  then_page-IsQuiet : (k : String) (f : Flow W) → IsQuiet f → IsQuiet (then_page W k f)
  unfolding then_page
  then_page-IsQuiet k (return m c) h = h
  then_page-IsQuiet k (go_on m) h = page_key-IsQuiet m.page k m

  update_event-polls :
      (k : Option String) (e : W.Event) (m : Model W) → polls (update_event W k e m).1 ≡ 0
  unfolding update_event update_editing
  update_event-polls none e m = update_component-polls m.page e m
  update_event-polls (some k) e m =
      ground (arith, finish-polls e _ (then_page-IsQuiet k _ (global_key-IsQuiet k m)))

  update-polls : (msg : Msg W) (m : Model W) → polls (update W msg m).1 ≡ polls_of msg
  unfolding update
  update-polls (event e) m = update_event-polls (W.key_name e) e m
  update-polls (window_size w h) m = refl
  update-polls (state_msg (ok s)) m = refl
  update-polls (state_msg (err e)) m = refl
  update-polls (action_msg (ok s) clear) m = refl
  update-polls (action_msg (err e) clear) m = refl
  update-polls tick_msg m = refl

  total_polls-take_out :
      (xs ys : List (Cmd W)) (c : Cmd W)
      → total_polls (xs ++ c ∷ ys) ≡ polls c + total_polls (xs ++ ys)
  total_polls-take_out [] ys c = refl
  total_polls-take_out (x ∷ xs) ys c = omega (arith, total_polls-take_out xs ys c)

  -- The polls of a run, after a command is taken out of those that run.
  taken_out :
      (s : Session W) (xs ys : List (Cmd W)) (c : Cmd W)
      → s.pending ≡ xs ++ c ∷ ys
      → total_polls s.pending ≡ polls c + total_polls (xs ++ ys)
  taken_out s xs ys c e = ap total_polls e ∙ total_polls-take_out xs ys c

  failure_polls : (r : Result _) (clear : Bool) → polls_of (action_msg r clear) ≡ failure_count W r
  failure_polls (ok s) clear = refl
  failure_polls (err e) clear = refl

  step-polls :
      {s t : Session W}
      → Step W s t
      → total_polls s.pending ≡ 1 + s.failures
      → total_polls t.pending ≡ 1 + t.failures
  step-polls {s} (happens e) h = omega (arith, update-polls (event e) s.model)
  step-polls {s} (resized w k) h = omega (arith, update-polls (window_size w k) s.model)
  step-polls {s} (told xs ys r e) h =
      omega (arith, update-polls (state_msg r) s.model, taken_out s xs ys request_state e)
  step-polls {s} (ticked xs ys e) h =
      omega (arith, update-polls tick_msg s.model, taken_out s xs ys next_poll e)
  step-polls {s} (answered xs ys call clear r e) h = omega (
    arith,
    update-polls (action_msg r clear) s.model,
    failure_polls r clear,
    taken_out s xs ys (action call clear) e,
  )
  step-polls {s} (split xs ys c d e) h = omega (arith, taken_out s xs ys (batch c d) e)

  -- In every state that a run of the terminal reaches, the commands that ask the daemon for its state, or
  -- wait to ask, are one more than the actions that have failed: polling never stops, whatever fails, and
  -- each failed action adds a poll that repeats for good beside those before.
  pub Reach-polls : {s : Session W} → Reach W s → total_polls s.pending ≡ 1 + s.failures
  unfolding start_session init
  Reach-polls started = refl
  Reach-polls (next r st) = step-polls st (Reach-polls r)
