-- ===== src/Tui/View/Errors.antt =====
-- Where the terminal shows that an action has failed.
use m_tlsling.Base.{String, ◌<>◌, Bool, false, List, ◌∷◌, ◌++◌, ◌≡◌, refl, err, ◌=ˢ◌}
use m_tlsling.Tui.Widgets.{Widgets}
use m_tlsling.Tui.Types.{
  Page, picker_page, selected_page, connections_page, details_page, settings_page, Model,
  action_msg,
}
use m_tlsling.Tui.Update.{update}
use m_tlsling.Tui.View.{
  Screen, tell, view_picker, view_selected, view_connections, view_details, view_settings, view_of,
}

module _ (W : Widgets) (screen : Screen W) where
  -- One of the pieces is a given one.
  pub data Writes (piece : String) : List String → Type 0 where
    here : {behind : List String} → Writes piece (piece ∷ behind)
    there :
        {first : String} {behind : List String}
        → Writes piece behind
        → Writes piece (first ∷ behind)

  -- What a page shows of an error.
  abbrev pub TellsError : Page → String → Model W → Model W → Type 0
  TellsError picker_page e m m' =
      Writes ("UI error: " <> (e <> "\n")) (view_of W screen picker_page m')
  TellsError connections_page e m m' =
      Writes ("UI error: " <> (e <> "\n")) (view_of W screen connections_page m')
  TellsError settings_page e m m' =
      Writes ("UI error: " <> (e <> "\n")) (view_of W screen settings_page m')
  TellsError selected_page e m m' =
      view_of W screen selected_page m' ≡ view_of W screen selected_page m
  TellsError details_page e m m' =
      view_of W screen details_page m' ≡ view_of W screen details_page m

  tell-Writes :
      (e : String) (behind : List String)
      → (e =ˢ "") ≡ false
      → Writes ("UI error: " <> (e <> "\n")) (tell "UI error: " e ++ behind)
  tell-Writes e behind h = rw h here

  -- After an action that failed with an error text, the pages of the picker, of the connections and of the
  -- settings write that text; the page of the selected files, where `d` is such an action, and the page of
  -- the details stay as they were.
  pub failed_action-TellsError :
      (p : Page) (m : Model W) (e : String) (clear : Bool)
      → (e =ˢ "") ≡ false
      → TellsError p e m (update W (action_msg (err e) clear) m).0
  unfolding update view_of view_picker view_selected view_connections view_details view_settings
  failed_action-TellsError picker_page m e clear h =
      there (there (there (there (there (tell-Writes e _ h)))))
  failed_action-TellsError selected_page m e clear h = refl
  failed_action-TellsError connections_page m e clear h = there (there (there (tell-Writes e _ h)))
  failed_action-TellsError details_page m e clear h = refl
  failed_action-TellsError settings_page m e clear h =
      there (there (there (there (tell-Writes e _ h))))
