-- ===== src/Tui/View.antt =====
-- `View` of cmd/tui/main.go: the pieces that are written, which are put together in their order. The views of
-- the components, the bars and the format of times are parameters.
pub mod Errors
use m_tlsling.Base.{
  ℕ, zero, suc, String, ◌<>◌, Bool, true, false, Option, none, some, List, [], ◌∷◌, ◌++◌, lookup,
  if◌then◌else◌, ◌=ˢ◌, ltb, length, show_int,
}
use m_tlsling.Base.Int.{ℤ, pos, lebℤ, sub_int64}
use m_tlsling.Daemon.Types.{FileProgressSnapshot, ConnectionSnapshot, ListenerEvent}
use m_tlsling.Tui.Widgets.{Widgets, text_of_key}
use m_tlsling.Tui.Types.{
  Page, picker_page, selected_page, connections_page, details_page, settings_page, Model,
}
use m_tlsling.Tui.Lists.{sort_by}

-- A bar is drawn for a width and a fraction, `none` for 0.
pub record Screen (W : Widgets) : Type 0 where
  pub picker_view : W.Picker → String
  pub list_view : W.ListModel → String
  pub input_view : W.Input → String
  pub bar : ℤ → Option (ℕ × ℕ) → String
  pub clock : ℕ → String

-- `runStatus`
abbrev run_status : Bool → String
run_status true = "ACTIVE"
run_status false = "INACTIVE"

-- `max`
abbrev max : ℤ → ℤ → ℤ
max a b = if lebℤ a b then b else a

-- A piece that is written only if the text is not empty.
abbrev pub tell : String → String → List String
tell label text = if text =ˢ "" then [] else (label <> (text <> "\n")) ∷ []

-- The loop over the recent events, of which 8 at most are shown.
unfoldable pub event_lines : (ℕ → String) → ℕ → List ListenerEvent → List String
event_lines clock zero es = []
event_lines clock (suc n) [] = []
event_lines clock (suc n) (e ∷ es) =
    ("  "
      <> (clock e.timestamp
          <> (" " <> (e.status <> (" " <> (e.callback <> (" " <> (e.detail <> "\n"))))))))
    ∷ event_lines clock n es

-- The bytes of the pieces.
unfoldable pub joined : List String → String
joined [] = ""
joined (s ∷ ss) = s <> joined ss

module _ (W : Widgets) (screen : Screen W) where
  -- `statusBanner`
  abbrev status_banner : Model W → String
  status_banner m =
      "Sender: "
      <> (run_status m.sender_running <> (" | Listener: " <> run_status m.listener_running))

  unfoldable pub view_picker : Model W → List String
  view_picker m =
      (status_banner m <> "\n")
      ∷ "\n"
      ∷ "Picker\n"
      ∷ "Keys: tab cycle | l selected | c connections | g settings | s toggle sender | r toggle listener | q quit\n"
      ∷ ("Selected files: " <> (show_int (pos (length (W.items m.file_list))) <> "\n"))
      ∷ (tell "UI error: " m.ui_error
          ++ (tell "Sender error: " m.sender_error
              ++ (tell "Listener error: " m.listener_error
                  ++ "\n" ∷ (screen.picker_view m.fp <> "\n") ∷ [])))

  unfoldable pub view_selected : Model W → List String
  view_selected m =
      (status_banner m <> "\n")
      ∷ "\n"
      ∷ "Selected files | d delete | tab cycle | p/f picker | g settings\n\n"
      ∷ (screen.list_view m.file_list <> "\n")
      ∷ []

  abbrev recent_lines : List ListenerEvent → List String
  recent_lines [] = "  (none)\n" ∷ []
  recent_lines (e ∷ es) = event_lines screen.clock 8 (e ∷ es)

  unfoldable pub view_connections : Model W → List String
  unfolding event_lines
  view_connections m =
      (status_banner m <> "\n")
      ∷ "\n"
      ∷ "Connections | enter details | s toggle sender | r toggle listener | g settings\n"
      ∷ (tell "UI error: " m.ui_error
          ++ "\n"
            ∷ (screen.list_view m.conn_list <> "\n")
            ∷ "Listener recent activity:\n"
            ∷ recent_lines m.recent)

  abbrev fraction : FileProgressSnapshot → Option (ℕ × ℕ)
  fraction f = if ltb 0 f.total then some (f.transferred, f.total) else none

  -- The loop over the sorted files of a connection.
  unfoldable pub file_lines : ℤ → List FileProgressSnapshot → List String
  file_lines width [] = []
  file_lines width (f ∷ fs) =
      (f.name
        <> (" ("
            <> (show_int (pos f.transferred)
                <> ("/"
                    <> (show_int (pos f.total)
                        <> (" bytes)\n"
                            <> (screen.bar (max (pos 20) (sub_int64 width (pos 20))) (fraction f)
                                <> "\n")))))))
      ∷ file_lines width fs

  abbrev no_files : List FileProgressSnapshot → List String
  no_files [] = "No file progress yet.\n" ∷ []
  no_files (f ∷ fs) = []

  unfoldable pub connection_lines : ℤ → Option ConnectionSnapshot → List String
  unfolding file_lines sort_by
  connection_lines width none = "No data for connection.\n" ∷ []
  connection_lines width (some c) =
      ("Remote: " <> (c.remote <> (" | State: " <> (c.state <> "\n\n"))))
      ∷ (file_lines width (sort_by (λ (f : FileProgressSnapshot). f.name) c.files)
          ++ no_files c.files)

  unfoldable pub view_details : Model W → List String
  unfolding connection_lines
  view_details m =
      (status_banner m <> "\n")
      ∷ "\n"
      ∷ ("Connection details | id=" <> (m.detail_id <> " | b back\n\n"))
      ∷ connection_lines m.width (lookup m.detail_id m.connections)

  unfoldable pub view_settings : Model W → List String
  view_settings m =
      (status_banner m <> "\n")
      ∷ "\n"
      ∷ ("Settings ("
          <> ((if m.settings_dirty then "modified" else "saved")
              <> ") | arrows navigate | e edit | space toggle bool | w write/apply\n"))
      ∷ "Keys: tab cycle | p picker | c connections | s toggle sender | r toggle listener\n"
      ∷ (tell "UI error: " m.ui_error
          ++ "\n"
            ∷ (screen.list_view m.settings_list <> "\n")
            ∷ (if m.editing
                then "\n"
                  ∷ ("Editing " <> (text_of_key m.edit_key <> " (enter save, esc cancel)\n"))
                  ∷ (screen.input_view m.edit_input <> "\n")
                  ∷ []
                else []))

  -- `View`, before the pieces are joined.
  unfoldable pub view_of : Page → Model W → List String
  view_of picker_page m = view_picker m
  view_of selected_page m = view_selected m
  view_of connections_page m = view_connections m
  view_of details_page m = view_details m
  view_of settings_page m = view_settings m

  -- `View`
  unfoldable pub view : Model W → String
  unfolding joined
  view m = joined (view_of m.page m)
