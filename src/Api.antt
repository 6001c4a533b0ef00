-- ===== src/Api.antt =====
-- `NewHandler` of internal/ipcapi/server.go: the requests that control a daemon. `http.ServeMux` is taken
-- to match the path of a request that is in its clean form.
pub mod Laws
pub mod Client
use m_tlsling.Base.{
  ℕ, String, ◌<>◌, Bool, true, false, Option, none, some, List, [], ◌∷◌, Result, ok, err,
  if◌then◌else◌, ◌=ˢ◌,
}
use m_tlsling.Config.{Crypto}
use m_tlsling.Server.Types.{Bytes}
use m_tlsling.Daemon.Types.{Snapshot, Settings}
use m_tlsling.Daemon.State.{World, Env}
use m_tlsling.Daemon.Sender.{set_sender_files, start_sender, stop_sender}
use m_tlsling.Daemon.Listener.{start_listener, stop_listener}
use m_tlsling.Daemon.Control.{update_settings}
use m_tlsling.Daemon.Snapshot.{snapshot}

pub record Request : Type 0 where
  pub method : String
  pub path : String
  pub body : Bytes

-- What is written: a text of `http.Error`, or a value that `writeJSON` encodes.
pub data Reply : Type 0 where
  message : String → Reply
  state : Snapshot → Reply
  settings : Settings → Reply

pub record Response : Type 0 where
  pub status : ℕ
  pub reply : Reply

-- The JSON decoders of the two kinds of body.
pub record Decoders : Type 0 where
  pub files : Bytes → Result (List String)
  pub settings : Bytes → Result Settings

abbrev pub http_error : ℕ → String → Response
http_error status text = record { status = status; reply = message text }

abbrev pub not_allowed : Response
not_allowed = http_error 405 "method not allowed"

module _ (C : Crypto) where
  -- `writeJSON(w, http.StatusOK, d.Snapshot())`
  abbrev pub tell_state : World C → World C × Response
  tell_state w = (w, record { status = 200; reply = state (snapshot C w) })

  -- After a call that may fail.
  abbrev pub tell_result : World C × Option String → World C × Response
  tell_result (w, none) = tell_state w
  tell_result (w, some e) = (w, http_error 400 e)

  unfoldable pub on_files : Decoders → Request → World C → World C × Response
  on_files dec r w =
      if r.method =ˢ "PUT"
      then elim (dec.files r.body) [
        | err e ↦ (w, http_error 400 ("decode request: " <> e))
        | ok files ↦ tell_state (set_sender_files C files w)
      ]
      else (w, not_allowed)

  unfoldable pub on_settings : Env C → Decoders → Request → World C → World C × Response
  on_settings env dec r w =
      if r.method =ˢ "GET"
      then (w, record { status = 200; reply = settings w.daemon.settings })
      else if r.method =ˢ "PUT"
      then elim (dec.settings r.body) [
        | err e ↦ (w, http_error 400 ("decode settings: " <> e))
        | ok s ↦ tell_result (update_settings C env s w)
      ]
      else (w, not_allowed)

  -- A route with one method.
  abbrev pub only : String → Request → World C → World C × Response → World C × Response
  only method r w answer = if r.method =ˢ method then answer else (w, not_allowed)

  unfoldable pub handle : Env C → Decoders → Request → World C → World C × Response
  handle env dec r w =
      if r.path =ˢ "/v1/state"
      then only "GET" r w (tell_state w)
      else if r.path =ˢ "/v1/files"
      then on_files dec r w
      else if r.path =ˢ "/v1/settings"
      then on_settings env dec r w
      else if r.path =ˢ "/v1/sender/start"
      then only "POST" r w (tell_result (start_sender C env true w))
      else if r.path =ˢ "/v1/sender/stop"
      then only "POST" r w (tell_state (stop_sender C true w))
      else if r.path =ˢ "/v1/listener/start"
      then only "POST" r w (tell_result (start_listener C env true w))
      else if r.path =ˢ "/v1/listener/stop"
      then only "POST" r w (tell_state (stop_listener C true w))
      else (w, http_error 404 "404 page not found")
