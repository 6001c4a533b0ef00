-- ===== src/Api/Client.antt =====
-- internal/ipcapi/client.go: the calls of a client, against the handler of the daemon. `http.Client` brings
-- the request to the handler and the response back, or fails on the way.
pub mod Refinement
use Prim.Native.Char.{code}
use m_tlsling.Base.{
  ℕ, String, ◌<>◌, Bool, true, false, ◌&&◌, ◌||◌, Option, none, some, List, [], ◌∷◌, Result, ok,
  err, ◌>>=◌, if◌then◌else◌, ◌==◌, ◌=ˢ◌, leb, ltb,
}
use m_tlsling.Config.{Crypto}
use m_tlsling.Server.Types.{Bytes, Codec}
use m_tlsling.Daemon.Types.{Snapshot, Settings}
use m_tlsling.Daemon.State.{World, Env}
use m_tlsling.Ipc.{dial}
use m_tlsling.Api.{Request, Reply, Response, Decoders, handle}

-- `unicode.IsSpace`
abbrev is_space : ℕ → Bool
is_space c =
    (leb 9 c && leb c 13)
    || c == 32
    || c == 0x85
    || c == 0xa0
    || c == 0x1680
    || (leb 0x2000 c && leb c 0x200a)
    || c == 0x2028
    || c == 0x2029
    || c == 0x202f
    || c == 0x205f
    || c == 0x3000

unfoldable pub trim_left : String → String
trim_left String.[] = ""
trim_left (String.◌∷◌ c s) =
    let rest = trim_left s in if is_space (code c) then rest else String.◌∷◌ c s

unfoldable pub trim_right : String → String
trim_right String.[] = ""
trim_right (String.◌∷◌ c s) =
    let rest = trim_right s in if rest =ˢ "" && is_space (code c) then "" else String.◌∷◌ c rest

-- `strings.TrimSpace`
unfoldable pub trim_space : String → String
trim_space s = trim_left (trim_right s)

-- `resp.Status` of the statuses that the handler gives.
abbrev pub status_text : ℕ → String
status_text status =
    if status == 404
    then "404 Not Found"
    else if status == 405
    then "405 Method Not Allowed"
    else "400 Bad Request"

-- What the client reads of a body: the text, and the JSON values.
pub record Reader : Type 0 where
  pub text : Reply → String
  pub snapshot : Reply → Result Snapshot
  pub settings : Reply → Result Settings

-- The text of the error that `doJSON` makes.
unfoldable pub failure : String → String → ℕ → String → String
failure method path status body =
    let msg = trim_space body in
    method <> (" " <> (path <> (" failed: " <> (if msg =ˢ "" then status_text status else msg))))

-- The calls that answer with a snapshot.
pub data Call : Type 0 where
  get_state start_sender_call stop_sender_call start_listener_call stop_listener_call : Call
  set_files_call : List String → Call
  update_settings_call : Settings → Call

abbrev pub method_of : Call → String
method_of get_state = "GET"
method_of (set_files_call files) = "PUT"
method_of (update_settings_call s) = "PUT"
method_of start_sender_call = "POST"
method_of stop_sender_call = "POST"
method_of start_listener_call = "POST"
method_of stop_listener_call = "POST"

abbrev pub path_of : Call → String
path_of get_state = "/v1/state"
path_of (set_files_call files) = "/v1/files"
path_of (update_settings_call s) = "/v1/settings"
path_of start_sender_call = "/v1/sender/start"
path_of stop_sender_call = "/v1/sender/stop"
path_of start_listener_call = "/v1/listener/start"
path_of stop_listener_call = "/v1/listener/stop"

-- The JSON encoders of the two kinds of payload.
pub record Encoders : Type 0 where
  pub files : List String → Result Bytes
  pub settings : Settings → Result Bytes

abbrev pub payload_of : Encoders → Call → Result Bytes
payload_of enc get_state = ok []
payload_of enc (set_files_call files) = enc.files files
payload_of enc (update_settings_call s) = enc.settings s
payload_of enc start_sender_call = ok []
payload_of enc stop_sender_call = ok []
payload_of enc start_listener_call = ok []
payload_of enc stop_listener_call = ok []

-- `Client`: where it dials, and the text in front of a path.
pub record Client : Type 0 where
  pub endpoint : String
  pub base : String

-- `NewClient`
unfoldable pub new_client : String → Client
new_client endpoint = record { endpoint = dial endpoint; base = "http://ipc" }

-- How `http.Client` gets on with a request: the response comes, the request does not come to the handler,
-- or it does and the response is lost, as after the timeout.
pub data Delivery : Type 0 where
  arrives : Delivery
  refused lost : String → Delivery

module _ (C : Crypto) where
  -- What `doJSON` makes of the response, with the decoder of what it should hold.
  unfoldable pub read_response :
      {A : Type 0} → (Reply → Result A) → Reader → String → String → Response → Result A
  read_response decode reader method path r =
      if ltb r.status 400
      then decode r.reply
      else err (failure method path r.status (reader.text r.reply))

  -- The rest of `doJSON`, behind the encoding of the payload.
  unfoldable pub fetch :
      {A : Type 0}
      → Env C
      → Decoders
      → (Reply → Result A)
      → Reader
      → Delivery
      → Request
      → World C
      → World C × Result A
  fetch env dec decode reader arrives r w =
      let (w', response) = handle C env dec r w in
      (w', read_response decode reader r.method r.path response)
  fetch env dec decode reader (refused e) r w = (w, err e)
  fetch env dec decode reader (lost e) r w =
      let (w', response) = handle C env dec r w in (w', err e)

  -- `doJSON`, for one of the calls.
  unfoldable pub do_json :
      Env C → Decoders → Encoders → Reader → Delivery → Call → World C → World C × Result Snapshot
  do_json env dec enc reader d call w = elim (payload_of enc call) [
    | err e ↦ (w, err e)
    | ok body ↦
        let request : Request = record {
          method = method_of call;
          path = path_of call;
          body = body;
        } in
        fetch env dec reader.snapshot reader d request w
  ]

  -- `Settings`
  unfoldable pub get_settings :
      Env C → Decoders → Reader → Delivery → World C → World C × Result Settings
  get_settings env dec reader d w =
      fetch env dec reader.settings reader d
        (record { method = "GET"; path = "/v1/settings"; body = [] }) w
