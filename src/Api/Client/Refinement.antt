-- ===== src/Api/Client/Refinement.antt =====
-- The calls of the client do what the daemon's own functions do.
use text.Mathlib.TextLemmas.{cons-append}
use m_tlsling.Base.{
  ◌=ˢ◌, if◌then◌else◌, Bool-cases, eq_iff, inl, inr, subst, ◌≡◌, refl, ap, ◌∙◌, String, ◌<>◌, true,
  Option, none, some, List, Result, ok, err,
}
use m_tlsling.Config.{Crypto}
use m_tlsling.Server.Types.{Bytes}
use m_tlsling.Daemon.Types.{Snapshot, Settings}
use m_tlsling.Daemon.State.{World, Env}
use m_tlsling.Daemon.Sender.{set_sender_files, start_sender, stop_sender}
use m_tlsling.Daemon.Listener.{start_listener, stop_listener}
use m_tlsling.Daemon.Control.{update_settings}
use m_tlsling.Daemon.Snapshot.{snapshot}
use m_tlsling.Api.{
  Reply, Response, Decoders, state, message, tell_result, on_files, on_settings, handle,
}
use m_tlsling.Api.Client.{
  Reader, Encoders, Call, get_state, start_sender_call, stop_sender_call, start_listener_call,
  stop_listener_call, set_files_call, update_settings_call, failure, trim_left, trim_right,
  trim_space, method_of, path_of, payload_of, Delivery, arrives, refused, lost, read_response,
  fetch, do_json, get_settings,
}

-- JSON is read back as it was written, and an error text with a line feed behind it.
pub record IsFaithful (dec : Decoders) (enc : Encoders) (reader : Reader) : Type 0 where
  pub files : (fs : List String) (bytes : Bytes) → enc.files fs ≡ ok bytes → dec.files bytes ≡ ok fs
  pub settings :
      (s : Settings) (bytes : Bytes) → enc.settings s ≡ ok bytes → dec.settings bytes ≡ ok s
  pub snapshot : (s : Snapshot) → reader.snapshot (state s) ≡ ok s
  pub read_settings : (s : Settings) → reader.settings (Reply.settings s) ≡ ok s
  pub text : (e : String) → reader.text (message e) ≡ e <> "\n"

-- The text of an error without the blanks around it, or the status if there is nothing else.
abbrev pub said : String → String
said String.[] = "400 Bad Request"
said (String.◌∷◌ c s) = String.◌∷◌ c s

-- What a call should say that the daemon refuses with an error.
abbrev pub refusal : String → String → String → String
refusal method path e = method <> (" " <> (path <> (" failed: " <> said (trim_space e))))

trim_right-newline : (e : String) → trim_right (e <> "\n") ≡ trim_right e
unfolding trim_right
trim_right-newline String.[] = refl
trim_right-newline (String.◌∷◌ c s) = rw cons-append (rw (trim_right-newline s) refl)

abbrev HasChar : String → Type 0
HasChar String.[] = ⊥
HasChar (String.◌∷◌ c s) = Unit {0}

said_lem : (msg : String) → (if msg =ˢ "" then "400 Bad Request" else msg) ≡ said msg
said_lem String.[] = refl
said_lem (String.◌∷◌ c s) = elim (Bool-cases (String.◌∷◌ c s =ˢ "")) [
  | inl h ↦ absurd (subst HasChar ((eq_iff (String.◌∷◌ c s) "").0 h) tt)
  | inr h ↦ rw h refl
]

failure-refusal :
    (method path e : String) → failure method path 400 (e <> "\n") ≡ refusal method path e
unfolding failure trim_space
failure-refusal method path e =
    ap (λ msg. method <> (" " <> (path <> (" failed: " <> msg))))
      (ap (λ t. if trim_left t =ˢ "" then "400 Bad Request" else trim_left t) (trim_right-newline e)
        ∙ said_lem (trim_space e))

module _ (C : Crypto) (env : Env C) where
  -- The daemon's own function behind a call.
  abbrev pub direct : Call → World C → World C × Option String
  direct get_state w = (w, none)
  direct (set_files_call files) w = (set_sender_files C files w, none)
  direct (update_settings_call s) w = update_settings C env s w
  direct start_sender_call w = start_sender C env true w
  direct stop_sender_call w = (stop_sender C true w, none)
  direct start_listener_call w = start_listener C env true w
  direct stop_listener_call w = (stop_listener C true w, none)

  -- What the client should return.
  abbrev pub returned : Call → World C × Option String → World C × Result Snapshot
  returned call (w, none) = (w, ok (snapshot C w))
  returned call (w, some e) = (w, err (refusal (method_of call) (path_of call) e))

  handle_call :
      (dec : Decoders) (enc : Encoders) (reader : Reader) (call : Call) (body : Bytes) (w : World C)
      → IsFaithful dec enc reader
      → payload_of enc call ≡ ok body
      → handle C env dec (record { method = method_of call; path = path_of call; body = body }) w
        ≡ tell_result C (direct call w)
  unfolding handle on_files on_settings
  handle_call dec enc reader get_state body w f e = refl
  handle_call dec enc reader (set_files_call files) body w f e =
      rw (f.files files body e, handle, on_files)
  handle_call dec enc reader (update_settings_call s) body w f e =
      rw (f.settings s body e, handle, on_settings)
  handle_call dec enc reader start_sender_call body w f e = refl
  handle_call dec enc reader stop_sender_call body w f e = refl
  handle_call dec enc reader start_listener_call body w f e = refl
  handle_call dec enc reader stop_listener_call body w f e = refl

  read_result :
      (dec : Decoders) (enc : Encoders) (reader : Reader) (call : Call)
      (r : World C × Option String)
      → IsFaithful dec enc reader
      → (
        (tell_result C r).0,
        read_response C reader.snapshot reader (method_of call) (path_of call) (tell_result C r).1,
      )
        ≡ returned call r
  unfolding read_response
  read_result dec enc reader call (w, none) f = ap (λ x. (w, x)) (f.snapshot (snapshot C w))
  read_result dec enc reader call (w, some e) f =
      ap (λ t. (w, err (failure (method_of call) (path_of call) 400 t))) (f.text e)
      ∙ ap (λ t. (w, err t)) (failure-refusal (method_of call) (path_of call) e)

  -- What the client should return, as the request and its response get on.
  abbrev pub delivered : Delivery → Call → World C → World C × Result Snapshot
  delivered arrives call w = returned call (direct call w)
  delivered (refused e) call w = (w, err e)
  delivered (lost e) call w = ((direct call w).0, err e)

  tell_result-world : (r : World C × Option String) → (tell_result C r).0 ≡ r.0
  tell_result-world (w, none) = refl
  tell_result-world (w, some e) = refl

  -- If JSON and the texts of errors are read as they were written, and the payload can be encoded, then a
  -- call changes the daemon as the daemon's own function does, unless the request is refused on its way,
  -- when the daemon is as it was. It returns the snapshot after that function, or the error of that function
  -- without the blanks around it, with the method and the path in front of it; if the request is refused or the response is lost it returns the error
  -- of the connection, so that a call which returns an error may have had its effect.
  pub do_json-direct :
      (dec : Decoders) (enc : Encoders) (reader : Reader) (d : Delivery) (call : Call)
      (body : Bytes) (w : World C)
      → IsFaithful dec enc reader
      → payload_of enc call ≡ ok body
      → do_json C env dec enc reader d call w ≡ delivered d call w
  unfolding do_json fetch
  do_json-direct dec enc reader arrives call body w f e =
      let answer : World C × Response → World C × Result Snapshot =
        λ r. (r.0, read_response C reader.snapshot reader (method_of call) (path_of call) r.1) in
      rw (e, do_json)
        (ap answer (handle_call dec enc reader call body w f e)
          ∙ read_result dec enc reader call (direct call w) f)
  do_json-direct dec enc reader (refused t) call body w f e = rw (e, do_json) refl
  do_json-direct dec enc reader (lost t) call body w f e =
      let answer : World C × Response → World C × Result Snapshot = λ r. (r.0, err t) in
      rw (e, do_json)
        (ap answer (handle_call dec enc reader call body w f e)
          ∙ ap (λ (w : World C). (w, err t)) (tell_result-world (direct call w)))

  -- `Settings` of the client returns the settings of the daemon, and leaves the daemon as it was.
  get_settings-direct :
      (dec : Decoders) (enc : Encoders) (reader : Reader) (w : World C)
      → IsFaithful dec enc reader
      → get_settings C env dec reader arrives w ≡ (w, ok w.daemon.settings)
  unfolding get_settings fetch handle on_settings read_response
  get_settings-direct dec enc reader w f = ap (λ r. (w, r)) (f.read_settings w.daemon.settings)
