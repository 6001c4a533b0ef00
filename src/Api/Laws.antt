-- ===== src/Api/Laws.antt =====
-- What requests do to the daemon.
use mathlib.Core.List.{Memᴰ}
use m_tlsling.Base.{
  List, [], ◌∷◌, String, ◌<>◌, true, false, Option, none, some, Result, ok, err, if◌then◌else◌,
  ◌=ˢ◌, ◌≡◌, ◌≢◌, refl, sym, subst, inl, inr, All, Bool-cases, eq_iff,
}
use m_tlsling.Config.{Crypto}
use m_tlsling.Daemon.Types.{Settings}
use m_tlsling.Daemon.State.{World, Env}
use m_tlsling.Daemon.Invariant.Defs.{Inv}
use m_tlsling.Daemon.Invariant.Sender.{set_sender_files-Inv, start_sender-Inv, stop_sender-Inv}
use m_tlsling.Daemon.Invariant.Listener.{start_listener-Inv, stop_listener-Inv}
use m_tlsling.Daemon.Invariant.Control.{update_settings-Inv}
use m_tlsling.Daemon.Sender.{set_sender_files, start_sender, stop_sender}
use m_tlsling.Daemon.Listener.{start_listener, stop_listener}
use m_tlsling.Daemon.Control.{update_settings}
use m_tlsling.Daemon.Snapshot.{snapshot}
use m_tlsling.Api.{
  Request, Response, Decoders, message, state, settings, http_error, not_allowed, tell_state,
  tell_result, on_files, on_settings, handle,
}

-- The paths of the handler, with the methods that each takes.
abbrev pub routes : List (String × List String)
routes =
    ("/v1/state", "GET" ∷ [])
    ∷ ("/v1/files", "PUT" ∷ [])
    ∷ ("/v1/settings", "GET" ∷ "PUT" ∷ [])
    ∷ ("/v1/sender/start", "POST" ∷ [])
    ∷ ("/v1/sender/stop", "POST" ∷ [])
    ∷ ("/v1/listener/start", "POST" ∷ [])
    ∷ ("/v1/listener/stop", "POST" ∷ [])
    ∷ []

module _ (C : Crypto) (env : Env C) (dec : Decoders) (r : Request) where
  abbrev pub Is : String → String → Type 0
  Is method path = (r.method ≡ method) × (r.path ≡ path)

  -- What a request asks of the daemon.
  pub data Asks : (World C → World C × Option String) → Type 0 where
    for_state : Is "GET" "/v1/state" → Asks (λ w. (w, none))
    for_files :
        {fs : List String}
        → Is "PUT" "/v1/files"
        → dec.files r.body ≡ ok fs
        → Asks (λ w. (set_sender_files C fs w, none))
    for_settings :
        {s : Settings}
        → Is "PUT" "/v1/settings"
        → dec.settings r.body ≡ ok s
        → Asks (update_settings C env s)
    for_sender : Is "POST" "/v1/sender/start" → Asks (start_sender C env true)
    for_no_sender : Is "POST" "/v1/sender/stop" → Asks (λ w. (stop_sender C true w, none))
    for_listener : Is "POST" "/v1/listener/start" → Asks (start_listener C env true)
    for_no_listener : Is "POST" "/v1/listener/stop" → Asks (λ w. (stop_listener C true w, none))

  -- The answers to the request.
  pub data IsAnswer (w : World C) : World C × Response → Type 0 where
    told :
        {f : World C → World C × Option String}
        → Asks f
        → (f w).1 ≡ none
        → Inv C (f w).0
        → IsAnswer w ((f w).0, record { status = 200; reply = state (snapshot C (f w).0) })
    failed :
        {f : World C → World C × Option String} {e : String}
        → Asks f
        → (f w).1 ≡ some e
        → Inv C (f w).0
        → IsAnswer w ((f w).0, record { status = 400; reply = message e })
    told_settings :
        Is "GET" "/v1/settings"
        → Inv C w
        → IsAnswer w (w, record { status = 200; reply = settings w.daemon.settings })
    no_files :
        {e : String}
        → Is "PUT" "/v1/files"
        → dec.files r.body ≡ err e
        → Inv C w
        → IsAnswer w (w, record { status = 400; reply = message ("decode request: " <> e) })
    no_settings :
        {e : String}
        → Is "PUT" "/v1/settings"
        → dec.settings r.body ≡ err e
        → Inv C w
        → IsAnswer w (w, record { status = 400; reply = message ("decode settings: " <> e) })
    refused :
        (route : String × List String)
        → Memᴰ route routes
        → r.path ≡ route.0
        → All (λ m. r.method ≢ m) route.1
        → Inv C w
        → IsAnswer w (w, record { status = 405; reply = message "method not allowed" })
    unknown :
        All (λ route. r.path ≢ route.0) routes
        → Inv C w
        → IsAnswer w (w, record { status = 404; reply = message "404 page not found" })

  tell_result-IsAnswer :
      {f : World C → World C × Option String} (w : World C)
      → Asks f
      → Inv C (f w).0
      → IsAnswer w (tell_result C (f w))
  tell_result-IsAnswer {f} w a v = by_end (f w) (λ e. told a e v) (λ x e. failed a e v)
    where
      by_end :
          (d : World C × Option String)
          → (d.1 ≡ none → IsAnswer w (d.0, record { status = 200; reply = state (snapshot C d.0) }))
          → ((x : String)
              → d.1 ≡ some x
              → IsAnswer w (d.0, record { status = 400; reply = message x }))
          → IsAnswer w (tell_result C d)
      by_end (w', none) fine bad = fine refl
      by_end (w', some x) fine bad = bad x refl

  by_test :
      (a b : String) {w : World C} {x y : World C × Response}
      → (a ≡ b → IsAnswer w x)
      → (a ≢ b → IsAnswer w y)
      → IsAnswer w (if a =ˢ b then x else y)
  by_test a b {w} {x} {y} same other = elim (Bool-cases (a =ˢ b)) [
    | inl h ↦ subst (λ t. IsAnswer w (if t then x else y)) (sym h) (same ((eq_iff a b).0 h))
    | inr h ↦
        subst (λ t. IsAnswer w (if t then x else y)) (sym h)
          (other (λ e. differ (eq_iff a b).1 e h))
  ]
    where
      differ : (a ≡ b → (a =ˢ b) ≡ true) → a ≡ b → (a =ˢ b) ≡ false → ⊥
      differ f e h = cc (f e)

  only-IsAnswer :
      (method : String) (route : String × List String) {w : World C} {x : World C × Response}
      → Memᴰ route routes
      → r.path ≡ route.0
      → route.1 ≡ method ∷ []
      → Inv C w
      → (r.method ≡ method → IsAnswer w x)
      → IsAnswer w (if r.method =ˢ method then x else (w, not_allowed))
  only-IsAnswer method route i p e v here =
      by_test r.method method here
        (λ n. refused route i p (subst (All (λ m. r.method ≢ m)) (sym e) (n, tt)) v)

  on_files-IsAnswer :
      (w : World C) → r.path ≡ "/v1/files" → Inv C w → IsAnswer w (on_files C dec r w)
  unfolding on_files
  on_files-IsAnswer w p v =
      only-IsAnswer "PUT" ("/v1/files", "PUT" ∷ []) (Memᴰ.tail (Memᴰ.head refl)) p refl v
        (λ m. by_body m (dec.files r.body) refl)
    where
      by_body :
          r.method ≡ "PUT"
          → (d : Result (List String)) → dec.files r.body ≡ d
          → IsAnswer w (elim d as (λ _. World C × Response) [
            | err e ↦ (w, http_error 400 ("decode request: " <> e))
            | ok files ↦ tell_state C (set_sender_files C files w)
          ])
      by_body m (err x) e = no_files (m, p) e v
      by_body m (ok files) e = told (for_files (m, p) e) refl (set_sender_files-Inv C files w v)

  on_settings-IsAnswer :
      (w : World C) → r.path ≡ "/v1/settings" → Inv C w → IsAnswer w (on_settings C env dec r w)
  unfolding on_settings
  on_settings-IsAnswer w p v =
      by_test r.method "GET" (λ m. told_settings (m, p) v)
        (λ n.
          by_test r.method "PUT" (λ m. by_body m (dec.settings r.body) refl)
            (λ n'.
              refused ("/v1/settings", "GET" ∷ "PUT" ∷ []) (Memᴰ.tail (Memᴰ.tail (Memᴰ.head refl)))
                p (n, (n', tt)) v))
    where
      by_body :
          r.method ≡ "PUT"
          → (d : Result Settings) → dec.settings r.body ≡ d
          → IsAnswer w (elim d as (λ _. World C × Response) [
            | err e ↦ (w, http_error 400 ("decode settings: " <> e))
            | ok s ↦ tell_result C (update_settings C env s w)
          ])
      by_body m (err x) e = no_settings (m, p) e v
      by_body m (ok s) e =
          tell_result-IsAnswer w (for_settings (m, p) e) (update_settings-Inv C env s w v)

module _ (C : Crypto) where
  -- Every request to a daemon that has its invariant is answered by its method, path and body, and leaves
  -- the daemon with its invariant. If it is one of the seven that ask something of the daemon and its body
  -- can be decoded, then what it asks for is done: with 200 comes the state as it is afterwards, with 400
  -- the error of that very call. A `GET` of the settings gives them, a body that cannot be decoded is
  -- answered with 400 and the error of the decoder, another method on one of the seven paths with 405,
  -- another path with 404, and then nothing has changed.
  pub handle-IsAnswer :
      (env : Env C) (dec : Decoders) (r : Request) (w : World C)
      → Inv C w
      → IsAnswer C env dec r w (handle C env dec r w)
  unfolding handle
  handle-IsAnswer env dec r w v =
      by_test C env dec r r.path "/v1/state"
        (λ p. only "GET" _ (Memᴰ.head refl) p (λ m. told (for_state (m, p)) refl v))
        (λ n1.
          by_test C env dec r r.path "/v1/files" (λ p. on_files-IsAnswer C env dec r w p v)
            (λ n2.
              by_test C env dec r r.path "/v1/settings"
                (λ p. on_settings-IsAnswer C env dec r w p v)
                (λ n3.
                  by_test C env dec r r.path "/v1/sender/start"
                    (λ p. only "POST" _ (Memᴰ.tail (Memᴰ.tail (Memᴰ.tail (Memᴰ.head refl)))) p (λ m.
                      tell_result-IsAnswer C env dec r w (for_sender (m, p))
                        (start_sender-Inv C env true w v)))
                    (λ n4.
                      by_test C env dec r r.path "/v1/sender/stop"
                        (λ p.
                          only "POST" _
                            (Memᴰ.tail (Memᴰ.tail (Memᴰ.tail (Memᴰ.tail (Memᴰ.head refl))))) p
                            (λ m. told (for_no_sender (m, p)) refl (stop_sender-Inv C true w v)))
                        (λ n5.
                          by_test C env dec r r.path "/v1/listener/start"
                            (λ p.
                              only "POST" _
                                (Memᴰ.tail
                                  (Memᴰ.tail (Memᴰ.tail (Memᴰ.tail (Memᴰ.tail (Memᴰ.head refl))))))
                                p
                                (λ m.
                                  tell_result-IsAnswer C env dec r w (for_listener (m, p))
                                    (start_listener-Inv C env true w v)))
                            (λ n6.
                              by_test C env dec r r.path "/v1/listener/stop"
                                (λ p.
                                  only "POST" _
                                    (Memᴰ.tail (
                                      Memᴰ.tail (
                                        Memᴰ.tail
                                          (Memᴰ.tail (Memᴰ.tail (Memᴰ.tail (Memᴰ.head refl)))))))
                                    p
                                    (λ m.
                                      told (for_no_listener (m, p)) refl
                                        (stop_listener-Inv C true w v)))
                                (λ n7. unknown (n1, (n2, (n3, (n4, (n5, (n6, (n7, tt))))))) v)))))))
    where
      only :
          (method path : String) {x : World C × Response}
          → Memᴰ (path, method ∷ []) routes
          → r.path ≡ path
          → (r.method ≡ method → IsAnswer C env dec r w x)
          → IsAnswer C env dec r w (if r.method =ˢ method then x else (w, not_allowed))
      only method path i p here =
          only-IsAnswer C env dec r method (path, method ∷ []) i p refl v here
