-- ===== src/Exchange/Delivery.antt =====
-- From the advert of a sender to its files on the disk of a listener.
use m_tlsling.Base.{
  ℕ, ◌+◌, ◌^◌, ◌≤◌, ◌<◌, ◌≡◌, refl, ap, ◌∙◌, sym, subst, String, true, false, Option, none, some,
  List, ◌∷◌, take, take-take, Result, ok, length, leb,
}
use m_tlsling.Base.Int.{pos}
use m_tlsling.Config.{Crypto, Key, Certificate, TlsConfig, client_tls_config}
use m_tlsling.Server.Types.{Bytes}
use m_tlsling.Server.Protocol.{write_manifest}
use m_tlsling.Server.Conn.{ServerEnv}
use m_tlsling.Client.{ClientEnv, Files}
use m_tlsling.Session.{run_session}
use m_tlsling.Session.Transfer.{Faultless}
use m_tlsling.Session.Delivery.{
  Item, paths_of, entries_of, Separate, OnDisk, Delivered, run_session-delivers,
}
use m_tlsling.Discovery.{Advert, signing_payload, new_advert}
use m_tlsling.Discovery.Signature.Accepted.{IsPair, IsBalanced}
use m_tlsling.Discovery.Accept.{IsTrusted}
use m_tlsling.Discovery.RoundTrip.{Encodings}
use m_tlsling.Discovery.Listen.{receive_datagram, receive_soon}
use m_tlsling.Daemon.Types.{ListenerSettings, ListenerEvent}
use m_tlsling.Daemon.State.{World}
use m_tlsling.Daemon.Listener.{is_old_advert, listener_event, expected_name}
use m_tlsling.Daemon.History.Loop.{noted, outcome, hear_advert_flag, fetch_advert-recent}
use m_tlsling.Exchange.{download_from, Host, files_after, hear_on_host, hear_some, hear_datagram}

module _ (C : Crypto) where
  abbrev pub events_of : ℕ → ℕ → Advert → List ListenerEvent → List ListenerEvent
  events_of before after a recent = take 64 (
      listener_event C after a "completed" "download completed"
      ∷ listener_event C before a "connecting" "starting download session"
      ∷ recent)

  module _ (fetch : String → TlsConfig C → String → Files → Files × Option String)
      (s : ListenerSettings) (cert : Certificate C) (roots : Option C.CertPool) where
    abbrev config_for : Advert → TlsConfig C
    config_for a = client_tls_config C cert roots (expected_name s a) s.insecure_skip_verify

    -- What a host does with an advert that is new, if the download ends well.
    hear_on_host-fresh :
        (before after : ℕ) (a : Advert) (h : Host C)
        → (is_old_advert a.id a.timestamp h.world.daemon.listener.seen).0 ≡ false
        → (fetch a.callback (config_for a) s.out_dir h.files).1 ≡ none
        → let h' = hear_on_host C fetch s cert roots before after a h in
          (h'.world.daemon.listener.recent
            ≡ events_of before after a h.world.daemon.listener.recent)
          × (h'.files ≡ (fetch a.callback (config_for a) s.out_dir h.files).0)
    unfolding hear_on_host
    hear_on_host-fresh before after a h fresh fine =
        let d : String → TlsConfig C → String → Option String =
          λ addr cfg out_dir. (fetch addr cfg out_dir h.files).1 in
        let connecting = listener_event C before a "connecting" "starting download session" in
        let recent = h.world.daemon.listener.recent in
        (
          ap (λ (w : World C). w.daemon.listener.recent)
                (hear_advert_flag C d s cert roots before after a h.world false fresh)
              ∙ fetch_advert-recent C d s cert roots before after a
                  (noted C d s cert roots a h.world)
              ∙ take-take 63 (outcome C d s cert roots after a) (connecting ∷ recent)
              ∙ ap (λ e. take 64 (e ∷ connecting ∷ recent)) (ended fine),
          ap (λ b. files_after C fetch s cert roots b a h.files) fresh,
        )
      where
        ended :
            (fetch a.callback (config_for a) s.out_dir h.files).1 ≡ none
            → outcome C
                (λ addr cfg out_dir. (fetch addr cfg out_dir h.files).1)
                s
                cert
                roots
                after
                a
              ≡ listener_event C after a "completed" "download completed"
        ended e = rw e refl

  module _ (unmarshal : List ℕ → Result Advert) (dial : String → TlsConfig C → Option String)
      (env : ServerEnv) (cenv : ClientEnv) (conn : String) (s : ListenerSettings)
      (mine : Certificate C) (roots : Option C.CertPool) where
    abbrev pub fetch_from :
        List Item → String → TlsConfig C → String → Files → Files × Option String
    fetch_from xs = download_from C dial env conn (paths_of xs) cenv

    -- The listener has the files, and tells it.
    abbrev pub Exchanged : List Item → ℕ → ℕ → Advert → Host C → Host C → Type 0
    Exchanged xs before after a h h' =
        (h'.world.daemon.listener.recent ≡ events_of before after a h.world.daemon.listener.recent)
        × Delivered env s.out_dir xs h'.files

    fetched :
        (xs : List Item) (addr : String) (cfg : TlsConfig C) (old : Files)
        → dial addr cfg ≡ none
        → fetch_from xs addr cfg s.out_dir old
          ≡ run_session env conn (paths_of xs) cenv s.out_dir old
    unfolding download_from run_session
    fetched xs addr cfg old e = rw e refl

    hear_on_host-Exchanged :
        (xs : List Item) (before after : ℕ) (a : Advert) (h : Host C)
        → (is_old_advert a.id a.timestamp h.world.daemon.listener.seen).0 ≡ false
        → dial a.callback
            (client_tls_config C mine roots (expected_name s a) s.insecure_skip_verify)
          ≡ none
        → (let r = run_session env conn (paths_of xs) cenv s.out_dir h.files in
            (r.1 ≡ none) × Delivered env s.out_dir xs r.0)
        → Exchanged xs before after a h
            (hear_on_host C (fetch_from xs) s mine roots before after a h)
    hear_on_host-Exchanged xs before after a h fresh met (fine, delivered) =
        let cfg = client_tls_config C mine roots (expected_name s a) s.insecure_skip_verify in
        let same = fetched xs a.callback cfg h.files met in
        let (told, held) =
          hear_on_host-fresh (fetch_from xs) s mine roots before after a h fresh
            (ap (λ (r : Files × Option String). r.1) same ∙ fine) in
        (
          told,
          subst (Delivered env s.out_dir xs)
              (sym (held ∙ ap (λ (r : Files × Option String). r.0) same)) delivered,
        )

    -- A sender makes an advert with its certificate and the key that belongs to it, the halves of an ECDSA
    -- signature are equally long, and the advert comes back from JSON as it was sent. A listener that trusts
    -- the certificate reads it in the two minutes after it was made, on a clock below 2^63 seconds, has not
    -- heard one of that id that is as new, and reaches the sender's server at the address in it. All paths
    -- that the server lists are files, nothing fails on the way, both ends use the same hash, the manifest
    -- has fewer than 2^32 bytes, comes back from JSON as it went and is sent, and no file is written to, or
    -- through, the place of one listed before it. Then every listed file is in its place on the listener's
    -- disk with the hash of the server's content, and of the listener's events, of which 64 are kept, the
    -- newest are the end of the download and its start.
    pub hear_datagram-Exchanged :
        (enc : Encodings C) (made : ℕ) (id callback server_name : String) (cert : Certificate C)
        (key : Key C.RsaPrivate C.EcPrivate) (leaf : C.X509) (der : List ℕ) (ders : List (List ℕ))
        (a : Advert) (datagram : List ℕ) (now before after : ℕ) (h : Host C) (xs : List Item)
        (payload out : Bytes)
        → cert.certificate ≡ der ∷ ders
        → cert.private_key ≡ some key
        → C.parse_certificate der ≡ ok leaf
        → IsPair C key (C.public_key leaf)
        → IsTrusted C leaf roots
        → new_advert C (pos made) id callback server_name cert ≡ ok a
        → IsBalanced C key (signing_payload C a)
        → unmarshal datagram ≡ ok a
        → made ≤ now
        → now < 2 ^ 63
        → leb now (made + 120) ≡ true
        → (is_old_advert a.id a.timestamp h.world.daemon.listener.seen).0 ≡ false
        → dial a.callback
            (client_tls_config C mine roots (expected_name s a) s.insecure_skip_verify)
          ≡ none
        → Faultless env cenv
        → OnDisk env xs
        → Separate s.out_dir xs
        → cenv.codec ≡ env.codec
        → env.codec.marshal (record { files = entries_of env xs }) ≡ ok payload
        → env.codec.unmarshal payload ≡ ok (record { files = entries_of env xs })
        → length payload < 2 ^ 32
        → write_manifest env.codec env.fault (record { files = entries_of env xs }) ≡ ok out
        → Exchanged xs before after a h
            (hear_datagram C (fetch_from xs) s mine roots unmarshal now before after datagram h)
    unfolding hear_datagram
    hear_datagram-Exchanged enc made id callback server_name cert key leaf der ders a datagram now
          before after h xs payload out c k p pair trusted new balanced json late small soon fresh
          met faultless disk apart codec marshal unmarshalled short wrote =
        let received : receive_datagram C unmarshal roots now datagram ≡ some a =
          receive_soon C unmarshal enc made id callback server_name cert key leaf der ders roots a
            datagram c k p pair trusted new balanced json now late small soon in
        subst
          (λ o.
            Exchanged xs before after a h
              (hear_some C (fetch_from xs) s mine roots before after o h))
          (sym received)
          (hear_on_host-Exchanged xs before after a h fresh met (
            run_session-delivers env cenv conn s.out_dir faultless xs h.files payload out disk apart
              codec marshal unmarshalled short wrote))
