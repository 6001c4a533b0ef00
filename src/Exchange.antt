-- ===== src/Exchange.antt =====
-- The parts together: a host with a running listener (internal/senderdaemon with internal/client) hears the
-- advert (internal/discovery) of a sender and downloads from its server (internal/server).
pub mod Delivery
use m_tlsling.Base.{ℕ, String, Bool, Option, none, some, List, Result, ok, err, if◌then◌else◌}
use m_tlsling.Config.{Crypto, Certificate, TlsConfig, client_tls_config}
use m_tlsling.Server.Types.{Bytes}
use m_tlsling.Server.Conn.{ServerEnv}
use m_tlsling.Client.{ClientEnv, Files, download}
use m_tlsling.Session.{Waiting, server_peer, greet}
use m_tlsling.Discovery.{Advert}
use m_tlsling.Discovery.Listen.{receive_datagram}
use m_tlsling.Daemon.Types.{ListenerSettings}
use m_tlsling.Daemon.State.{World}
use m_tlsling.Daemon.Listener.{is_old_advert, expected_name, hear_advert}

abbrev pub dialled : ServerEnv → List String → Option String → Result (Waiting × Bytes)
dialled env paths none = ok (greet env paths)
dialled env paths (some e) = err e

module _ (C : Crypto) where
  -- `client.Download` from a server with these files: the dial, with its handshake, ends with an error or
  -- comes to the handler.
  unfoldable pub download_from :
      (String → TlsConfig C → Option String)
      → ServerEnv
      → String
      → List String
      → ClientEnv
      → String
      → TlsConfig C
      → String
      → Files
      → Files × Option String
  download_from dial env id paths cenv addr cfg out_dir old =
      download (server_peer env id paths) cenv (dialled env paths (dial addr cfg)) out_dir old

  -- The daemon of the listening host, and its disk.
  pub record Host : Type 0 where
    pub world : World C
    pub files : Files

  module _ (fetch : String → TlsConfig C → String → Files → Files × Option String)
      (s : ListenerSettings) (cert : Certificate C) (roots : Option C.CertPool) where
    abbrev pub files_after : Bool → Advert → Files → Files
    files_after old a files =
        if old
        then files
        else (fetch a.callback
            (client_tls_config C cert roots (expected_name s a) s.insecure_skip_verify) s.out_dir
            files).0

    -- A round of `runListener` on the host: an advert that is new is fetched.
    unfoldable pub hear_on_host : ℕ → ℕ → Advert → Host → Host
    hear_on_host before after a h = record {
      world =
          hear_advert C (λ addr cfg out_dir. (fetch addr cfg out_dir h.files).1) before after s cert
            roots a h.world;
      files = files_after (is_old_advert a.id a.timestamp h.world.daemon.listener.seen).0 a h.files;
    }

    abbrev pub hear_some : ℕ → ℕ → Option Advert → Host → Host
    hear_some before after none h = h
    hear_some before after (some a) h = hear_on_host before after a h

    -- A datagram, from the socket of `discovery.Listen` on.
    unfoldable pub hear_datagram : (List ℕ → Result Advert) → ℕ → ℕ → ℕ → List ℕ → Host → Host
    hear_datagram unmarshal now before after datagram h =
        hear_some before after (receive_datagram C unmarshal roots now datagram) h
