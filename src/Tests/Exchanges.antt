-- ===== src/Tests/Exchanges.antt =====
-- A sender with two files, and a listener that has one of them in another version.
use m_tlsling.Base.{refl, arith, String, lookup, none, [], ◌∷◌, Option, ok}
use m_tlsling.Config.{TlsConfig, rsa}
use m_tlsling.FilePath.{
  base, clean, is_abs, render, parts, relative_path, split, walk, push_part, trim_slash, join_slash,
}
use m_tlsling.Server.Hex.{hex}
use m_tlsling.Daemon.Types.{ListenerSettings}
use m_tlsling.Daemon.State.{start_world}
use m_tlsling.Daemon.Listener.{is_old_advert}
use m_tlsling.Exchange.{Host, hear_datagram}
use m_tlsling.Exchange.Delivery.{fetch_from, Exchanged, hear_datagram-Exchanged}
use m_tlsling.Tests.Keys.{small, small-Encodings, rsa-IsPair}
use m_tlsling.Tests.Data.{payload, codec, server, client}
use m_tlsling.Tests.Wire.{frame}
use m_tlsling.Tests.Transfer.{items, items-Separate, ends-Faultless, write_two}
use m_tlsling.Tests.Adverts.{cert, made, new_advert-made}
use m_tlsling.Tests.Daemons.{settings, new}

abbrev reachable : String → TlsConfig small → Option String
reachable addr cfg = none

abbrev into_out : ListenerSettings
into_out = record (settings.listener) { out_dir = "out" }

abbrev host : Host small
host = record { world = new; files = ("out/srv/hello.md", 1 ∷ []) ∷ [] }

hear_datagram-Exchanged_example :
    Exchanged small
      (λ bytes. ok made)
      reachable
      server
      client
      "conn-1"
      into_out
      cert
      none
      items
      30
      40
      made
      host
      (hear_datagram small
        (fetch_from small
          (λ bytes. ok made)
          reachable
          server
          client
          "conn-1"
          into_out
          cert
          none
          items)
        into_out
        cert
        none
        (λ bytes. ok made)
        1700000060
        30
        40
        (123 ∷ [])
        host)
unfolding codec hex base relative_path clean trim_slash is_abs render parts split walk push_part
    join_slash start_world is_old_advert lookup
hear_datagram-Exchanged_example =
    hear_datagram-Exchanged small (λ bytes. ok made) reachable server client "conn-1" into_out cert
      none small-Encodings 1700000000 "sender-1" "10.0.0.2:9000" "sender" cert (rsa 7) (7 ∷ [])
      (7 ∷ []) [] made (123 ∷ []) 1700000060 30 40 host items payload frame refl refl refl
      rsa-IsPair tt new_advert-made tt refl (omega arith) (omega arith) refl refl refl
      ends-Faultless (refl, (refl, tt)) items-Separate refl refl refl (omega arith) write_two
