-- ===== src/Tests/Adverts.antt =====
-- Adverts that are made, checked and told apart.
use m_tlsling.Base.{
  map, keep, leb, ℕ, ◌+◌, ◌^◌, ◌≤◌, ◌≡◌, ◌⊎◌, ◌↔◌, refl, arith, true, false, none, some, List, [],
  ◌∷◌, Result, ok, err,
}
use m_tlsling.Base.Int.{pos, negsuc, pos_part, neg_part}
use m_tlsling.Config.{Certificate, rsa, ecdsa}
use m_tlsling.Discovery.{Advert, is_skewed, skew_or_default, new_advert, verify}
use m_tlsling.Discovery.BigInt.{to_bytes, big_bytes}
use m_tlsling.Discovery.Signature.{sign}
use m_tlsling.Discovery.Skew.{is_skewed_iff}
use m_tlsling.Discovery.Accept.{IsAccepted, verify_iff}
use m_tlsling.Discovery.RoundTrip.{verify-new_advert}
use m_tlsling.Discovery.Listen.{listen, listen-repeated}
use m_tlsling.Discovery.Sockets.{
  timed_out, datagram, Round, listen_rounds, any_noticed, listen_rounds-cancelled,
}
use m_tlsling.Tests.Keys.{unary, small, small-Encodings, rsa-IsPair}

-- A clock of 2023, and the timestamp at the other end of an `int64`.
is_skewed_iff_example :
    (is_skewed (pos 1700000000) (negsuc 9223372035154775807) (pos 120) ≡ false) ↔ (
      ((1700000000 + neg_part (negsuc 9223372035154775807)
          ≤ 120 + pos_part (negsuc 9223372035154775807))
        × (pos_part (negsuc 9223372035154775807)
            ≤ 1700000000 + neg_part (negsuc 9223372035154775807) + 120))
      ⊎ (1700000000 + neg_part (negsuc 9223372035154775807)
          ≡ pos_part (negsuc 9223372035154775807) + 2 ^ 63))
is_skewed_iff_example =
    is_skewed_iff 1700000000 120 (negsuc 9223372035154775807) (omega arith) (omega arith)

sign_balanced : sign small (ecdsa 500) [] ≡ ok (1 ∷ 244 ∷ 1 ∷ 44 ∷ [])
unfolding sign big_bytes to_bytes
sign_balanced = refl

abbrev pub cert : Certificate small
cert = record { certificate = (7 ∷ []) ∷ []; private_key = some (rsa 7) }

abbrev pub made : Advert
made = record {
  id = "sender-1";
  callback = "10.0.0.2:9000";
  server_name = "sender";
  timestamp = pos 1700000000;
  cert_pem = "1111111,";
  signature = "1111111,";
}

pub new_advert-made :
    new_advert small (pos 1700000000) "sender-1" "10.0.0.2:9000" "sender" cert ≡ ok made
unfolding new_advert sign unary
new_advert-made = refl

verify-new_advert_example : verify small (pos 1700000060) none (pos 0) made ≡ ok tt
unfolding is_skewed skew_or_default
verify-new_advert_example =
    verify-new_advert small small-Encodings (pos 1700000000) (pos 1700000060) "sender-1"
      "10.0.0.2:9000" "sender" cert (rsa 7) (7 ∷ []) (7 ∷ []) [] none (pos 0) made refl refl refl
      rsa-IsPair tt new_advert-made tt refl

verify_iff_example :
    (verify small (pos 1700000060) (some 0) (pos 0) made ≡ ok tt)
    ↔ IsAccepted small 1700000060 (some 0) (pos 0) made
verify_iff_example = verify_iff small 1700000060 (some 0) (pos 0) made (omega arith) (omega arith)

-- Three repeats of one advert: at once, after 100 seconds, and too late.
abbrev times : List ℕ
times = 1700000000 ∷ 1700000100 ∷ 1700000121 ∷ []

listen-repeated_example :
    listen small (λ bytes. ok made) none (map (λ t. (t, 123 ∷ [])) times)
    ≡ map (λ t. made) (keep (λ t. leb t (1700000000 + 120)) times)
listen-repeated_example =
    listen-repeated small (λ bytes. ok made) small-Encodings 1700000000 "sender-1" "10.0.0.2:9000"
      "sender" cert (rsa 7) (7 ∷ []) (7 ∷ []) [] none made (123 ∷ []) refl refl refl rsa-IsPair tt
      new_advert-made tt refl times
      ((omega arith, omega arith), ((omega arith, omega arith), ((omega arith, omega arith), tt)))

-- Empty datagrams are malformed.
abbrev read_made : List ℕ → Result Advert
read_made [] = err "unexpected end of JSON input"
read_made (b ∷ bs) = ok made

abbrev empty_datagram : ℕ → Round
empty_datagram now = record { reading = datagram now []; is_cancelled = true; is_taken = false }

-- Two malformed datagrams, a time-out, and an advert that is not read any more.
abbrev last_rounds : List Round
last_rounds =
    empty_datagram 1700000000
    ∷ empty_datagram 1700000004
    ∷ record { reading = timed_out; is_cancelled = true; is_taken = false }
    ∷ record { reading = datagram 1700000009 (123 ∷ []); is_cancelled = true; is_taken = false }
    ∷ []

listen_rounds-cancelled_example :
    listen_rounds small read_made none last_rounds
    ≡ ([], any_noticed small read_made none last_rounds)
listen_rounds-cancelled_example =
    listen_rounds-cancelled small read_made none last_rounds
      ((refl, refl), ((refl, refl), ((refl, refl), ((refl, refl), tt))))
