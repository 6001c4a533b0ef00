-- ===== src/Discovery/Ambiguous.antt =====
-- The bytes that are signed do not tell where a field ends.
use text.Mathlib.TextLemmas.{nil-append, cons-append}
use mathlib.Core.List.{append_assoc}
use m_tlsling.Base.{◌≡◌, refl, ap, String, ◌<>◌, ◌++◌, utf8}
use m_tlsling.Config.{Crypto}
use m_tlsling.Discovery.{Advert, signing_bytes, signing_payload}

utf8-append : (s t : String) → utf8 (s <> t) ≡ utf8 s ++ utf8 t
unfolding utf8
utf8-append String.[] t = rw nil-append refl
utf8-append (String.◌∷◌ c s) t = rw (cons-append, utf8-append s t, append_assoc) refl

-- Two adverts have the same payload, so the same signature, if a bar moves from the end of the id's
-- field to the start of the callback's: the id of the one is `x|y` and its callback `z`, the id of the
-- other is `x` and its callback `y|z`.
signing_payload-shift :
    (C : Crypto) (x y z : String) (a : Advert)
    → signing_payload C (record a { id = x <> ("|" <> y); callback = z })
      ≡ signing_payload C (record a { id = x; callback = y <> ("|" <> z) })
unfolding signing_payload signing_bytes
signing_payload-shift C x y z a = ap C.sha256 (
    rw
      (
        utf8-append x ("|" <> y),
        utf8-append "|" y,
        utf8-append y ("|" <> z),
        utf8-append "|" z,
        append_assoc,
        append_assoc,
        append_assoc,
        append_assoc,
      )
      refl)
