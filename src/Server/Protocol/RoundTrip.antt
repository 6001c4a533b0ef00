-- ===== src/Server/Protocol/RoundTrip.antt =====
-- What `WriteManifest` sends is what `ReadManifest` reads, and nothing shorter is read.
use m_tlsling.Base.{
  ℕ, ◌^◌, ◌<◌, ◌≤◌, ◌≡◌, refl, ap, ltb, if◌then◌else◌, drop, ◌∙◌, String, Option, [], ◌∷◌, ◌++◌, ok,
  ◌>>=◌, length, arith, length-append, take-length-append, drop-length-append,
}
use m_tlsling.Server.Types.{Bytes, Manifest, Codec}
use m_tlsling.Server.Protocol.{
  magic, uint32, put_uint32, get_uint32, write_manifest, read_full, check_magic, left_over,
  read_manifest,
}

pub get_uint32-put_uint32 : (n : ℕ) → n < 2 ^ 32 → get_uint32 (put_uint32 n) ≡ n
unfolding get_uint32 put_uint32
get_uint32-put_uint32 n h = omega arith

-- Reading as many bytes as stand in front gives those, and the rest.
pub read_full-append : (xs ys : Bytes) → read_full (length xs) (xs ++ ys) ≡ ok (xs, ys)
unfolding read_full
read_full-append [] [] = refl
read_full-append [] (y ∷ ys) = ground arith
read_full-append (x ∷ xs) ys =
    ground (arith, length-append xs ys, take-length-append xs ys, drop-length-append xs ys)

pub read_full-word :
    (n : ℕ) (rest : Bytes) → read_full 4 (put_uint32 n ++ rest) ≡ ok (put_uint32 n, rest)
unfolding put_uint32
read_full-word n rest = read_full-append (put_uint32 n) rest

pub check_magic-magic : check_magic magic ≡ ok tt
unfolding check_magic
check_magic-magic = refl

-- The three reads, one behind the other.
read_manifest-frame :
    (codec : Codec Manifest) (taken : Bytes → ℕ) (payload rest : Bytes) (n : ℕ)
    → n < 2 ^ 32
    → read_manifest codec taken (magic ++ (put_uint32 n ++ (payload ++ rest))) ≡ (do
      (p, input) ← read_full n (payload ++ rest)
      m ← codec.unmarshal p
      ok (m, left_over taken input))
unfolding read_manifest
read_manifest-frame codec taken payload rest n small =
    let tail = payload ++ rest in
    let first : read_full 6 (magic ++ (put_uint32 n ++ tail)) ≡ ok (magic, put_uint32 n ++ tail) =
      read_full-append magic (put_uint32 n ++ tail) in
    let second : read_full 4 (put_uint32 n ++ tail) ≡ ok (put_uint32 n, tail) =
      read_full-word n tail in
    rw (first, read_manifest) (rw (check_magic-magic, second) (rw (get_uint32-put_uint32 n small)))

-- A buffer takes the first bytes, 4096 at most.
left_over-drop :
    (taken : Bytes → ℕ) (rest : Bytes) → (n : ℕ) × (n ≤ 4096) × (left_over taken rest ≡ drop n rest)
unfolding left_over
left_over-drop taken rest = (if ltb (taken rest) 4096 then taken rest else 4096, ground arith, refl)

-- A manifest that is written and whose payload has fewer than 2^32 bytes is read back as it was. Of the
-- bytes behind it those that the dropped buffer has taken are lost, which are the first of them and 4096 at
-- most; the others are left.
pub read_manifest-write_manifest :
    (codec : Codec Manifest) (taken : Bytes → ℕ) (fault : Bytes → Option String) (m : Manifest)
    (payload out rest : Bytes)
    → codec.marshal m ≡ ok payload
    → codec.unmarshal payload ≡ ok m
    → length payload < 2 ^ 32
    → write_manifest codec fault m ≡ ok out
    → (n : ℕ) × (n ≤ 4096) × (read_manifest codec taken (out ++ rest) ≡ ok (m, drop n rest))
unfolding write_manifest
read_manifest-write_manifest codec taken fault m payload out rest e d small w =
    let (n, most, same) = left_over-drop taken rest in
    (n, most, whole w ∙ ap (λ left. ok (m, left)) same)
  where
    frame :
        write_manifest codec fault m ≡ ok out
        → out ≡ magic ++ (put_uint32 (uint32 (length payload)) ++ payload)
    frame w = ground arith

    small_word : uint32 (length payload) ≡ length payload
    small_word = omega arith

    whole :
        write_manifest codec fault m ≡ ok out
        → read_manifest codec taken (out ++ rest) ≡ ok (m, left_over taken rest)
    whole w = rw (frame w) (
        rw small_word (
          read_manifest-frame codec taken payload rest (length payload) small
          ∙ rw (read_full-append payload rest) (rw d)))
