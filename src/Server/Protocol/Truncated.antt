-- ===== src/Server/Protocol/Truncated.antt =====
-- A manifest that was cut off on its way is refused.
use m_tlsling.Base.{
  ℕ, zero, suc, ◌+◌, ◌^◌, ◌<◌, ◌≡◌, refl, ap, String, Option, [], ◌∷◌, ◌++◌, Result, ok, err, ◌>>=◌,
  length, take, arith, dec_lt, ◌-◌,
}
use m_tlsling.Server.Types.{Bytes, Manifest, Codec}
use m_tlsling.Server.Protocol.{
  magic, uint32, put_uint32, same_bytes, write_manifest, read_full, check_magic, read_manifest,
}
use m_tlsling.Server.Protocol.RoundTrip.{
  read_full-word, check_magic-magic, get_uint32-put_uint32, read_full-append,
}

abbrev pub Fails {ℓ} : {A : Type ℓ} → Result A → Type 0
Fails (ok a) = ⊥
Fails (err e) = Unit

length-take-lt : (k : ℕ) (xs : Bytes) → k < length xs → length (take k xs) < length xs
length-take-lt zero xs h = h
length-take-lt (suc k) [] h = elim h [ ]
length-take-lt (suc k) (x ∷ xs) h = omega (arith, length-take-lt k xs (omega arith))

read_full_short : (n : ℕ) (xs : Bytes) → length xs < n → Fails (read_full n xs)
unfolding read_full
read_full_short n [] h = ground arith
read_full_short n (x ∷ xs) h = ground arith

Fails->>= {ℓ κ} :
    {A : Type ℓ} {B : Type κ} (r : Result A) (f : A → Result B) → Fails r → Fails (r >>= f)
Fails->>= (ok a) f h = absurd h
Fails->>= (err e) f h = tt

-- The header and the length have come whole, the payload has not.
read_manifest_short_payload :
    (codec : Codec Manifest) (taken : Bytes → ℕ) (payload : Bytes) (n : ℕ)
    → n < 2 ^ 32
    → length payload < n
    → Fails (read_manifest codec taken (magic ++ (put_uint32 n ++ payload)))
unfolding read_manifest
read_manifest_short_payload codec taken payload n small short =
    let first : read_full 6 (magic ++ (put_uint32 n ++ payload))
        ≡ ok (magic, put_uint32 n ++ payload) =
      read_full-append magic (put_uint32 n ++ payload) in
    let second : read_full 4 (put_uint32 n ++ payload) ≡ ok (put_uint32 n, payload) =
      read_full-word n payload in
    rw (first, read_manifest)
      (rw (check_magic-magic, second)
        (rw (get_uint32-put_uint32 n small)
          (Fails->>= (read_full n payload) _ (read_full_short n payload short))))

-- Fewer than ten bytes are no header.
read_manifest_short_header :
    (codec : Codec Manifest) (taken : Bytes → ℕ) (payload : Bytes) (n k : ℕ)
    → k < 10
    → Fails (read_manifest codec taken (take k (magic ++ (put_uint32 n ++ payload))))
unfolding read_manifest read_full check_magic put_uint32 same_bytes
read_manifest_short_header codec taken payload n zero h = tt
read_manifest_short_header codec taken payload n (suc zero) h = tt
read_manifest_short_header codec taken payload n (suc (suc zero)) h = tt
read_manifest_short_header codec taken payload n (suc (suc (suc zero))) h = tt
read_manifest_short_header codec taken payload n (suc (suc (suc (suc zero)))) h = tt
read_manifest_short_header codec taken payload n (suc (suc (suc (suc (suc zero))))) h = tt
read_manifest_short_header codec taken payload n (suc (suc (suc (suc (suc (suc zero)))))) h = tt
read_manifest_short_header codec taken payload n (suc (suc (suc (suc (suc (suc (suc zero))))))) h =
    tt
read_manifest_short_header codec taken payload n
      (suc (suc (suc (suc (suc (suc (suc (suc zero)))))))) h =
    tt
read_manifest_short_header codec taken payload n
      (suc (suc (suc (suc (suc (suc (suc (suc (suc zero))))))))) h =
    tt
read_manifest_short_header codec taken payload n
      (suc (suc (suc (suc (suc (suc (suc (suc (suc (suc k)))))))))) h =
    absurd (omega arith)

take-frame :
    (payload : Bytes) (n j : ℕ)
    → take
        (suc (suc (suc (suc (suc (suc (suc (suc (suc (suc j))))))))))
        (magic ++ (put_uint32 n ++ payload))
      ≡ magic ++ (put_uint32 n ++ take j payload)
unfolding put_uint32
take-frame payload n j = refl

read_manifest_cut :
    (codec : Codec Manifest) (taken : Bytes → ℕ) (payload : Bytes) (k : ℕ)
    → length payload < 2 ^ 32
    → k < 10 + length payload
    → Fails (read_manifest codec taken (take k (magic ++ (put_uint32 (length payload) ++ payload))))
read_manifest_cut codec taken payload k small short = elim (dec_lt k 10) [
  | yes h ↦ read_manifest_short_header codec taken payload (length payload) k h
  | no h ↦
      let e : k ≡ suc (suc (suc (suc (suc (suc (suc (suc (suc (suc (k - 10)))))))))) =
        omega arith in
      rw e (
        rw (take-frame payload (length payload) (k - 10)) (
          read_manifest_short_payload codec taken (take (k - 10) payload) (length payload) small
            (length-take-lt (k - 10) payload (omega arith))))
]

-- Of a manifest that `WriteManifest` wrote, with a payload of fewer than 2^32 bytes, no proper prefix is
-- read as a manifest: `ReadManifest` fails.
pub read_manifest-take :
    (codec : Codec Manifest) (taken : Bytes → ℕ) (fault : Bytes → Option String) (m : Manifest)
    (payload out : Bytes) (k : ℕ)
    → codec.marshal m ≡ ok payload
    → length payload < 2 ^ 32
    → write_manifest codec fault m ≡ ok out
    → k < length out
    → Fails (read_manifest codec taken (take k out))
unfolding write_manifest
read_manifest-take codec taken fault m payload out k e small w short =
    let frame : out ≡ magic ++ (put_uint32 (length payload) ++ payload) =
      ground (arith, small_word) in
    rw frame (read_manifest_cut codec taken payload k small (omega (arith, ap length frame)))
  where
    small_word : uint32 (length payload) ≡ length payload
    small_word = omega arith
