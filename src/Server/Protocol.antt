-- ===== src/Server/Protocol.antt =====
-- internal/server/protocol.go: a manifest on the wire is a magic word, the payload's length in four
-- bytes, and the payload.
pub mod RoundTrip
pub mod Truncated
use m_tlsling.Base.{
  ℕ, ◌+◌, ◌*◌, ◌/◌, ◌%◌, ◌^◌, String, ◌<>◌, Bool, true, false, not, ◌&&◌, Option, none, some, List,
  [], ◌∷◌, ◌++◌, Result, ok, err, ◌>>=◌, ◌>>◌, wrap, ltb, ◌==◌, if◌then◌else◌, length, take, drop,
}
use m_tlsling.Base.Int.{ℤ, pos, negsuc}
use m_tlsling.Server.Types.{Bytes, Manifest, Codec}

-- "MCAST1"
abbrev pub magic : Bytes
magic = 77 ∷ 67 ∷ 65 ∷ 83 ∷ 84 ∷ 49 ∷ []

-- The conversion `uint32(n)`.
abbrev pub uint32 : ℕ → ℕ
uint32 n = n % 2 ^ 32

-- `binary.Write(w, binary.BigEndian, n)` of a `uint32`.
unfoldable pub put_uint32 : ℕ → Bytes
put_uint32 n = (n / 2 ^ 24 % 256) ∷ (n / 2 ^ 16 % 256) ∷ (n / 2 ^ 8 % 256) ∷ (n % 256) ∷ []

-- `binary.Read(r, binary.BigEndian, &n)` of the four bytes.
unfoldable pub get_uint32 : Bytes → ℕ
get_uint32 (a ∷ b ∷ c ∷ d ∷ _) = a * 2 ^ 24 + b * 2 ^ 16 + c * 2 ^ 8 + d
get_uint32 _ = 0

unfoldable pub same_bytes : Bytes → Bytes → Bool
same_bytes [] [] = true
same_bytes (a ∷ as') (b ∷ bs) = a == b && same_bytes as' bs
same_bytes _ _ = false

-- The bytes that `WriteManifest` puts on the wire. `fault` is the error, if any, that the connection
-- answers with: `bufio.Writer` keeps it, and each of the writes returns it as it is.
unfoldable pub write_manifest : Codec Manifest → (Bytes → Option String) → Manifest → Result Bytes
unfolding put_uint32
write_manifest codec fault m = do
  payload ← wrap "marshal manifest" (codec.marshal m)
  let out = magic ++ (put_uint32 (uint32 (length payload)) ++ payload)
  elim (fault out) [ none ↦ ok out | some e ↦ err e ]

-- `io.ReadFull` of `n` bytes, from a connection on which `input` is what still comes.
unfoldable pub read_full : ℕ → Bytes → Result (Bytes × Bytes)
read_full n [] = if n == 0 then ok ([], []) else err "EOF"
read_full n (b ∷ input) =
    if ltb (length (b ∷ input)) n
    then err "unexpected EOF"
    else ok (take n (b ∷ input), drop n (b ∷ input))

unfoldable pub check_magic : Bytes → Result (Unit {0})
unfolding same_bytes
check_magic hdr = if same_bytes hdr magic then ok tt else err "bad manifest magic"

-- What is left on the connection when a `bufio.Reader` is dropped: `taken` says how many of the bytes
-- behind its last read have come into its buffer, which holds 4096.
unfoldable pub left_over : (Bytes → ℕ) → Bytes → Bytes
left_over taken behind = drop (if ltb (taken behind) 4096 then taken behind else 4096) behind

-- `ReadManifest`, with what it leaves on the connection. It reads through a `bufio.Reader` that it drops.
unfoldable pub read_manifest : Codec Manifest → (Bytes → ℕ) → Bytes → Result (Manifest × Bytes)
unfolding left_over
read_manifest codec taken input = do
  (hdr, input) ← read_full 6 input
  check_magic hdr
  (word, input) ← read_full 4 input
  (payload, input) ← read_full (get_uint32 word) input
  m ← codec.unmarshal payload
  ok (m, left_over taken input)

-- `CopyExactly`, that is `io.CopyN`: what is copied, the error and the bytes left. A size below zero
-- copies nothing and is no error.
unfoldable pub copy_exactly : Bytes → ℤ → Bytes × Option String × Bytes
copy_exactly input (negsuc n) = ([], none, input)
copy_exactly input (pos n) =
    (take n input, (if ltb (length input) n then some "EOF" else none), drop n input)
