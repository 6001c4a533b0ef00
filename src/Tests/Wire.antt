-- ===== src/Tests/Wire.antt =====
-- The manifest of two files on the wire, and a file's progress.
use m_tlsling.Base.{ℕ, ◌≤◌, drop, ◌≡◌, refl, true, none, List, [], ◌∷◌, ◌++◌, ok, take, arith}
use m_tlsling.Server.Types.{Bytes}
use m_tlsling.Server.Protocol.{magic, put_uint32, same_bytes, write_manifest, read_manifest}
use m_tlsling.Server.Protocol.RoundTrip.{read_manifest-write_manifest}
use m_tlsling.Server.Protocol.Truncated.{read_manifest-take, Fails}
use m_tlsling.Server.Progress.{ProgressWriter, Chunk}
use m_tlsling.Tests.Data.{codec, two_files, payload}

abbrev pub frame : Bytes
frame = magic ++ (put_uint32 2 ++ payload)

write_two : write_manifest codec (λ out. none) two_files ≡ ok frame
unfolding write_manifest codec
write_two = refl

read_manifest-write_manifest_example :
    (n : ℕ) × (n ≤ 4096)
    × (read_manifest codec (λ behind. 1) (frame ++ (7 ∷ 8 ∷ []))
        ≡ ok (two_files, drop n (7 ∷ 8 ∷ [])))
unfolding codec same_bytes
read_manifest-write_manifest_example =
    read_manifest-write_manifest codec (λ behind. 1) (λ out. none) two_files payload frame
      (7 ∷ 8 ∷ []) refl refl (omega arith) write_two

read_manifest-take_example : Fails (read_manifest codec (λ behind. 0) (take 11 frame))
unfolding codec put_uint32
read_manifest-take_example =
    read_manifest-take codec (λ behind. 0) (λ out. none) two_files payload frame 11 refl
      (omega arith) write_two (omega arith)

abbrev writer : ProgressWriter
writer = record { id = "conn-1"; remote = "r"; file = "f"; total = 5; sent = 0; last = none }

-- Two reads: the second comes too early to be told, but for the total.
abbrev reads : List Chunk
reads =
    record { bytes = 104 ∷ 101 ∷ []; fault = none; now = 10; room = true }
    ∷ record { bytes = 108 ∷ 108 ∷ 111 ∷ []; fault = none; now = 20; room = true }
    ∷ []
