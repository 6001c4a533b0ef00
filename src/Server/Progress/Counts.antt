-- ===== src/Server/Progress/Counts.antt =====
-- What the progress events of one file count.
use m_tlsling.Base.{
  ℕ, ◌+◌, ◌≤◌, ◌<◌, ◌≡◌, refl, ◌∙◌, inl, inr, String, true, none, some, List, [], ◌∷◌, ◌++◌, length,
  arith, length-append, All, Option-cases,
}
use m_tlsling.Server.Types.{Bytes, ConnEvent}
use m_tlsling.Server.Progress.{
  ProgressWriter, Chunk, written, write_error, write, before, copy_chunks,
}

-- What the reads give, put together.
abbrev pub content_of : List Chunk → Bytes
content_of [] = []
content_of (c ∷ cs) = c.bytes ++ content_of cs

abbrev pub NoFault : List Chunk → Type 0
NoFault = All (λ c. c.fault ≡ none)

-- The events tell rising counts above `low`, up to `high`.
abbrev pub Rising : ℕ → ℕ → List ConnEvent → Type 0
Rising low high [] = low ≤ high
Rising low high (e ∷ es) = (low ≤ e.transferred) × Rising e.transferred high es

write_sent : (w : ProgressWriter) (c : Chunk) → (write w c).0.sent ≡ w.sent + length (written c)
unfolding write
write_sent w c = ground arith

copy_chunks_next :
    (w : ProgressWriter) (c : Chunk) (cs : List Chunk)
    → write_error c ≡ none
    → copy_chunks w (c ∷ cs) ≡ before (written c) (write w c).1 (copy_chunks (write w c).0 cs)
unfolding copy_chunks
copy_chunks_next w c cs h = ground arith

copy_chunks_stop :
    (w : ProgressWriter) (c : Chunk) (cs : List Chunk) {e : String}
    → write_error c ≡ some e
    → copy_chunks w (c ∷ cs) ≡ record {
      writer = (write w c).0;
      output = written c;
      events = (write w c).1;
      error = some e;
    }
unfolding copy_chunks
copy_chunks_stop w c cs h = ground arith

-- With no fault of the connection the whole content goes out, the writer has counted it, and the copy
-- ends with no error.
pub copy_chunks_total :
    (w : ProgressWriter) (cs : List Chunk)
    → NoFault cs
    → ((copy_chunks w cs).output ≡ content_of cs)
      × ((copy_chunks w cs).writer.sent ≡ w.sent + length (content_of cs))
      × ((copy_chunks w cs).error ≡ none)
unfolding copy_chunks
copy_chunks_total w [] h = ground arith
copy_chunks_total w (c ∷ cs) h = ground (
  arith,
  write_sent w c,
  length-append c.bytes (content_of cs),
  copy_chunks_total (write w c).0 cs h.1,
)

Rising-weaken :
    (low mid high : ℕ) (es : List ConnEvent) → low ≤ mid → Rising mid high es → Rising low high es
Rising-weaken low mid high [] h k = omega arith
Rising-weaken low mid high (e ∷ es) h k = (omega arith, k.1)

Rising-append :
    (low mid high : ℕ) (es fs : List ConnEvent)
    → Rising low mid es
    → Rising mid high fs
    → Rising low high (es ++ fs)
Rising-append low mid high [] fs h k = Rising-weaken low mid high fs h k
Rising-append low mid high (e ∷ es) fs h k = (h.0, Rising-append e.transferred mid high es fs h.1 k)

write-Rising :
    (w : ProgressWriter) (c : Chunk) → Rising w.sent (w.sent + length (written c)) (write w c).1
unfolding write
write-Rising w c = ground arith

-- Whatever the connection, the clock and the channel do, the counts that are told never fall, and
-- none is above what the writer has counted in the end.
pub copy_chunks-Rising :
    (w : ProgressWriter) (cs : List Chunk)
    → Rising w.sent (copy_chunks w cs).writer.sent (copy_chunks w cs).events
unfolding copy_chunks
copy_chunks-Rising w [] = omega arith
copy_chunks-Rising w (c ∷ cs) = elim (Option-cases (write_error c)) [
  | inl e ↦ rw (copy_chunks_next w c cs e) (
      Rising-append w.sent (write w c).0.sent _ (write w c).1 _
        (rw (write_sent w c) (write-Rising w c)) (copy_chunks-Rising (write w c).0 cs))
  | inr (e, f) ↦ rw (copy_chunks_stop w c cs f) (rw (write_sent w c) (write-Rising w c))
]

-- The count of the last event, or `low` if there is none.
abbrev pub last_count : ℕ → List ConnEvent → ℕ
last_count low [] = low
last_count low (e ∷ es) = last_count e.transferred es

last_count-append :
    (low : ℕ) (es fs : List ConnEvent)
    → last_count low (es ++ fs) ≡ last_count (last_count low es) fs
last_count-append low [] fs = refl
last_count-append low (e ∷ es) fs = last_count-append e.transferred es fs

-- If the writer has reached the total, the write has told so.
write_told :
    (w : ProgressWriter) (c : Chunk) (es : List ConnEvent)
    → c.room ≡ true
    → 0 < w.total
    → last_count (write w c).0.sent es ≡ w.total
    → last_count (last_count w.sent (write w c).1) es ≡ w.total
unfolding write
write_told w c [] r p h = ground arith
write_told w c (e ∷ es) r p h = h

write_total : (w : ProgressWriter) (c : Chunk) → (write w c).0.total ≡ w.total
unfolding write
write_total w c = ground arith

-- With no fault and always room in the channel, a copy that brings the count to a total above zero tells
-- that total in its last event.
pub copy_chunks-last_count :
    (w : ProgressWriter) (cs : List Chunk)
    → NoFault cs
    → All (λ c. c.room ≡ true) cs
    → 0 < w.total
    → w.total ≡ w.sent + length (content_of cs)
    → last_count w.sent (copy_chunks w cs).events ≡ w.total
unfolding copy_chunks
copy_chunks-last_count w [] h r p e = omega (arith, e)
copy_chunks-last_count w (c ∷ cs) h r p e =
    let w' = (write w c).0 in
    let told : last_count w'.sent (copy_chunks w' cs).events ≡ w'.total =
      copy_chunks-last_count w' cs h.1 r.1 (rw (write_total w c) p)
        (ground (arith, write_total w c, write_sent w c, length-append c.bytes (content_of cs))) in
    rw (copy_chunks_next w c cs (ground arith)) (
      last_count-append w.sent (write w c).1 (copy_chunks w' cs).events
      ∙ write_told w c (copy_chunks w' cs).events r.0 p (told ∙ write_total w c))
