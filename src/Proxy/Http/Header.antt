-- ===== src/Proxy/Http/Header.antt =====
-- What `read_http_header` of src-tauri/src/remote/proxy.rs reads.
use hlem_ssh.Prelude.{
  ℕ, zero, suc, ◌≤◌, ◌≡◌, refl, ap, sym, ◌∙◌, true, false, [], ◌∷◌, ◌++◌, length, arith, if_cases,
}
use hlem_ssh.Prelude.Text.{Bytes}
use hlem_ssh.Proxy.Wire.{Answer, Wire}
use hlem_ssh.Proxy.Http.{ends_header, reverse_onto, header_loop, read_http_header, max_header_bytes}

-- After the bytes of a buffer, last byte first, these bytes end a header for the first time.
abbrev pub EndsFirst : Bytes → Bytes → Type 0
EndsFirst buffer [] = ⊥
EndsFirst buffer (b ∷ []) = ends_header (b ∷ buffer) ≡ true
EndsFirst buffer (b ∷ c ∷ bytes) =
    (ends_header (b ∷ buffer) ≡ false) × EndsFirst (b ∷ buffer) (c ∷ bytes)

-- The loop reads what ends the header, if there is room for it.
header_loop-EndsFirst :
    (lossy : Bytes → Bytes) (room : ℕ) (buffer front rest : Bytes)
    → length front ≤ room
    → EndsFirst buffer front
    → header_loop lossy room buffer (front ++ rest)
      ≡ (Answer.ok (lossy (reverse_onto buffer front)), rest)
unfolding header_loop
header_loop-EndsFirst lossy room buffer [] rest fits h = absurd h
header_loop-EndsFirst lossy zero buffer (b ∷ front) rest fits h = absurd (omega arith)
header_loop-EndsFirst lossy (suc room) buffer (b ∷ []) rest fits h = rw h refl
header_loop-EndsFirst lossy (suc room) buffer (b ∷ c ∷ front) rest fits (h, later) =
    rw h (header_loop-EndsFirst lossy room (b ∷ buffer) (c ∷ front) rest (omega arith) later)

-- What the loop has read, if it answers a header.
abbrev Took : (Bytes → Bytes) → ℕ → Bytes → Bytes → Answer Bytes × Bytes → Type 0
Took lossy room buffer incoming (Answer.ok header, rest) =
    (front : Bytes) × (incoming ≡ front ++ rest)
    × (header ≡ lossy (reverse_onto buffer front))
    × (length front ≤ room)
    × EndsFirst buffer front
Took lossy room buffer incoming (Answer.err e, rest) = Unit

EndsFirst-cons :
    (buffer front : Bytes) (b : ℕ)
    → ends_header (b ∷ buffer) ≡ false
    → EndsFirst (b ∷ buffer) front
    → EndsFirst buffer (b ∷ front)
EndsFirst-cons buffer [] b e h = absurd h
EndsFirst-cons buffer (c ∷ front) b e h = (e, h)

Took-cons :
    (lossy : Bytes → Bytes) (room : ℕ) (buffer incoming : Bytes) (b : ℕ)
    (outcome : Answer Bytes × Bytes)
    → ends_header (b ∷ buffer) ≡ false
    → Took lossy room (b ∷ buffer) incoming outcome
    → Took lossy (suc room) buffer (b ∷ incoming) outcome
Took-cons lossy room buffer incoming b (Answer.err failure, rest) e t = tt
Took-cons lossy room buffer incoming b (Answer.ok header, rest) e
      (front, split, whole, fits, ends) =
    (
      b ∷ front,
      ap (λ bytes. b ∷ bytes) split,
      whole,
      omega arith,
      EndsFirst-cons buffer front b e ends,
    )

header_loop-Took :
    (lossy : Bytes → Bytes) (room : ℕ) (buffer incoming : Bytes)
    → Took lossy room buffer incoming (header_loop lossy room buffer incoming)
unfolding header_loop
header_loop-Took lossy zero buffer incoming = tt
header_loop-Took lossy (suc room) buffer [] = tt
header_loop-Took lossy (suc room) buffer (b ∷ incoming) =
    let rest = header_loop-Took lossy room (b ∷ buffer) incoming in
    if_cases (Took lossy (suc room) buffer (b ∷ incoming)) (ends_header (b ∷ buffer)) _ _
      (λ e. (b ∷ [], refl, refl, omega arith, e))
      λ e.
        Took-cons lossy room buffer incoming b (header_loop lossy room (b ∷ buffer) incoming) e rest

-- An answered header and the bytes that it is the reading of.
abbrev pub IsReading : (Bytes → Bytes) → Bytes → Bytes → Bytes → Type 0
IsReading lossy incoming header rest =
    (front : Bytes) × (header ≡ lossy front)
    × (incoming ≡ front ++ rest)
    × (length front ≤ max_header_bytes)
    × EndsFirst [] front

Took-found :
    (lossy : Bytes → Bytes) (incoming header : Bytes) (outcome : Answer Bytes × Bytes)
    → outcome.0 ≡ Answer.ok header
    → Took lossy max_header_bytes [] incoming outcome
    → IsReading lossy incoming header outcome.1
Took-found lossy incoming header (Answer.err e, rest) h t = cc
Took-found lossy incoming header (Answer.ok found, rest) h (front, split, whole, fits, ends) =
    let same : found ≡ header = cc h in (front, sym same ∙ whole, split, fits, ends)

-- Reading a header takes from the stream exactly the bytes up to and with the first empty line, if
-- these are at most 16 KiB, and answers their lossy reading; and it answers nothing else than the
-- lossy reading of such bytes, which it took.
pub read_http_header_lem :
    (lossy : Bytes → Bytes) (w : Wire)
    → ((front rest : Bytes)
        → w.incoming ≡ front ++ rest
        → length front ≤ max_header_bytes
        → EndsFirst [] front
        → read_http_header lossy w ≡ (Answer.ok (lossy front), record w { incoming = rest }))
      × ((header : Bytes)
          → (read_http_header lossy w).0 ≡ Answer.ok header
          → IsReading lossy w.incoming header (read_http_header lossy w).1.incoming)
unfolding read_http_header
read_http_header_lem lossy w = (
  λ front rest split fits ends.
      ap (λ (o : Answer Bytes × Bytes). (o.0, record w { incoming = o.1 }))
        (ap (header_loop lossy max_header_bytes []) split
          ∙ header_loop-EndsFirst lossy max_header_bytes [] front rest fits ends),
  λ header h.
      Took-found lossy w.incoming header (header_loop lossy max_header_bytes [] w.incoming) h
        (header_loop-Took lossy max_header_bytes [] w.incoming),
)
