-- ===== src/Terminal/Batch/Bounds.antt =====
-- The size of the frames of terminal output (src-tauri/src/remote/runtime_terminal.rs).
use hlem_ssh.Prelude.{
  Bool, ℕ, zero, suc, ◌+◌, ◌≤◌, ◌<◌, ◌≡◌, refl, sym, ap, ◌∙◌, subst, false, List, [], ◌∷◌, ◌++◌,
  none, some, length, take, drop, leb, arith, All, All-append, length-append, length-take, if_cases,
  Bool-cases, inl, inr, drop_all,
}
use hlem_ssh.Prelude.Text.{Bytes}
use hlem_ssh.Terminal.Batch.{
  Arrival, Ending, emit, stops, last_flush, Kind, PendingTerminalOutput, Batch, Message, new,
  chunks, extended, settle, add_chunks, must_go, flushed, push, receive, read_loop,
  terminal_batch_bytes,
}

-- What `send_frame` of the stream takes.
abbrev pub IsFrame : PendingTerminalOutput → Type 0
IsFrame p = (0 < length p.payload) × (length p.payload ≤ terminal_batch_bytes)

-- What may be pending.
abbrev pub IsPending : Batch → Type 0
IsPending none = Unit
IsPending (some p) = (0 < length p.payload) × (length p.payload < terminal_batch_bytes)

abbrev pub IsBounded : List PendingTerminalOutput × Batch → Type 0
IsBounded (ready, next) = All IsFrame ready × IsPending next

flushed-IsFrame : (batch : Batch) → IsPending batch → All IsFrame (flushed batch)
flushed-IsFrame none h = tt
flushed-IsFrame (some p) h = ((h.0, omega arith), tt)

settle-IsBounded : (p : PendingTerminalOutput) → IsFrame p → IsBounded (settle p)
settle-IsBounded p h =
    if_cases IsBounded (leb terminal_batch_bytes (length p.payload)) _ _ (λ e. ((h, tt), tt))
      (λ e. (tt, (h.0, ground arith)))

-- A full frame leaves nothing pending.
settle_full :
    (p : PendingTerminalOutput) → terminal_batch_bytes ≤ length p.payload → (settle p).1 ≡ none
settle_full p h = ground arith

-- All chunks but the last are full.
abbrev Chunked : List Bytes → Type 0
Chunked [] = Unit
Chunked (c ∷ []) = (0 < length c) × (length c ≤ terminal_batch_bytes)
Chunked (c ∷ d ∷ cs) = (length c ≡ terminal_batch_bytes) × Chunked (d ∷ cs)

Chunked-cons :
    (c : Bytes) (cs : List Bytes) → length c ≡ terminal_batch_bytes → Chunked cs → Chunked (c ∷ cs)
Chunked-cons c [] full h = (omega arith, omega arith)
Chunked-cons c (d ∷ cs) full h = (full, h)

chunks_nil : (fuel n : ℕ) → chunks fuel n [] ≡ []
unfolding chunks
chunks_nil zero n = refl
chunks_nil (suc fuel) n = refl

chunks-small :
    (fuel : ℕ) (bytes : Bytes)
    → length bytes ≤ terminal_batch_bytes
    → 0 < length bytes
    → chunks (suc fuel) terminal_batch_bytes bytes ≡ take terminal_batch_bytes bytes ∷ []
unfolding chunks
chunks-small fuel [] small pos = absurd (omega arith)
chunks-small fuel (b ∷ bytes) small pos =
    ap (λ cs. take terminal_batch_bytes (b ∷ bytes) ∷ cs)
      (ap (chunks fuel terminal_batch_bytes) (drop_all terminal_batch_bytes (b ∷ bytes) small)
        ∙ chunks_nil fuel terminal_batch_bytes)

chunks-Chunked : (fuel : ℕ) (bytes : Bytes) → Chunked (chunks fuel terminal_batch_bytes bytes)
chunks-Chunked zero bytes = unfold chunks in tt
chunks-Chunked (suc fuel) [] = unfold chunks in tt
chunks-Chunked (suc fuel) (b ∷ bytes) =
    elim (Bool-cases (leb (length (b ∷ bytes)) terminal_batch_bytes)) [
      | inl e ↦ subst Chunked (sym (chunks-small fuel (b ∷ bytes) (ground arith) (omega arith))) (
        omega (arith, length-take terminal_batch_bytes (b ∷ bytes)),
        omega (arith, length-take terminal_batch_bytes (b ∷ bytes)),
      )
      | inr e ↦ more (chunks-Chunked fuel (drop terminal_batch_bytes (b ∷ bytes))) (ground arith)
    ]
  where
    more :
        Chunked (chunks fuel terminal_batch_bytes (drop terminal_batch_bytes (b ∷ bytes)))
        → terminal_batch_bytes < length (b ∷ bytes)
        → Chunked (chunks (suc fuel) terminal_batch_bytes (b ∷ bytes))
    more rest long =
        unfold chunks in
        Chunked-cons (take terminal_batch_bytes (b ∷ bytes)) _
          (omega (arith, length-take terminal_batch_bytes (b ∷ bytes))) rest

-- Pending data and the chunks fit together: one more chunk at most, which does not overflow.
abbrev Room : Batch → List Bytes → Type 0
Room none cs = Unit
Room (some p) [] = Unit
Room (some p) (c ∷ []) = length p.payload + length c ≤ terminal_batch_bytes
Room (some p) (c ∷ d ∷ cs) = ⊥

extended-IsFrame :
    (kind : Kind) (batch : Batch) (c : Bytes)
    → IsPending batch
    → 0 < length c
    → length c ≤ terminal_batch_bytes
    → Room batch (c ∷ [])
    → IsFrame (extended kind batch c)
extended-IsFrame kind none c h pos small room = (pos, small)
extended-IsFrame kind (some p) c h pos small room =
    (omega (arith, length-append p.payload c), omega (arith, length-append p.payload c))

add_chunks-IsBounded :
    (kind : Kind) (cs : List Bytes) (batch : Batch)
    → IsPending batch
    → Chunked cs
    → Room batch cs
    → IsBounded (add_chunks kind cs batch)
unfolding add_chunks
add_chunks-IsBounded kind [] batch h chunked room = (tt, h)
add_chunks-IsBounded kind (c ∷ []) batch h chunked room =
    let b =
      settle-IsBounded (extended kind batch c)
        (extended-IsFrame kind batch c h chunked.0 chunked.1 room) in
    (All-append IsFrame _ [] b.0 tt, b.1)
add_chunks-IsBounded kind (c ∷ d ∷ cs) (some p) h chunked room = absurd room
add_chunks-IsBounded kind (c ∷ d ∷ cs) none h chunked room =
    let full : terminal_batch_bytes ≤ length c = omega arith in
    let b = settle-IsBounded (new kind c) (omega arith, omega arith) in
    let rest = add_chunks-IsBounded kind (d ∷ cs) none tt chunked.1 tt in
    subst
      (λ (next : Batch). IsBounded (
        (settle (new kind c)).0 ++ (add_chunks kind (d ∷ cs) next).0,
        (add_chunks kind (d ∷ cs) next).1,
      ))
      (sym (settle_full (new kind c) full))
      (All-append IsFrame (settle (new kind c)).0 _ b.0 rest.0, rest.1)

must_go-Room :
    (kind : Kind) (bytes : Bytes) (batch : Batch)
    → must_go kind (length bytes) batch ≡ false
    → Room batch (chunks (length bytes) terminal_batch_bytes bytes)
must_go-Room kind bytes none h = tt
must_go-Room kind [] (some p) h = unfold chunks in tt
must_go-Room kind (b ∷ bytes) (some p) h =
    let fits : length p.payload + length (b ∷ bytes) ≤ terminal_batch_bytes = ground arith in
    subst (Room (some p))
      (sym (chunks-small (length bytes) (b ∷ bytes) (omega arith) (omega arith)))
      (omega (arith, length-take terminal_batch_bytes (b ∷ bytes)))

push-IsBounded :
    (kind : Kind) (bytes : Bytes) (batch : Batch)
    → IsPending batch
    → IsBounded (push kind bytes batch)
unfolding push
push-IsBounded kind bytes batch h =
    let chunked = chunks-Chunked (length bytes) bytes in
    elim (Bool-cases (must_go kind (length bytes) batch)) [
      | inl e ↦
          let b =
            add_chunks-IsBounded kind (chunks (length bytes) terminal_batch_bytes bytes) none tt
              chunked tt in
          rw e (All-append IsFrame (flushed batch) _ (flushed-IsFrame batch h) b.0, b.1)
      | inr e ↦ rw e (
          add_chunks-IsBounded kind (chunks (length bytes) terminal_batch_bytes bytes) batch h
            chunked (must_go-Room kind bytes batch e))
    ]

-- The text of an exit is short, and not empty.
abbrev pub IsShort : Message → Type 0
IsShort (Message.exit text) = (0 < length text) × (length text ≤ terminal_batch_bytes)
IsShort _ = Unit

receive-IsBounded :
    (m : Message) (batch : Batch) → IsShort m → IsPending batch → IsBounded (receive m batch)
unfolding receive
receive-IsBounded (Message.data_ kind urgent bytes) batch short h =
    let (ready, next) = push kind bytes batch in
    let b = push-IsBounded kind bytes batch h in
    if_cases IsBounded urgent _ _
      (λ _. (All-append IsFrame ready (flushed next) b.0 (flushed-IsFrame next b.1), tt)) (λ _. b)
receive-IsBounded Message.tick batch short h = (flushed-IsFrame batch h, tt)
receive-IsBounded (Message.exit text) batch short h = (
  All-append IsFrame (flushed batch) (new Kind.system text ∷ []) (flushed-IsFrame batch h)
      (short, tt),
  tt,
)

emit-IsFrame :
    (accepts : ℕ → Bool) (n : ℕ) (ps : List PendingTerminalOutput)
    → All IsFrame ps
    → All IsFrame (emit accepts n ps).0
unfolding emit
emit-IsFrame accepts n [] h = tt
emit-IsFrame accepts n (p ∷ ps) h =
    if_cases (λ (o : List PendingTerminalOutput × (ℕ × Bool)). All IsFrame o.0) (accepts n) _ _
      (λ _. (h.0, emit-IsFrame accepts (suc n) ps h.1)) (λ _. tt)

-- If what is pending is within the limit, and the exit's text is too, then whichever calls fail and
-- whenever `closed` is set, every frame that a run of the reader task hands on has a payload that is
-- not empty and is at most 64 KiB, as the stream demands.
pub read_loop-IsFrame :
    (accepts : ℕ → Bool) (n : ℕ) (arrivals : List Arrival) (batch : Batch)
    → All (λ (a : Arrival). IsShort a.message) arrivals
    → IsPending batch
    → All IsFrame (read_loop accepts n arrivals batch).0
unfolding read_loop last_flush
read_loop-IsFrame accepts n [] batch short h = emit-IsFrame accepts n _ (flushed-IsFrame batch h)
read_loop-IsFrame accepts n (a ∷ arrivals) batch short h =
    let b = receive-IsBounded a.message batch short.0 h in
    let (ready, next) = receive a.message batch in
    let (taken, (m, went)) = emit accepts n ready in
    let first = emit-IsFrame accepts n ready b.0 in
    let later = read_loop-IsFrame accepts m arrivals next short.1 b.1 in
    if_cases Fine (stops a) _ _ (λ _. tt)
      λ _.
        if_cases Fine went _ _ (λ _. All-append IsFrame taken _ first later)
          (λ _.
            All-append IsFrame taken _ first (emit-IsFrame accepts m _ (flushed-IsFrame next b.1)))
  where
    Fine : List PendingTerminalOutput × Ending → Type 0
    Fine o = All IsFrame o.0
