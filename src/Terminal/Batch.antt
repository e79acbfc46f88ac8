-- ===== src/Terminal/Batch.antt =====
-- `PendingTerminalOutput` of src-tauri/src/remote.rs and `TerminalOutputBatch` of
-- src-tauri/src/remote/runtime_terminal.rs with the loop of the reader task around it.
pub mod Stream
pub mod Bounds
pub mod Run
pub mod Endings
use hlem_ssh.Prelude.{
  ℕ, zero, suc, ◌+◌, ◌*◌, Bool, true, false, not, ◌&&◌, ◌||◌, List, [], ◌∷◌, ◌++◌, Option, none,
  some, length, take, drop, leb, ltb, ◌==◌, bit_and, if◌then◌else◌,
}
use hlem_ssh.Prelude.Chars.{is_empty}
use hlem_ssh.Prelude.Text.{Bytes}

-- The kinds by which the program calls them: "output", "error" and "system".
pub data Kind : Type 0 where
  output error system : Kind

abbrev pub kind_code : Kind → ℕ
kind_code Kind.output = 0
kind_code Kind.error = 1
kind_code Kind.system = 2

abbrev pub same_kind : Kind → Kind → Bool
same_kind Kind.output Kind.output = true
same_kind Kind.error Kind.error = true
same_kind Kind.system Kind.system = true
same_kind _ _ = false

-- The bytes of a frame: never empty, since the header is there from the start.
pub record PendingTerminalOutput : Type 0 where
  pub header : ℕ
  pub payload : Bytes

abbrev pub frame_of : PendingTerminalOutput → Bytes
frame_of p = p.header ∷ p.payload

abbrev pub new : Kind → Bytes → PendingTerminalOutput
new kind bytes = record { header = kind_code kind; payload = bytes }

unfoldable pub kind_of : PendingTerminalOutput → Kind
kind_of p =
    if bit_and p.header 3 == 1
    then Kind.error
    else if bit_and p.header 3 == 2
    then Kind.system
    else Kind.output

abbrev pub terminal_batch_bytes : ℕ
terminal_batch_bytes = 64 * 1024

-- `TerminalOutputBatch`
abbrev pub Batch : Type 0
Batch = Option PendingTerminalOutput

-- `data.chunks(n)`, with the length of the data as fuel.
unfoldable pub chunks : ℕ → ℕ → Bytes → List Bytes
chunks zero n bytes = []
chunks (suc fuel) n bytes =
    let rest = chunks fuel n (drop n bytes) in if is_empty bytes then [] else take n bytes ∷ rest

abbrev pub extended : Kind → Batch → Bytes → PendingTerminalOutput
extended kind none chunk = new kind chunk
extended kind (some p) chunk = record p { payload = p.payload ++ chunk }

-- What is full goes out.
abbrev pub settle : PendingTerminalOutput → List PendingTerminalOutput × Batch
settle p = if leb terminal_batch_bytes (length p.payload) then (p ∷ [], none) else ([], some p)

unfoldable pub add_chunks : Kind → List Bytes → Batch → List PendingTerminalOutput × Batch
add_chunks kind [] batch = ([], batch)
add_chunks kind (chunk ∷ rest) batch =
    let (ready, next) = settle (extended kind batch chunk) in
    let (more, last) = add_chunks kind rest next in (ready ++ more, last)

-- What cannot take the new data goes out first.
abbrev pub must_go : Kind → ℕ → Batch → Bool
must_go kind size none = false
must_go kind size (some p) =
    not (same_kind (kind_of p) kind) || ltb terminal_batch_bytes (length p.payload + size)

-- `batch.pending.take()`
abbrev pub flushed : Batch → List PendingTerminalOutput
flushed none = []
flushed (some p) = p ∷ []

unfoldable pub push : Kind → Bytes → Batch → List PendingTerminalOutput × Batch
unfolding add_chunks
push kind bytes batch =
    let going = must_go kind (length bytes) batch in
    let ready = if going then flushed batch else [] in
    let kept = if going then none else batch in
    let (more, last) = add_chunks kind (chunks (length bytes) terminal_batch_bytes bytes) kept in
    (ready ++ more, last)

-- What the reader task meets: data of a kind, urgent or not; the tick that flushes; the exit's text.
pub data Message : Type 0 where
  data_ : Kind → Bool → Bytes → Message
  tick : Message
  exit : Bytes → Message

unfoldable pub receive : Message → Batch → List PendingTerminalOutput × Batch
unfolding push
receive (Message.data_ kind urgent bytes) batch =
    let (ready, next) = push kind bytes batch in
    if urgent then (ready ++ flushed next, none) else (ready, next)
receive Message.tick batch = (flushed batch, none)
receive (Message.exit text) batch = (flushed batch ++ new Kind.system text ∷ [], none)

-- What the loop waits for: a message or the tick, with what `closed` holds when it comes.
pub record Arrival : Type 0 where
  pub message : Message
  pub closed : Bool

-- The tick does not look at `closed`.
abbrev pub is_tick : Message → Bool
is_tick Message.tick = true
is_tick _ = false

unfoldable pub stops : Arrival → Bool
stops a = not (is_tick a.message) && a.closed

-- Calls of `emit_or_buffer_terminal_output` on frames in order, until one fails: the frames that were
-- taken, the number of calls so far, and whether none failed. `accepts n` tells how the call that
-- comes after `n` others ends.
unfoldable pub emit :
    (ℕ → Bool) → ℕ → List PendingTerminalOutput → List PendingTerminalOutput × (ℕ × Bool)
emit accepts n [] = ([], (n, true))
emit accepts n (p ∷ ps) =
    let (taken, rest) = emit accepts (suc n) ps in
    if accepts n then (p ∷ taken, rest) else ([], (suc n, false))

-- How the loop ends: by the end of the stream, by a failed call, or by `return`.
pub data Ending : Type 0 where
  finished broken returned : Ending

-- The pending frame after the loop; how the call ends does not matter.
unfoldable pub last_flush : (ℕ → Bool) → ℕ → Batch → List PendingTerminalOutput
last_flush accepts n batch = (emit accepts n (flushed batch)).0

-- The frames that are taken in a whole run, the last flush included, which a `return` skips.
unfoldable pub read_loop :
    (ℕ → Bool) → ℕ → List Arrival → Batch → List PendingTerminalOutput × Ending
unfolding receive
read_loop accepts n [] batch = (last_flush accepts n batch, Ending.finished)
read_loop accepts n (a ∷ arrivals) batch =
    let (ready, next) = receive a.message batch in
    let (taken, (m, went)) = emit accepts n ready in
    let (more, ending) = read_loop accepts m arrivals next in
    if stops a
    then ([], Ending.returned)
    else if went
    then (taken ++ more, ending)
    else (taken ++ last_flush accepts m next, Ending.broken)
