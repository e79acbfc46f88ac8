-- ===== src/Terminal/Gate.antt =====
-- `TerminalOutputGate` of src-tauri/src/remote.rs: the output before the window listens, and
-- `terminal_start` and `emit_or_buffer_terminal_output` of src-tauri/src/remote/runtime_terminal.rs.
pub mod Laws
use hlem_ssh.Prelude.{
  ℕ, ◌+◌, ◌-◌, ◌*◌, Bool, true, false, not, ◌&&◌, ◌||◌, List, [], ◌∷◌, ◌++◌, Option, none, some,
  length, drop, leb, ltb, ◌==◌, if◌then◌else◌,
}
use hlem_ssh.Prelude.Words.{saturating_add}
use hlem_ssh.Terminal.Batch.{PendingTerminalOutput}

abbrev pub max_terminal_startup_output_bytes : ℕ
max_terminal_startup_output_bytes = 4 * 1024 * 1024

-- The channel is whether there is one.
pub record TerminalOutputGate : Type 0 where
  pub channel : Bool
  pub streaming : Bool
  pub pending : List PendingTerminalOutput
  pub pending_bytes : ℕ
  pub max_pending_bytes : ℕ

abbrev pub new : ℕ → TerminalOutputGate
new max_pending_bytes = record {
  channel = false;
  streaming = false;
  pending = [];
  pending_bytes = 0;
  max_pending_bytes = max_pending_bytes;
}

unfoldable pub start : TerminalOutputGate → List PendingTerminalOutput × TerminalOutputGate
start gate =
    if gate.streaming
    then ([], gate)
    else (gate.pending, record gate { streaming = true; pending_bytes = 0; pending = [] })

-- A payload that is too long alone keeps its end.
unfoldable pub trimmed : ℕ → PendingTerminalOutput → PendingTerminalOutput
trimmed limit output =
    if ltb limit (length output.payload)
    then record output { payload = drop (length output.payload - limit) output.payload }
    else output

-- The oldest frames go until the new one fits.
unfoldable pub drop_oldest : ℕ → ℕ → List PendingTerminalOutput → ℕ → List PendingTerminalOutput × ℕ
drop_oldest limit size [] bytes = ([], bytes)
drop_oldest limit size (p ∷ pending) bytes =
    let rest = drop_oldest limit size pending (bytes - length p.payload) in
    if ltb limit (saturating_add bytes size) then rest else (p ∷ pending, bytes)

unfoldable pub push_pending : PendingTerminalOutput → TerminalOutputGate → TerminalOutputGate
unfolding trimmed drop_oldest
push_pending output gate =
    if gate.max_pending_bytes == 0 || leb (length output.payload) 0
    then gate
    else let kept = trimmed gate.max_pending_bytes output in
      let (pending, bytes) =
        drop_oldest gate.max_pending_bytes (length kept.payload) gate.pending gate.pending_bytes in
      record gate { pending = pending ++ kept ∷ []; pending_bytes = bytes + length kept.payload }

-- `emit_or_buffer_terminal_output`: the frame that goes to the stream, if there is one.
unfoldable pub emit_or_buffer_terminal_output :
    PendingTerminalOutput → TerminalOutputGate → Option PendingTerminalOutput × TerminalOutputGate
unfolding push_pending
emit_or_buffer_terminal_output output gate =
    if gate.channel
    then (some output, gate)
    else if not gate.streaming
    then (none, push_pending output gate)
    else (none, gate)

-- `terminal_start`: the frames that go to the new channel, or `none` where it is refused.
unfoldable pub terminal_start :
    TerminalOutputGate → Option (List PendingTerminalOutput) × TerminalOutputGate
unfolding start
terminal_start gate =
    if gate.streaming
    then (none, gate)
    else let (pending, next) = start (record gate { channel = true }) in (some pending, next)
