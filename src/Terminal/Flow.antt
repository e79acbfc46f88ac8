-- ===== src/Terminal/Flow.antt =====
-- `TerminalFlowControl` of src-tauri/src/remote/terminal_stream.rs: credit for the bytes on their way
-- to the window. tokio's semaphore is its number of permits and whether it is closed; a sender
-- that finds too few permits waits, which is a result of its own here.
pub mod Credit
use hlem_ssh.Prelude.{
  ℕ, ◌+◌, ◌-◌, ◌*◌, ◌%◌, ◌^◌, Bool, true, false, ◌||◌, List, [], ◌∷◌, ◌++◌, Option, none, some,
  length, leb, ltb, max, if◌then◌else◌,
}
use hlem_ssh.Prelude.Text.{Bytes}
use hlem_ssh.Terminal.Bytes.{Memchr, Simd, frame_payload_bytes, annotate_frame}

abbrev pub terminal_in_flight_bytes : ℕ
terminal_in_flight_bytes = 1024 * 1024

abbrev pub terminal_frame_bytes : ℕ
terminal_frame_bytes = frame_payload_bytes

pub record TerminalFlowControl : Type 0 where
  pub permits : ℕ
  pub closed : Bool
  pub sent : ℕ
  pub acknowledged : ℕ
  pub urgent : Bool

unfoldable pub default : TerminalFlowControl
default = record {
  permits = terminal_in_flight_bytes;
  closed = false;
  sent = 0;
  acknowledged = 0;
  urgent = true;
}

pub data FlowError : Type 0 where
  invalid_input remote : FlowError

pub data Reply {ℓ} (A : Type ℓ) : Type ℓ where
  ok : A → Reply A
  err : FlowError → Reply A
  waits panics : Reply A

unfoldable pub acknowledge : ℕ → TerminalFlowControl → Reply (Unit {0}) × TerminalFlowControl
acknowledge consumed flow =
    if ltb flow.sent consumed
    then (Reply.err FlowError.invalid_input, flow)
    else let previous = flow.acknowledged in
      let acked = record flow { acknowledged = max previous consumed } in
      if ltb previous consumed
      then (Reply.ok tt, record acked { permits = flow.permits + (consumed - previous) })
      else (Reply.ok tt, acked)

unfoldable pub close : TerminalFlowControl → TerminalFlowControl
close flow = record flow { closed = true }

-- The permits are taken and not given back, and the bytes are counted; then the channel takes the
-- frame, or fails, which closes the stream. `accepts` is the channel's answer.
deliver : Bool → Bytes → TerminalFlowControl → Reply Bytes × TerminalFlowControl
deliver accepts frame flow =
    let n = length frame - 1 in
    let counted = record flow { permits = flow.permits - n; sent = (flow.sent + n) % 2 ^ 64 } in
    if accepts then (Reply.ok frame, counted) else (Reply.err FlowError.remote, close counted)

acquire : Bool → Bytes → TerminalFlowControl → Reply Bytes × TerminalFlowControl
acquire accepts frame flow =
    if flow.closed
    then (Reply.err FlowError.remote, flow)
    else if ltb flow.permits (length frame - 1)
    then (Reply.waits, flow)
    else deliver accepts frame flow

send_annotated : Bool → Option Bytes → TerminalFlowControl → Reply Bytes × TerminalFlowControl
send_annotated accepts none flow = (Reply.panics, flow)
send_annotated accepts (some frame) flow = acquire accepts frame flow

-- `ok` has the frame that the channel was given.
unfoldable pub send_frame :
    Memchr → Simd → Bool → Bytes → TerminalFlowControl → Reply Bytes × TerminalFlowControl
unfolding send_annotated acquire deliver close
send_frame m simd accepts frame flow =
    if leb (length frame) 1 || ltb (terminal_frame_bytes + 1) (length frame)
    then (Reply.err FlowError.invalid_input, flow)
    else send_annotated accepts (annotate_frame m simd frame) flow
