-- ===== src/Terminal/Flow/Credit.antt =====
-- The balance of credit and bytes on the way (src-tauri/src/remote/terminal_stream.rs).
use hlem_ssh.Prelude.{
  ℕ, suc, ◌+◌, ◌-◌, ◌^◌, ◌≤◌, ◌<◌, ◌≡◌, refl, ap, ◌∙◌, Bool, true, false, ◌||◌, [], ◌∷◌, Option,
  none, some, arith, length, leb, ltb, max, if_cases,
}
use hlem_ssh.Prelude.Text.{Bytes}
use hlem_ssh.Terminal.Bytes.{Memchr, Simd, annotate, annotate_frame, new_frame}
use hlem_ssh.Terminal.Bytes.Frame.{annotate_frame-new_frame}
use hlem_ssh.Terminal.Flow.{
  TerminalFlowControl, Reply, terminal_in_flight_bytes, terminal_frame_bytes, default, acknowledge,
  close, deliver, acquire, send_annotated, send_frame,
}

pub record IsBalanced (flow : TerminalFlowControl) : Type 0 where
  pub behind : flow.acknowledged ≤ flow.sent
  pub balance : flow.permits + (flow.sent - flow.acknowledged) ≡ terminal_in_flight_bytes

default-IsBalanced : IsBalanced default
unfolding default
default-IsBalanced = record { behind = omega arith; balance = omega arith }

-- An acknowledgement, refused or not, keeps the balance of credit and bytes on the way.
pub acknowledge-IsBalanced :
    (consumed : ℕ) (flow : TerminalFlowControl)
    → IsBalanced flow
    → IsBalanced (acknowledge consumed flow).1
unfolding acknowledge
acknowledge-IsBalanced consumed flow v = ground arith

-- When all that was sent is acknowledged, the whole credit is back.
pub acknowledge_all :
    (flow : TerminalFlowControl)
    → IsBalanced flow
    → ((acknowledge flow.sent flow).1.permits ≡ terminal_in_flight_bytes)
      × ((acknowledge flow.sent flow).1.closed ≡ flow.closed)
unfolding acknowledge
acknowledge_all flow v = ground arith

-- Two acknowledgements, neither of more than was sent, have together the effect of the larger on
-- the stream.
pub acknowledge_twice :
    (a b : ℕ) (flow : TerminalFlowControl)
    → a ≤ flow.sent
    → b ≤ flow.sent
    → (acknowledge b (acknowledge a flow).1).1 ≡ (acknowledge (max a b) flow).1
unfolding acknowledge
acknowledge_twice a b flow ha hb = ground arith

deliver-IsBalanced :
    (accepts : Bool) (frame : Bytes) (flow : TerminalFlowControl)
    → length frame - 1 ≤ flow.permits
    → flow.sent + (length frame - 1) < 2 ^ 64
    → IsBalanced flow
    → IsBalanced (deliver accepts frame flow).1
unfolding deliver close
deliver-IsBalanced accepts frame flow fits room v = ground arith

annotate-length :
    (frame : Bytes) (bare : Option Bool) {marked : Bytes}
    → annotate frame bare ≡ some marked
    → length marked ≡ length frame
unfolding annotate
annotate-length [] bare h = cc
annotate-length (kind ∷ body) none h = cc
annotate-length (kind ∷ body) (some bare) h = ground arith

send_annotated-IsBalanced :
    (accepts : Bool) (n : ℕ) (frame : Option Bytes) (flow : TerminalFlowControl)
    → ((marked : Bytes) → frame ≡ some marked → length marked ≡ n)
    → flow.sent + n < 2 ^ 64
    → IsBalanced flow
    → IsBalanced (send_annotated accepts frame flow).1
unfolding send_annotated acquire
send_annotated-IsBalanced accepts n none flow same room v = v
send_annotated-IsBalanced accepts n (some frame) flow same room v =
    let l = same frame refl in
    if_cases Balanced flow.closed _ _ (λ _. v)
      λ _.
        if_cases Balanced (ltb flow.permits (length frame - 1)) _ _ (λ _. v)
          (λ e. deliver-IsBalanced accepts frame flow (ground arith) (omega arith) v)
  where
    Balanced : Reply Bytes × TerminalFlowControl → Type 0
    Balanced p = IsBalanced p.1

-- If the 64-bit count of sent bytes has room for the frame, sending keeps the balance of credit
-- and bytes on the way, whether the frame is refused, waits, is lost or goes out.
pub send_frame-IsBalanced :
    (m : Memchr) (simd : Simd) (accepts : Bool) (frame : Bytes) (flow : TerminalFlowControl)
    → flow.sent + length frame < 2 ^ 64
    → IsBalanced flow
    → IsBalanced (send_frame m simd accepts frame flow).1
unfolding send_frame annotate_frame
send_frame-IsBalanced m simd accepts frame flow room v =
    if_cases (λ (p : Reply Bytes × TerminalFlowControl). IsBalanced p.1)
      (leb (length frame) 1 || ltb (terminal_frame_bytes + 1) (length frame)) _ _ (λ _. v)
      λ _.
        send_annotated-IsBalanced accepts (length frame) (annotate_frame m simd frame) flow
          (λ marked e. annotate-length frame _ e) room v

deliver_ok :
    (frame : Bytes) (flow : TerminalFlowControl)
    → flow.closed ≡ false
    → length frame - 1 ≤ flow.permits
    → (send_annotated true (some frame) flow).0 ≡ Reply.ok frame
unfolding send_annotated acquire deliver
deliver_ok frame flow open_ fits = ground arith

-- In a balanced and open stream, once all that was sent is acknowledged, a new frame whose kind is
-- a byte and whose payload is not empty and within the limit goes out to a channel that takes it,
-- with its payload unchanged.
pub send_frame-proceeds :
    (m : Memchr) (simd : Simd) (kind : ℕ) (body : Bytes) (flow : TerminalFlowControl)
    → IsBalanced flow
    → flow.closed ≡ false
    → kind < 256
    → 0 < length body
    → length body ≤ terminal_frame_bytes
    → (h : ℕ) × ((send_frame m simd true (new_frame kind body) (acknowledge flow.sent flow).1).0
        ≡ Reply.ok (h ∷ body))
unfolding send_frame new_frame
send_frame-proceeds m simd kind body flow v open_ k some_ fits =
    let (h, e, _, _, _) = annotate_frame-new_frame m simd kind body k in
    let balanced = acknowledge-IsBalanced flow.sent flow v in
    let all = acknowledge_all flow v in
    (
      h,
      if_cases (λ (p : Reply Bytes × TerminalFlowControl). p.0 ≡ Reply.ok (h ∷ body))
          (leb (suc (length body)) 1 || ltb (terminal_frame_bytes + 1) (suc (length body))) _ _
          (λ bad. absurd (ground arith))
          (λ _.
            ap (λ (o : Option Bytes). (send_annotated true o (acknowledge flow.sent flow).1).0) e
            ∙ deliver_ok (h ∷ body) (acknowledge flow.sent flow).1 (all.1 ∙ open_)
                (omega (arith, all.0))),
    )
