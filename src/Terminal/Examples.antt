-- ===== src/Terminal/Examples.antt =====
-- The theorems on frames and credit, at short frames.
pub mod Output
use hlem_ssh.Prelude.{ℕ, ◌≡◌, ◌-◌, refl, true, false, [], ◌∷◌, some, arith, bit_and, if◌then◌else◌}
use hlem_ssh.Prelude.Text.{Bytes}
use hlem_ssh.Terminal.Bytes.{
  Memchr, Simd, positions_from, first_position, has_bare_cr, annotate_frame, new_frame,
  frame_metadata, frame_bare_cr,
}
use hlem_ssh.Terminal.Bytes.Scan.{bare_cr, has_bare_cr-bare_cr}
use hlem_ssh.Terminal.Bytes.Frame.{annotate_frame-new_frame}
use hlem_ssh.Terminal.Flow.{
  TerminalFlowControl, Reply, terminal_in_flight_bytes, acknowledge, send_frame,
}
use hlem_ssh.Terminal.Flow.Credit.{IsBalanced, send_frame-IsBalanced, send_frame-proceeds}

-- A plain search.
abbrev plain : Memchr
plain = record {
  memchr_iter = positions_from 0;
  memchr = first_position;
  memchr_iter_lem = λ needle bytes. refl;
  memchr_lem = λ needle bytes. refl;
}

abbrev body : Bytes
body = 104 ∷ 13 ∷ 105 ∷ []

-- 70 bytes were sent and 20 of them acknowledged.
abbrev partly : TerminalFlowControl
partly = record {
  permits = terminal_in_flight_bytes - 50;
  closed = false;
  sent = 70;
  acknowledged = 20;
  urgent = false;
}

partly-IsBalanced : IsBalanced partly
partly-IsBalanced = record { behind = omega arith; balance = omega arith }

has_bare_cr-bare_cr_example : has_bare_cr plain Simd.avx2 body ≡ some (bare_cr body)
has_bare_cr-bare_cr_example = has_bare_cr-bare_cr plain Simd.avx2 body

send_frame-IsBalanced_example :
    IsBalanced (send_frame plain Simd.neon true (new_frame 1 body) partly).1
send_frame-IsBalanced_example =
    send_frame-IsBalanced plain Simd.neon true (new_frame 1 body) partly
      (unfold new_frame in omega arith) partly-IsBalanced

send_frame-proceeds_example :
    (h : ℕ) × ((send_frame plain Simd.portable true (new_frame 1 body) (acknowledge 70 partly).1).0
      ≡ Reply.ok (h ∷ body))
send_frame-proceeds_example =
    send_frame-proceeds plain Simd.portable 1 body partly partly-IsBalanced refl (omega arith)
      (omega arith) (omega arith)
