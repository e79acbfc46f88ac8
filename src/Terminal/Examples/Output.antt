-- ===== src/Terminal/Examples/Output.antt =====
-- The theorems on batches and on the gate, at a few bytes.
use hlem_ssh.Prelude.{◌≡◌, refl, true, false, [], ◌∷◌, List, none, arith, All, leb, ◌==◌, ◌||◌}
use hlem_ssh.Prelude.{ℕ, Bool, not}
use hlem_ssh.Terminal.Batch.{Kind, Message, Arrival, new, read_loop}
use hlem_ssh.Terminal.Batch.Endings.{IsRun, read_loop-IsRun}
use hlem_ssh.Terminal.Batch.Bounds.{IsFrame, read_loop-IsFrame}
use hlem_ssh.Terminal.Gate.{TerminalOutputGate, push_pending}
use hlem_ssh.Terminal.Gate.Laws.{IsWithin, IsPushed, push_pending_lem}

abbrev open_now : Message → Arrival
open_now m = record { message = m; closed = false }

abbrev arrivals : List Arrival
arrivals =
    open_now (Message.data_ Kind.output false (104 ∷ 105 ∷ []))
    ∷ open_now (Message.data_ Kind.error false (33 ∷ []))
    ∷ open_now Message.tick
    ∷ open_now (Message.exit (48 ∷ []))
    ∷ []

-- The second call fails.
abbrev fails_once : ℕ → Bool
fails_once n = not (n == 1)

read_loop-IsRun_example : IsRun fails_once 0 arrivals [] (read_loop fails_once 0 arrivals none)
read_loop-IsRun_example = read_loop-IsRun fails_once 0 arrivals none

read_loop-IsFrame_example : All IsFrame (read_loop fails_once 0 arrivals none).0
read_loop-IsFrame_example =
    read_loop-IsFrame fails_once 0 arrivals none (tt, (tt, (tt, ((omega arith, omega arith), tt))))
      tt

-- Three bytes wait, of five at most.
abbrev gate : TerminalOutputGate
gate = record {
  channel = false;
  streaming = false;
  pending = new Kind.output (97 ∷ 98 ∷ 99 ∷ []) ∷ [];
  pending_bytes = 3;
  max_pending_bytes = 5;
}

gate-IsWithin : IsWithin gate
gate-IsWithin = record { counted = refl; bounded = omega arith; small = omega arith }

push_pending_lem_example :
    IsWithin (push_pending (new Kind.error (100 ∷ 101 ∷ 102 ∷ [])) gate)
    × (((gate.max_pending_bytes == 0 || leb 3 0) ≡ false)
        → IsPushed
            (new Kind.error (100 ∷ 101 ∷ 102 ∷ []))
            gate
            (push_pending (new Kind.error (100 ∷ 101 ∷ 102 ∷ [])) gate))
    × (((gate.max_pending_bytes == 0 || leb 3 0) ≡ true)
        → push_pending (new Kind.error (100 ∷ 101 ∷ 102 ∷ [])) gate ≡ gate)
push_pending_lem_example =
    push_pending_lem (new Kind.error (100 ∷ 101 ∷ 102 ∷ [])) gate gate-IsWithin
