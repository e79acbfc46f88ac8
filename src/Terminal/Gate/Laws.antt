-- ===== src/Terminal/Gate/Laws.antt =====
-- What the gate keeps of the output before the window listens (src-tauri/src/remote.rs).
use hlem_ssh.Prelude.{
  ℕ, ◌+◌, ◌-◌, ◌≤◌, ◌<◌, ◌^◌, ◌≡◌, refl, ap, true, false, List, [], ◌∷◌, ◌++◌, length, length-drop,
  leb, ltb, ◌==◌, ◌||◌, arith, if_cases, Bool-cases, inl, inr,
}
use hlem_ssh.Prelude.{min, take, take-append-drop, sym}
use hlem_ssh.Prelude.Text.{Bytes}
use hlem_ssh.Prelude.Words.{saturating_add}
use hlem_ssh.Terminal.Batch.{PendingTerminalOutput}
use hlem_ssh.Terminal.Gate.{TerminalOutputGate, trimmed, drop_oldest, push_pending}

abbrev pub payload_bytes : List PendingTerminalOutput → ℕ
payload_bytes [] = 0
payload_bytes (p ∷ ps) = length p.payload + payload_bytes ps

-- The bytes are counted, and within the limit, which is a machine number.
pub record IsWithin (gate : TerminalOutputGate) : Type 0 where
  pub counted : gate.pending_bytes ≡ payload_bytes gate.pending
  pub bounded : gate.pending_bytes ≤ gate.max_pending_bytes
  pub small : gate.max_pending_bytes < 2 ^ 63

payload_bytes-append :
    (ps qs : List PendingTerminalOutput)
    → payload_bytes (ps ++ qs) ≡ payload_bytes ps + payload_bytes qs
payload_bytes-append [] qs = omega arith
payload_bytes-append (p ∷ ps) qs = omega (arith, payload_bytes-append ps qs)

-- No frame went in vain: with it, those after it and the new one the limit was exceeded.
abbrev pub Needed : ℕ → ℕ → List PendingTerminalOutput → List PendingTerminalOutput → Type 0
Needed limit size [] rest = Unit
Needed limit size (p ∷ gone) rest =
    (limit < payload_bytes (p ∷ gone ++ rest) + size) × Needed limit size gone rest

-- What is left is a suffix, in which the bytes are counted and the new frame fits.
record Left (limit size : ℕ) (ps : List PendingTerminalOutput) (o : List PendingTerminalOutput × ℕ)
    : Type 0 where
  gone : List PendingTerminalOutput
  split : ps ≡ gone ++ o.0
  counted : o.1 ≡ payload_bytes o.0
  fits : o.1 + size ≤ limit
  needed : Needed limit size gone o.0

drop_oldest-Left :
    (limit size : ℕ) (ps : List PendingTerminalOutput) (bytes : ℕ)
    → size ≤ limit
    → limit < 2 ^ 63
    → bytes ≤ limit
    → bytes ≡ payload_bytes ps
    → Left limit size ps (drop_oldest limit size ps bytes)
unfolding drop_oldest
drop_oldest-Left limit size [] bytes s l b e = record {
  gone = [];
  split = refl;
  counted = e;
  fits = omega arith;
  needed = tt;
}
drop_oldest-Left limit size (p ∷ ps) bytes s l b e =
    elim (Bool-cases (ltb limit (saturating_add bytes size))) [
      | inl over ↦
          let rest =
            drop_oldest-Left limit size ps (bytes - length p.payload) s l (omega arith)
              (omega arith) in
          rw over (record {
            gone = p ∷ rest.gone;
            split = ap (λ qs. p ∷ qs) rest.split;
            counted = rest.counted;
            fits = rest.fits;
            needed = (ground (arith, over, ap payload_bytes rest.split, e), rest.needed);
          })
      | inr room ↦
          rw room
            (record { gone = []; split = refl; counted = e; fits = ground arith; needed = tt })
    ]

trimmed-length :
    (limit : ℕ) (output : PendingTerminalOutput) → length (trimmed limit output).payload ≤ limit
unfolding trimmed
trimmed-length limit output =
    if_cases (λ (p : PendingTerminalOutput). length p.payload ≤ limit)
      (ltb limit (length output.payload)) _ _
      (λ _. omega (arith, length-drop (length output.payload - limit) output.payload))
      (λ e. ground arith)

-- A frame's header, with the end of its payload, as much as the limit allows.
abbrev pub IsEndOf : ℕ → PendingTerminalOutput → PendingTerminalOutput → Type 0
IsEndOf limit output kept =
    (kept.header ≡ output.header)
    × ((cut : Bytes) × (output.payload ≡ cut ++ kept.payload))
    × (length kept.payload ≡ min (length output.payload) limit)

trimmed-IsEndOf :
    (limit : ℕ) (output : PendingTerminalOutput) → IsEndOf limit output (trimmed limit output)
unfolding trimmed
trimmed-IsEndOf limit output =
    if_cases (IsEndOf limit output) (ltb limit (length output.payload)) _ _
      (λ e. (
        refl,
        (
          take (length output.payload - limit) output.payload,
          sym (take-append-drop (length output.payload - limit) output.payload),
        ),
        ground (arith, e, length-drop (length output.payload - limit) output.payload),
      ))
      λ e. (refl, ([], refl), ground (arith, e))

-- The new output has put the oldest frames out, as few as possible, and stands last with as much of
-- its end as the limit allows.
pub record IsPushed (output : PendingTerminalOutput) (gate next : TerminalOutputGate) : Type 0 where
  pub gone : List PendingTerminalOutput
  pub rest : List PendingTerminalOutput
  pub kept : PendingTerminalOutput
  pub split : gate.pending ≡ gone ++ rest
  pub placed : next.pending ≡ rest ++ kept ∷ []
  pub ending : IsEndOf gate.max_pending_bytes output kept
  pub needed : Needed gate.max_pending_bytes (length kept.payload) gone rest

-- While the window does not listen, output of any size keeps the bytes that wait counted and within
-- the limit, if that is below 2^63. If the limit is 0 or the output is empty, the gate is left as it
-- is; else the output is put last, cut at its start to the limit if it is longer, and of the frames
-- before it the oldest have gone, none of which could have stayed within the limit.
pub push_pending_lem :
    (output : PendingTerminalOutput) (gate : TerminalOutputGate)
    → IsWithin gate
    → IsWithin (push_pending output gate)
      × (((gate.max_pending_bytes == 0 || leb (length output.payload) 0) ≡ false)
          → IsPushed output gate (push_pending output gate))
      × (((gate.max_pending_bytes == 0 || leb (length output.payload) 0) ≡ true)
          → push_pending output gate ≡ gate)
unfolding push_pending
push_pending_lem output gate v =
    let kept = trimmed gate.max_pending_bytes output in
    let left =
      drop_oldest-Left gate.max_pending_bytes (length kept.payload) gate.pending gate.pending_bytes
        (trimmed-length gate.max_pending_bytes output) v.small v.bounded v.counted in
    elim (Bool-cases (gate.max_pending_bytes == 0 || leb (length output.payload) 0)) [
      | inl e ↦ rw e (v, (λ h. cc), λ h. refl)
      | inr e ↦ rw e (
        record {
          counted = omega (
            arith,
            left.counted,
            payload_bytes-append
                (drop_oldest gate.max_pending_bytes (length kept.payload) gate.pending
                  gate.pending_bytes).0
                (kept ∷ []),
          );
          bounded = left.fits;
          small = v.small;
        },
        (λ h. record {
          gone = left.gone;
          rest = _;
          kept = kept;
          split = left.split;
          placed = refl;
          ending = trimmed-IsEndOf gate.max_pending_bytes output;
          needed = left.needed;
        }),
        λ h. cc,
      )
    ]
