-- ===== src/Terminal/Batch/Run.antt =====
-- The bytes that a whole run of the reader task hands on (src-tauri/src/remote/runtime_terminal.rs).
use hlem_ssh.Prelude.{
  ℕ, suc, ◌≡◌, refl, sym, ap, ◌∙◌, Bool, true, List, [], ◌∷◌, ◌++◌, append_assoc, Bool-cases, inl,
  inr,
}
use hlem_ssh.Terminal.Batch.{Kind, PendingTerminalOutput, Batch, flushed, receive}
use hlem_ssh.Terminal.Batch.{Arrival, emit}
use hlem_ssh.Terminal.Batch.Stream.{stream, said, stream-append, receive-joined}

-- What a run meets, in order: what was pending, and what comes.
abbrev pub met : List Arrival → List (Kind × ℕ)
met [] = []
met (a ∷ arrivals) = said (a.message ∷ []) ++ met arrivals

-- The frames taken by calls are the first ones.
emit-split :
    (accepts : ℕ → Bool) (n : ℕ) (ps : List PendingTerminalOutput)
    → (lost : List PendingTerminalOutput) × (ps ≡ (emit accepts n ps).0 ++ lost)
      × ((emit accepts n ps).1.1 ≡ true → lost ≡ [])
unfolding emit
emit-split accepts n [] = ([], refl, λ h. refl)
emit-split accepts n (p ∷ ps) =
    let (lost, split, none_lost) = emit-split accepts (suc n) ps in
    elim (Bool-cases (accepts n)) [
      | inl e ↦ rw e (lost, ap (λ l. p ∷ l) split, none_lost)
      | inr e ↦ rw e (p ∷ ps, refl, λ h. cc)
    ]

-- One message: what is ready and what is pending after it, before what comes later.
pub step-met :
    (a : Arrival) (arrivals : List Arrival) (batch : Batch)
    → stream (flushed batch) ++ met (a ∷ arrivals)
      ≡ stream (receive a.message batch).0
        ++ (stream (flushed (receive a.message batch).1) ++ met arrivals)
step-met a arrivals batch =
    let (ready, next) = receive a.message batch in
    sym (
      sym (append_assoc (stream ready) (stream (flushed next)) (met arrivals))
      ∙ ap (λ l. l ++ met arrivals) (receive-joined a.message batch)
      ∙ append_assoc (stream (flushed batch)) (said (a.message ∷ [])) (met arrivals))

-- What is handed on, of what is met: a beginning, and after at most one gap some more bytes.
pub record OneGap (handed whole : List (Kind × ℕ)) : Type 0 where
  pub front : List (Kind × ℕ)
  pub gap : List (Kind × ℕ)
  pub last : List (Kind × ℕ)
  pub rest : List (Kind × ℕ)
  pub handed_on : handed ≡ front ++ last
  pub in_order : whole ≡ front ++ (gap ++ (last ++ rest))

pub stream-emit :
    (accepts : ℕ → Bool) (n : ℕ) (ps : List PendingTerminalOutput)
    → (lost : List PendingTerminalOutput) × (stream ps
        ≡ stream (emit accepts n ps).0 ++ stream lost)
      × ((emit accepts n ps).1.1 ≡ true → lost ≡ [])
stream-emit accepts n ps =
    let (lost, split, none_lost) = emit-split accepts n ps in
    (lost, ap stream split ∙ stream-append (emit accepts n ps).0 lost, none_lost)

-- The bytes of a run that goes on after frames that were all taken.
unfoldable pub OneGap-after :
    (front handed whole : List (Kind × ℕ))
    → OneGap handed whole
    → OneGap (front ++ handed) (front ++ whole)
OneGap-after front handed whole g = record {
  front = front ++ g.front;
  gap = g.gap;
  last = g.last;
  rest = g.rest;
  handed_on = ap (λ l. front ++ l) g.handed_on ∙ sym (append_assoc front g.front g.last);
  in_order =
      ap (λ l. front ++ l) g.in_order
      ∙ sym (append_assoc front g.front (g.gap ++ (g.last ++ g.rest)));
}

unfoldable pub OneGap-eq :
    (handed handed' whole whole' : List (Kind × ℕ))
    → handed ≡ handed'
    → whole ≡ whole'
    → OneGap handed' whole'
    → OneGap handed whole
OneGap-eq handed handed' whole whole' h w g = record {
  front = g.front;
  gap = g.gap;
  last = g.last;
  rest = g.rest;
  handed_on = h ∙ g.handed_on;
  in_order = w ∙ g.in_order;
}

-- A run that breaks off: frames that were taken and lost, then the last flush.
pub broken_off :
    (taken lost flushed_bytes flush after : List (Kind × ℕ)) (unsent : List PendingTerminalOutput)
    → flushed_bytes ≡ flush ++ stream unsent
    → OneGap (taken ++ flush) ((taken ++ lost) ++ (flushed_bytes ++ after))
broken_off taken lost flushed_bytes flush after unsent e = record {
  front = taken;
  gap = lost;
  last = flush;
  rest = stream unsent ++ after;
  handed_on = refl;
  in_order =
      append_assoc taken lost (flushed_bytes ++ after)
      ∙ ap (λ l. taken ++ (lost ++ l))
          (ap (λ l. l ++ after) e ∙ append_assoc flush (stream unsent) after);
}
