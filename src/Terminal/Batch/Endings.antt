-- ===== src/Terminal/Batch/Endings.antt =====
-- How a whole run of the reader task ends, and what is lost then
-- (src-tauri/src/remote/runtime_terminal.rs).
use hlem_ssh.Prelude.{
  ℕ, suc, ◌+◌, ◌<◌, ◌≤◌, ◌≡◌, refl, sym, ap, ◌∙◌, Bool, true, false, not, ◌&&◌, if◌then◌else◌,
  if_cases, Bool-cases, ◌⊎◌, inl, inr, List, [], ◌∷◌, ◌++◌, append-nil, any, length, length-append,
  arith,
}
use hlem_ssh.Terminal.Batch.{
  Kind, Message, PendingTerminalOutput, Batch, Arrival, Ending, is_tick, flushed, receive, emit,
  stops, last_flush, read_loop,
}
use hlem_ssh.Terminal.Batch.Stream.{stream, stream-append}
use hlem_ssh.Terminal.Batch.Run.{
  met, OneGap, stream-emit, OneGap-eq, OneGap-after, broken_off, step-met,
}

emit-failed :
    (accepts : ℕ → Bool) (n : ℕ) (ps : List PendingTerminalOutput)
    → (emit accepts n ps).1.1 ≡ false
    → accepts (n + length (emit accepts n ps).0) ≡ false
unfolding emit
emit-failed accepts n [] h = absurd cc
emit-failed accepts n (p ∷ ps) h = elim (Bool-cases (accepts n)) [
  | inl e ↦
      let fails = emit-failed accepts (suc n) ps (rw e at h) in
      rw e (ap accepts (omega arith) ∙ fails)
  | inr e ↦ rw e (ap accepts (omega arith) ∙ e)
]

-- Calls that succeed are as many as the frames taken.
emit-counts :
    (accepts : ℕ → Bool) (n : ℕ) (ps : List PendingTerminalOutput)
    → (emit accepts n ps).1.1 ≡ true
    → (emit accepts n ps).1.0 ≡ n + length (emit accepts n ps).0
unfolding emit
emit-counts accepts n [] h = omega arith
emit-counts accepts n (p ∷ ps) h = elim (Bool-cases (accepts n)) [
  | inl e ↦ rw e (emit-counts accepts (suc n) ps (rw e at h) ∙ omega arith)
  | inr e ↦ absurd cc
]

-- One of `made` calls from the `n`-th on fails.
abbrev pub Fails : (ℕ → Bool) → ℕ → ℕ → Type 0
Fails accepts n made = (k : ℕ) × (n ≤ k) × (k < n + made) × (accepts k ≡ false)

-- A message that comes while `closed` holds; a tick does not look.
abbrev pub is_late : Arrival → Bool
is_late a = elim a.message [ Message.tick ↦ false | _ ↦ a.closed ]

stops-is_late : (a : Arrival) → stops a ≡ is_late a
unfolding stops
stops-is_late a = late_same a.message a.closed
  where
    late_same :
        (m : Message) (closed : Bool)
        → (not (is_tick m) && closed) ≡ elim m [ Message.tick ↦ false | _ ↦ closed ]
    late_same Message.tick closed = refl
    late_same (Message.data_ kind urgent bytes) closed = refl
    late_same (Message.exit text) closed = refl

-- What comes before the first such message.
abbrev pub heard : List Arrival → List Arrival
heard [] = []
heard (a ∷ arrivals) = if is_late a then [] else a ∷ heard arrivals

-- How a run ends, by what is lost: nothing at the stream's end; at most one pending frame at a
-- return, where a message came late; else a call fails, of those that the run makes, which are then
-- one more, at least, than the frames that it hands on.
abbrev pub Outcome :
    (ℕ → Bool)
    → ℕ
    → List Arrival
    → List PendingTerminalOutput × Ending
    → List (Kind × ℕ)
    → List (Kind × ℕ)
    → Type 0
Outcome accepts n arrivals (taken, ending) gap rest =
    ((ending ≡ Ending.finished) × (any is_late arrivals ≡ false) × (gap ≡ []) × (rest ≡ []))
    ⊎ ((ending ≡ Ending.returned)
        × (any is_late arrivals ≡ true)
        × (gap ≡ [])
        × ((left : Batch) × (rest ≡ stream (flushed left))))
    ⊎ Fails accepts n (suc (length taken))

-- What a run hands on, of what is met before a message comes late.
pub record IsRun (accepts : ℕ → Bool) (n : ℕ) (arrivals : List Arrival) (before : List (Kind × ℕ))
    (result : List PendingTerminalOutput × Ending) : Type 0 where
  pub order : OneGap (stream result.0) (before ++ met (heard arrivals))
  pub outcome : Outcome accepts n arrivals result order.gap order.rest

heard_early :
    (a : Arrival) (arrivals : List Arrival)
    → is_late a ≡ false
    → heard (a ∷ arrivals) ≡ a ∷ heard arrivals
heard_early a arrivals e = rw e refl

heard_late : (a : Arrival) (arrivals : List Arrival) → is_late a ≡ true → heard (a ∷ arrivals) ≡ []
heard_late a arrivals e = rw e refl

IsRun-end :
    (accepts : ℕ → Bool) (n : ℕ) (batch : Batch)
    → IsRun accepts n [] (stream (flushed batch)) (last_flush accepts n batch, Ending.finished)
unfolding last_flush
IsRun-end accepts n batch =
    let (lost, split, none_lost) = stream-emit accepts n (flushed batch) in
    record {
      order = record {
        front = stream (emit accepts n (flushed batch)).0;
        gap = stream lost;
        last = [];
        rest = [];
        handed_on = sym (append-nil _);
        in_order =
            append-nil _
            ∙ split
            ∙ ap (λ l. stream (emit accepts n (flushed batch)).0 ++ l) (sym (append-nil _));
      };
      outcome = elim (Bool-cases (emit accepts n (flushed batch)).1.1) [
        | inl e ↦ inl (refl, refl, ap stream (none_lost e), refl)
        | inr e ↦ inr (inr (_, omega arith, omega arith, emit-failed accepts n (flushed batch) e))
      ];
    }

-- A run that goes on after a message whose frames were all taken.
IsRun-on :
    (accepts : ℕ → Bool) (n m : ℕ) (a : Arrival) (arrivals : List Arrival)
    (before after : List (Kind × ℕ)) (taken : List PendingTerminalOutput)
    (result : List PendingTerminalOutput × Ending)
    → is_late a ≡ false
    → m ≡ n + length taken
    → before ++ met (a ∷ heard arrivals) ≡ stream taken ++ (after ++ met (heard arrivals))
    → IsRun accepts m arrivals after result
    → IsRun accepts n (a ∷ arrivals) before (taken ++ result.0, result.1)
unfolding OneGap-eq OneGap-after
IsRun-on accepts n m a arrivals before after taken result early counts e r = record {
  order =
      OneGap-eq _ _ _ _ (stream-append taken result.0)
        (ap (λ (xs : List Arrival). before ++ met xs) (heard_early a arrivals early) ∙ e)
        (OneGap-after (stream taken) _ _ r.order);
  outcome = elim r.outcome [
    | inl (ended, none_late, gap, rest) ↦ inl (ended, ground (arith, early, none_late), gap, rest)
    | inr (inl (ended, some_late, gap, left)) ↦
        inr (inl (ended, ground (arith, early, some_late), gap, left))
    | inr (inr (k, from, below, failed)) ↦
        let joined = length-append taken result.0 in
        inr (inr (k, omega (arith, counts), omega (arith, counts, joined), failed))
  ];
}

IsRun-stops :
    (accepts : ℕ → Bool) (n : ℕ) (a : Arrival) (arrivals : List Arrival) (batch : Batch)
    → is_late a ≡ true
    → IsRun accepts n (a ∷ arrivals) (stream (flushed batch)) ([], Ending.returned)
IsRun-stops accepts n a arrivals batch late = record {
  order = record {
    front = [];
    gap = [];
    last = [];
    rest = stream (flushed batch);
    handed_on = refl;
    in_order =
        ap (λ (xs : List Arrival). stream (flushed batch) ++ met xs) (heard_late a arrivals late)
        ∙ append-nil (stream (flushed batch));
  };
  outcome = inr (inl (refl, ground (arith, late), refl, (batch, refl)));
}

-- A run that breaks off, at frames of which not all were taken.
IsRun-breaks :
    (accepts : ℕ → Bool) (n : ℕ) (a : Arrival) (arrivals : List Arrival) (batch : Batch)
    → is_late a ≡ false
    → (emit accepts n (receive a.message batch).0).1.1 ≡ false
    → let (ready, next) = receive a.message batch in
      let (taken, (m, went)) = emit accepts n ready in
      IsRun accepts n
        (a ∷ arrivals)
        (stream (flushed batch))
        (taken ++ last_flush accepts m next, Ending.broken)
unfolding last_flush
IsRun-breaks accepts n a arrivals batch early fails =
    let (ready, next) = receive a.message batch in
    let (taken, (m, went)) = emit accepts n ready in
    let (lost, split, _) = stream-emit accepts n ready in
    let (unsent, flush, _) = stream-emit accepts m (flushed next) in
    record {
      order =
          OneGap-eq _ _ _ _ (stream-append taken (emit accepts m (flushed next)).0)
            (ap (λ (xs : List Arrival). stream (flushed batch) ++ met xs)
                (heard_early a arrivals early)
              ∙ step-met a (heard arrivals) batch
              ∙ ap (λ l. l ++ (stream (flushed next) ++ met (heard arrivals))) split)
            (broken_off (stream taken) (stream lost) _ _ (met (heard arrivals)) unsent flush);
      outcome =
          let joined = length-append taken (emit accepts m (flushed next)).0 in
          inr (inr (_, omega arith, omega (arith, joined), emit-failed accepts n ready fails));
    }

-- The frames that a whole run of the reader task hands on carry, in order and each byte under its
-- kind, a beginning of what was pending and what comes before the first message that comes while
-- `closed` holds, and after at most one gap some more of it. Nothing of it is lost, no message comes
-- late and the run ends by the stream's end; or it ends by the return at such a message, and at most
-- one pending frame is lost; or one of the calls that it makes fails.
pub read_loop-IsRun :
    (accepts : ℕ → Bool) (n : ℕ) (arrivals : List Arrival) (batch : Batch)
    → IsRun accepts n arrivals (stream (flushed batch)) (read_loop accepts n arrivals batch)
unfolding read_loop
read_loop-IsRun accepts n [] batch = IsRun-end accepts n batch
read_loop-IsRun accepts n (a ∷ arrivals) batch =
    let (ready, next) = receive a.message batch in
    let (taken, (m, went)) = emit accepts n ready in
    let (lost, split, none_lost) = stream-emit accepts n ready in
    if_cases (IsRun accepts n (a ∷ arrivals) (stream (flushed batch))) (stops a) _ _
      (λ e. IsRun-stops accepts n a arrivals batch (sym (stops-is_late a) ∙ e))
      λ e.
        if_cases (IsRun accepts n (a ∷ arrivals) (stream (flushed batch))) went _ _
          (λ f.
            IsRun-on accepts n m a arrivals (stream (flushed batch)) (stream (flushed next)) taken
              (read_loop accepts m arrivals next) (sym (stops-is_late a) ∙ e)
              (emit-counts accepts n ready f)
              (step-met a (heard arrivals) batch
                ∙ ap (λ l. l ++ (stream (flushed next) ++ met (heard arrivals)))
                    (split
                      ∙ ap (λ l. stream taken ++ stream l) (none_lost f)
                      ∙ append-nil (stream taken)))
              (read_loop-IsRun accepts m arrivals next))
          (λ f. IsRun-breaks accepts n a arrivals batch (sym (stops-is_late a) ∙ e) f)
