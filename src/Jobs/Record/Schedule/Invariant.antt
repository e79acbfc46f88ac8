-- ===== src/Jobs/Record/Schedule/Invariant.antt =====
-- The invariant of a job and of the cancel request in flight (src-tauri/src/api_server/jobs.rs).
use hlem_ssh.Prelude.{
  ℕ, ◌<◌, ◌≡◌, refl, sym, subst, ap, ◌∙◌, ◌⊎◌, inl, inr, true, false, ◌||◌, List, [], ◌∷◌, arith,
  Bool-cases,
}
use hlem_ssh.Prelude.Utf8.{is_utf8}
use hlem_ssh.Prelude.Words.{u64_max, saturating_add}
use hlem_ssh.Jobs.Data.{JobEvent, Env, is_terminal, is_canceling}
use hlem_ssh.Jobs.Events.{JobState, push_event}
use hlem_ssh.Jobs.Record
use hlem_ssh.Jobs.Record.{
  JobRecord, Outcome, Stream, status_of, guarded, commit, running_section, connecting_section,
  output_section, result_section, error_section, cancel_section, publish_cancel, count_output,
}
use hlem_ssh.Jobs.Record.Methods.{set_queue_ms, set_connection_ms}
use hlem_ssh.Jobs.Record.Invariant.{
  StateValid, guarded_keeps, finish_canceled-StateValid, running_section-StateValid,
  connecting_section-StateValid, output_section-StateValid, result_section-StateValid,
  error_section-StateValid, cancel_section-StateValid,
}
use hlem_ssh.Jobs.Record.Schedule.{System, Section, Schedule, act, play, publish_first, add_pending}
use hlem_ssh.Jobs.Record.Schedule.Laws.{is_doomed, act-doomed, cancel-doomed, state-publish_first}

-- The outputs of a schedule are texts.
abbrev pub IsText : Section → Type 0
IsText (Section.output kind text) = is_utf8 text ≡ true
IsText _ = Unit

abbrev pub Texts : Schedule → Type 0
Texts [] = Unit
Texts ((env, a) ∷ rest) = IsText a × Texts rest

abbrev pub next_of : JobRecord → ℕ
next_of r = r.state.next_event_id

-- A section takes at most one id.
abbrev Advances : ℕ → JobRecord → Type 0
Advances n r = (next_of r ≡ n) ⊎ (next_of r ≡ saturating_add n 1)

act-Advances : (env : Env) (a : Section) (s : System) → Advances (next_of s.job) (act env a s).job
unfolding act running_section connecting_section output_section result_section error_section
act-Advances env Section.cancel s = unfold cancel_section push_event in ground arith
act-Advances env Section.publish s =
    inl (ap (λ (t : JobState). t.next_event_id) (state-publish_first s.pending s))
act-Advances env Section.finish_canceled s =
    unfold Record.finish_canceled push_event in ground arith
act-Advances env (Section.queue_ms value) s = unfold set_queue_ms in inl refl
act-Advances env (Section.connection_ms value) s = unfold set_connection_ms in inl refl
act-Advances env (Section.output Stream.stdout text) s =
    guarded_keeps (Advances (next_of s.job)) s.job _ (inl refl)
      (λ _ _ _. unfold push_event count_output in inr refl)
act-Advances env (Section.output Stream.stderr text) s =
    guarded_keeps (Advances (next_of s.job)) s.job _ (inl refl)
      (λ _ _ _. unfold push_event count_output in inr refl)
act-Advances env _ s =
    guarded_keeps (Advances (next_of s.job)) s.job _ (inl refl)
      (λ _ _ _. unfold push_event in inr refl)

pub act-room :
    (env : Env) (a : Section) (s : System)
    → next_of (act env a s).job < u64_max
    → next_of s.job < u64_max
act-room env a s h = elim (act-Advances env a s) [ inl e ↦ omega arith | inr e ↦ omega arith ]

pub play-room :
    (schedule : Schedule) (s : System)
    → next_of (play schedule s).job < u64_max
    → next_of s.job < u64_max
unfolding play
play-room [] s h = h
play-room ((env, a) ∷ rest) s h = act-room env a s (play-room rest (act env a s) h)

act-StateValid :
    (env : Env) (a : Section) (s : System)
    → next_of s.job < u64_max
    → IsText a
    → StateValid s.job.state
    → StateValid (act env a s).job.state
unfolding act
act-StateValid env Section.run s room u v = running_section-StateValid env s.job room v
act-StateValid env Section.connect s room u v = connecting_section-StateValid env s.job room v
act-StateValid env Section.cancel s room u v = cancel_section-StateValid env s.job room v
act-StateValid env Section.publish s room u v =
    subst StateValid (sym (state-publish_first s.pending s)) v
act-StateValid env Section.finish_canceled s room u v = finish_canceled-StateValid env s.job room v
act-StateValid env (Section.output kind text) s room u v =
    output_section-StateValid env s.job room v kind text u
act-StateValid env (Section.result r) s room u v = result_section-StateValid env s.job room v r
act-StateValid env (Section.error e) s room u v = error_section-StateValid env s.job room v e
act-StateValid env (Section.queue_ms value) s room u v =
    unfold set_queue_ms in
    record {
      log = v.log;
      out = v.out;
      out_max = v.out_max;
      err = v.err;
      err_max = v.err_max;
      ended = v.ended;
      stamped = v.stamped;
    }
act-StateValid env (Section.connection_ms value) s room u v =
    unfold set_connection_ms in
    record {
      log = v.log;
      out = v.out;
      out_max = v.out_max;
      err = v.err;
      err_max = v.err_max;
      ended = v.ended;
      stamped = v.stamped;
    }

-- If a job's state is valid, the outputs of a schedule of sections are UTF-8 and the next event id
-- after it is below the largest 64-bit number, then the state after the schedule is valid.
pub play-StateValid :
    (schedule : Schedule) (s : System)
    → (play schedule s).job.state.next_event_id < u64_max
    → Texts schedule
    → StateValid s.job.state
    → StateValid (play schedule s).job.state
unfolding play
play-StateValid [] s room u v = v
play-StateValid ((env, a) ∷ rest) s room u v =
    play-StateValid rest (act env a s) room u.1
      (act-StateValid env a s (act-room env a s (play-room rest (act env a s) room)) u.0 v)

-- The flag is raised, or a cancel event waits to be sent, only once cancellation was asked for.
pub record IsFlagged (s : System) : Type 0 where
  pub raised : (s.job.cancel ≡ false) ⊎ (is_doomed (status_of s.job) ≡ true)
  pub waiting : (s.pending ≡ []) ⊎ (is_doomed (status_of s.job) ≡ true)

-- A section that leaves the flag and the waiting events alone keeps this.
same_flag :
    (env : Env) (a : Section) (s : System)
    → (act env a s).job.cancel ≡ s.job.cancel
    → (act env a s).pending ≡ s.pending
    → IsFlagged s
    → IsFlagged (act env a s)
same_flag env a s c p f = record {
  raised = elim f.raised [ inl e ↦ inl (c ∙ e) | inr d ↦ inr (act-doomed env a s d) ];
  waiting = elim f.waiting [ inl e ↦ inl (p ∙ e) | inr d ↦ inr (act-doomed env a s d) ];
}

cancel-guarded :
    (r next : JobRecord) → next.cancel ≡ r.cancel → (guarded r next).0.cancel ≡ r.cancel
cancel-guarded r next e =
    guarded_keeps (λ (q : JobRecord). q.cancel ≡ r.cancel) r next refl (λ _ _ _. e)

publish-IsFlagged :
    (es : List JobEvent) (s : System)
    → s.pending ≡ es
    → IsFlagged s
    → IsFlagged (publish_first es s)
unfolding publish_first publish_cancel
publish-IsFlagged [] s e f = f
publish-IsFlagged (x ∷ es) s e f =
    let d : is_doomed (status_of s.job) ≡ true = elim f.waiting [
      | inl n ↦ absurd (cc)
      | inr d ↦ d
    ] in
    record { raised = inr d; waiting = inr d }

cancel-IsFlagged : (env : Env) (s : System) → IsFlagged s → IsFlagged (act env Section.cancel s)
cancel-IsFlagged env s f =
    elim (Bool-cases (is_terminal (status_of s.job) || is_canceling (status_of s.job))) [
      | inl e ↦
          same_flag env Section.cancel s (unfold act cancel_section in rw (e, cancel_section))
            (unfold act cancel_section add_pending in rw (e, cancel_section)) f
      | inr e ↦
          let d = cancel-doomed env s (ground arith) in record { raised = inr d; waiting = inr d }
    ]

act-IsFlagged : (env : Env) (a : Section) (s : System) → IsFlagged s → IsFlagged (act env a s)
act-IsFlagged env Section.publish s f = unfold act in publish-IsFlagged s.pending s refl f
act-IsFlagged env Section.cancel s f = cancel-IsFlagged env s f
act-IsFlagged env Section.finish_canceled s f =
    same_flag env _ s (unfold act Record.finish_canceled in ground arith) (unfold act in refl) f
act-IsFlagged env (Section.queue_ms value) s f =
    same_flag env _ s (unfold act set_queue_ms in refl) (unfold act in refl) f
act-IsFlagged env (Section.connection_ms value) s f =
    same_flag env _ s (unfold act set_connection_ms in refl) (unfold act in refl) f
act-IsFlagged env Section.run s f =
    same_flag env _ s (unfold act running_section in cancel-guarded s.job _ refl)
      (unfold act in refl) f
act-IsFlagged env Section.connect s f =
    same_flag env _ s (unfold act connecting_section in cancel-guarded s.job _ refl)
      (unfold act in refl) f
act-IsFlagged env (Section.output kind text) s f =
    same_flag env _ s (unfold act output_section in cancel-guarded s.job _ refl)
      (unfold act in refl) f
act-IsFlagged env (Section.result r) s f =
    same_flag env _ s (unfold act result_section in cancel-guarded s.job _ refl)
      (unfold act in refl) f
act-IsFlagged env (Section.error e) s f =
    same_flag env _ s (unfold act error_section in cancel-guarded s.job _ refl) (unfold act in refl)
      f

-- If the cancel flag is raised, or a cancel event waits to be sent, only while the job is
-- canceling or canceled, then the same holds after every schedule of sections.
pub play-IsFlagged : (schedule : Schedule) (s : System) → IsFlagged s → IsFlagged (play schedule s)
unfolding play
play-IsFlagged [] s f = f
play-IsFlagged ((env, a) ∷ rest) s f = play-IsFlagged rest (act env a s) (act-IsFlagged env a s f)
