-- ===== src/Jobs/Record/Invariant.antt =====
-- The invariant of a job's state (src-tauri/src/api_server/jobs.rs), section by section.
use hlem_ssh.Prelude.{
  ℕ, ◌<◌, ◌≤◌, ◌≡◌, refl, Bool, true, false, ◌||◌, Option, none, String, arith, is_some, sym,
  if◌then◌else◌, Bool-cases, inl, inr,
}
use hlem_ssh.Prelude.Text.{Bytes}
use hlem_ssh.Prelude.Utf8.{is_utf8}
use hlem_ssh.Prelude.Words.{u64_max}
use hlem_ssh.Jobs.Data.{Payload, ExecResult, Env, is_terminal, is_canceling}
use hlem_ssh.Jobs.Tail
use hlem_ssh.Jobs.Tail.Laws as TailLaws
use hlem_ssh.Jobs.Tail.Laws.{push-IsValid, push-max_bytes}
use hlem_ssh.Jobs.Events.{JobState, push_event, max_job_event_bytes}
use hlem_ssh.Jobs.Events.Laws.{LogValid, push_event-LogValid}
use hlem_ssh.Jobs.Record.{
  JobRecord, Outcome, Stream, status_of, max_job_output_bytes, new, commit, guarded,
  finish_canceled, running_section, connecting_section, count_output, output_section, result_status,
  result_section, error_section, cancel_section,
}

pub record StateValid (s : JobState) : Type 0 where
  pub log : LogValid s
  pub out : TailLaws.IsValid s.stdout
  pub out_max : s.stdout.max_bytes ≡ max_job_output_bytes
  pub err : TailLaws.IsValid s.stderr
  pub err_max : s.stderr.max_bytes ≡ max_job_output_bytes
  pub ended : is_terminal s.snapshot.status ≡ is_some s.completed_at_instant
  pub stamped : is_terminal s.snapshot.status ≡ is_some s.snapshot.completed_at

push_event-StateValid :
    (env : Env) (s : JobState) (name : String) (payload : Option Payload) (hint : Option ℕ)
    → s.next_event_id < u64_max
    → StateValid s
    → StateValid (push_event env s name payload hint).0
push_event-StateValid env s name payload hint room v = record {
  log = push_event-LogValid env s name payload hint room v.log;
  out = unfold push_event in v.out;
  out_max = unfold push_event in v.out_max;
  err = unfold push_event in v.err;
  err_max = unfold push_event in v.err_max;
  ended = unfold push_event in v.ended;
  stamped = unfold push_event in v.stamped;
}

commit-StateValid :
    (env : Env) (r : JobRecord) (s : JobState) (name : String) (payload : Option Payload)
    (hint : Option ℕ)
    → s.next_event_id < u64_max
    → StateValid s
    → StateValid (commit env r s name payload hint).state
unfolding commit
commit-StateValid env r s name payload hint room v =
    push_event-StateValid env s name payload hint room v

pub guard_cases {ℓ κ} :
    {X : Type ℓ} (P : X → Type κ) (a b c : Bool) (x y z : X)
    → P x
    → P y
    → (a ≡ false → b ≡ false → c ≡ false → P z)
    → P (if a || b then x else if c then y else z)
guard_cases P true b c x y z px py pz = px
guard_cases P false true c x y z px py pz = px
guard_cases P false false true x y z px py pz = py
guard_cases P false false false x y z px py pz = pz refl refl refl

or_false : (a b : Bool) → (a || b) ≡ false → a ≡ false
or_false a b h = ground arith

-- A guarded section leaves the record as it was, or makes its step at a job that is neither
-- canceled nor ended.
pub guarded_keeps {ℓ} :
    (P : JobRecord → Type ℓ) (r next : JobRecord)
    → P r
    → (r.cancel ≡ false
        → is_canceling (status_of r) ≡ false
        → is_terminal (status_of r) ≡ false
        → P next)
    → P (guarded r next).0
unfolding guarded
guarded_keeps P r next here there =
    guard_cases (λ (p : JobRecord × Outcome). P p.0) r.cancel (is_canceling (status_of r))
      (is_terminal (status_of r)) _ _ _ here here there

module _ (env : Env) (r : JobRecord) (room : r.state.next_event_id < u64_max)
    (v : StateValid r.state) where
  abbrev Keeps : JobRecord → Type 0
  Keeps q = StateValid q.state

  pub finish_canceled-StateValid : StateValid (finish_canceled env r).state
  unfolding finish_canceled
  finish_canceled-StateValid = elim (Bool-cases (is_terminal (status_of r))) [
    | inl e ↦ rw e v
    | inr e ↦ rw e (
        commit-StateValid env r _ "canceled" none none room (record {
          log = v.log;
          out = v.out;
          out_max = v.out_max;
          err = v.err;
          err_max = v.err_max;
          ended = refl;
          stamped = refl;
        }))
  ]

  pub running_section-StateValid : StateValid (running_section env r).0.state
  unfolding running_section
  running_section-StateValid = guarded_keeps Keeps r _ v λ nc ng nt.
      commit-StateValid env r _ "running" none none room (record {
        log = v.log;
        out = v.out;
        out_max = v.out_max;
        err = v.err;
        err_max = v.err_max;
        ended = rw (← v.ended) (sym nt);
        stamped = rw (← v.stamped) (sym nt);
      })

  pub connecting_section-StateValid : StateValid (connecting_section env r).0.state
  unfolding connecting_section
  connecting_section-StateValid = guarded_keeps Keeps r _ v λ nc ng nt.
      commit-StateValid env r _ "connecting" none none room (record {
        log = v.log;
        out = v.out;
        out_max = v.out_max;
        err = v.err;
        err_max = v.err_max;
        ended = rw (← v.ended) (sym nt);
        stamped = rw (← v.stamped) (sym nt);
      })

  count_output-StateValid :
      (kind : Stream) (text : Bytes)
      → is_utf8 text ≡ true
      → StateValid (count_output kind text r.state)
  unfolding count_output
  count_output-StateValid Stream.stdout text u = record {
    log = v.log;
    out = push-IsValid r.state.stdout text v.out u;
    out_max = rw (push-max_bytes r.state.stdout text) v.out_max;
    err = v.err;
    err_max = v.err_max;
    ended = v.ended;
    stamped = v.stamped;
  }
  count_output-StateValid Stream.stderr text u = record {
    log = v.log;
    out = v.out;
    out_max = v.out_max;
    err = push-IsValid r.state.stderr text v.err u;
    err_max = rw (push-max_bytes r.state.stderr text) v.err_max;
    ended = v.ended;
    stamped = v.stamped;
  }

  count_output-next :
      (kind : Stream) (text : Bytes) → (count_output kind text r.state).next_event_id < u64_max
  unfolding count_output
  count_output-next Stream.stdout text = room
  count_output-next Stream.stderr text = room

  pub output_section-StateValid :
      (kind : Stream) (text : Bytes)
      → is_utf8 text ≡ true
      → StateValid (output_section env kind text r).0.state
  unfolding output_section
  output_section-StateValid kind text u = guarded_keeps Keeps r _ v λ nc ng nt.
      commit-StateValid env r (count_output kind text r.state) _ _ _ (count_output-next kind text)
        (count_output-StateValid kind text u)

  result_status-is_terminal : (result : ExecResult) → is_terminal (result_status result).0 ≡ true
  unfolding result_status
  result_status-is_terminal result = ground arith

  pub result_section-StateValid :
      (result : ExecResult) → StateValid (result_section env result r).0.state
  unfolding result_section
  result_section-StateValid result = guarded_keeps Keeps r _ v λ nc ng nt.
      commit-StateValid env r _ _ none none room (record {
        log = v.log;
        out = v.out;
        out_max = v.out_max;
        err = v.err;
        err_max = v.err_max;
        ended = result_status-is_terminal result;
        stamped = result_status-is_terminal result;
      })

  pub error_section-StateValid : (error : String) → StateValid (error_section env error r).0.state
  unfolding error_section
  error_section-StateValid error = guarded_keeps Keeps r _ v λ nc ng nt.
      commit-StateValid env r _ "failed" none none room (record {
        log = v.log;
        out = v.out;
        out_max = v.out_max;
        err = v.err;
        err_max = v.err_max;
        ended = refl;
        stamped = refl;
      })

  pub cancel_section-StateValid : StateValid (cancel_section env r).0.state
  unfolding cancel_section
  cancel_section-StateValid =
      elim (Bool-cases (is_terminal (status_of r) || is_canceling (status_of r))) [
        | inl e ↦ rw e v
        | inr e ↦
            let nt : is_terminal (status_of r) ≡ false = or_false _ _ e in
            rw e (
              push_event-StateValid env _ "canceling" none none room (record {
                log = v.log;
                out = v.out;
                out_max = v.out_max;
                err = v.err;
                err_max = v.err_max;
                ended = rw (← v.ended) (sym nt);
                stamped = rw (← v.stamped) (sym nt);
              }))
      ]

-- A new job is valid, unless its creation event alone passes the byte bound of the log.
pub new-StateValid :
    (env : Env) (job_id session_id command_preview : String) (timeout_ms : ℕ)
    → (new env job_id session_id command_preview timeout_ms).state.event_bytes ≤ max_job_event_bytes
    → StateValid (new env job_id session_id command_preview timeout_ms).state
unfolding new Tail.new
new-StateValid env job_id session_id command_preview timeout_ms small = record {
  log = record {
    few = omega arith;
    small = small;
    exact = omega arith;
    started = omega arith;
    consecutive = omega arith;
    last = omega arith;
  };
  out = record { bounded = omega arith; whole = unfold is_utf8 in refl; positive = omega arith };
  out_max = refl;
  err = record { bounded = omega arith; whole = unfold is_utf8 in refl; positive = omega arith };
  err_max = refl;
  ended = refl;
  stamped = refl;
}
