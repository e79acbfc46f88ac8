-- ===== src/Jobs/Events/Laws.antt =====
-- The replay log that `push_event` of src-tauri/src/api_server/jobs.rs keeps.
use hlem_ssh.Prelude.{
  ℕ, zero, suc, ◌+◌, ◌-◌, ◌≤◌, ◌<◌, ◌≡◌, refl, List, [], ◌∷◌, ◌++◌, length, arith, drop, min,
  Option, String, length-append, length-drop, sym, subst,
}
use hlem_ssh.Prelude.Words.{saturating_add, u64_max}
use hlem_ssh.Jobs.Data.{Payload, Env}
use hlem_ssh.Jobs.Events.{
  StoredJobEvent, JobState, trim, push_event, estimate_event_bytes, max_job_events,
  max_job_event_bytes,
}
use hlem_ssh.Jobs.Events.Trim.{total, dropped, trim-drop, trim-saturating_add}

abbrev pub Ids : ℕ → List StoredJobEvent → Type 0
Ids first [] = Unit
Ids first (e ∷ es) = (e.event.id ≡ first) × Ids (suc first) es

pub record Log (events : List StoredJobEvent) (event_bytes next last_id : ℕ) : Type 0 where
  pub few : length events ≤ max_job_events
  pub small : event_bytes ≤ max_job_event_bytes
  pub exact : event_bytes ≡ total events
  pub started : length events < next
  pub consecutive : Ids (next - length events) events
  pub last : last_id + 1 ≡ next

abbrev pub LogValid : JobState → Type 0
LogValid s = Log s.events s.event_bytes s.next_event_id s.snapshot.last_event_id

Ids-append :
    (first : ℕ) (es : List StoredJobEvent) (e : StoredJobEvent)
    → Ids first es
    → e.event.id ≡ first + length es
    → Ids first (es ++ e ∷ [])
Ids-append first [] e h i = omega arith
Ids-append first (x ∷ es) e h i = (h.0, Ids-append (suc first) es e h.1 (omega arith))

Ids-drop :
    (n first : ℕ) (es : List StoredJobEvent)
    → Ids first es
    → Ids (first + min n (length es)) (drop n es)
Ids-drop zero first es h = subst (λ k. Ids k es) (omega arith) h
Ids-drop (suc n) first [] h = tt
Ids-drop (suc n) first (x ∷ es) h =
    subst (λ k. Ids k (drop n es)) (omega arith) (Ids-drop n (suc first) es h.1)

-- The ids after one more event and any number of dropped ones.
trim-Ids :
    (next bytes : ℕ) (es : List StoredJobEvent) (e : StoredJobEvent)
    → length es < next
    → Ids (next - length es) es
    → e.event.id ≡ next
    → let r = (trim (es ++ e ∷ []) bytes).0 in (length r < next + 1) × Ids (next + 1 - length r) r
trim-Ids next bytes es e started h i =
    let all = es ++ e ∷ [] in
    let n = dropped all bytes in
    rw (trim-drop all bytes) (
      omega (arith, length-drop n all, length-append es (e ∷ [])),
      subst (λ k. Ids k (drop n all)) (omega (arith, length-drop n all, length-append es (e ∷ [])))
          (Ids-drop n (next - length es) all (Ids-append (next - length es) es e h (omega arith))),
    )

-- If the next event id is below the largest 64-bit number, pushing an event of any size keeps the
-- replay log valid: within its bounds, its bytes counted exactly, its ids consecutive up to the
-- newest.
pub push_event-LogValid :
    (env : Env) (s : JobState) (name : String) (payload : Option Payload) (hint : Option ℕ)
    → s.next_event_id < u64_max
    → LogValid s
    → LogValid (push_event env s name payload hint).0
unfolding push_event
push_event-LogValid env s name payload hint room v =
    let event = (push_event env s name payload hint).1 in
    let stored : StoredJobEvent = record {
      event = event;
      bytes = estimate_event_bytes env event hint;
    } in
    let sum = trim-saturating_add s.events stored s.event_bytes v.exact v.small in
    let ids =
      trim-Ids s.next_event_id (saturating_add s.event_bytes stored.bytes) s.events stored v.started
        v.consecutive refl in
    let next : saturating_add s.next_event_id 1 ≡ s.next_event_id + 1 = omega arith in
    record {
      few = sum.1.0;
      small = sum.1.1;
      exact = sum.0;
      started = rw next ids.0;
      consecutive = rw next ids.1;
      last = sym next;
    }
