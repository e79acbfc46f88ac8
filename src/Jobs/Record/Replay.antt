-- ===== src/Jobs/Record/Replay.antt =====
-- What a subscriber of src-tauri/src/api_server/jobs.rs is given first.
use hlem_ssh.Prelude.{
  ℕ, zero, suc, ◌+◌, ◌-◌, ◌≤◌, ◌<◌, ◌≡◌, refl, ◌∙◌, List, [], ◌∷◌, arith, length, max, map, keep_if,
  ltb, dec_lt,
}
use mathlib.Core.Path.{ap₂}
use hlem_ssh.Jobs.Data.{JobEvent}
use hlem_ssh.Jobs.Events.{StoredJobEvent}
use hlem_ssh.Jobs.Events.Laws.{Ids}
use hlem_ssh.Jobs.Record.{JobRecord}
use hlem_ssh.Jobs.Record.Invariant.{StateValid}
use hlem_ssh.Jobs.Record.Methods.{subscribe}

-- `n` numbers from `lo` on.
abbrev pub interval : ℕ → ℕ → List ℕ
interval lo zero = []
interval lo (suc n) = lo ∷ interval (suc lo) n

abbrev event_id : JobEvent → ℕ
event_id e = e.id

abbrev newer : ℕ → List StoredJobEvent → List ℕ
newer after es = map event_id (
    map (λ (e : StoredJobEvent). e.event)
      (keep_if (λ (e : StoredJobEvent). ltb after e.event.id) es))

newer_kept :
    (after : ℕ) (e : StoredJobEvent) (es : List StoredJobEvent)
    → after < e.event.id
    → newer after (e ∷ es) ≡ e.event.id ∷ newer after es
newer_kept after e es h = ground arith

newer_seen :
    (after : ℕ) (e : StoredJobEvent) (es : List StoredJobEvent)
    → e.event.id ≤ after
    → newer after (e ∷ es) ≡ newer after es
newer_seen after e es h = ground arith

interval-eq : (a b n m : ℕ) → a ≡ b → n ≡ m → interval a n ≡ interval b m
interval-eq a b n m p q = ap₂ interval p q

newer-interval :
    (after first : ℕ) (es : List StoredJobEvent)
    → Ids first es
    → newer after es ≡ interval (max first (after + 1)) (first + length es - max first (after + 1))
newer-interval after first [] h =
    let none_left : first + 0 - max first (after + 1) ≡ 0 = omega arith in rw none_left
newer-interval after first (e ∷ es) h =
    let rest = newer-interval after (suc first) es h.1 in
    elim (dec_lt after first) [
      | yes lt ↦
          newer_kept after e es (omega arith)
          ∙ ap₂ ◌∷◌ h.0 (rest ∙ interval-eq _ (suc first) _ (length es) (omega arith) (omega arith))
          ∙ interval-eq first _ (suc (length es)) _ (omega arith) (omega arith)
      | no le ↦
          newer_seen after e es (omega arith)
          ∙ rest
          ∙ interval-eq _ _ _ _ (omega arith) (omega arith)
    ]

-- If a job's state is valid, a subscriber is first given exactly the stored events after the one
-- that it names: their ids are consecutive, from the oldest stored one or the one after that it
-- names, whichever is later, up to the newest.
pub subscribe-interval :
    (r : JobRecord) (after : ℕ)
    → StateValid r.state
    → let next = r.state.next_event_id in
      let first = max (next - length r.state.events) (after + 1) in
      map event_id (subscribe r after).initial ≡ interval first (next - first)
unfolding subscribe
subscribe-interval r after v =
    newer-interval after (r.state.next_event_id - length r.state.events) r.state.events
      v.log.consecutive
    ∙ interval-eq _ _ _ _ refl (omega (arith, v.log.started))
