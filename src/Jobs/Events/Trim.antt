-- ===== src/Jobs/Events/Trim.antt =====
-- The loop of `push_event` of src-tauri/src/api_server/jobs.rs that drops the oldest events.
use hlem_ssh.Prelude.{
  ℕ, suc, ◌+◌, ◌-◌, ◌≤◌, ◌<◌, ◌≡◌, refl, List, [], ◌∷◌, ◌++◌, length, arith, drop, ltb, ◌||◌,
  if◌then◌else◌, dec_le,
}
use hlem_ssh.Prelude.Words.{saturating_add, u64_max}
use hlem_ssh.Jobs.Events.{StoredJobEvent, trim, max_job_events, max_job_event_bytes}

abbrev pub total : List StoredJobEvent → ℕ
total [] = 0
total (e ∷ es) = e.bytes + total es

abbrev pub Bounded : List StoredJobEvent → ℕ → Type 0
Bounded es bytes = (length es ≤ max_job_events) × (bytes ≤ max_job_event_bytes)

-- With an exact running total, or none left to count, both bounds hold at the end.
pub trim-Bounded :
    (es : List StoredJobEvent) (bytes : ℕ)
    → bytes ≤ total es
    → Bounded (trim es bytes).0 (trim es bytes).1
unfolding trim
trim-Bounded [] bytes h = omega arith
trim-Bounded (e ∷ es) bytes h = ground (arith, trim-Bounded es (bytes - e.bytes))

-- What is left is what `drop` leaves.
pub dropped : List StoredJobEvent → ℕ → ℕ
dropped [] bytes = 0
dropped (e ∷ es) bytes =
    let more = suc (dropped es (bytes - e.bytes)) in
    if ltb max_job_events (length (e ∷ es)) || ltb max_job_event_bytes bytes then more else 0

pub trim-drop :
    (es : List StoredJobEvent) (bytes : ℕ) → (trim es bytes).0 ≡ drop (dropped es bytes) es
unfolding trim dropped
trim-drop [] bytes = refl
trim-drop (e ∷ es) bytes = ground (arith, trim-drop es (bytes - e.bytes))

trim-total :
    (es : List StoredJobEvent) (bytes : ℕ)
    → bytes ≡ total es
    → (trim es bytes).1 ≡ total (trim es bytes).0
unfolding trim
trim-total [] bytes h = h
trim-total (e ∷ es) bytes h = ground (arith, trim-total es (bytes - e.bytes))

-- A total that saturated empties the log.
trim_saturated :
    (es : List StoredJobEvent) (e : StoredJobEvent) (bytes : ℕ)
    → max_job_event_bytes + total es < bytes
    → bytes ≤ total es + e.bytes
    → trim (es ++ e ∷ []) bytes ≡ ([], 0)
unfolding trim
trim_saturated [] e bytes above below = ground arith
trim_saturated (x ∷ es) e bytes above below = ground (arith, trim_saturated es e (bytes - x.bytes))

total-append : (xs ys : List StoredJobEvent) → total (xs ++ ys) ≡ total xs + total ys
total-append [] ys = omega arith
total-append (x ∷ xs) ys = omega (arith, total-append xs ys)

-- One more event, whatever its size: the counter is the total of what is stored.
pub trim-saturating_add :
    (es : List StoredJobEvent) (e : StoredJobEvent) (bytes : ℕ)
    → bytes ≡ total es
    → bytes ≤ max_job_event_bytes
    → let r = trim (es ++ e ∷ []) (saturating_add bytes e.bytes) in
      (r.1 ≡ total r.0) × Bounded r.0 r.1
trim-saturating_add es e bytes exact small = elim (dec_le (bytes + e.bytes) u64_max) [
  | yes fits ↦
      let same : saturating_add bytes e.bytes ≡ total (es ++ e ∷ []) =
        omega (arith, total-append es (e ∷ [])) in
      (
        trim-total (es ++ e ∷ []) (saturating_add bytes e.bytes) same,
        trim-Bounded (es ++ e ∷ []) (saturating_add bytes e.bytes) (omega arith),
      )
  | no over ↦
      let empty : trim (es ++ e ∷ []) (saturating_add bytes e.bytes) ≡ ([], 0) =
        trim_saturated es e (saturating_add bytes e.bytes) (omega arith) (omega arith) in
      rw empty (refl, omega arith)
]
