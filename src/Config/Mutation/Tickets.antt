-- ===== src/Config/Mutation/Tickets.antt =====
-- Which tickets `lock` of src-tauri/src/config_mutation.rs grants the gate.
use hlem_ssh.Prelude.{
  ℕ, ◌+◌, ◌%◌, ◌^◌, ◌≤◌, ◌<◌, ◌≡◌, ◌≢◌, refl, Bool, true, false, not, ◌||◌, List, [], ◌∷◌, some,
  arith, length, ◌==◌, Option-cases, inl, inr, subst, ap, ◌∙◌, if_cases,
}
use hlem_ssh.Config.Mutation.{
  Gate, ConfigMutationCoordinator, default, LockAnswer, ticket, lock, lock_with_gate, next_epoch,
  begin_replacement, begin_with_gate, drop_replacement, Event, step, unlock, end_replacement, run,
}

abbrev parity : Gate → ℕ
parity Gate.replacing = 1
parity _ = 0

-- The epoch is odd exactly while the configuration is being replaced.
abbrev pub IsPhased : ConfigMutationCoordinator → Type 0
IsPhased c = c.epoch % 2 ≡ parity c.gate

-- What one event does to the epoch, as long as it does not wrap.
abbrev Advance : ConfigMutationCoordinator → ConfigMutationCoordinator → Type 0
Advance c c' = (c.epoch ≤ c'.epoch) × (c'.epoch ≤ c.epoch + 1) × IsPhased c'

lock-Advance :
    (g : Gate) (t : ℕ) (c : ConfigMutationCoordinator)
    → c.gate ≡ g
    → IsPhased c
    → Advance c (lock_with_gate g t c).1
unfolding lock_with_gate
lock-Advance Gate.free t c e p =
    let even : c.epoch % 2 ≡ 0 = p ∙ ap parity e in
    if_cases (λ (r : LockAnswer × ConfigMutationCoordinator). Advance c r.1)
      (not (c.epoch == t) || not (c.epoch % 2 == 0)) _ _ (λ _. (omega arith, omega arith, p))
      (λ _. (omega arith, omega arith, even))
lock-Advance Gate.mutating t c e p = (omega arith, omega arith, p)
lock-Advance Gate.replacing t c e p = (omega arith, omega arith, p)

begin-Advance :
    (g : Gate) (c : ConfigMutationCoordinator) {c' : ConfigMutationCoordinator}
    → c.gate ≡ g
    → c.epoch + 1 < 2 ^ 64
    → IsPhased c
    → begin_with_gate g c ≡ some c'
    → (c'.epoch ≡ c.epoch + 1) × IsPhased c'
unfolding begin_with_gate
begin-Advance Gate.free c {c'} e room p h =
    let even : c.epoch % 2 ≡ 0 = p ∙ ap parity e in
    let next : next_epoch c.epoch ≡ c.epoch + 1 = omega arith in
    let made : record { gate = Gate.replacing; epoch = next_epoch c.epoch } ≡ c' = cc h in
    subst (λ (x : ConfigMutationCoordinator). (x.epoch ≡ c.epoch + 1) × IsPhased x) made
      (next, omega arith)
begin-Advance Gate.mutating c e room p h = absurd cc
begin-Advance Gate.replacing c e room p h = absurd cc

unlock-Advance :
    (g : Gate) (c : ConfigMutationCoordinator) {c' : ConfigMutationCoordinator}
    → c.gate ≡ g
    → IsPhased c
    → unlock g c ≡ some c'
    → Advance c c'
unfolding unlock
unlock-Advance Gate.mutating c {c'} e p h =
    let made : record c { gate = Gate.free } ≡ c' = cc h in
    subst (Advance c) made (omega arith, omega arith, p ∙ ap parity e)
unlock-Advance Gate.free c e p h = absurd cc
unlock-Advance Gate.replacing c e p h = absurd cc

end-Advance :
    (g : Gate) (c : ConfigMutationCoordinator) {c' : ConfigMutationCoordinator}
    → c.gate ≡ g
    → c.epoch + 1 < 2 ^ 64
    → IsPhased c
    → end_replacement g c ≡ some c'
    → Advance c c'
unfolding end_replacement drop_replacement
end-Advance Gate.replacing c {c'} e room p h =
    let odd : c.epoch % 2 ≡ 1 = p ∙ ap parity e in
    let made : record { gate = Gate.free; epoch = next_epoch c.epoch } ≡ c' = cc h in
    subst (Advance c) made (omega arith, omega arith, omega arith)
end-Advance Gate.free c e room p h = absurd cc
end-Advance Gate.mutating c e room p h = absurd cc

step-Advance :
    (e : Event) (c : ConfigMutationCoordinator) {c' : ConfigMutationCoordinator}
    → c.epoch + 1 < 2 ^ 64
    → IsPhased c
    → step e c ≡ some c'
    → Advance c c'
unfolding step begin_replacement lock
step-Advance (Event.locked t) c {c'} room p h =
    let made : (lock t c).1 ≡ c' = cc h in subst (Advance c) made (lock-Advance c.gate t c refl p)
step-Advance Event.unlocked c room p h = unlock-Advance c.gate c refl p h
step-Advance Event.begun c room p h =
    let (next, q) = begin-Advance c.gate c refl room p h in (omega arith, omega arith, q)
step-Advance Event.replaced c room p h = end-Advance c.gate c refl room p h

abbrev pub has_begun : List Event → Bool
has_begun [] = false
has_begun (Event.begun ∷ es) = true
has_begun (e ∷ es) = has_begun es

begun_past :
    (e : Event) (es : List Event) (c d : ConfigMutationCoordinator) (end_ : ℕ)
    → step e c ≡ some d
    → IsPhased c
    → c.epoch + 1 < 2 ^ 64
    → d.epoch ≤ end_
    → (has_begun es ≡ true → d.epoch < end_)
    → has_begun (e ∷ es) ≡ true
    → c.epoch < end_
unfolding step begin_replacement
begun_past Event.begun es c d end_ o p room more past b =
    let (next, q) = begin-Advance c.gate c refl room p o in omega arith
begun_past (Event.locked t) es c d end_ o p room more past b =
    let (low, high, q) = step-Advance (Event.locked t) c room p o in omega (arith, past b)
begun_past Event.unlocked es c d end_ o p room more past b =
    let (low, high, q) = step-Advance Event.unlocked c room p o in omega (arith, past b)
begun_past Event.replaced es c d end_ o p room more past b =
    let (low, high, q) = step-Advance Event.replaced c room p o in omega (arith, past b)

-- A run moves the epoch on, and past its start if a replacement begins.
run-Advance :
    (es : List Event) (c : ConfigMutationCoordinator) {c' : ConfigMutationCoordinator}
    → c.epoch + length es < 2 ^ 64
    → IsPhased c
    → run es c ≡ some c'
    → (c.epoch ≤ c'.epoch) × (has_begun es ≡ true → c.epoch < c'.epoch) × IsPhased c'
unfolding run
run-Advance [] c {c'} room p h =
    let made : c ≡ c' = cc h in
    subst
      (λ (x : ConfigMutationCoordinator).
        (c.epoch ≤ x.epoch) × (false ≡ true → c.epoch < x.epoch) × IsPhased x)
      made (omega arith, (λ bad. absurd cc), p)
run-Advance (e ∷ es) c room p h = elim (Option-cases (step e c)) [
  | inl o ↦ absurd (cc (rw o at h))
  | inr (d, o) ↦
      let (low, high, q) = step-Advance e c (omega arith) p o in
      let (more, past, r) = run-Advance es d (omega arith) q (rw o at h) in
      (omega arith, begun_past e es c d _ o p (omega arith) more past, r)
]

lock_refuses :
    (g : Gate) (t : ℕ) (c : ConfigMutationCoordinator)
    → ((c.epoch ≡ t) × (t % 2 ≡ 0) → ⊥)
    → (lock_with_gate g t c).0 ≢ LockAnswer.granted
unfolding lock_with_gate
lock_refuses Gate.free t c bad =
    if_cases (λ (r : LockAnswer × ConfigMutationCoordinator). r.0 ≢ LockAnswer.granted)
      (not (c.epoch == t) || not (c.epoch % 2 == 0)) _ _ (λ _ e. absurd cc)
      (λ ok. absurd (bad (ground arith, ground arith)))
lock_refuses Gate.mutating t c bad = λ e. absurd cc
lock_refuses Gate.replacing t c bad = λ e. absurd cc

-- If the epoch is odd exactly during a replacement and does not wrap, then after a run in which a
-- replacement begins, a ticket from before the run is not granted the gate.
pub lock-stale :
    (es : List Event) (c c' : ConfigMutationCoordinator)
    → c.epoch + length es < 2 ^ 64
    → IsPhased c
    → run es c ≡ some c'
    → has_begun es ≡ true
    → (lock (ticket c) c').0 ≢ LockAnswer.granted
unfolding lock ticket
lock-stale es c c' room p h b =
    let (low, past, q) = run-Advance es c room p h in
    let later : c.epoch < c'.epoch = past b in
    lock_refuses c'.gate c.epoch c' (λ bad. omega (arith, bad.0))

-- If the epoch is odd exactly during a replacement, a ticket taken during one is never granted the
-- gate, in no later state either.
pub lock-during :
    (c c' : ConfigMutationCoordinator)
    → IsPhased c
    → c.gate ≡ Gate.replacing
    → (lock (ticket c) c').0 ≢ LockAnswer.granted
unfolding lock ticket
lock-during c c' p g =
    let odd : c.epoch % 2 ≡ 1 = p ∙ ap parity g in
    lock_refuses c'.gate c.epoch c' (λ bad. omega (arith, bad.1))

-- After every run from the start of fewer than 2^64 events that leaves the gate free, a ticket
-- that is taken then is granted the gate.
pub lock-fresh :
    (es : List Event) (c : ConfigMutationCoordinator)
    → length es < 2 ^ 64
    → run es default ≡ some c
    → c.gate ≡ Gate.free
    → lock (ticket c) c ≡ (LockAnswer.granted, record c { gate = Gate.mutating })
unfolding lock ticket lock_with_gate
lock-fresh es c room h g =
    let (low, past, q) = run-Advance es default (omega arith) (omega arith) h in
    let even : c.epoch % 2 ≡ 0 = q ∙ ap parity g in rw (g, lock_with_gate) (ground arith)
