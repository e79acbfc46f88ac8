-- ===== src/Config/Mutation.antt =====
-- `ConfigMutationCoordinator` of src-tauri/src/config_mutation.rs: tickets and the gate for changes of
-- the configuration. The gate is tokio's mutex: a call that finds it taken waits, which is a result of
-- its own here.
pub mod Tickets
use hlem_ssh.Prelude.{
  ℕ, ◌+◌, ◌%◌, ◌^◌, Bool, true, false, not, ◌||◌, List, [], ◌∷◌, Option, none, some, ◌==◌,
  if◌then◌else◌,
}

-- Who holds the gate.
pub data Gate : Type 0 where
  free mutating replacing : Gate

pub record ConfigMutationCoordinator : Type 0 where
  pub gate : Gate
  pub epoch : ℕ

abbrev pub default : ConfigMutationCoordinator
default = record { gate = Gate.free; epoch = 0 }

abbrev pub ConfigMutationTicket : Type 0
ConfigMutationTicket = ℕ

unfoldable pub ticket : ConfigMutationCoordinator → ConfigMutationTicket
ticket c = c.epoch

pub data LockAnswer : Type 0 where
  granted stale waits : LockAnswer

lock_with_gate :
    Gate → ConfigMutationTicket → ConfigMutationCoordinator → LockAnswer × ConfigMutationCoordinator
lock_with_gate Gate.free t c =
    if not (c.epoch == t) || not (c.epoch % 2 == 0)
    then (LockAnswer.stale, c)
    else (LockAnswer.granted, record c { gate = Gate.mutating })
lock_with_gate _ t c = (LockAnswer.waits, c)

unfoldable pub lock :
    ConfigMutationTicket → ConfigMutationCoordinator → LockAnswer × ConfigMutationCoordinator
unfolding lock_with_gate
lock t c = lock_with_gate c.gate t c

-- `fetch_add(1)` on 64 bits.
abbrev pub next_epoch : ℕ → ℕ
next_epoch e = (e + 1) % 2 ^ 64

begin_with_gate : Gate → ConfigMutationCoordinator → Option ConfigMutationCoordinator
begin_with_gate Gate.free c = some (record { gate = Gate.replacing; epoch = next_epoch c.epoch })
begin_with_gate _ c = none

-- `none`: the call waits.
unfoldable pub begin_replacement : ConfigMutationCoordinator → Option ConfigMutationCoordinator
unfolding begin_with_gate
begin_replacement c = begin_with_gate c.gate c

-- `Drop for ConfigReplacementGuard`, then that of the gate's guard in it.
unfoldable pub drop_replacement : ConfigMutationCoordinator → ConfigMutationCoordinator
drop_replacement c = record { gate = Gate.free; epoch = next_epoch c.epoch }

-- What tasks do: take the gate for a mutation by a ticket, give it back, replace the configuration.
pub data Event : Type 0 where
  locked : ConfigMutationTicket → Event
  unlocked begun replaced : Event

unlock : Gate → ConfigMutationCoordinator → Option ConfigMutationCoordinator
unlock Gate.mutating c = some (record c { gate = Gate.free })
unlock _ c = none

end_replacement : Gate → ConfigMutationCoordinator → Option ConfigMutationCoordinator
end_replacement Gate.replacing c = some (drop_replacement c)
end_replacement _ c = none

-- `none` where the event cannot happen: the gate is not its own to give back, or is taken.
unfoldable pub step : Event → ConfigMutationCoordinator → Option ConfigMutationCoordinator
unfolding unlock end_replacement
step (Event.locked t) c = some (lock t c).1
step Event.unlocked c = unlock c.gate c
step Event.begun c = begin_replacement c
step Event.replaced c = end_replacement c.gate c

abbrev pub run_next :
    (ConfigMutationCoordinator → Option ConfigMutationCoordinator)
    → Option ConfigMutationCoordinator
    → Option ConfigMutationCoordinator
run_next f none = none
run_next f (some c) = f c

unfoldable pub run : List Event → ConfigMutationCoordinator → Option ConfigMutationCoordinator
run [] c = some c
run (e ∷ es) c = run_next (run es) (step e c)
