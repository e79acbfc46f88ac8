-- ===== src/Prelude/Words.antt =====
-- Machine words: 64-bit saturating arithmetic. `usize` is that of the 64-bit builds.
use Prim.Native.Nat.{ℕ, ◌+◌, ◌-◌, ◌^◌, min}

abbrev pub u64_max : ℕ
u64_max = 2 ^ 64 - 1

abbrev pub usize_max : ℕ
usize_max = 2 ^ 64 - 1

-- `a.saturating_add(b)`; `saturating_sub` is the subtraction of ℕ.
abbrev pub saturating_add : ℕ → ℕ → ℕ
saturating_add a b = min (a + b) u64_max

-- `value.min(u64::MAX as u128) as u64`
abbrev pub clamp_u64 : ℕ → ℕ
clamp_u64 v = min v u64_max
