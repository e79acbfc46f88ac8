-- ===== src/Prelude/Utf8.antt =====
-- What the program uses of Rust's UTF-8: `String::from_utf8`'s test (RFC 3629), and
-- `str::is_char_boundary`.
pub mod Resync
use Prim.Native.Nat.{◌+◌, ℕ, zero, suc, ◌≤◌, ◌<◌, bit_and}
use mathlib.Core.Path.{◌≡◌, refl}
use mathlib.Core.Bool.{Bool, true, false, not, ◌&&◌}
use mathlib.Core.List.{[], ◌∷◌}
use mathlib.Core.Option.{Option, none, some}
use native.Mathlib.Omega.{arith}
use hlem_ssh.Prelude.Tests.{ltb, leb, ◌==◌, if◌then◌else◌}
use hlem_ssh.Prelude.Lists.{length, get_elem?}
use hlem_ssh.Prelude.Text.{Bytes}

-- What must follow a lead byte: how many continuation bytes, and the range of the first.
pub record Follow : Type 0 where
  pub count : ℕ
  pub lo : ℕ
  pub hi : ℕ

abbrev follow : ℕ → ℕ → ℕ → Option Follow
follow n lo hi = some (record { count = n; lo = lo; hi = hi })

lead : ℕ → Option Follow
lead b =
    if ltb b 0x80
    then follow 0 0x80 0xBF
    else if leb 0xC2 b && leb b 0xDF
    then follow 1 0x80 0xBF
    else if b == 0xE0
    then follow 2 0xA0 0xBF
    else if b == 0xED
    then follow 2 0x80 0x9F
    else if leb 0xE1 b && leb b 0xEF
    then follow 2 0x80 0xBF
    else if b == 0xF0
    then follow 3 0x90 0xBF
    else if leb 0xF1 b && leb b 0xF3
    then follow 3 0x80 0xBF
    else if b == 0xF4
    then follow 3 0x80 0x8F
    else none

-- The decoder in the middle of a character: `k` continuation bytes are still due.
decodes : ℕ → ℕ → ℕ → Bytes → Bool
decodes zero lo hi [] = true
decodes zero lo hi (b ∷ bs) = elim (lead b) [ none ↦ false | some f ↦ decodes f.count f.lo f.hi bs ]
decodes (suc k) lo hi [] = false
decodes (suc k) lo hi (b ∷ bs) = leb lo b && leb b hi && decodes k 0x80 0xBF bs

unfoldable pub is_utf8 : Bytes → Bool
unfolding decodes lead
is_utf8 = decodes 0 0x80 0xBF

-- `byte & 0b1100_0000 == 0b1000_0000`
unfoldable pub is_continuation : ℕ → Bool
is_continuation b = bit_and b 0xC0 == 0x80

unfoldable pub is_char_boundary : Bytes → ℕ → Bool
is_char_boundary bytes i = if i == 0 then true else elim (get_elem? bytes i) [
  | none ↦ i == length bytes
  | some b ↦ not (leb 0x80 b && ltb b 0xC0)
]

-- Continuation bytes at the front are dropped.
unfoldable pub skip_continuations : Bytes → Bytes
skip_continuations [] = []
skip_continuations (b ∷ bs) = if is_continuation b then skip_continuations bs else b ∷ bs

-- Whether a test passes on `count` numbers from `first` on.
unfoldable pub passes : (ℕ → Bool) → ℕ → ℕ → Bool
passes test first zero = true
passes test first (suc count) = test first && passes test (first + 1) count

passes-offset :
    (test : ℕ → Bool) (first count offset : ℕ)
    → passes test first count ≡ true
    → offset < count
    → test (first + offset) ≡ true
unfolding passes
passes-offset test first zero offset ok small = absurd (omega arith)
passes-offset test first (suc count) zero ok small =
    let here : first + 0 ≡ first = omega arith in rw here (ground arith)
passes-offset test first (suc count) (suc offset) ok small =
    let further : first + suc offset ≡ first + 1 + offset = omega arith in
    let others : passes test (first + 1) count ≡ true = ground arith in
    rw further (passes-offset test (first + 1) count offset others (omega arith))

-- A table of a byte's values decides for each of them.
pub passes-byte :
    (test : ℕ → Bool) (byte : ℕ) → passes test 0 256 ≡ true → byte < 256 → test byte ≡ true
passes-byte test byte ok small =
    let same_byte : byte ≡ 0 + byte = omega arith in
    rw same_byte (passes-offset test 0 256 byte ok small)

abbrev same : Bool → Bool → Bool
same true b = b
same false b = not b

same-eq : (a b : Bool) → same a b ≡ true → a ≡ b
same-eq a b h = ground arith

continuation_table : passes (λ b. same (is_continuation b) (leb 0x80 b && leb b 0xBF)) 0 256 ≡ true
unfolding passes is_continuation
continuation_table = refl

-- On bytes the mask test is a range test.
pub is_continuation_range : (b : ℕ) → b < 256 → is_continuation b ≡ (leb 0x80 b && leb b 0xBF)
is_continuation_range b h = same-eq _ _ (passes-byte _ b continuation_table h)

-- A lead byte is no continuation, and asks for at most three.
lead_facts :
    (b : ℕ) {f : Follow}
    → lead b ≡ some f
    → (b < 256)
      × ((leb 0x80 b && leb b 0xBF) ≡ false)
      × (f.count ≤ 3)
      × (0x80 ≤ f.lo)
      × (f.hi ≤ 0xBF)
unfolding lead
lead_facts b h = ground arith
