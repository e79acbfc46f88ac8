-- ===== src/Prelude/Utf8/Resync.antt =====
-- Texts cut at any byte, and the continuation bytes at the cut.
use hlem_ssh.Prelude.Tests.{leb, Option-cases}
use hlem_ssh.Prelude.Lists.{length, drop, get_elem?}
use hlem_ssh.Prelude.Text.{Bytes}
use hlem_ssh.Prelude.Utf8.{
  lead, decodes, is_utf8, is_continuation, is_continuation_range, skip_continuations, lead_facts,
}
use Prim.Native.Nat.{ℕ, zero, suc, ◌+◌, ◌≤◌, ◌<◌}
use mathlib.Core.Path.{◌≡◌, refl}
use mathlib.Core.Logic.{inl, inr}
use mathlib.Core.Bool.{Bool, true, false, ◌&&◌}
use mathlib.Core.List.{[], ◌∷◌, ◌++◌}
use mathlib.Core.Option.{some}
use native.Mathlib.Omega.{arith}

-- One byte further: the decoder of the rest, in a state within bounds.
record Next (bs : Bytes) : Type 0 where
  due : ℕ
  lo : ℕ
  hi : ℕ
  few : due ≤ 3
  low : 0x80 ≤ lo
  high : hi ≤ 0xBF
  rest : decodes due lo hi bs ≡ true

decodes-Next : (k lo hi b : ℕ) (bs : Bytes) → k ≤ 3 → decodes k lo hi (b ∷ bs) ≡ true → Next bs
unfolding decodes
decodes-Next zero lo hi b bs small h = elim (Option-cases (lead b)) [
  | inl e ↦ absurd (ground arith)
  | inr (f, e) ↦ record {
    due = f.count;
    lo = f.lo;
    hi = f.hi;
    few = (lead_facts b e).2;
    low = (lead_facts b e).3;
    high = (lead_facts b e).4;
    rest = ground arith;
  }
]
decodes-Next (suc k) lo hi b bs small h = record {
  due = k;
  lo = 0x80;
  hi = 0xBF;
  few = omega arith;
  low = omega arith;
  high = omega arith;
  rest = ground arith;
}

-- A byte inside a character is skipped, and the first byte of a character is not.
first_due :
    (k lo hi b : ℕ) (bs : Bytes)
    → 0x80 ≤ lo
    → hi ≤ 0xBF
    → decodes (suc k) lo hi (b ∷ bs) ≡ true
    → is_continuation b ≡ true
unfolding decodes
first_due k lo hi b bs low high h = ground (arith, is_continuation_range b)

first_lead :
    (lo hi b : ℕ) (bs : Bytes) → decodes 0 lo hi (b ∷ bs) ≡ true → is_continuation b ≡ false
unfolding decodes
first_lead lo hi b bs h = elim (Option-cases (lead b)) [
  | inl e ↦ absurd (ground arith)
  | inr (f, e) ↦ ground (arith, lead_facts b e, is_continuation_range b)
]

decodes-skip :
    (k lo hi : ℕ) (bs : Bytes)
    → 0x80 ≤ lo
    → hi ≤ 0xBF
    → decodes k lo hi bs ≡ true
    → (is_utf8 (skip_continuations bs) ≡ true) × (length bs ≤ length (skip_continuations bs) + k)
unfolding decodes is_utf8 skip_continuations
decodes-skip zero lo hi [] low high h = (refl, omega arith)
decodes-skip zero lo hi (b ∷ bs) low high h = ground (arith, first_lead lo hi b bs h)
decodes-skip (suc k) lo hi [] low high h = absurd (ground arith)
decodes-skip (suc k) lo hi (b ∷ bs) low high h =
    ground (arith, first_due k lo hi b bs low high h, decodes-skip k 0x80 0xBF bs)

drop-skip :
    (n k lo hi : ℕ) (bs : Bytes)
    → k ≤ 3
    → 0x80 ≤ lo
    → hi ≤ 0xBF
    → decodes k lo hi bs ≡ true
    → (is_utf8 (skip_continuations (drop n bs)) ≡ true)
      × (length (drop n bs) ≤ length (skip_continuations (drop n bs)) + 3)
drop-skip zero k lo hi bs few low high h =
    let (u, l) = decodes-skip k lo hi bs low high h in (u, omega arith)
drop-skip (suc n) k lo hi [] few low high h =
    unfold is_utf8 skip_continuations in (refl, omega arith)
drop-skip (suc n) k lo hi (b ∷ bs) few low high h =
    let s = decodes-Next k lo hi b bs few h in
    drop-skip n s.due s.lo s.hi bs s.few s.low s.high s.rest

-- Wherever a UTF-8 text is cut, what is left is UTF-8 after at most three more bytes are dropped.
pub is_utf8-skip-drop :
    (n : ℕ) (bs : Bytes)
    → is_utf8 bs ≡ true
    → (is_utf8 (skip_continuations (drop n bs)) ≡ true)
      × (length (drop n bs) ≤ length (skip_continuations (drop n bs)) + 3)
unfolding is_utf8
is_utf8-skip-drop n bs h = drop-skip n 0 0x80 0xBF bs (omega arith) (omega arith) (omega arith) h

-- A text that begins a character has nothing to skip.
pub skip-eq_self : (bs : Bytes) → is_utf8 bs ≡ true → skip_continuations bs ≡ bs
unfolding is_utf8 skip_continuations
skip-eq_self [] h = refl
skip-eq_self (b ∷ bs) h = ground (arith, first_lead 0x80 0xBF b bs h)

and_mono : (a c d : Bool) → (c ≡ true → d ≡ true) → (a && c) ≡ true → (a && d) ≡ true
and_mono true c d f h = f h
and_mono false c d f h = h

decodes-append :
    (k lo hi : ℕ) (xs ys : Bytes)
    → decodes k lo hi xs ≡ true
    → decodes 0 0x80 0xBF ys ≡ true
    → decodes k lo hi (xs ++ ys) ≡ true
unfolding decodes
decodes-append zero lo hi [] [] h g = refl
decodes-append zero lo hi [] (y ∷ ys) h g = g
decodes-append zero lo hi (b ∷ xs) ys h g = elim (Option-cases (lead b)) [
  | inl e ↦ absurd (ground arith)
  | inr (f, e) ↦ rw (e, decodes) (decodes-append f.count f.lo f.hi xs ys (rw (e, decodes) at h) g)
]
decodes-append (suc k) lo hi [] ys h g = absurd (ground arith)
decodes-append (suc k) lo hi (b ∷ xs) ys h g =
    and_mono (leb lo b && leb b hi) _ _ (λ r. decodes-append k 0x80 0xBF xs ys r g) h

pub is_utf8-append :
    (xs ys : Bytes) → is_utf8 xs ≡ true → is_utf8 ys ≡ true → is_utf8 (xs ++ ys) ≡ true
unfolding is_utf8
is_utf8-append xs ys h g = decodes-append 0 0x80 0xBF xs ys h g

pub skip-length : (bs : Bytes) → length (skip_continuations bs) ≤ length bs
unfolding skip_continuations
skip-length [] = omega arith
skip-length (b ∷ bs) = ground (arith, skip-length bs)

byte_at :
    (i k lo hi : ℕ) (bs : Bytes) {b : ℕ}
    → k ≤ 3
    → 0x80 ≤ lo
    → hi ≤ 0xBF
    → decodes k lo hi bs ≡ true
    → get_elem? bs i ≡ some b
    → b < 256
unfolding decodes
byte_at i k lo hi [] few low high h e = absurd (ground arith)
byte_at zero zero lo hi (c ∷ bs) few low high h e = elim (Option-cases (lead c)) [
  | inl n ↦ absurd (cc (rw (n, decodes) at h))
  | inr (f, s) ↦ ground (arith, lead_facts c s)
]
byte_at zero (suc k) lo hi (c ∷ bs) few low high h e = ground arith
byte_at (suc i) k lo hi (c ∷ bs) few low high h e =
    let s = decodes-Next k lo hi c bs few h in
    byte_at i s.due s.lo s.hi bs s.few s.low s.high s.rest e

-- The elements of a text are bytes.
pub is_utf8-byte :
    (i : ℕ) (bs : Bytes) {b : ℕ} → is_utf8 bs ≡ true → get_elem? bs i ≡ some b → b < 256
unfolding is_utf8
is_utf8-byte i bs h e = byte_at i 0 0x80 0xBF bs (omega arith) (omega arith) (omega arith) h e
