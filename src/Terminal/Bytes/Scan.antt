-- ===== src/Terminal/Bytes/Scan.antt =====
-- The scans of src-tauri/src/remote/terminal_bytes.rs and a plain reading of the text.
use hlem_ssh.Prelude.{
  ℕ, zero, suc, ◌+◌, ◌-◌, ◌≤◌, ◌<◌, ◌≡◌, refl, sym, ap, ◌∙◌, Bool, false, ◌&&◌, ◌||◌, List, [], ◌∷◌,
  Option, some, arith, length, take, drop, get_elem?, any, leb, ltb, ◌==◌, Bool-cases, inl, inr,
  length-drop, if_cases, any-if, drop-step, leb→le, ◌⊎◌,
}
use mathlib.Core.Path.{ap₂}
use native.Mathlib.Nat.{zero-add, suc-add}
use hlem_ssh.Prelude.Text.{Bytes}
use hlem_ssh.Terminal.Bytes.{
  Memchr, Simd, positions_from, first_position, is_not_lf, portable_scan, masks_hit, scan_lanes,
  scan_with, scan_from_cr, long_scan, has_bare_cr,
}

-- Some carriage return is the last byte or is followed by a byte that is no line feed.
pub bare_cr : Bytes → Bool
bare_cr [] = false
bare_cr (b ∷ bytes) = (b == 13 && is_not_lf (get_elem? bytes 0)) || bare_cr bytes

-- The positions from `i` on are those of a suffix, and the test looks at its next byte.
any-positions :
    (i : ℕ) (all bytes : Bytes)
    → drop i all ≡ bytes
    → any (λ position. is_not_lf (get_elem? all (position + 1))) (positions_from i 13 bytes)
      ≡ bare_cr bytes
unfolding positions_from bare_cr
any-positions i all [] h = refl
any-positions i all (b ∷ bytes) h =
    let (here, next, rest) = drop-step i all b bytes h in
    any-if (λ position. is_not_lf (get_elem? all (position + 1))) (b == 13) i _
    ∙ ap₂ (λ x y. b == 13 && is_not_lf x || y) next (any-positions (suc i) all bytes rest)

-- The portable scan is the plain reading.
portable_scan-bare_cr : (m : Memchr) (bytes : Bytes) → portable_scan m bytes ≡ bare_cr bytes
unfolding portable_scan
portable_scan-bare_cr m bytes = rw (m.memchr_iter_lem 13 bytes) (any-positions 0 bytes bytes refl)

-- A step of a vector loop reads the next `width` bytes, each with the byte after it.
masks_hit-bare_cr :
    (width : ℕ) (bytes : Bytes)
    → width < length bytes
    → bare_cr bytes
      ≡ (masks_hit (take width bytes) (take width (drop 1 bytes)) || bare_cr (drop width bytes))
unfolding bare_cr masks_hit
masks_hit-bare_cr zero bytes h = refl
masks_hit-bare_cr (suc width) [] h = absurd (omega arith)
masks_hit-bare_cr (suc width) (b ∷ []) h = absurd (omega arith)
masks_hit-bare_cr (suc width) (b ∷ c ∷ bytes) h =
    ground (arith, masks_hit-bare_cr width (c ∷ bytes))

drop_nil : (i : ℕ) → drop {A = ℕ} i [] ≡ []
drop_nil zero = refl
drop_nil (suc i) = refl

drop-drop : (i j : ℕ) (bytes : Bytes) → drop i (drop j bytes) ≡ drop (j + i) bytes
drop-drop i zero bytes = rw zero-add
drop-drop i (suc j) [] = drop_nil i ∙ sym (drop_nil (suc j + i))
drop-drop i (suc j) (b ∷ bytes) = rw suc-add (drop-drop i j bytes)

lanes_hit :
    (width offset : ℕ) (bytes : Bytes)
    → width + 1 ≤ length bytes - offset
    → bare_cr (drop offset bytes) ≡ (
        masks_hit (take width (drop offset bytes)) (take width (drop (offset + 1) bytes))
        || bare_cr (drop (offset + width) bytes))
lanes_hit width offset bytes h =
    masks_hit-bare_cr width (drop offset bytes) (omega (arith, length-drop offset bytes))
    ∙ ap₂ (λ x y. masks_hit (take width (drop offset bytes)) (take width x) || bare_cr y)
        (drop-drop 1 offset bytes) (drop-drop width offset bytes)

-- With fuel for what is left, a vector loop ends, and with the right answer.
scan_lanes-bare_cr :
    (m : Memchr) (width fuel : ℕ) (bytes : Bytes) (offset : ℕ)
    → 0 < width
    → offset ≤ length bytes
    → length bytes < fuel + offset
    → scan_lanes m width fuel bytes offset ≡ some (bare_cr (drop offset bytes))
unfolding scan_lanes
scan_lanes-bare_cr m width zero bytes offset pos inside enough = absurd (omega arith)
scan_lanes-bare_cr m width (suc fuel) bytes offset pos inside enough =
    if_cases IsRight (leb (width + 1) (length bytes - offset)) _ _
      (λ more.
        let room = leb→le (width + 1) (length bytes - offset) more in
        let hit = lanes_hit width offset bytes room in
        if_cases IsRight
          (masks_hit (take width (drop offset bytes)) (take width (drop (offset + 1) bytes))) _ _
          (λ e. ap some (sym (hit ∙ ground arith)))
          (λ e.
            scan_lanes-bare_cr m width fuel bytes (offset + width) pos (omega arith) (omega arith)
            ∙ ap some (sym (hit ∙ ground arith))))
      (λ _. ap some (portable_scan-bare_cr m (drop offset bytes)))
  where
    IsRight : Option Bool → Type 0
    IsRight r = r ≡ some (bare_cr (drop offset bytes))

scan_with-bare_cr :
    (m : Memchr) (simd : Simd) (bytes : Bytes) → scan_with m simd bytes ≡ some (bare_cr bytes)
unfolding scan_with
scan_with-bare_cr m Simd.avx2 bytes =
    scan_lanes-bare_cr m 32 (suc (length bytes)) bytes 0 (omega arith) (omega arith) (omega arith)
scan_with-bare_cr m Simd.sse2 bytes =
    scan_lanes-bare_cr m 16 (suc (length bytes)) bytes 0 (omega arith) (omega arith) (omega arith)
scan_with-bare_cr m Simd.neon bytes =
    scan_lanes-bare_cr m 16 (suc (length bytes)) bytes 0 (omega arith) (omega arith) (omega arith)
scan_with-bare_cr m Simd.portable bytes = ap some (portable_scan-bare_cr m bytes)

-- Before the first carriage return there is none, so the search may start at it.
first_cr :
    (i : ℕ) (bytes : Bytes)
    → ((positions_from i 13 bytes ≡ []) × (bare_cr bytes ≡ false))
      ⊎ ((p : ℕ) × (rest : Bytes) × (tail : List ℕ) × (positions_from i 13 bytes ≡ (i + p) ∷ tail)
          × (drop p bytes ≡ 13 ∷ rest)
          × (bare_cr bytes ≡ bare_cr (13 ∷ rest)))
unfolding positions_from bare_cr
first_cr i [] = inl (refl, refl)
first_cr i (b ∷ bytes) = elim (Bool-cases (b == 13)) [
  | inl e ↦
      let cr : b ≡ 13 = ground arith in
      inr (
        0,
        bytes,
        positions_from (suc i) 13 bytes,
        rw e (ap (λ x. x ∷ positions_from (suc i) 13 bytes) (omega arith)),
        ap (λ x. x ∷ bytes) cr,
        rw e,
      )
  | inr e ↦ elim (first_cr (suc i) bytes) [
    | inl (n, f) ↦ inl (rw e n, rw e f)
    | inr (p, rest, tail, n, d, f) ↦
        inr (suc p, rest, tail, rw e (n ∙ ap (λ x. x ∷ tail) (omega arith)), d, rw e f)
  ]
]

scan_from_cr-bare_cr :
    (m : Memchr) (simd : Simd) (rest : Bytes)
    → scan_from_cr m simd (13 ∷ rest) ≡ some (bare_cr (13 ∷ rest))
unfolding scan_from_cr
scan_from_cr-bare_cr m simd rest =
    if_cases (λ (r : Option Bool). r ≡ some (bare_cr (13 ∷ rest))) (is_not_lf (get_elem? rest 0)) _
      _ (λ e. unfold bare_cr in rw e) (λ _. scan_with-bare_cr m simd (13 ∷ rest))

long_scan-bare_cr :
    (m : Memchr) (simd : Simd) (bytes : Bytes)
    → long_scan m simd bytes (first_position 13 bytes) ≡ some (bare_cr bytes)
unfolding long_scan first_position
long_scan-bare_cr m simd bytes = elim (first_cr 0 bytes) [
  | inl (n, f) ↦ rw (n, f)
  | inr (p, rest, tail, n, d, f) ↦ rw (n, zero-add, d, f) (scan_from_cr-bare_cr m simd rest)
]

-- For a `memchr` that returns what it is documented to, the optimised search ends at every text
-- and with every vector unit, and finds exactly whether some carriage return has no line feed
-- after it.
pub has_bare_cr-bare_cr :
    (m : Memchr) (simd : Simd) (bytes : Bytes) → has_bare_cr m simd bytes ≡ some (bare_cr bytes)
unfolding has_bare_cr
has_bare_cr-bare_cr m simd bytes =
    if_cases (λ (r : Option Bool). r ≡ some (bare_cr bytes)) (ltb (length bytes) 64) _ _
      (λ _. ap some (portable_scan-bare_cr m bytes))
      (λ _. ap (long_scan m simd bytes) (m.memchr_lem 13 bytes) ∙ long_scan-bare_cr m simd bytes)
