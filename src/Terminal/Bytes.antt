-- ===== src/Terminal/Bytes.antt =====
-- src-tauri/src/remote/terminal_bytes.rs: frames of terminal output, and the search for a carriage
-- return that no line feed follows. The crate `memchr` is a parameter.
pub mod Scan
pub mod Frame
use hlem_ssh.Prelude.{
  ℕ, zero, suc, ◌+◌, ◌-◌, ◌*◌, ◌≡◌, refl, Bool, true, false, not, ◌&&◌, ◌||◌, List, [], ◌∷◌, Option,
  none, some, length, take, drop, get_elem?, any, leb, ltb, ◌==◌, bit_and, bit_or, if◌then◌else◌,
}
use hlem_ssh.Prelude.Text.{Bytes}

abbrev pub frame_payload_bytes : ℕ
frame_payload_bytes = 64 * 1024

abbrev pub frame_metadata : ℕ
frame_metadata = 0x80

abbrev pub frame_bare_cr : ℕ
frame_bare_cr = 0x04

-- The positions of a byte, counted from `i`.
unfoldable pub positions_from : ℕ → ℕ → Bytes → List ℕ
positions_from i needle [] = []
positions_from i needle (b ∷ bytes) =
    if b == needle
    then i ∷ positions_from (suc i) needle bytes
    else positions_from (suc i) needle bytes

first_of_list : List ℕ → Option ℕ
first_of_list [] = none
first_of_list (x ∷ xs) = some x

unfoldable pub first_position : ℕ → Bytes → Option ℕ
unfolding first_of_list
first_position needle bytes = first_of_list (positions_from 0 needle bytes)

-- `memchr::memchr_iter` and `memchr::memchr`, with what they are documented to return.
pub record Memchr : Type 0 where
  pub memchr_iter : ℕ → Bytes → List ℕ
  pub memchr : ℕ → Bytes → Option ℕ
  pub memchr_iter_lem :
      (needle : ℕ) (bytes : Bytes) → memchr_iter needle bytes ≡ positions_from 0 needle bytes
  pub memchr_lem : (needle : ℕ) (bytes : Bytes) → memchr needle bytes ≡ first_position needle bytes

unfoldable pub new_frame : ℕ → Bytes → Bytes
new_frame kind bytes = kind ∷ bytes

-- `value != Some(&b'\\n')`
abbrev pub is_not_lf : Option ℕ → Bool
is_not_lf none = true
is_not_lf (some b) = not (b == 10)

-- `cr_mask & !lf_mask != 0`, lane by lane.
unfoldable pub masks_hit : Bytes → Bytes → Bool
masks_hit (c ∷ current) (n ∷ next) = (c == 13 && not (n == 10)) || masks_hit current next
masks_hit _ _ = false

module _ (m : Memchr) where
  unfoldable pub portable_scan : Bytes → Bool
  portable_scan bytes =
      any (λ position. is_not_lf (get_elem? bytes (position + 1))) (m.memchr_iter 13 bytes)

  -- A vector loop with `width` lanes: `scan_avx2` at 32, `scan_sse2` and `scan_neon` at 16. `none`
  -- means that the fuel ran out.
  scan_lanes : ℕ → ℕ → Bytes → ℕ → Option Bool
  scan_lanes width zero bytes offset = none
  scan_lanes width (suc fuel) bytes offset =
      let further = scan_lanes width fuel bytes (offset + width) in
      let current = take width (drop offset bytes) in
      let next = take width (drop (offset + 1) bytes) in
      if leb (width + 1) (length bytes - offset)
      then (if masks_hit current next then some true else further)
      else some (portable_scan (drop offset bytes))

-- What `select_scan` finds the processor to have.
pub data Simd : Type 0 where
  avx2 sse2 neon portable : Simd

module _ (m : Memchr) where
  unfoldable pub scan_with : Simd → Bytes → Option Bool
  unfolding scan_lanes
  scan_with Simd.avx2 bytes = scan_lanes m 32 (suc (length bytes)) bytes 0
  scan_with Simd.sse2 bytes = scan_lanes m 16 (suc (length bytes)) bytes 0
  scan_with Simd.neon bytes = scan_lanes m 16 (suc (length bytes)) bytes 0
  scan_with Simd.portable bytes = some (portable_scan m bytes)

  -- From the first carriage return on.
  scan_from_cr : Simd → Bytes → Option Bool
  scan_from_cr simd bytes =
      if is_not_lf (get_elem? bytes 1) then some true else scan_with simd bytes

  long_scan : Simd → Bytes → Option ℕ → Option Bool
  unfolding scan_from_cr
  long_scan simd bytes none = some false
  long_scan simd bytes (some first_cr) = scan_from_cr simd (drop first_cr bytes)

  unfoldable pub has_bare_cr : Simd → Bytes → Option Bool
  unfolding long_scan
  has_bare_cr simd bytes =
      if ltb (length bytes) 64
      then some (portable_scan m bytes)
      else long_scan simd bytes (m.memchr 13 bytes)

bare_flag : Bool → ℕ
bare_flag bare = if bare then frame_bare_cr else 0

unfoldable pub annotated : ℕ → Bool → ℕ
unfolding bare_flag
annotated kind bare = bit_or (bit_or (bit_and kind 3) frame_metadata) (bare_flag bare)

unfoldable pub annotate : Bytes → Option Bool → Option Bytes
annotate [] bare = none
annotate (kind ∷ body) none = none
annotate (kind ∷ body) (some bare) = some (annotated kind bare ∷ body)

-- `none`: the slice `frame[1..]` of an empty frame panics.
unfoldable pub annotate_frame : Memchr → Simd → Bytes → Option Bytes
unfolding annotate
annotate_frame m simd frame = annotate frame (has_bare_cr m simd (drop 1 frame))
