-- ===== src/Terminal/Bytes/Frame.antt =====
-- The header and the payload of an annotated frame (src-tauri/src/remote/terminal_bytes.rs).
use hlem_ssh.Prelude.{
  ℕ, ◌<◌, ◌≡◌, refl, ap, Bool, true, false, ◌&&◌, ◌∷◌, some, arith, bit_and, ◌==◌, if◌then◌else◌,
}
use hlem_ssh.Prelude.Text.{Bytes}
use hlem_ssh.Prelude.Utf8.{passes, passes-byte}
use hlem_ssh.Terminal.Bytes.{
  Memchr, Simd, annotated, annotate, annotate_frame, new_frame, frame_bare_cr, frame_metadata,
}
use hlem_ssh.Terminal.Bytes.Scan.{bare_cr, has_bare_cr-bare_cr}

-- The header's parts, by the value of its byte: the kind, the mark of a scanned frame, the result.
abbrev header_fits : ℕ → Bool → ℕ → Bool
header_fits kind bare h =
    (bit_and h 3 == bit_and kind 3)
    && (bit_and h frame_metadata == frame_metadata)
    && (bit_and h frame_bare_cr == (if bare then frame_bare_cr else 0))

header_table :
    passes
      (λ kind.
        header_fits kind true (annotated kind true)
        && header_fits kind false (annotated kind false))
      0
      256
    ≡ true
unfolding passes annotated
header_table = refl

header :
    (kind : ℕ) (bare : Bool)
    → kind < 256
    → (bit_and (annotated kind bare) 3 ≡ bit_and kind 3)
      × (bit_and (annotated kind bare) frame_metadata ≡ frame_metadata)
      × (bit_and (annotated kind bare) frame_bare_cr ≡ (if bare then frame_bare_cr else 0))
header kind true h = ground (arith, passes-byte _ kind header_table h)
header kind false h = ground (arith, passes-byte _ kind header_table h)

-- If the kind is a byte, annotating a new frame leaves its payload as it is, and in the header
-- keeps the kind's two bits, marks the frame as scanned, and tells whether the payload has a bare
-- carriage return.
pub annotate_frame-new_frame :
    (m : Memchr) (simd : Simd) (kind : ℕ) (body : Bytes)
    → kind < 256
    → (h : ℕ) × (annotate_frame m simd (new_frame kind body) ≡ some (h ∷ body))
      × (bit_and h 3 ≡ bit_and kind 3)
      × (bit_and h frame_metadata ≡ frame_metadata)
      × (bit_and h frame_bare_cr ≡ (if bare_cr body then frame_bare_cr else 0))
unfolding annotate_frame annotate new_frame
annotate_frame-new_frame m simd kind body h =
    let (k, marked, bare) = header kind (bare_cr body) h in
    (
      annotated kind (bare_cr body),
      ap (annotate (kind ∷ body)) (has_bare_cr-bare_cr m simd body),
      k,
      marked,
      bare,
    )
