-- ===== src/Jobs/Tail.antt =====
-- `BoundedTextTail` of src-tauri/src/api_server/jobs.rs: the last bytes of a job's output, cut on
-- character boundaries. A text is the list of its UTF-8 bytes.
pub mod Laws
use hlem_ssh.Prelude.{
  ℕ, zero, suc, ◌+◌, ◌-◌, max, Bool, true, false, not, ◌&&◌, List, [], ◌++◌, length, drop, ltb, leb,
  ◌==◌, if◌then◌else◌,
}
use hlem_ssh.Prelude.Text.{Bytes}
use hlem_ssh.Prelude.Utf8.{is_char_boundary, skip_continuations}

pub record BoundedTextTail : Type 0 where
  pub bytes : Bytes
  pub max_bytes : ℕ

unfoldable pub new : ℕ → BoundedTextTail
new max_bytes = record { bytes = []; max_bytes = max max_bytes 1 }

-- `while keep_from < bytes.len() && !text.is_char_boundary(keep_from) { keep_from += 1; }`
to_boundary : ℕ → Bytes → ℕ → ℕ
to_boundary zero text keep_from = keep_from
to_boundary (suc fuel) text keep_from =
    let further = to_boundary fuel text (keep_from + 1) in
    if ltb keep_from (length text) && not (is_char_boundary text keep_from)
    then further
    else keep_from

-- The flag says that the text was cut.
unfoldable pub push : BoundedTextTail → Bytes → BoundedTextTail × Bool
unfolding to_boundary
push tail text =
    if leb tail.max_bytes (length text)
    then (
      record tail {
        bytes = drop (to_boundary (length text) text (length text - tail.max_bytes)) text;
      },
      true,
    )
    else let joined = tail.bytes ++ text in
      let overflow = length joined - tail.max_bytes in
      if overflow == 0
      then (record tail { bytes = joined }, false)
      else (record tail { bytes = skip_continuations (drop overflow joined) }, true)
