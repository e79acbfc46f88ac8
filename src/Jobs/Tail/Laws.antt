-- ===== src/Jobs/Tail/Laws.antt =====
-- What is left of the texts pushed to a `BoundedTextTail` of src-tauri/src/api_server/jobs.rs.
use hlem_ssh.Prelude.{
  ℕ, zero, suc, ◌+◌, ◌-◌, ◌≤◌, ◌<◌, ◌≡◌, refl, true, not, [], ◌∷◌, ◌++◌, length, drop,
  length-append, length-drop, arith, inl, inr, get_elem?, some, ◌⊎◌, drop_all, le→ltb, drop-append,
  sym, min, dec_lt,
}
use hlem_ssh.Prelude.Text.{Bytes}
use hlem_ssh.Prelude.Utf8.{
  is_utf8, is_char_boundary, is_continuation, skip_continuations, is_continuation_range,
}
use hlem_ssh.Prelude.Utf8.Resync.{
  is_utf8-byte, is_utf8-skip-drop, is_utf8-append, skip-eq_self, skip-length,
}
use hlem_ssh.Jobs.Tail.{BoundedTextTail, to_boundary, push}

pub record IsValid (t : BoundedTextTail) : Type 0 where
  pub bounded : length t.bytes ≤ t.max_bytes
  pub whole : is_utf8 t.bytes ≡ true
  pub positive : 0 < t.max_bytes

drop_cases :
    (k : ℕ) (text : Bytes)
    → ((length text ≤ k) × (drop k text ≡ []))
      ⊎ ((b : ℕ) × (get_elem? text k ≡ some b)
          × (drop k text ≡ b ∷ drop (suc k) text)
          × (k < length text))
drop_cases zero [] = inl (omega arith, refl)
drop_cases (suc k) [] = inl (omega arith, refl)
drop_cases zero (b ∷ text) = inr (b, refl, refl, omega arith)
drop_cases (suc k) (c ∷ text) = elim (drop_cases k text) [
  | inl (l, d) ↦ inl (omega arith, d)
  | inr (b, g, d, l) ↦ inr (b, g, d, omega arith)
]

boundary_inside :
    (k b : ℕ) (text : Bytes)
    → 0 < k
    → b < 256
    → get_elem? text k ≡ some b
    → is_char_boundary text k ≡ not (is_continuation b)
unfolding is_char_boundary
boundary_inside k b text h lt e = ground (arith, is_continuation_range b)

-- Inside a text the loop stops where the continuation bytes at the cut end.
drop-to_boundary :
    (fuel k : ℕ) (text : Bytes)
    → 0 < k
    → length text ≤ fuel + k
    → is_utf8 text ≡ true
    → drop (to_boundary fuel text k) text ≡ skip_continuations (drop k text)
unfolding to_boundary skip_continuations
drop-to_boundary zero k text p h u = rw (drop_all k text (omega arith))
drop-to_boundary (suc fuel) k text p h u = elim (drop_cases k text) [
  | inl (l, d) ↦ rw (le→ltb k (length text) l) (rw d)
  | inr (b, g, d, l) ↦ ground (
    arith,
    boundary_inside k b text p (is_utf8-byte k text u g) g,
    drop-to_boundary fuel (suc k) text,
    d,
  )
]

-- The reference: the last `max_bytes` bytes of all that was pushed, from a character on.
abbrev pub last_bytes : BoundedTextTail → Bytes → Bytes
last_bytes t text =
    let all = t.bytes ++ text in skip_continuations (drop (length all - t.max_bytes) all)

to_boundary_start : (fuel : ℕ) (text : Bytes) → to_boundary fuel text 0 ≡ 0
unfolding to_boundary is_char_boundary
to_boundary_start zero text = refl
to_boundary_start (suc fuel) text = ground arith

long_text :
    (t : BoundedTextTail) (text : Bytes)
    → is_utf8 text ≡ true
    → t.max_bytes ≤ length text
    → drop (to_boundary (length text) text (length text - t.max_bytes)) text ≡ last_bytes t text
long_text t text u l =
    let e : length (t.bytes ++ text) - t.max_bytes ≡ length t.bytes + (length text - t.max_bytes) =
      omega (arith, length-append t.bytes text) in
    rw (e, drop-append (length text - t.max_bytes) t.bytes text)
      (elim (dec_lt 0 (length text - t.max_bytes)) [
        | yes p ↦ drop-to_boundary (length text) _ text p (omega arith) u
        | no p ↦
            let z : length text - t.max_bytes ≡ 0 = omega arith in
            rw (z, to_boundary_start (length text) text) (sym (skip-eq_self text u))
      ])

short_text :
    (t : BoundedTextTail) (text : Bytes)
    → is_utf8 (t.bytes ++ text) ≡ true
    → length (t.bytes ++ text) ≤ t.max_bytes
    → t.bytes ++ text ≡ last_bytes t text
short_text t text u l =
    let z : length (t.bytes ++ text) - t.max_bytes ≡ 0 = omega arith in
    rw z (sym (skip-eq_self (t.bytes ++ text) u))

-- If the tail and the pushed text are UTF-8, pushing leaves exactly the last `max_bytes` bytes of
-- the two together, less the continuation bytes at the cut.
pub push-last_bytes :
    (t : BoundedTextTail) (text : Bytes)
    → is_utf8 t.bytes ≡ true
    → is_utf8 text ≡ true
    → (push t text).0.bytes ≡ last_bytes t text
unfolding push
push-last_bytes t text u v =
    ground (arith, long_text t text v, short_text t text (is_utf8-append t.bytes text u v))

pub push-max_bytes : (t : BoundedTextTail) (text : Bytes) → (push t text).0.max_bytes ≡ t.max_bytes
unfolding push
push-max_bytes t text = ground arith

-- If a tail is within its bound, which is positive, and is UTF-8, then it is so after a push of a
-- text that is UTF-8.
pub push-IsValid :
    (t : BoundedTextTail) (text : Bytes) → IsValid t → is_utf8 text ≡ true → IsValid (push t text).0
push-IsValid t text v u =
    let all = t.bytes ++ text in
    let n = length all - t.max_bytes in
    record {
      bounded =
          rw (push-last_bytes t text v.whole u, push-max_bytes t text)
            (omega (arith, skip-length (drop n all), length-drop n all));
      whole =
          rw (push-last_bytes t text v.whole u)
            (is_utf8-skip-drop n all (is_utf8-append t.bytes text v.whole u)).0;
      positive = rw (push-max_bytes t text) v.positive;
    }

-- If the tail and the pushed text are UTF-8, a push keeps at most three bytes fewer than the bound
-- allows, and where it does not report a truncation it keeps everything.
pub push_keeps :
    (t : BoundedTextTail) (text : Bytes)
    → is_utf8 t.bytes ≡ true
    → is_utf8 text ≡ true
    → (min t.max_bytes (length (t.bytes ++ text)) ≤ length (push t text).0.bytes + 3)
      × (((push t text).1 ≡ true) ⊎ ((push t text).0.bytes ≡ t.bytes ++ text))
push_keeps t text u v =
    let all = t.bytes ++ text in
    let n = length all - t.max_bytes in
    (
      rw (push-last_bytes t text u v) (
          omega (
            arith,
            (is_utf8-skip-drop n all (is_utf8-append t.bytes text u v)).1,
            length-drop n all,
          )),
      (unfold push in ground arith),
    )
