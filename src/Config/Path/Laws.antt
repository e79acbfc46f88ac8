-- ===== src/Config/Path/Laws.antt =====
-- The normal forms of paths (`normalize_remote_path` of src-tauri/src/config.rs).
use hlem_ssh.Prelude.{
  ◌≡◌, refl, ap, ◌∙◌, true, false, List, [], ◌∷◌, ◌++◌, ◌||◌, arith, All, All-append, if_cases, inl,
  inr, append_assoc, append-nil, sym, ◌⊎◌,
}
use hlem_ssh.Prelude.Text.{codes}
use hlem_ssh.Prelude.Chars.{
  Text, is_empty, same_text, is_whitespace, trim, trim_start, trim_end, split, join,
}
use hlem_ssh.Prelude.Chars.Laws.{Lacks, split-Lacks, split-join, trim-Starts}
use hlem_ssh.Config.Path.{
  slash, pop, step_segment, resolve, absolute, normalize_remote_path, starts_with_slash, relative,
  normalize_delete_target,
}

-- A segment that names something: not empty, not "." or "..", and with no slash.
pub record IsPlain (part : Text) : Type 0 where
  pub some_text : is_empty part ≡ false
  pub no_dot : same_text part (codes ".") ≡ false
  pub no_dots : same_text part (codes "..") ≡ false
  pub no_slash : Lacks slash part

pop-All : (P : Text → Type 0) (parts : List Text) → All P parts → All P (pop parts)
pop-All P [] h = tt
pop-All P (x ∷ []) h = tt
pop-All P (x ∷ y ∷ parts) h = (h.0, pop-All P (y ∷ parts) h.1)

step_segment-IsPlain :
    (parts : List Text) (part : Text)
    → Lacks slash part
    → All IsPlain parts
    → All IsPlain (step_segment parts part)
unfolding step_segment
step_segment-IsPlain parts part l h =
    if_cases (All IsPlain) (is_empty part || same_text part (codes ".")) _ _ (λ _. h)
      λ e.
        if_cases (All IsPlain) (same_text part (codes "..")) _ _ (λ _. pop-All IsPlain parts h)
          λ d. All-append IsPlain parts (part ∷ []) h (
            record { some_text = ground arith; no_dot = ground arith; no_dots = d; no_slash = l },
            tt,
          )

resolve-IsPlain :
    (parts rest : List Text)
    → All (Lacks slash) rest
    → All IsPlain parts
    → All IsPlain (resolve parts rest)
unfolding resolve
resolve-IsPlain parts [] l h = h
resolve-IsPlain parts (part ∷ rest) l h =
    resolve-IsPlain (step_segment parts part) rest l.1 (step_segment-IsPlain parts part l.0 h)

-- Plain segments are kept.
resolve-append : (parts rest : List Text) → All IsPlain rest → resolve parts rest ≡ parts ++ rest
unfolding resolve
resolve-append parts [] h = sym (append-nil parts)
resolve-append parts (part ∷ rest) h =
    let kept : step_segment parts part ≡ parts ++ part ∷ [] =
      unfold step_segment in rw (h.0.some_text, h.0.no_dot, h.0.no_dots) refl in
    rw kept (resolve-append (parts ++ part ∷ []) rest h.1 ∙ append_assoc parts (part ∷ []) rest)

segments-IsPlain : (text : Text) → All IsPlain (resolve [] (split slash text))
segments-IsPlain text = resolve-IsPlain [] (split slash text) (split-Lacks slash text) tt

plain-Lacks : (parts : List Text) → All IsPlain parts → All (Lacks slash) parts
plain-Lacks [] h = tt
plain-Lacks (part ∷ parts) h = (h.0.no_slash, plain-Lacks parts h.1)

resolve-absolute :
    (parts : List Text) → All IsPlain parts → resolve [] (split slash (absolute parts)) ≡ parts
unfolding absolute split resolve step_segment
resolve-absolute [] h = refl
resolve-absolute (part ∷ parts) h =
    ap (resolve []) (split-join slash part parts (plain-Lacks (part ∷ parts) h))
    ∙ resolve-append [] (part ∷ parts) h

resolve-relative :
    (parts : List Text) → All IsPlain parts → resolve [] (split slash (relative parts)) ≡ parts
unfolding relative split resolve step_segment
resolve-relative [] h = refl
resolve-relative (part ∷ parts) h =
    ap (resolve []) (split-join slash part parts (plain-Lacks (part ∷ parts) h))
    ∙ resolve-append [] (part ∷ parts) h

relative-no_slash :
    (parts : List Text) → All IsPlain parts → starts_with_slash (relative parts) ≡ false
unfolding relative join
relative-no_slash [] h = refl
relative-no_slash ([] ∷ parts) h = absurd (ground (arith, h.0.some_text))
relative-no_slash ((c ∷ part) ∷ []) h = ground (arith, h.0.no_slash)
relative-no_slash ((c ∷ part) ∷ next ∷ parts) h = ground (arith, h.0.no_slash)

absolute-starts : (parts : List Text) → starts_with_slash (absolute parts) ≡ true
unfolding absolute
absolute-starts [] = refl
absolute-starts (part ∷ parts) = refl

absolute-trim : (parts : List Text) → is_empty (trim (absolute parts)) ≡ false
unfolding absolute
absolute-trim [] = trim-Starts slash [] (unfold is_whitespace in refl)
absolute-trim (part ∷ parts) =
    trim-Starts slash (join slash (part ∷ parts)) (unfold is_whitespace in refl)

-- A normalised remote path is empty, or a slash and segments with slashes between them, none of
-- which is empty, "." or ".." or has a slash.
pub normalize_remote_path_lem :
    (path : Text)
    → (normalize_remote_path path ≡ [])
      ⊎ ((parts : List Text) × All IsPlain parts × (normalize_remote_path path ≡ absolute parts))
unfolding normalize_remote_path
normalize_remote_path_lem path =
    if_cases
      (λ (t : Text). (t ≡ []) ⊎ ((parts : List Text) × All IsPlain parts × (t ≡ absolute parts)))
      (is_empty (trim path)) _ _ (λ _. inl refl)
      (λ _. inr (resolve [] (split slash path), segments-IsPlain path, refl))

-- Normalising a remote path twice is normalising it once.
pub normalize_remote_path-normalize_remote_path :
    (path : Text) → normalize_remote_path (normalize_remote_path path) ≡ normalize_remote_path path
unfolding normalize_remote_path trim_end trim_start
normalize_remote_path-normalize_remote_path path = elim (normalize_remote_path_lem path) [
  | inl e ↦ rw e (unfold trim in refl)
  | inr (parts, plain, e) ↦
      rw e (rw (absolute-trim parts) (ap absolute (resolve-absolute parts plain)))
]

-- Normalising the target of a deletion again changes nothing.
pub normalize_delete_target-normalize_delete_target :
    (value : Text)
    → normalize_delete_target (normalize_delete_target value) ≡ normalize_delete_target value
unfolding normalize_delete_target
normalize_delete_target-normalize_delete_target value =
    let plain = segments-IsPlain value in
    let parts = resolve [] (split slash value) in
    if_cases (λ t. normalize_delete_target t ≡ t) (starts_with_slash value) _ _
      (λ _. rw (absolute-starts parts) (ap absolute (resolve-absolute parts plain)))
      (λ _. rw (relative-no_slash parts plain) (ap relative (resolve-relative parts plain)))
