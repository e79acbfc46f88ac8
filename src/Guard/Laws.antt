-- ===== src/Guard/Laws.antt =====
-- What the test for recursive deletions (src-tauri/src/api_server/guard.rs) catches.
use hlem_ssh.Prelude.{
  ap, ◌≡◌, refl, ◌∙◌, Bool, true, false, not, ◌&&◌, ◌||◌, List, [], ◌∷◌, ◌++◌, any, arith, All,
  if_cases,
}
use hlem_ssh.Prelude.Text.{codes}
use hlem_ssh.Prelude.Chars.{Text, same_text, starts_with}
use hlem_ssh.Guard.{
  Scan, is_separator, has_recursive_letter, scan_arg, scan_args, fresh_scan, is_caught,
  is_dangerous_recursive_delete_target, has_dangerous_recursive_rm,
}

abbrev pub is_dangerous : Text → Bool
is_dangerous = is_dangerous_recursive_delete_target

-- A word in which a short option asks for recursion.
abbrev pub asks_recursion : Text → Bool
asks_recursion arg =
    not (starts_with (codes "--") arg) && starts_with (codes "-") arg && has_recursive_letter arg

abbrev pub is_dangerous_word : Text → Bool
is_dangerous_word arg = not (starts_with (codes "-") arg) && is_dangerous arg

-- Neither a separator nor the end of the options.
abbrev pub IsPlain : Text → Type 0
IsPlain arg = (is_separator arg ≡ false) × (same_text arg (codes "--") ≡ false)

either_way :
    (a b c : Bool) → (a || b) ≡ true → (a ≡ true → c ≡ true) → (b ≡ true → c ≡ true) → c ≡ true
either_way true b c h f g = f refl
either_way false b c h f g = g h

any-append : (p : Text → Bool) (xs ys : List Text) → any p (xs ++ ys) ≡ (any p xs || any p ys)
any-append p [] ys = refl
any-append p (x ∷ xs) ys = ground (arith, any-append p xs ys)

-- An argument takes back neither the recursion nor a target.
recursive-scan_arg :
    (s : Scan) (arg : Text) → s.recursive ≡ true → (scan_arg s arg).recursive ≡ true
unfolding scan_arg
recursive-scan_arg s arg h =
    if_cases Asks (same_text arg (codes "--")) _ _ (λ _. h)
      λ _.
        if_cases Asks (s.parse_options && starts_with (codes "--") arg) _ _ (λ _. ground (arith, h))
          λ _.
            if_cases Asks (s.parse_options && starts_with (codes "-") arg) _ _
              (λ _. ground (arith, h)) (λ _. h)
  where
    Asks : Scan → Type 0
    Asks t = t.recursive ≡ true

targets-scan_arg :
    (s : Scan) (arg : Text)
    → any is_dangerous s.targets ≡ true
    → any is_dangerous (scan_arg s arg).targets ≡ true
unfolding scan_arg
targets-scan_arg s arg h =
    if_cases Aims (same_text arg (codes "--")) _ _ (λ _. h)
      λ _.
        if_cases Aims (s.parse_options && starts_with (codes "--") arg) _ _ (λ _. h)
          λ _.
            if_cases Aims (s.parse_options && starts_with (codes "-") arg) _ _ (λ _. h)
              λ _. any-append is_dangerous s.targets (arg ∷ []) ∙ ground (arith, h)
  where
    Aims : Scan → Type 0
    Aims t = any is_dangerous t.targets ≡ true

recursive-scan_args :
    (s : Scan) (args : List Text) → s.recursive ≡ true → (scan_args s args).recursive ≡ true
unfolding scan_args
recursive-scan_args s [] h = h
recursive-scan_args s (arg ∷ args) h =
    if_cases (λ (t : Scan). t.recursive ≡ true) (is_separator arg) _ _ (λ _. h)
      (λ _. recursive-scan_args (scan_arg s arg) args (recursive-scan_arg s arg h))

targets-scan_args :
    (s : Scan) (args : List Text)
    → any is_dangerous s.targets ≡ true
    → any is_dangerous (scan_args s args).targets ≡ true
unfolding scan_args
targets-scan_args s [] h = h
targets-scan_args s (arg ∷ args) h =
    if_cases (λ (t : Scan). any is_dangerous t.targets ≡ true) (is_separator arg) _ _ (λ _. h)
      (λ _. targets-scan_args (scan_arg s arg) args (targets-scan_arg s arg h))

-- What a plain argument does while options are read.
record IsRead (arg : Text) (t : Scan) : Type 0 where
  options : t.parse_options ≡ true
  asks : asks_recursion arg ≡ true → t.recursive ≡ true
  aims : is_dangerous_word arg ≡ true → any is_dangerous t.targets ≡ true

-- A word that starts with two dashes starts with one.
starts_dashes :
    (arg : Text) → starts_with (codes "--") arg ≡ true → starts_with (codes "-") arg ≡ true
starts_dashes [] h = h
starts_dashes (c ∷ arg) h = ground (arith, h)

not_long : (arg : Text) → starts_with (codes "--") arg ≡ true → ¬ (is_dangerous_word arg ≡ true)
not_long arg e h =
    let short = starts_dashes arg e in let rest : false ≡ true = rw short at h in absurd cc

scan_arg-IsRead :
    (s : Scan) (arg : Text) → s.parse_options ≡ true → IsPlain arg → IsRead arg (scan_arg s arg)
unfolding scan_arg
scan_arg-IsRead s arg reads plain = rw plain.1 (
    if_cases (IsRead arg) (s.parse_options && starts_with (codes "--") arg) _ _
      (λ e. record {
        options = reads;
        asks = λ h. absurd (ground (arith, e, h));
        aims = λ h. absurd (not_long arg (ground (arith, e)) h);
      })
      λ e.
        if_cases (IsRead arg) (s.parse_options && starts_with (codes "-") arg) _ _
          (λ f. record {
            options = reads;
            asks = λ h. ground (arith, h);
            aims = λ h. absurd (ground (arith, f, h));
          })
          λ f. record {
            options = reads;
            asks = λ h. absurd (ground (arith, reads, f, h));
            aims = λ h. any-append is_dangerous s.targets (arg ∷ []) ∙ ground (arith, h);
          })

-- The scan reads past a plain argument.
scan_args-step :
    (s : Scan) (arg : Text) (args : List Text)
    → IsPlain arg
    → scan_args s (arg ∷ args) ≡ scan_args (scan_arg s arg) args
unfolding scan_args
scan_args-step s arg args plain = rw plain.0 refl

scan_args-recursive :
    (s : Scan) (args after : List Text)
    → s.parse_options ≡ true
    → All IsPlain args
    → any asks_recursion args ≡ true
    → (scan_args s (args ++ after)).recursive ≡ true
scan_args-recursive s [] after reads plain h = absurd cc
scan_args-recursive s (arg ∷ args) after reads plain h =
    let read = scan_arg-IsRead s arg reads plain.0 in
    ap (λ (t : Scan). t.recursive) (scan_args-step s arg (args ++ after) plain.0)
    ∙ either_way (asks_recursion arg) (any asks_recursion args) _ h
        (λ e. recursive-scan_args (scan_arg s arg) (args ++ after) (read.asks e))
        (λ e. scan_args-recursive (scan_arg s arg) args after read.options plain.1 e)

scan_args-targets :
    (s : Scan) (args after : List Text)
    → s.parse_options ≡ true
    → All IsPlain args
    → any is_dangerous_word args ≡ true
    → any is_dangerous (scan_args s (args ++ after)).targets ≡ true
scan_args-targets s [] after reads plain h = absurd cc
scan_args-targets s (arg ∷ args) after reads plain h =
    let read = scan_arg-IsRead s arg reads plain.0 in
    ap (λ (t : Scan). any is_dangerous t.targets) (scan_args-step s arg (args ++ after) plain.0)
    ∙ either_way (is_dangerous_word arg) (any is_dangerous_word args) _ h
        (λ e. targets-scan_args (scan_arg s arg) (args ++ after) (read.aims e))
        (λ e. scan_args-targets (scan_arg s arg) args after read.options plain.1 e)

caught_here :
    (args after : List Text)
    → All IsPlain args
    → any asks_recursion args ≡ true
    → any is_dangerous_word args ≡ true
    → is_caught (scan_args fresh_scan (args ++ after)) ≡ true
caught_here args after plain asks aims =
    rw (scan_args-recursive fresh_scan args after refl plain asks)
      (scan_args-targets fresh_scan args after refl plain aims)

-- An `rm` is caught wherever it stands among the words and whatever follows, if it has an option
-- with an `r` and a dangerous target among plain arguments, in any order: none of them is a
-- separator or `--`, and the target does not start with a dash.
pub has_dangerous_recursive_rm-caught :
    (before args after : List Text)
    → All IsPlain args
    → any asks_recursion args ≡ true
    → any is_dangerous_word args ≡ true
    → has_dangerous_recursive_rm (before ++ codes "rm" ∷ args ++ after) ≡ true
unfolding has_dangerous_recursive_rm
has_dangerous_recursive_rm-caught [] args after plain asks aims =
    rw (caught_here args after plain asks aims) refl
has_dangerous_recursive_rm-caught (word ∷ before) args after plain asks aims =
    let later = has_dangerous_recursive_rm-caught before args after plain asks aims in
    if_cases (λ (b : Bool). b ≡ true) (not (same_text word (codes "rm"))) _ _ (λ _. later)
      λ _.
        if_cases (λ (b : Bool). b ≡ true)
          (is_caught (scan_args fresh_scan (before ++ codes "rm" ∷ args ++ after))) _ _ (λ _. refl)
          (λ _. later)
