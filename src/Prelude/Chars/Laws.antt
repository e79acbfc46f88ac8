-- ===== src/Prelude/Chars/Laws.antt =====
-- Laws of trimming, splitting and joining.
use hlem_ssh.Prelude.Tests.{◌==◌, Bool-cases, if_cases}
use hlem_ssh.Prelude.Lists.{any, All}
use hlem_ssh.Prelude.Chars.{
  Text, is_empty, same_text, is_whitespace, trim_start, trim_end, trim, onto_first, split, join,
}
use Prim.Native.Nat.{ℕ}
use mathlib.Core.Path.{◌≡◌, refl, ap, ◌∙◌}
use mathlib.Core.Logic.{inl, inr}
use mathlib.Core.Bool.{true, false, ◌&&◌}
use mathlib.Core.List.{List, [], ◌∷◌, ◌++◌}
use native.Mathlib.Omega.{arith}

pub same_text_refl : (s : Text) → same_text s s ≡ true
same_text_refl [] = refl
same_text_refl (c ∷ s) = ground (arith, same_text_refl s)

pub same_text-eq : (s t : Text) → same_text s t ≡ true → s ≡ t
same_text-eq [] [] h = refl
same_text-eq (a ∷ s) (b ∷ t) h = ground (arith, same_text-eq s t)
same_text-eq [] (b ∷ t) h = absurd (ground arith)
same_text-eq (a ∷ s) [] h = absurd (ground arith)

-- A text that begins with no blank.
abbrev pub Starts : Text → Type 0
Starts [] = Unit
Starts (c ∷ text) = is_whitespace c ≡ false

trim_start-Starts : (text : Text) → Starts (trim_start text)
unfolding trim_start
trim_start-Starts [] = tt
trim_start-Starts (c ∷ text) =
    if_cases Starts (is_whitespace c) (trim_start text) (c ∷ text) (λ _. trim_start-Starts text)
      (λ e. e)

trim_start-eq_self : (text : Text) → Starts text → trim_start text ≡ text
unfolding trim_start
trim_start-eq_self [] h = refl
trim_start-eq_self (c ∷ text) h = rw h refl

trim_end-Starts : (text : Text) → Starts text → Starts (trim_end text)
unfolding trim_end
trim_end-Starts [] h = tt
trim_end-Starts (c ∷ text) h =
    if_cases Starts (is_whitespace c && is_empty (trim_end text)) [] (c ∷ trim_end text) (λ _. tt)
      (λ _. h)

trim_end_twice : (text : Text) → trim_end (trim_end text) ≡ trim_end text
unfolding trim_end
trim_end_twice [] = refl
trim_end_twice (c ∷ text) =
    if_cases (λ t. trim_end t ≡ t) (is_whitespace c && is_empty (trim_end text)) []
      (c ∷ trim_end text) (λ _. refl) (λ e. rw (trim_end_twice text) (rw e refl))

pub trim-trim : (text : Text) → trim (trim text) ≡ trim text
unfolding trim
trim-trim text =
    let started = trim_end-Starts (trim_start text) (trim_start-Starts text) in
    rw (trim_start-eq_self (trim_end (trim_start text)) started) (trim_end_twice (trim_start text))

-- A text with a character that is no blank does not trim to nothing.
pub trim-Starts :
    (c : ℕ) (text : Text) → is_whitespace c ≡ false → is_empty (trim (c ∷ text)) ≡ false
unfolding trim trim_start trim_end
trim-Starts c text h = rw h (rw h refl)

-- No separator in the text.
abbrev pub Lacks : ℕ → Text → Type 0
Lacks sep text = any (λ c. c == sep) text ≡ false

onto_first-Lacks :
    (sep c : ℕ) (parts : List Text)
    → (c == sep) ≡ false
    → All (Lacks sep) parts
    → All (Lacks sep) (onto_first c parts)
onto_first-Lacks sep c [] h l = (ground arith, tt)
onto_first-Lacks sep c (part ∷ parts) h l = (ground (arith, l.0), l.1)

pub split-Lacks : (sep : ℕ) (text : Text) → All (Lacks sep) (split sep text)
unfolding split
split-Lacks sep [] = (refl, tt)
split-Lacks sep (c ∷ text) =
    if_cases (All (Lacks sep)) (c == sep) ([] ∷ split sep text) (onto_first c (split sep text))
      (λ _. (refl, split-Lacks sep text))
      (λ e. onto_first-Lacks sep c (split sep text) e (split-Lacks sep text))

split_one : (sep : ℕ) (part : Text) → Lacks sep part → split sep part ≡ part ∷ []
unfolding split
split_one sep [] h = refl
split_one sep (c ∷ part) h = elim (Bool-cases (c == sep)) [
  | inl e ↦ absurd (ground arith)
  | inr e ↦
      let rest : any (λ d. d == sep) part ≡ false = ground arith in
      rw e (ap (onto_first c) (split_one sep part rest))
]

split_first :
    (sep : ℕ) (part rest : Text)
    → Lacks sep part
    → split sep (part ++ sep ∷ rest) ≡ part ∷ split sep rest
unfolding split
split_first sep [] rest h = ground arith
split_first sep (c ∷ part) rest h = elim (Bool-cases (c == sep)) [
  | inl e ↦ absurd (ground arith)
  | inr e ↦
      let more : any (λ d. d == sep) part ≡ false = ground arith in
      rw e (ap (onto_first c) (split_first sep part rest more))
]

pub split-join :
    (sep : ℕ) (part : Text) (parts : List Text)
    → All (Lacks sep) (part ∷ parts)
    → split sep (join sep (part ∷ parts)) ≡ part ∷ parts
unfolding join
split-join sep part [] h = split_one sep part h.0
split-join sep part (next ∷ parts) h =
    split_first sep part (join sep (next ∷ parts)) h.0
    ∙ ap (◌∷◌ part) (split-join sep next parts h.1)
