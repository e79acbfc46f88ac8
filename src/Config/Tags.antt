-- ===== src/Config/Tags.antt =====
-- `clean_tags` of src-tauri/src/config.rs.
pub mod Laws
use hlem_ssh.Prelude.{
  ℕ, ◌≡◌, ◌≢◌, ◌⊎◌, refl, sym, ap, ◌∙◌, inl, inr, Bool, true, false, not, ◌&&◌, List, [], ◌∷◌, ◌++◌,
  if◌then◌else◌, any, arith, All, All-append, if_cases, Bool-cases,
}
use hlem_ssh.Prelude.Chars.{Text, is_empty, same_text, contains_text, trim}
use hlem_ssh.Prelude.Chars.Laws.{trim-trim, same_text-eq, same_text_refl}

unfoldable pub clean_onto : List Text → List Text → List Text
clean_onto cleaned [] = cleaned
clean_onto cleaned (tag ∷ tags) =
    let value = trim tag in
    if not (is_empty value) && not (contains_text cleaned value)
    then clean_onto (cleaned ++ value ∷ []) tags
    else clean_onto cleaned tags

unfoldable pub clean_tags : List Text → List Text
unfolding clean_onto
clean_tags tags = clean_onto [] tags

-- Trimmed, and something left of it.
pub record IsClean (tag : Text) : Type 0 where
  pub trimmed : trim tag ≡ tag
  pub some_text : is_empty tag ≡ false

-- No tag comes twice.
abbrev pub Distinct : List Text → Type 0
Distinct [] = Unit
Distinct (tag ∷ tags) = (contains_text tags tag ≡ false) × Distinct tags
