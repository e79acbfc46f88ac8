-- ===== src/Config/Tags/Laws.antt =====
-- The result of `clean_tags` of src-tauri/src/config.rs.
use hlem_ssh.Prelude.{
  ◌≡◌, refl, ap, ◌∙◌, true, false, not, ◌&&◌, ◌||◌, List, [], ◌∷◌, ◌++◌, arith, All, All-append,
  if_cases, map,
}
use hlem_ssh.Prelude.Chars.{Text, is_empty, same_text, contains_text, trim}
use hlem_ssh.Prelude.Chars.Laws.{trim-trim, same_text-eq}
use hlem_ssh.Config.Tags.{clean_onto, clean_tags, IsClean, Distinct}

clean_onto-IsClean :
    (cleaned tags : List Text) → All IsClean cleaned → All IsClean (clean_onto cleaned tags)
unfolding clean_onto
clean_onto-IsClean cleaned [] h = h
clean_onto-IsClean cleaned (tag ∷ tags) h =
    let value = trim tag in
    if_cases (All IsClean) (not (is_empty value) && not (contains_text cleaned value)) _ _
      (λ e. clean_onto-IsClean (cleaned ++ value ∷ []) tags (
        All-append IsClean cleaned (value ∷ []) h
          (record { trimmed = trim-trim tag; some_text = ground arith }, tt)))
      (λ _. clean_onto-IsClean cleaned tags h)

pub contains-append :
    (xs ys : List Text) (t : Text)
    → contains_text (xs ++ ys) t ≡ (contains_text xs t || contains_text ys t)
contains-append [] ys t = refl
contains-append (x ∷ xs) ys t = ground (arith, contains-append xs ys t)

pub same_text_sym : (s t : Text) → same_text s t ≡ same_text t s
same_text_sym [] [] = refl
same_text_sym [] (b ∷ t) = refl
same_text_sym (a ∷ s) [] = refl
same_text_sym (a ∷ s) (b ∷ t) = ground (arith, same_text_sym s t)

pub Distinct-append :
    (tags : List Text) (value : Text)
    → Distinct tags
    → contains_text tags value ≡ false
    → Distinct (tags ++ value ∷ [])
Distinct-append [] value d h = (refl, tt)
Distinct-append (tag ∷ tags) value d h = (
  contains-append tags (value ∷ []) tag ∙ ground (arith, d.0, same_text_sym tag value),
  Distinct-append tags value d.1 (ground arith),
)

clean_onto-Distinct :
    (cleaned tags : List Text) → Distinct cleaned → Distinct (clean_onto cleaned tags)
unfolding clean_onto
clean_onto-Distinct cleaned [] d = d
clean_onto-Distinct cleaned (tag ∷ tags) d =
    let value = trim tag in
    if_cases Distinct (not (is_empty value) && not (contains_text cleaned value)) _ _
      (λ e.
        clean_onto-Distinct (cleaned ++ value ∷ []) tags
          (Distinct-append cleaned value d (ground arith)))
      (λ _. clean_onto-Distinct cleaned tags d)

-- Each cleaned tag is trimmed and not empty, and none comes twice.
pub clean_tags-IsClean :
    (tags : List Text) → All IsClean (clean_tags tags) × Distinct (clean_tags tags)
unfolding clean_tags
clean_tags-IsClean tags = (clean_onto-IsClean [] tags tt, clean_onto-Distinct [] tags tt)

-- A text equal to a value is empty, or in a list, exactly as the value is.
pub same-is_empty : (t value : Text) → same_text t value ≡ true → is_empty t ≡ is_empty value
same-is_empty t value h = ap is_empty (same_text-eq t value h)

pub same-contains :
    (tags : List Text) (t value : Text)
    → same_text t value ≡ true
    → contains_text tags t ≡ contains_text tags value
same-contains tags t value h = ap (contains_text tags) (same_text-eq t value h)

clean_onto-contains :
    (cleaned tags : List Text) (t : Text)
    → contains_text (clean_onto cleaned tags) t
      ≡ (contains_text cleaned t || (not (is_empty t) && contains_text (map trim tags) t))
unfolding clean_onto
clean_onto-contains cleaned [] t = ground arith
clean_onto-contains cleaned (tag ∷ tags) t =
    let value = trim tag in
    if_cases
      (λ (r : List Text). contains_text r t ≡ (
        contains_text cleaned t
        || (not (is_empty t) && (same_text t value || contains_text (map trim tags) t))))
      (not (is_empty value) && not (contains_text cleaned value)) _ _
      (λ e.
        clean_onto-contains (cleaned ++ value ∷ []) tags t
        ∙ ground (
          arith,
          contains-append cleaned (value ∷ []) t,
          same-is_empty t value,
          same-contains cleaned t value,
        ))
      (λ e.
        clean_onto-contains cleaned tags t
        ∙ ground (arith, same-is_empty t value, same-contains cleaned t value))

-- A text is among the cleaned tags exactly if it is not empty and is what trimming leaves of some
-- tag.
pub clean_tags-contains :
    (tags : List Text) (t : Text)
    → contains_text (clean_tags tags) t ≡ (not (is_empty t) && contains_text (map trim tags) t)
unfolding clean_tags
clean_tags-contains tags t = clean_onto-contains [] tags t
