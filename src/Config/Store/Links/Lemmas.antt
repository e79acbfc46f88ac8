-- ===== src/Config/Store/Links/Lemmas.antt =====
-- The ids in a list of which a part is removed, mapped or updated.
use hlem_ssh.Prelude.{
  ◌≡◌, refl, sym, subst, ap, ◌∙◌, Bool, true, false, not, ◌||◌, List, [], ◌∷◌, ◌++◌, some, All,
  arith, any, map, keep_if, Bool-cases, Option-cases, inl, inr, if_cases,
}
use hlem_ssh.Prelude.Chars.{Text, same_text}
use hlem_ssh.Prelude.Chars.Laws.{same_text-eq}
use hlem_ssh.Config.Store.{update_first}

module _ {ℓ} {A : Type ℓ} (id_of : A → Text) where
  abbrev pub has : List A → Text → Bool
  has xs id = any (λ x. same_text (id_of x) id) xs

  pub has-append : (xs ys : List A) (id : Text) → has xs id ≡ true → has (xs ++ ys) id ≡ true
  has-append [] ys id h = absurd (ground arith)
  has-append (x ∷ xs) ys id h = elim (Bool-cases (same_text (id_of x) id)) [
    | inl e ↦ rw e refl
    | inr e ↦ rw e (has-append xs ys id (rw e at h))
  ]

  -- An id other than the one that is removed stays.
  pub has-without :
      (xs : List A) (id gone : Text)
      → same_text id gone ≡ false
      → has xs id ≡ true
      → has (keep_if (λ x. not (same_text (id_of x) gone)) xs) id ≡ true
  has-without [] id gone ne h = absurd (ground arith)
  has-without (x ∷ xs) id gone ne h = elim (Bool-cases (same_text (id_of x) id)) [
    | inl e ↦
        let same : same_text (id_of x) gone ≡ false =
          ap (λ t. same_text t gone) (same_text-eq (id_of x) id e) ∙ ne in
        rw same (rw e refl)
    | inr e ↦
        if_cases (λ (ys : List A). has ys id ≡ true) (not (same_text (id_of x) gone)) _ _
          (λ _. rw e (has-without xs id gone ne (rw e at h)))
          (λ _. has-without xs id gone ne (rw e at h))
  ]

  pub has-map :
      (f : A → A) (xs : List A) (id : Text)
      → ((x : A) → id_of (f x) ≡ id_of x)
      → has (map f xs) id ≡ has xs id
  has-map f [] id same = refl
  has-map f (x ∷ xs) id same = rw (same x, has-map f xs id same) refl

  pub has-update_first :
      (p : A → Bool) (f : A → A) (xs : List A) {ys : List A} (id : Text)
      → ((x : A) → id_of (f x) ≡ id_of x)
      → update_first p f xs ≡ some ys
      → has ys id ≡ has xs id
  has-update_first p f [] id same h = absurd cc
  has-update_first p f (x ∷ xs) {ys} id same h = elim (Bool-cases (p x)) [
    | inl e ↦
        let found : some (f x ∷ xs) ≡ some ys = rw e at h in
        let list : f x ∷ xs ≡ ys = cc found in ap (λ zs. has zs id) (sym list) ∙ rw (same x) refl
    | inr e ↦ elim (Option-cases (update_first p f xs)) [
      | inl o ↦ absurd (cc (rw (e, o) at h))
      | inr (zs, o) ↦
          let found : some (x ∷ zs) ≡ some ys = rw (e, o) at h in
          let list : x ∷ zs ≡ ys = cc found in
          ap (λ ws. has ws id) (sym list)
          ∙ ap (λ b. same_text (id_of x) id || b) (has-update_first p f xs id same o)
    ]
  ]

module _ {ℓ κ} {A : Type ℓ} where
  pub All-imp : (P Q : A → Type κ) (xs : List A) → ((x : A) → P x → Q x) → All P xs → All Q xs
  All-imp P Q [] f h = tt
  All-imp P Q (x ∷ xs) f h = (f x h.0, All-imp P Q xs f h.1)

  pub All-map :
      (P Q : A → Type κ) (g : A → A) (xs : List A)
      → ((x : A) → P x → Q (g x))
      → All P xs
      → All Q (map g xs)
  All-map P Q g [] f h = tt
  All-map P Q g (x ∷ xs) f h = (f x h.0, All-map P Q g xs f h.1)

  pub All-keep_if : (P : A → Type κ) (p : A → Bool) (xs : List A) → All P xs → All P (keep_if p xs)
  All-keep_if P p [] h = tt
  All-keep_if P p (x ∷ xs) h =
      if_cases (All P) (p x) _ _ (λ _. (h.0, All-keep_if P p xs h.1)) (λ _. All-keep_if P p xs h.1)

  -- What is kept also passes the test.
  pub All-kept :
      (P Q : A → Type κ) (p : A → Bool) (xs : List A)
      → ((x : A) → p x ≡ true → P x → Q x)
      → All P xs
      → All Q (keep_if p xs)
  All-kept P Q p [] f h = tt
  All-kept P Q p (x ∷ xs) f h =
      if_cases (All Q) (p x) _ _ (λ e. (f x e h.0, All-kept P Q p xs f h.1))
        (λ _. All-kept P Q p xs f h.1)

  pub All-update_first :
      (P : A → Type κ) (p : A → Bool) (g : A → A) (xs : List A) {ys : List A}
      → ((x : A) → P x → P (g x))
      → update_first p g xs ≡ some ys
      → All P xs
      → All P ys
  All-update_first P p g [] f e h = absurd cc
  All-update_first P p g (x ∷ xs) {ys} f e h = elim (Bool-cases (p x)) [
    | inl b ↦
        let found : some (g x ∷ xs) ≡ some ys = rw b at e in
        let list : g x ∷ xs ≡ ys = cc found in subst (All P) list (f x h.0, h.1)
    | inr b ↦ elim (Option-cases (update_first p g xs)) [
      | inl o ↦ absurd (cc (rw (b, o) at e))
      | inr (zs, o) ↦
          let found : some (x ∷ zs) ≡ some ys = rw (b, o) at e in
          let list : x ∷ zs ≡ ys = cc found in
          subst (All P) list (h.0, All-update_first P p g xs f o h.1)
    ]
  ]
