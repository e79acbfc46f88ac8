-- ===== src/Config/Store/Records/Retention.antt =====
-- The loop that chooses the backup records that go (src-tauri/src/vault.rs).
use hlem_ssh.Prelude.{
  ◌⊎◌, ℕ, suc, ◌+◌, ◌-◌, ◌≤◌, ◌≡◌, refl, ap, ◌∙◌, Bool, true, false, not, ◌||◌, List, [], ◌∷◌,
  Option, none, some, ltb, keep_if, count_if, if◌then◌else◌, arith, if_cases, All, Bool-cases, inl,
  inr,
}
use hlem_ssh.Prelude.Text.{codes}
use hlem_ssh.Prelude.Chars.{Text, same_text, contains_text}
use hlem_ssh.Prelude.Chars.Laws.{same_text-eq, same_text_refl}
use hlem_ssh.Config.Data.{BackupRecord}
use hlem_ssh.Config.Store.Records.{
  BackupCleanupTarget, Counts, in_class, own_count, count_record, add_removed, prune_loop,
}

abbrev pub Covers : List Text → List Text → Type 0
Covers ids removed = (t : Text) → contains_text removed t ≡ true → contains_text ids t ≡ true

abbrev pub kept_by : List Text → List BackupRecord → List BackupRecord
kept_by ids rs = keep_if (λ (r : BackupRecord). not (contains_text ids r.id)) rs

own-class :
    (r : BackupRecord) (counts : Counts) (ok : Bool) (kind : Text)
    → in_class ok kind r ≡ true
    → own_count r counts ≡ counts ok kind
own-class r counts true kind h =
    let kind_eq : r.target_kind ≡ kind = same_text-eq r.target_kind kind (ground arith) in
    let success : same_text r.status (codes "success") ≡ true = ground (arith, h) in
    rw (success, kind_eq) refl
own-class r counts false kind h =
    let kind_eq : r.target_kind ≡ kind = same_text-eq r.target_kind kind (ground arith) in
    let failure : same_text r.status (codes "success") ≡ false = ground (arith, h) in
    rw (failure, kind_eq) refl

count_kept-drop :
    (ids : List Text) (p : BackupRecord → Bool) (r : BackupRecord) (rs : List BackupRecord)
    → contains_text ids r.id ≡ true
    → count_if p (kept_by ids (r ∷ rs)) ≡ count_if p (kept_by ids rs)
count_kept-drop ids p r rs h = rw h refl

count_kept-step :
    (ids : List Text) (p : BackupRecord → Bool) (r : BackupRecord) (rs : List BackupRecord)
    → count_if p (kept_by ids (r ∷ rs)) ≤ (if p r then 1 else 0) + count_if p (kept_by ids rs)
count_kept-step ids p r rs = ground arith

add_removed-id :
    (r : BackupRecord) (o : Option BackupCleanupTarget)
    (rest : List Text × List BackupCleanupTarget)
    → (add_removed r o rest).0 ≡ r.id ∷ rest.0
add_removed-id r none rest = refl
add_removed-id r (some target) rest = refl

removed-if :
    (b : Bool) (r : BackupRecord) (o : Option BackupCleanupTarget)
    (rest : List Text × List BackupCleanupTarget)
    → ((b ≡ true) × ((if b then add_removed r o rest else rest).0 ≡ r.id ∷ rest.0))
      ⊎ ((b ≡ false) × ((if b then add_removed r o rest else rest).0 ≡ rest.0))
removed-if true r o rest = inl (refl, add_removed-id r o rest)
removed-if false r o rest = inr (refl, refl)

-- A record is in its own class.
own-in_class :
    (r : BackupRecord) → in_class (same_text r.status (codes "success")) r.target_kind r ≡ true
own-in_class r = elim (Bool-cases (same_text r.status (codes "success"))) [
  | inl e ↦ rw (e, same_text_refl r.target_kind) refl
  | inr e ↦ rw (e, same_text_refl r.target_kind) refl
]

count_record-step :
    (r : BackupRecord) (counts : Counts) (ok : Bool) (kind : Text)
    → count_record r counts ok kind ≡ (if in_class ok kind r then 1 else 0) + counts ok kind
unfolding count_record
count_record-step r counts ok kind = ground arith

module _ (limit : ℕ) (too_old : BackupRecord → Bool)
    (target : BackupRecord → Option BackupCleanupTarget) where
  abbrev pub removed : Counts → List BackupRecord → List Text
  removed counts rs = (prune_loop limit too_old target counts rs).0

  -- What one record does to the ids: it goes, or the rest decides.
  removed-cases :
      (counts : Counts) (r : BackupRecord) (rs : List BackupRecord)
      → ((ltb limit (own_count r (count_record r counts)) || too_old r) ≡ true)
          × (removed counts (r ∷ rs) ≡ r.id ∷ removed (count_record r counts) rs)
        ⊎ ((ltb limit (own_count r (count_record r counts)) || too_old r) ≡ false)
          × (removed counts (r ∷ rs) ≡ removed (count_record r counts) rs)
  unfolding prune_loop
  removed-cases counts r rs =
      removed-if (ltb limit (own_count r (count_record r counts)) || too_old r) r (target r)
        (prune_loop limit too_old target (count_record r counts) rs)

  -- The id of a record that goes, and the other ids that go, are covered.
  cover_both :
      (ids : List Text) (counts : Counts) (r : BackupRecord) (rs : List BackupRecord)
      → removed counts (r ∷ rs) ≡ r.id ∷ removed (count_record r counts) rs
      → Covers ids (removed counts (r ∷ rs))
      → (contains_text ids r.id ≡ true) × Covers ids (removed (count_record r counts) rs)
  cover_both ids counts r rs e cover = (
    cover r.id
        (ap (λ (xs : List Text). contains_text xs r.id) e ∙ ground (arith, same_text_refl r.id)),
    λ t h. cover t (ap (λ (xs : List Text). contains_text xs t) e ∙ ground (arith, h)),
  )

  cover_rest :
      (ids : List Text) (counts : Counts) (r : BackupRecord) (rs : List BackupRecord)
      → removed counts (r ∷ rs) ≡ removed (count_record r counts) rs
      → Covers ids (removed counts (r ∷ rs))
      → Covers ids (removed (count_record r counts) rs)
  cover_rest ids counts r rs e cover t h =
      cover t (ap (λ (xs : List Text). contains_text xs t) e ∙ h)

  -- The room that is left for a class, when a record was counted that stays.
  room_left :
      (counts : Counts) (ok : Bool) (kind : Text) (r : BackupRecord) (n : ℕ)
      → (ltb limit (own_count r (count_record r counts)) || too_old r) ≡ false
      → n ≤ limit - count_record r counts ok kind
      → (if in_class ok kind r then 1 else 0) + n ≤ limit - counts ok kind
  room_left counts ok kind r n good h = elim (Bool-cases (in_class ok kind r)) [
    | inl e ↦
        let own = own-class r (count_record r counts) ok kind e in
        let below : own_count r (count_record r counts) ≤ limit = ground (arith, good) in
        let next = rw e at (count_record-step r counts ok kind) in
        rw e (omega (arith, own, below, next, h))
    | inr e ↦
        let next = rw e at (count_record-step r counts ok kind) in rw e (omega (arith, next, h))
  ]

  -- Of a class, no more records stay than the limit leaves room for.
  pub removed-bound :
      (ids : List Text) (ok : Bool) (kind : Text) (counts : Counts) (rs : List BackupRecord)
      → Covers ids (removed counts rs)
      → count_if (in_class ok kind) (kept_by ids rs) ≤ limit - counts ok kind
  removed-bound ids ok kind counts [] cover = omega arith
  removed-bound ids ok kind counts (r ∷ rs) cover = elim (removed-cases counts r rs) [
    | inl (bad, e) ↦
        let (here, rest) = cover_both ids counts r rs e cover in
        let later = removed-bound ids ok kind (count_record r counts) rs rest in
        omega (
          arith,
          count_kept-drop ids (in_class ok kind) r rs here,
          later,
          count_record-step r counts ok kind,
        )
    | inr (good, e) ↦
        let rest = cover_rest ids counts r rs e cover in
        let later = removed-bound ids ok kind (count_record r counts) rs rest in
        omega (
          arith,
          count_kept-step ids (in_class ok kind) r rs,
          room_left counts ok kind r _ good later,
        )
  ]

  -- A record that is too old does not stay.
  pub removed-fresh :
      (ids : List Text) (counts : Counts) (rs : List BackupRecord)
      → Covers ids (removed counts rs)
      → All (λ (r : BackupRecord). too_old r ≡ false) (kept_by ids rs)
  removed-fresh ids counts [] cover = tt
  removed-fresh ids counts (r ∷ rs) cover = elim (removed-cases counts r rs) [
    | inl (bad, e) ↦
        let (here, rest) = cover_both ids counts r rs e cover in
        rw here (removed-fresh ids (count_record r counts) rs rest)
    | inr (good, e) ↦
        let rest =
          removed-fresh ids (count_record r counts) rs (cover_rest ids counts r rs e cover) in
        if_cases (All (λ (r : BackupRecord). too_old r ≡ false)) (not (contains_text ids r.id)) _ _
          (λ _. (ground (arith, good), rest)) (λ _. rest)
  ]

  counted :
      (counts : Counts) (ok : Bool) (kind : Text) (r : BackupRecord) (n : ℕ)
      → counts ok kind + (if in_class ok kind r then suc n else n) ≤ limit
      → count_record r counts ok kind + n ≤ limit
  unfolding count_record
  counted counts ok kind r n h = ground (arith, h)

  -- The test of a record that is not too old and whose class has room.
  stays :
      (counts : Counts) (r : BackupRecord) (n : ℕ)
      → own_count r counts + suc n ≤ limit
      → too_old r ≡ false
      → (ltb limit (own_count r (count_record r counts)) || too_old r) ≡ false
  stays counts r n room fresh =
      let step =
        rw (own-in_class r) at
          (count_record-step r counts (same_text r.status (codes "success")) r.target_kind) in
      ground (arith, step, room, fresh)

  -- Nothing goes while every class has room and nothing is too old.
  pub prune_loop-nothing :
      (counts : Counts) (rs : List BackupRecord)
      → ((ok : Bool) (kind : Text) → counts ok kind + count_if (in_class ok kind) rs ≤ limit)
      → All (λ (r : BackupRecord). too_old r ≡ false) rs
      → prune_loop limit too_old target counts rs ≡ ([], [])
  unfolding prune_loop
  prune_loop-nothing counts [] room fresh = refl
  prune_loop-nothing counts (r ∷ rs) room fresh =
      let own =
        rw (own-in_class r) at (room (same_text r.status (codes "success")) r.target_kind) in
      let kept =
        stays counts r (count_if (in_class (same_text r.status (codes "success")) r.target_kind) rs)
          own fresh.0 in
      rw kept (
        prune_loop-nothing (count_record r counts) rs
          (λ ok kind. counted counts ok kind r (count_if (in_class ok kind) rs) (room ok kind))
          fresh.1)
