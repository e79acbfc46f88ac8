-- ===== src/Transfer/History/Restore.antt =====
-- Writing the history of transfers and loading it again (src-tauri/src/remote/transfer_history.rs).
use hlem_ssh.Prelude.{
  if_cases, zero, suc, suc, ◌+◌, ℕ, ◌≤◌, ◌≡◌, refl, ap, ◌∙◌, subst, Bool, true, false, String, List,
  [], ◌∷◌, Option, none, some, map, take, length, str_eq, eq_iff, arith, All, if◌then◌else◌,
}
use hlem_ssh.Prelude.Table
use hlem_ssh.Prelude.Table.{values, get-insert, length-values}
use hlem_ssh.Transfer.Data.{TransferRecord}
use hlem_ssh.Transfer.State.{Transfers, max_transfer_history}
use hlem_ssh.Transfer.History.{
  PersistedTransferRecord, to_persisted, with_speed, is_finite, is_before, insert_record,
  sort_records, newest_records, restored, or_insert, load_records, normalize_loaded_transfer,
}

abbrev pub Keyed : Transfers → Type 0
Keyed [] = Unit
Keyed ((id, r) ∷ m) = (id ≡ r.info.transfer_id) × (Table.get id m ≡ none) × Keyed m

-- The first record of an id.
abbrev pub find : String → List TransferRecord → Option TransferRecord
find id [] = none
find id (r ∷ rs) = if str_eq r.info.transfer_id id then some r else find id rs

abbrev Unique : List TransferRecord → Type 0
Unique [] = Unit
Unique (r ∷ rs) = (find r.info.transfer_id rs ≡ none) × Unique rs

find-values : (id : String) (m : Transfers) → Keyed m → find id (values m) ≡ Table.get id m
unfolding Table.get
find-values id [] k = refl
find-values id ((j, r) ∷ m) k =
    ground (arith, eq_iff j id, eq_iff r.info.transfer_id id, find-values id m k.2)

values-Unique : (m : Transfers) → Keyed m → Unique (values m)
values-Unique [] k = tt
values-Unique ((j, r) ∷ m) k = (
  find-values r.info.transfer_id m k.2 ∙ subst (λ (x : String). Table.get x m ≡ none) k.0 k.1,
  values-Unique m k.2,
)

find-insert_record :
    (id : String) (x : TransferRecord) (rs : List TransferRecord)
    → find x.info.transfer_id rs ≡ none
    → find id (insert_record x rs) ≡ find id (x ∷ rs)
unfolding insert_record
find-insert_record id x [] h = refl
find-insert_record id x (y ∷ ys) h = ground (
  arith,
  eq_iff y.info.transfer_id id,
  eq_iff x.info.transfer_id id,
  eq_iff y.info.transfer_id x.info.transfer_id,
  find-insert_record id x ys,
)

find-sort_records :
    (id : String) (rs : List TransferRecord) → Unique rs → find id (sort_records rs) ≡ find id rs
unfolding sort_records
find-sort_records id [] u = refl
find-sort_records id (x ∷ xs) u =
    find-insert_record id x (sort_records xs) (find-sort_records x.info.transfer_id xs u.1 ∙ u.0)
    ∙ ground (arith, find-sort_records id xs u.1)

length-insert_record :
    (x : TransferRecord) (rs : List TransferRecord) → length (insert_record x rs) ≡ length rs + 1
unfolding insert_record
length-insert_record x [] = omega arith
length-insert_record x (y ∷ ys) = ground (arith, length-insert_record x ys)

length-sort_records : (rs : List TransferRecord) → length (sort_records rs) ≡ length rs
unfolding sort_records
length-sort_records [] = refl
length-sort_records (x ∷ xs) =
    omega (arith, length-insert_record x (sort_records xs), length-sort_records xs)

abbrev pub stored : (ℕ → ℕ) → TransferRecord → PersistedTransferRecord
stored f r = with_speed f (to_persisted r)

abbrev pub brought : String → (ℕ → ℕ) → Option TransferRecord → Option TransferRecord
brought now f none = none
brought now f (some r) = some (restored now (stored f r))

abbrev pub first : Option TransferRecord → Option TransferRecord → Option TransferRecord
first none o = o
first (some r) o = some r

restored-id :
    (now : String) (f : ℕ → ℕ) (r : TransferRecord)
    → (restored now (stored f r)).info.transfer_id ≡ r.info.transfer_id
unfolding restored normalize_loaded_transfer
restored-id now f r = ground arith

get-or_insert :
    (id : String) (r : TransferRecord) (m : Transfers)
    → Table.get id (or_insert r m)
      ≡ first (Table.get id m) (if str_eq r.info.transfer_id id then some r else none)
get-or_insert id r m =
    ground (arith, eq_iff r.info.transfer_id id, get-insert r.info.transfer_id id r m)

first-none : (o : Option TransferRecord) → o ≡ first o none
first-none none = refl
first-none (some r) = refl

first-first :
    (now : String) (f : ℕ → ℕ) (o p : Option TransferRecord) (b : Bool) (r : TransferRecord)
    → first (first o (if b then some (restored now (stored f r)) else none)) (brought now f p)
      ≡ first o (brought now f (if b then some r else p))
first-first now f (some q) p b r = refl
first-first now f none p true r = refl
first-first now f none p false r = refl

-- Loading leaves what is there, and adds the first stored record of each other id.
pub get-load_records :
    (id now : String) (f : ℕ → ℕ) (rs : List TransferRecord) (m : Transfers)
    → Table.get id (load_records now (map (with_speed f) (map to_persisted rs)) m)
      ≡ first (Table.get id m) (brought now f (find id rs))
unfolding load_records
get-load_records id now f [] m = first-none (Table.get id m)
get-load_records id now f (r ∷ rs) m =
    get-load_records id now f rs (or_insert (restored now (stored f r)) m)
    ∙ ap (λ (o : Option TransferRecord). first o (brought now f (find id rs)))
        (get-or_insert id (restored now (stored f r)) m)
    ∙ ap
        (λ (j : String).
          first
            (first (Table.get id m)
              (if str_eq j id then some (restored now (stored f r)) else none))
            (brought now f (find id rs)))
        (restored-id now f r)
    ∙ first-first now f (Table.get id m) (find id rs) (str_eq r.info.transfer_id id) r

take_all : {A : Type 0} (n : ℕ) (xs : List A) → length xs ≤ n → take n xs ≡ xs
take_all zero [] h = refl
take_all zero (x ∷ xs) h = absurd (omega arith)
take_all (suc n) [] h = refl
take_all (suc n) (x ∷ xs) h = ap (λ ys. x ∷ ys) (take_all n xs (omega arith))

newest_records-all :
    (m : Transfers) → length m ≤ max_transfer_history → newest_records m ≡ sort_records (values m)
unfolding newest_records
newest_records-all m h =
    take_all max_transfer_history (sort_records (values m))
      (omega (arith, length-sort_records (values m), length-values m))

pub find-newest_records :
    (id : String) (m : Transfers)
    → Keyed m
    → length m ≤ max_transfer_history
    → find id (newest_records m) ≡ Table.get id m
find-newest_records id m k h =
    ap (find id) (newest_records-all m h)
    ∙ find-sort_records id (values m) (values-Unique m k)
    ∙ find-values id m k

module _ (P : TransferRecord → Type 0) where
  All-insert_record :
      (x : TransferRecord) (rs : List TransferRecord) → P x → All P rs → All P (insert_record x rs)
  unfolding insert_record
  All-insert_record x [] h a = (h, tt)
  All-insert_record x (y ∷ ys) h a =
      if_cases (All P) (is_before y x) _ _ (λ _. (a.0, All-insert_record x ys h a.1)) (λ _. (h, a))

  All-sort_records : (rs : List TransferRecord) → All P rs → All P (sort_records rs)
  unfolding sort_records
  All-sort_records [] a = tt
  All-sort_records (x ∷ xs) a = All-insert_record x (sort_records xs) a.0 (All-sort_records xs a.1)

  All-take : (n : ℕ) (rs : List TransferRecord) → All P rs → All P (take n rs)
  All-take zero rs a = tt
  All-take (suc n) [] a = tt
  All-take (suc n) (x ∷ xs) a = (a.0, All-take n xs a.1)

  pub All-newest_records : (m : Transfers) → All P (values m) → All P (newest_records m)
  unfolding newest_records
  All-newest_records m a =
      All-take max_transfer_history (sort_records (values m)) (All-sort_records (values m) a)

pub All-to_persisted :
    (rs : List TransferRecord)
    → All (λ (r : TransferRecord). is_finite r.info.speed_kbps ≡ true) rs
    → All
        (λ (p : PersistedTransferRecord). is_finite p.info.speed_kbps ≡ true)
        (map to_persisted rs)
All-to_persisted [] a = tt
All-to_persisted (x ∷ xs) a = (a.0, All-to_persisted xs a.1)
