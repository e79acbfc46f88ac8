-- ===== src/Transfer/Queue/Times.antt =====
-- The sort of `prune_transfer_history` (src-tauri/src/remote/runtime_transfer.rs), and lists of distinct ids.
use hlem_ssh.Prelude.{
  ℕ, zero, suc, ◌≡◌, refl, true, false, String, List, [], ◌∷◌, none, some, take, length, str_eq,
  eq_iff, arith, All, if_cases,
}
use hlem_ssh.Prelude.Text.{str_lt}
use hlem_ssh.Prelude.Table
use hlem_ssh.Prelude.Table.{values, get-remove, count-remove}
use hlem_ssh.Transfer.Data.{TransferRecord, is_finished}
use hlem_ssh.Transfer.State.{Transfers}
use hlem_ssh.Transfer.Queue.{insert_by_time, sort_by_time}

-- The keys of the table, each once.
abbrev pub Keys : Transfers → Type 0
Keys [] = Unit
Keys ((id, r) ∷ m) = (Table.get id m ≡ none) × Keys m

abbrev pub Timed : Type 0
Timed = String × String

abbrev pub Apart : Timed → Timed → Type 0
Apart x y = str_eq x.0 y.0 ≡ false

abbrev pub DistinctIds : List Timed → Type 0
DistinctIds [] = Unit
DistinctIds (x ∷ xs) = All (Apart x) xs × DistinctIds xs

-- The id of a finished transfer in the table.
abbrev pub Finished : Transfers → Timed → Type 0
Finished m x = (r : TransferRecord) × (Table.get x.0 m ≡ some r) × (is_finished r ≡ true)

module _ (P : Timed → Type 0) where
  All-insert_by_time : (x : Timed) (xs : List Timed) → P x → All P xs → All P (insert_by_time x xs)
  unfolding insert_by_time
  All-insert_by_time x [] h a = (h, tt)
  All-insert_by_time x (y ∷ ys) h a =
      if_cases (All P) (str_lt y.1 x.1) _ _ (λ _. (a.0, All-insert_by_time x ys h a.1))
        (λ _. (h, a))

  pub All-sort_by_time : (xs : List Timed) → All P xs → All P (sort_by_time xs)
  unfolding sort_by_time
  All-sort_by_time [] a = tt
  All-sort_by_time (x ∷ xs) a = All-insert_by_time x (sort_by_time xs) a.0 (All-sort_by_time xs a.1)

  pub All-take : (n : ℕ) (xs : List Timed) → All P xs → All P (take n xs)
  All-take zero xs a = tt
  All-take (suc n) [] a = tt
  All-take (suc n) (x ∷ xs) a = (a.0, All-take n xs a.1)

Apart-sym : (x y : Timed) → Apart x y → Apart y x
Apart-sym x y h = ground (arith, eq_iff x.0 y.0, eq_iff y.0 x.0)

insert_by_time-DistinctIds :
    (x : Timed) (xs : List Timed)
    → All (Apart x) xs
    → DistinctIds xs
    → DistinctIds (insert_by_time x xs)
unfolding insert_by_time
insert_by_time-DistinctIds x [] a d = (tt, tt)
insert_by_time-DistinctIds x (y ∷ ys) a d =
    if_cases DistinctIds (str_lt y.1 x.1) _ _
      (λ _. (
        All-insert_by_time (Apart y) x ys (Apart-sym x y a.0) d.0,
        insert_by_time-DistinctIds x ys a.1 d.1,
      ))
      (λ _. (a, d))

pub sort_by_time-DistinctIds : (xs : List Timed) → DistinctIds xs → DistinctIds (sort_by_time xs)
unfolding sort_by_time
sort_by_time-DistinctIds [] d = tt
sort_by_time-DistinctIds (x ∷ xs) d =
    insert_by_time-DistinctIds x (sort_by_time xs) (All-sort_by_time (Apart x) xs d.0)
      (sort_by_time-DistinctIds xs d.1)

pub take-DistinctIds : (n : ℕ) (xs : List Timed) → DistinctIds xs → DistinctIds (take n xs)
take-DistinctIds zero xs d = tt
take-DistinctIds (suc n) [] d = tt
take-DistinctIds (suc n) (x ∷ xs) d = (All-take (Apart x) n xs d.0, take-DistinctIds n xs d.1)

length-insert_by_time :
    (x : Timed) (xs : List Timed) → length (insert_by_time x xs) ≡ suc (length xs)
unfolding insert_by_time
length-insert_by_time x [] = refl
length-insert_by_time x (y ∷ ys) = ground (arith, length-insert_by_time x ys)

pub length-sort_by_time : (xs : List Timed) → length (sort_by_time xs) ≡ length xs
unfolding sort_by_time
length-sort_by_time [] = refl
length-sort_by_time (x ∷ xs) =
    omega (arith, length-insert_by_time x (sort_by_time xs), length-sort_by_time xs)
