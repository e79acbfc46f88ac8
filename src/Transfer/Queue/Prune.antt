-- ===== src/Transfer/Queue/Prune.antt =====
-- `prune_transfer_history` of src-tauri/src/remote/runtime_transfer.rs.
use hlem_ssh.Prelude.{
  leb→le, ℕ, suc, ◌+◌, ◌-◌, ◌≤◌, ◌<◌, ◌≡◌, refl, ◌∙◌, true, false, String, List, [], ◌∷◌, none,
  some, map, take, length, length-take, count_if, str_eq, eq_iff, arith, All, leb, if_cases,
}
use hlem_ssh.Prelude.Table
use hlem_ssh.Prelude.Table.{values, get-remove, count-remove}
use hlem_ssh.Transfer.Data.{TransferRecord, is_finished}
use hlem_ssh.Transfer.State.{Runtime, Transfers, max_transfer_history}
use hlem_ssh.Transfer.Queue.{
  finished_times, sort_by_time, oldest_ids, surplus_ids, forget, forget_all, prune_section,
}
use hlem_ssh.Transfer.Queue.Times.{
  Timed, Apart, DistinctIds, All-sort_by_time, All-take, sort_by_time-DistinctIds, take-DistinctIds,
  length-sort_by_time, Keys, Finished,
}

length-finished_times :
    (m : Transfers) → length (finished_times m) ≡ count_if is_finished (values m)
unfolding finished_times
length-finished_times [] = refl
length-finished_times ((id, r) ∷ m) = ground (arith, length-finished_times m)

absent-cons :
    (id j : String) (r : TransferRecord) (m : Transfers)
    → Table.get id ((j, r) ∷ m) ≡ none
    → (str_eq id j ≡ false) × (Table.get id m ≡ none)
unfolding Table.get
absent-cons id j r m h = ground (arith, eq_iff j id, eq_iff id j)

-- A key that is not there is not among the finished ones.
absent-Apart :
    (id time : String) (m : Transfers)
    → Table.get id m ≡ none
    → All (Apart (id, time)) (finished_times m)
unfolding finished_times Table.get
absent-Apart id time [] h = tt
absent-Apart id time ((j, r) ∷ m) h =
    let (apart, rest) = absent-cons id j r m h in
    if_cases (All (Apart (id, time))) (is_finished r) _ _
      (λ _. (apart, absent-Apart id time m rest)) (λ _. absent-Apart id time m rest)

finished_times-DistinctIds : (m : Transfers) → Keys m → DistinctIds (finished_times m)
unfolding finished_times
finished_times-DistinctIds [] k = tt
finished_times-DistinctIds ((id, r) ∷ m) k =
    if_cases DistinctIds (is_finished r) _ _
      (λ _. (absent-Apart id r.info.updated_at m k.0, finished_times-DistinctIds m k.1))
      (λ _. finished_times-DistinctIds m k.1)

-- Removing a key that counts makes the count smaller.
count-remove_found :
    (k : String) (m : Transfers) (r : TransferRecord)
    → Table.get k m ≡ some r
    → is_finished r ≡ true
    → suc (count_if is_finished (values (Table.remove k m))) ≤ count_if is_finished (values m)
unfolding Table.get Table.remove
count-remove_found k [] r h f = cc
count-remove_found k ((j, q) ∷ m) r h f =
    ground (arith, count-remove is_finished k m, count-remove_found k m r)

Finished-remove :
    (x y : Timed) (m : Transfers) → Apart x y → Finished m y → Finished (Table.remove x.0 m) y
Finished-remove x y m a (r, found, f) = (r, get-remove x.0 y.0 m ∙ ground arith, f)

Finished-All :
    (x : Timed) (ys : List Timed) (m : Transfers)
    → All (Apart x) ys
    → All (Finished m) ys
    → All (Finished (Table.remove x.0 m)) ys
Finished-All x [] m a f = tt
Finished-All x (y ∷ ys) m a f = (Finished-remove x y m a.0 f.0, Finished-All x ys m a.1 f.1)

abbrev ids_of : List Timed → List String
ids_of xs = map (λ (x : Timed). x.0) xs

-- Each removal of a finished transfer takes one off their number.
count-forget_all :
    (xs : List Timed) (rt : Runtime)
    → DistinctIds xs
    → All (Finished rt.transfers) xs
    → length xs + count_if is_finished (values (forget_all (ids_of xs) rt).1.transfers)
      ≤ count_if is_finished (values rt.transfers)
unfolding forget_all forget
count-forget_all [] rt d f = omega arith
count-forget_all (x ∷ xs) rt d f =
    let (r, found, finished) = f.0 in
    omega (
      arith,
      count-remove_found x.0 rt.transfers r found finished,
      count-forget_all xs (forget x.0 rt).1 d.1
          (unfold forget in Finished-All x xs rt.transfers d.0 f.1),
    )

Finished-cons :
    (id time : String) (r : TransferRecord) (m : Transfers) (ys : List Timed)
    → All (Apart (id, time)) ys
    → All (Finished m) ys
    → All (Finished ((id, r) ∷ m)) ys
unfolding Table.get
Finished-cons id time r m [] a f = tt
Finished-cons id time r m (y ∷ ys) a ((q, found, finished), fs) =
    ((q, rw a.0 found, finished), Finished-cons id time r m ys a.1 fs)

get-here : (id : String) (r : TransferRecord) (m : Transfers) → Table.get id ((id, r) ∷ m) ≡ some r
unfolding Table.get
get-here id r m = ground (arith, eq_iff id id)

finished_times-Finished : (m : Transfers) → Keys m → All (Finished m) (finished_times m)
unfolding finished_times
finished_times-Finished [] k = tt
finished_times-Finished ((id, r) ∷ m) k =
    let apart = absent-Apart id r.info.updated_at m k.0 in
    let rest =
      Finished-cons id r.info.updated_at r m (finished_times m) apart
        (finished_times-Finished m k.1) in
    if_cases (All (Finished ((id, r) ∷ m))) (is_finished r) _ _
      (λ f. ((r, get-here id r m, f), rest)) (λ _. rest)

-- If each key is in the table once, pruning leaves at most `MAX_TRANSFER_HISTORY` transfers that have
-- ended, and removes none if there were no more before.
pub prune_section-bounds :
    (rt : Runtime)
    → Keys rt.transfers
    → (count_if is_finished (values (prune_section rt).1.transfers) ≤ max_transfer_history)
      × (count_if is_finished (values rt.transfers) ≤ max_transfer_history
          → (prune_section rt).1 ≡ rt)
unfolding prune_section surplus_ids oldest_ids forget_all
prune_section-bounds rt k =
    if_cases
      (λ (ids : List String).
        (count_if is_finished (values (forget_all ids rt).1.transfers) ≤ max_transfer_history)
        × (count_if is_finished (values rt.transfers) ≤ max_transfer_history
            → (forget_all ids rt).1 ≡ rt))
      (leb (length times) max_transfer_history) _ _
      (λ few. (
        omega (
          arith,
          length-finished_times rt.transfers,
          leb→le (length times) max_transfer_history few,
        ),
        λ _. refl,
      ))
      λ many.
        let more : max_transfer_history < length times = ground arith in
        let removed =
          count-forget_all oldest rt
            (take-DistinctIds surplus (sort_by_time times)
              (sort_by_time-DistinctIds times (finished_times-DistinctIds rt.transfers k)))
            (All-take (Finished rt.transfers) surplus (sort_by_time times) (
              All-sort_by_time (Finished rt.transfers) times
                (finished_times-Finished rt.transfers k))) in
        (
          omega (
            arith,
            removed,
            length-take surplus (sort_by_time times),
            length-sort_by_time times,
            length-finished_times rt.transfers,
          ),
          λ few. absurd (omega (arith, length-finished_times rt.transfers)),
        )
  where
    times : List Timed
    times = finished_times rt.transfers

    surplus : ℕ
    surplus = length times - max_transfer_history

    oldest : List Timed
    oldest = take surplus (sort_by_time times)
