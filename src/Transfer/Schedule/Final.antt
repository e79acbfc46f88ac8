-- ===== src/Transfer/Schedule/Final.antt =====
-- Transfers that have ended (src-tauri/src/remote/runtime_transfer.rs).
use hlem_ssh.Prelude.{
  ◌≡◌, refl, sym, ◌∙◌, subst, ◌⊎◌, inl, inr, true, false, String, List, [], ◌∷◌, Option, none, some,
  str_eq, eq_iff, arith, All, Bool-cases,
}
use hlem_ssh.Prelude.Table
use hlem_ssh.Prelude.Table.{get-insert, get-remove}
use hlem_ssh.Transfer.Data.{TransferRecord, TaskStatus, is_active}
use hlem_ssh.Transfer.State.{Runtime, Transfers, begin_cancel, cancel_record}
use hlem_ssh.Transfer.Queue.{new_transfer}
use hlem_ssh.Transfer.Schedule.{Section, run, play}
use hlem_ssh.Transfer.Schedule.Cases.{Change, changed, IsStart, run-cases}

-- The transfer is in the table as it was, or no longer there.
abbrev pub KeptOrGone : String → TransferRecord → Transfers → Type 0
KeptOrGone id r m = (Table.get id m ≡ some r) ⊎ (Table.get id m ≡ none)

-- A section that starts no transfer of this id.
abbrev pub IsApart : String → Section → Type 0
IsApart id (Section.start live p) = str_eq p.transfer_id id ≡ false
IsApart id _ = Unit

kept-insert :
    (id j : String) (r q : TransferRecord) (m : Transfers)
    → str_eq j id ≡ false
    → KeptOrGone id r m
    → KeptOrGone id r (Table.insert j q m)
kept-insert id j r q m e (inl h) = inl (get-insert j id q m ∙ ground arith)
kept-insert id j r q m e (inr h) = inr (get-insert j id q m ∙ ground arith)

kept-remove :
    (id j : String) (r : TransferRecord) (m : Transfers)
    → KeptOrGone id r m
    → KeptOrGone id r (Table.remove j m)
kept-remove id j r m k = elim (Bool-cases (str_eq j id)) [
  | inl e ↦ inr (get-remove j id m ∙ ground arith)
  | inr e ↦ elim k [
    | inl h ↦ inl (get-remove j id m ∙ ground arith)
    | inr h ↦ inr (get-remove j id m ∙ ground arith)
  ]
]

-- What is changed is active, so it is another transfer.
kept-changed :
    (id j : String) (r q : TransferRecord) (c : Change) (m : Transfers)
    → is_active r ≡ false
    → Table.get j m ≡ some q
    → is_active q ≡ true
    → KeptOrGone id r m
    → KeptOrGone id r (Table.insert j (changed c q) m)
kept-changed id j r q c m ended found a k = elim (Bool-cases (str_eq j id)) [
  | inl e ↦
      let same : j ≡ id = (eq_iff j id).0 e in
      let here : Table.get id m ≡ some q =
        subst (λ (x : String). Table.get x m ≡ some q) same found in
      elim k [ inl h ↦ absurd (clash (sym h ∙ here)) | inr h ↦ absurd cc ]
  | inr e ↦ kept-insert id j r (changed c q) m e k
]
  where
    clash : Option.some r ≡ Option.some q → ⊥
    clash e = cc

apart-IsStart :
    (id : String) (s : Section) (r : TransferRecord)
    → IsApart id s
    → IsStart s r
    → str_eq r.info.transfer_id id ≡ false
apart-IsStart id s r h (live, p, e, f) =
    subst (λ (q : TransferRecord). str_eq q.info.transfer_id id ≡ false) (sym f)
      (unfold new_transfer in subst (IsApart id) e h)

run-KeptOrGone :
    (id : String) (r : TransferRecord) (s : Section) (rt : Runtime)
    → is_active r ≡ false
    → IsApart id s
    → KeptOrGone id r rt.transfers
    → KeptOrGone id r (run s rt).transfers
run-KeptOrGone id r s rt ended other k =
    run-cases (KeptOrGone id r) s rt k
      (λ j q c found a. kept-changed id j r q c rt.transfers ended found a k)
      (λ j m. kept-remove id j r m)
      λ q start _.
        kept-insert id q.info.transfer_id r q rt.transfers (apart-IsStart id s q other start) k

-- A transfer that has ended stays in the table exactly as it is until it is removed from it, under
-- every order of sections that start no other transfer of its id.
pub play-KeptOrGone :
    (id : String) (r : TransferRecord) (ss : List Section) (rt : Runtime)
    → is_active r ≡ false
    → All (IsApart id) ss
    → KeptOrGone id r rt.transfers
    → KeptOrGone id r (play ss rt).transfers
unfolding play
play-KeptOrGone id r [] rt ended others k = k
play-KeptOrGone id r (s ∷ ss) rt ended others k =
    play-KeptOrGone id r ss (run s rt) ended others.1 (run-KeptOrGone id r s rt ended others.0 k)

begin_cancel-found :
    (id reason now : String) (r : TransferRecord) (rt : Runtime)
    → Table.get id rt.transfers ≡ some r
    → is_active r ≡ true
    → KeptOrGone id (cancel_record reason now r) (begin_cancel reason now id rt).1.transfers
unfolding begin_cancel
begin_cancel-found id reason now r rt found a = inl (
    rw (found, a)
      (get-insert id id (cancel_record reason now r) rt.transfers ∙ ground (arith, eq_iff id id)))

-- After the locked part of a cancellation of an active transfer, under every order of sections that
-- start no other transfer of its id, the transfer has left the table or is canceled with the reason
-- given, its cancel flag raised and its task taken.
pub cancel-play :
    (id reason now : String) (r : TransferRecord) (ss : List Section) (rt : Runtime)
    → Table.get id rt.transfers ≡ some r
    → is_active r ≡ true
    → All (IsApart id) ss
    → (Table.get id (play ss (begin_cancel reason now id rt).1).transfers ≡ none)
      ⊎ ((q : TransferRecord) × (Table.get id (play ss (begin_cancel reason now id rt).1).transfers
            ≡ some q)
          × (q.info.status ≡ TaskStatus.canceled)
          × (q.info.error ≡ some reason)
          × (q.cancel ≡ true)
          × (q.handle ≡ none))
cancel-play id reason now r ss rt found a others =
    elim (play-KeptOrGone id (cancel_record reason now r) ss (begin_cancel reason now id rt).1
      (unfold cancel_record in refl) others (begin_cancel-found id reason now r rt found a)) [
        | inl h ↦ inr (
          cancel_record reason now r,
          h,
          unfold cancel_record in refl,
          unfold cancel_record in refl,
          unfold cancel_record in refl,
          unfold cancel_record in refl,
        )
        | inr h ↦ inl h
      ]
