-- ===== src/Retention/Select/Simple.antt =====
-- The policy by count and age (selectRecordsToDelete of
-- server/internal/backup/retention/service.go) against a description by positions.
use mathlib.Core.List.{append_assoc}
use backup_x.Base.{
  ℕ, zero, suc, ◌+◌, ◌≡◌, refl, sym, ap, inl, inr, Bool, false, ◌&&◌, ◌||◌, List, [], ◌∷◌, ◌++◌,
  subst, none, some, arith, leb, ltb, ◌==◌, if◌then◌else◌, length, length-append, drop, filter, any,
  contains, All, Bool-cases, ==_iff,
}
use backup_x.Base.Int.{ℤ, is_positive, pos_part}
use backup_x.Retention.Select.{
  BackupRecord, ids, find_selected, select_all, select_expired, is_expired, cutoff_of,
  collect_selected, surplus_records, selected_records, unlocked_records, select_records_to_delete,
  is_unlocked, has_locked,
}
use backup_x.Retention.Select.Records.{
  Member, Distinct, contains-Member, contains-filter, All-of_Member, Distinct-eq, Member-append,
  Distinct-filter,
}

-- The records that are to go, by their positions: `index` is that of the first. One goes when it
-- stands behind the first `max_backups`, or was completed before the cutoff.
unfoldable pub expected : ℤ → ℤ → ℕ → ℕ → List BackupRecord → List BackupRecord
expected retention_days max_backups now index [] = []
expected retention_days max_backups now index (r ∷ rs) =
    let rest = expected retention_days max_backups now (index + 1) rs in
    if (is_positive max_backups && leb (pos_part max_backups) index)
      || (is_positive retention_days && is_expired (cutoff_of now (pos_part retention_days)) r)
    then r ∷ rest
    else rest

-- Every write of the map that has the record's id is the record.
abbrev Coherent : BackupRecord → List BackupRecord → Type 0
Coherent r selected = All (λ s. s.id ≡ r.id → s ≡ r) selected

find_selected-Coherent :
    (r : BackupRecord) (selected : List BackupRecord)
    → Coherent r selected
    → find_selected r.id selected ≡ (if contains (ids selected) r.id then some r else none)
unfolding find_selected
find_selected-Coherent r [] h = refl
find_selected-Coherent r (s ∷ selected) h = elim (Bool-cases (s.id == r.id)) [
  | inl e ↦ rw e (ap some (h.0 ((==_iff _ _).0 e)))
  | inr e ↦ rw e (find_selected-Coherent r selected h.1)
]

contains-select_all :
    (a : ℕ) (rs selected : List BackupRecord)
    → contains (ids (select_all rs selected)) a ≡ (contains (ids rs) a || contains (ids selected) a)
unfolding select_all
contains-select_all a [] selected = refl
contains-select_all a (r ∷ rs) selected = ground (arith, contains-select_all a rs (r ∷ selected))

contains-select_expired :
    (cutoff a : ℕ) (rs selected : List BackupRecord)
    → contains (ids (select_expired cutoff rs selected)) a
      ≡ (contains (ids (filter (is_expired cutoff) rs)) a || contains (ids selected) a)
unfolding select_expired
contains-select_expired cutoff a [] selected = refl
contains-select_expired cutoff a (r ∷ rs) selected = ground (
  arith,
  contains-select_expired cutoff a rs (r ∷ selected),
  contains-select_expired cutoff a rs selected,
)

module _ {κ} (P : BackupRecord → Type κ) where
  All-select_all :
      (rs selected : List BackupRecord) → All P rs → All P selected → All P (select_all rs selected)
  unfolding select_all
  All-select_all [] selected a b = b
  All-select_all (r ∷ rs) selected a b = All-select_all rs (r ∷ selected) a.1 (a.0, b)

  All-select_expired :
      (cutoff : ℕ) (rs selected : List BackupRecord)
      → All P rs
      → All P selected
      → All P (select_expired cutoff rs selected)
  unfolding select_expired
  All-select_expired cutoff [] selected a b = b
  All-select_expired cutoff (r ∷ rs) selected a b = elim (Bool-cases (is_expired cutoff r)) [
    | inl e ↦ rw e (All-select_expired cutoff rs (r ∷ selected) a.1 (a.0, b))
    | inr e ↦ rw e (All-select_expired cutoff rs selected a.1 b)
  ]

  All-drop : (n : ℕ) (rs : List BackupRecord) → All P rs → All P (drop n rs)
  All-drop zero rs a = a
  All-drop (suc n) [] a = a
  All-drop (suc n) (r ∷ rs) a = All-drop n rs a.1

  All-surplus_records :
      (rs : List BackupRecord) (max_backups : ℤ) → All P rs → All P (surplus_records rs max_backups)
  unfolding surplus_records
  All-surplus_records rs max_backups a =
      elim (Bool-cases (is_positive max_backups && ltb (pos_part max_backups) (length rs))) [
        | inl e ↦ rw e (All-select_all _ [] (All-drop (pos_part max_backups) rs a) tt)
        | inr e ↦ rw e tt
      ]

  All-selected_records :
      (rs : List BackupRecord) (retention_days max_backups : ℤ) (now : ℕ)
      → All P rs
      → All P (selected_records rs retention_days max_backups now)
  unfolding selected_records
  All-selected_records rs retention_days max_backups now a =
      elim (Bool-cases (is_positive retention_days)) [
        | inl e ↦ rw e (All-select_expired _ rs _ a (All-surplus_records rs max_backups a))
        | inr e ↦ rw e (All-surplus_records rs max_backups a)
      ]

-- Where a record stands: behind `before`.
module _ (before : List BackupRecord) (r : BackupRecord) (after : List BackupRecord) where
  Coherent-of_Distinct : Distinct (before ++ r ∷ after) → Coherent r (before ++ r ∷ after)
  Coherent-of_Distinct d =
      All-of_Member _ (before ++ r ∷ after)
        λ s m e. Distinct-eq s r (before ++ r ∷ after) d m (Member-append r before after) e

contains-drop :
    (n a : ℕ) (rs : List BackupRecord)
    → contains (ids rs) a ≡ false
    → contains (ids (drop n rs)) a ≡ false
contains-drop zero a rs h = h
contains-drop (suc n) a [] h = h
contains-drop (suc n) a (r ∷ rs) h = contains-drop n a rs (ground arith)

contains-drop_at :
    (n : ℕ) (before : List BackupRecord) (r : BackupRecord) (after : List BackupRecord)
    → Distinct (before ++ r ∷ after)
    → contains (ids (drop n (before ++ r ∷ after))) r.id ≡ leb n (length before)
contains-drop_at zero [] r after d = ground arith
contains-drop_at zero (b ∷ before) r after d =
    ground (arith, contains-drop_at zero before r after d.1)
contains-drop_at (suc n) [] r after d = ground (arith, contains-drop n r.id after d.0)
contains-drop_at (suc n) (b ∷ before) r after d =
    ground (arith, contains-drop_at n before r after d.1)

contains-filter_at :
    (p : BackupRecord → Bool) (before : List BackupRecord) (r : BackupRecord)
    (after : List BackupRecord)
    → Distinct (before ++ r ∷ after)
    → contains (ids (filter p (before ++ r ∷ after))) r.id ≡ p r
contains-filter_at p [] r after d = ground (arith, contains-filter p r.id after d.0)
contains-filter_at p (b ∷ before) r after d = ground (
  arith,
  contains-filter_at p before r after d.1,
  contains-Member r (before ++ r ∷ after) (Member-append r before after),
)

-- Which records the map selects, position by position.
contains-selected_records :
    (retention_days max_backups : ℤ) (now : ℕ) (before : List BackupRecord) (r : BackupRecord)
    (after : List BackupRecord)
    → Distinct (before ++ r ∷ after)
    → contains (ids (selected_records (before ++ r ∷ after) retention_days max_backups now)) r.id
      ≡ ((is_positive max_backups && leb (pos_part max_backups) (length before))
          || (is_positive retention_days && is_expired (cutoff_of now (pos_part retention_days)) r))
unfolding selected_records surplus_records
contains-selected_records retention_days max_backups now before r after d =
    let rs = before ++ r ∷ after in
    let cutoff = cutoff_of now (pos_part retention_days) in
    let n = pos_part max_backups in
    ground (
      arith,
      contains-select_expired cutoff r.id rs (surplus_records rs max_backups),
      contains-select_all r.id (drop n rs) [],
      contains-drop_at n before r after d,
      contains-filter_at (is_expired cutoff) before r after d,
      length-append before (r ∷ after),
    )

collect_selected-cons :
    (r : BackupRecord) (rs selected : List BackupRecord)
    → Coherent r selected
    → collect_selected (r ∷ rs) selected ≡ (
        if contains (ids selected) r.id
        then r ∷ collect_selected rs selected
        else collect_selected rs selected)
unfolding collect_selected
collect_selected-cons r rs selected h = ground (arith, find_selected-Coherent r selected h)

collect_selected-expected :
    (retention_days max_backups : ℤ) (now : ℕ) (before rs : List BackupRecord)
    → Distinct (before ++ rs)
    → collect_selected rs (selected_records (before ++ rs) retention_days max_backups now)
      ≡ expected retention_days max_backups now (length before) rs
collect_selected-expected retention_days max_backups now before [] d =
    unfold collect_selected expected in refl
collect_selected-expected retention_days max_backups now before (r ∷ rs) d =
    let selected = selected_records (before ++ r ∷ rs) retention_days max_backups now in
    let regroup : (before ++ r ∷ []) ++ rs ≡ before ++ r ∷ rs = append_assoc before (r ∷ []) rs in
    let longer : length (before ++ r ∷ []) ≡ length before + 1 = length-append before (r ∷ []) in
    let ih : collect_selected rs selected
        ≡ expected retention_days max_backups now (length before + 1) rs =
      rw (regroup, longer) at
        (collect_selected-expected retention_days max_backups now (before ++ r ∷ []) rs
          (subst Distinct (sym regroup) d)) in
    rw
      (
        collect_selected-cons r rs selected (
            All-selected_records _ (before ++ r ∷ rs) retention_days max_backups now
              (Coherent-of_Distinct before r rs d)),
        contains-selected_records retention_days max_backups now before r rs d,
        ih,
      )
      (unfold expected in refl)

filter-unlocked :
    (rs : List BackupRecord)
    → any (λ (r : BackupRecord). r.locked) rs ≡ false
    → filter is_unlocked rs ≡ rs
filter-unlocked [] h = refl
filter-unlocked (r ∷ rs) h = ground (arith, filter-unlocked rs)

unlocked_records-eq-filter : (rs : List BackupRecord) → unlocked_records rs ≡ filter is_unlocked rs
unfolding unlocked_records has_locked
unlocked_records-eq-filter rs = elim (Bool-cases (any (λ (r : BackupRecord). r.locked) rs)) [
  | inl e ↦ rw e
  | inr e ↦ rw e (sym (filter-unlocked rs e))
]

-- With different ids, the records to delete are the unlocked ones that stand behind the first
-- max_backups unlocked ones or were completed before the cutoff, in their order: by a policy
-- whose number is not positive none goes.
pub select_records_to_delete-eq-expected :
    (records : List BackupRecord) (retention_days max_backups : ℤ) (now : ℕ)
    → Distinct records
    → select_records_to_delete records retention_days max_backups now
      ≡ expected retention_days max_backups now 0 (filter is_unlocked records)
unfolding select_records_to_delete
select_records_to_delete-eq-expected records retention_days max_backups now d =
    rw (unlocked_records-eq-filter records) (
      collect_selected-expected retention_days max_backups now [] (filter is_unlocked records)
        (Distinct-filter is_unlocked records d))

pub Member-expected :
    (retention_days max_backups : ℤ) (now index : ℕ) (c : BackupRecord) (rs : List BackupRecord)
    → Member c (expected retention_days max_backups now index rs)
    → Member c rs
unfolding expected
Member-expected retention_days max_backups now index c [] m = m
Member-expected retention_days max_backups now index c (r ∷ rs) m =
    ground (arith, Member-expected retention_days max_backups now (index + 1) c rs)
