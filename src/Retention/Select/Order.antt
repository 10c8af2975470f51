-- ===== src/Retention/Select/Order.antt =====
-- The order in which the GFS policy visits the records: sort.SliceStable by descending time, in
-- server/internal/backup/retention/service.go.
use mathlib.Core.List.{Perm}
use mathlib.Core.List.Perm
use backup_x.Base.{
  ℕ, suc, ◌≤◌, ◌≡◌, refl, inl, inr, false, ◌||◌, List, [], ◌∷◌, arith, ltb, ◌==◌, length, contains,
  All, Bool-cases,
}
use backup_x.Retention.Select.{BackupRecord, ids, record_time, insert_record, sort_records}
use backup_x.Retention.Select.Records.{Distinct, Member}

insert_record-perm :
    (r : BackupRecord) (rs : List BackupRecord) → Perm (insert_record r rs) (r ∷ rs)
unfolding insert_record
insert_record-perm r [] = Perm.refl (r ∷ [])
insert_record-perm r (s ∷ rs) = elim (Bool-cases (ltb (record_time r) (record_time s))) [
  | inl e ↦ rw e (Perm.trans (Perm.cons s (insert_record-perm r rs)) (Perm.swap _ _ _))
  | inr e ↦ rw e (Perm.refl (r ∷ s ∷ rs))
]

-- Sorting loses and adds no record.
sort_records-perm : (rs : List BackupRecord) → Perm (sort_records rs) rs
unfolding sort_records
sort_records-perm [] = Perm.refl []
sort_records-perm (r ∷ rs) =
    Perm.trans (insert_record-perm r (sort_records rs)) (Perm.cons r (sort_records-perm rs))

-- Newest first.
abbrev pub IsDescending : List BackupRecord → Type 0
IsDescending [] = Unit
IsDescending (r ∷ rs) = All (λ s. record_time s ≤ record_time r) rs × IsDescending rs

insert_record-All {κ} :
    (P : BackupRecord → Type κ) (r : BackupRecord) (rs : List BackupRecord)
    → P r
    → All P rs
    → All P (insert_record r rs)
unfolding insert_record
insert_record-All P r [] p a = (p, tt)
insert_record-All P r (s ∷ rs) p a = elim (Bool-cases (ltb (record_time r) (record_time s))) [
  | inl e ↦ rw e (a.0, insert_record-All P r rs p a.1)
  | inr e ↦ rw e (p, a)
]

All_older :
    (t u : ℕ) (rs : List BackupRecord)
    → t ≤ u
    → All (λ s. record_time s ≤ t) rs
    → All (λ s. record_time s ≤ u) rs
All_older t u [] h a = tt
All_older t u (r ∷ rs) h a = (omega arith, All_older t u rs h a.1)

insert_record-IsDescending :
    (r : BackupRecord) (rs : List BackupRecord)
    → IsDescending rs
    → IsDescending (insert_record r rs)
unfolding insert_record
insert_record-IsDescending r [] d = (tt, tt)
insert_record-IsDescending r (s ∷ rs) d = elim (Bool-cases (ltb (record_time r) (record_time s))) [
  | inl e ↦ rw e (
    insert_record-All (λ x. record_time x ≤ record_time s) r rs (ground arith) d.0,
    insert_record-IsDescending r rs d.1,
  )
  | inr e ↦
      rw e ((ground arith, All_older (record_time s) (record_time r) rs (ground arith) d.0), d)
]

pub sort_records-IsDescending : (rs : List BackupRecord) → IsDescending (sort_records rs)
unfolding sort_records
sort_records-IsDescending [] = tt
sort_records-IsDescending (r ∷ rs) =
    insert_record-IsDescending r (sort_records rs) (sort_records-IsDescending rs)

Member-insert_record :
    (r s : BackupRecord) (rs : List BackupRecord)
    → Member s (insert_record r rs)
    → Member s (r ∷ rs)
unfolding insert_record
Member-insert_record r s [] m = m
Member-insert_record r s (x ∷ rs) m = ground (arith, Member-insert_record r s rs)

Member-insert_record_of :
    (r s : BackupRecord) (rs : List BackupRecord)
    → Member s (r ∷ rs)
    → Member s (insert_record r rs)
unfolding insert_record
Member-insert_record_of r s [] m = m
Member-insert_record_of r s (x ∷ rs) m = ground (arith, Member-insert_record_of r s rs)

pub Member-sort_records :
    (s : BackupRecord) (rs : List BackupRecord) → Member s (sort_records rs) → Member s rs
unfolding sort_records
Member-sort_records s [] m = m
Member-sort_records s (r ∷ rs) m =
    ground (arith, Member-insert_record r s (sort_records rs) m, Member-sort_records s rs)

pub Member-sort_records_of :
    (s : BackupRecord) (rs : List BackupRecord) → Member s rs → Member s (sort_records rs)
unfolding sort_records
Member-sort_records_of s [] m = m
Member-sort_records_of s (r ∷ rs) (inl e) = Member-insert_record_of r s (sort_records rs) (inl e)
Member-sort_records_of s (r ∷ rs) (inr m) =
    Member-insert_record_of r s (sort_records rs) (inr (Member-sort_records_of s rs m))

contains-insert_record :
    (r : BackupRecord) (a : ℕ) (rs : List BackupRecord)
    → contains (ids (insert_record r rs)) a ≡ ((r.id == a) || contains (ids rs) a)
unfolding insert_record
contains-insert_record r a [] = refl
contains-insert_record r a (s ∷ rs) = ground (arith, contains-insert_record r a rs)

contains-sort_records :
    (a : ℕ) (rs : List BackupRecord) → contains (ids (sort_records rs)) a ≡ contains (ids rs) a
unfolding sort_records
contains-sort_records a [] = refl
contains-sort_records a (r ∷ rs) =
    ground (arith, contains-insert_record r a (sort_records rs), contains-sort_records a rs)

Distinct-insert_record :
    (r : BackupRecord) (rs : List BackupRecord)
    → contains (ids rs) r.id ≡ false
    → Distinct rs
    → Distinct (insert_record r rs)
unfolding insert_record
Distinct-insert_record r [] h d = (h, d)
Distinct-insert_record r (s ∷ rs) h d =
    ground (arith, contains-insert_record r s.id rs, Distinct-insert_record r rs)

pub Distinct-sort_records : (rs : List BackupRecord) → Distinct rs → Distinct (sort_records rs)
unfolding sort_records
Distinct-sort_records [] d = tt
Distinct-sort_records (r ∷ rs) d =
    Distinct-insert_record r (sort_records rs) (rw (contains-sort_records r.id rs) d.0)
      (Distinct-sort_records rs d.1)

length-insert_record :
    (r : BackupRecord) (rs : List BackupRecord) → length (insert_record r rs) ≡ suc (length rs)
unfolding insert_record
length-insert_record r [] = refl
length-insert_record r (s ∷ rs) = ground (arith, length-insert_record r rs)

pub length-sort_records : (rs : List BackupRecord) → length (sort_records rs) ≡ length rs
unfolding sort_records
length-sort_records [] = refl
length-sort_records (r ∷ rs) =
    omega (arith, length-insert_record r (sort_records rs), length-sort_records rs)
