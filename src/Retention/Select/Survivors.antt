-- ===== src/Retention/Select/Survivors.antt =====
-- What the grandfather-father-son policy leaves (selectGFSToDelete of
-- server/internal/backup/retention/service.go).
use backup_x.Base.{
  ℕ, ◌+◌, ◌≤◌, ◌≡◌, refl, ap, inl, inr, Bool, true, false, not, ◌&&◌, ◌||◌, List, [], ◌∷◌, ◌++◌,
  arith, ◌==◌, length, length-append, filter, contains, All, Bool-cases, ==_iff,
}
use backup_x.Base.Int.{ℤ, is_positive, pos_part}
use backup_x.Retention.Calendar.{day_key, iso_week_key, month_key, year_key}
use backup_x.Retention.Select.{
  BackupRecord, ids, is_unlocked, record_time, sort_records, keep_tier, keep_set, is_dropped,
  select_gfs_to_delete,
}
use backup_x.Retention.Select.Records.{Distinct, Member, All-Member, Distinct-filter}
use backup_x.Retention.Select.Order.{
  IsDescending, sort_records-IsDescending, Member-sort_records, Member-sort_records_of,
  Distinct-sort_records, length-sort_records,
}
use backup_x.Retention.Select.Gfs.{keep_tier-length, keep_tier_first}

contains-append :
    (xs ys : List ℕ) (a : ℕ) → contains (xs ++ ys) a ≡ (contains xs a || contains ys a)
contains-append [] ys a = refl
contains-append (x ∷ xs) ys a = ground (arith, contains-append xs ys a)

pub contains-filter_dropped :
    (keep : List ℕ) (a : ℕ) (rs : List BackupRecord)
    → contains (ids (filter (is_dropped keep) rs)) a
      ≡ (contains (ids rs) a && not (contains keep a))
unfolding is_dropped
contains-filter_dropped keep a [] = refl
contains-filter_dropped keep a (r ∷ rs) = elim (Bool-cases (r.id == a)) [
  | inl e ↦
      let same : contains keep r.id ≡ contains keep a = ap (contains keep) ((==_iff _ _).0 e) in
      ground (arith, contains-filter_dropped keep a rs)
  | inr e ↦ ground (arith, contains-filter_dropped keep a rs)
]

-- Some limit is positive.
abbrev pub IsEnabled : ℤ → ℤ → ℤ → ℤ → Type 0
IsEnabled daily weekly monthly yearly =
    (is_positive daily || is_positive weekly || is_positive monthly || is_positive yearly) ≡ true

keep_set_first :
    (r : BackupRecord) (rs : List BackupRecord) (daily weekly monthly yearly : ℤ)
    → IsEnabled daily weekly monthly yearly
    → contains (keep_set (r ∷ rs) daily weekly monthly yearly) r.id ≡ true
unfolding keep_set
keep_set_first r rs daily weekly monthly yearly h =
    let active = r ∷ rs in
    let d = keep_tier daily day_key active in
    let w = keep_tier weekly iso_week_key active in
    let m = keep_tier monthly month_key active in
    let y = keep_tier yearly year_key active in
    ground (
      arith,
      contains-append d (w ++ (m ++ y)) r.id,
      contains-append w (m ++ y) r.id,
      contains-append m y r.id,
      keep_tier_first daily day_key r rs,
      keep_tier_first weekly iso_week_key r rs,
      keep_tier_first monthly month_key r rs,
      keep_tier_first yearly year_key r rs,
    )

keep_set-length :
    (active : List BackupRecord) (daily weekly monthly yearly : ℤ)
    → length (keep_set active daily weekly monthly yearly)
      ≤ pos_part daily + pos_part weekly + pos_part monthly + pos_part yearly
unfolding keep_set
keep_set-length active daily weekly monthly yearly =
    let d = keep_tier daily day_key active in
    let w = keep_tier weekly iso_week_key active in
    let m = keep_tier monthly month_key active in
    let y = keep_tier yearly year_key active in
    omega (
      arith,
      length-append d (w ++ (m ++ y)),
      length-append w (m ++ y),
      length-append m y,
      keep_tier-length daily day_key active,
      keep_tier-length weekly iso_week_key active,
      keep_tier-length monthly month_key active,
      keep_tier-length yearly year_key active,
    )

newest_kept :
    (active : List BackupRecord) (s : BackupRecord) (daily weekly monthly yearly : ℤ)
    → IsEnabled daily weekly monthly yearly
    → IsDescending active
    → Member s active
    → (r : BackupRecord) × Member r active
      × (contains
            (ids (filter (is_dropped (keep_set active daily weekly monthly yearly)) active))
            r.id
          ≡ false)
      × All (λ x. record_time x ≤ record_time r) active
newest_kept [] s daily weekly monthly yearly h d m = elim m [ ]
newest_kept (r ∷ rs) s daily weekly monthly yearly h d m = (
  r,
  inl refl,
  ground (
    arith,
    contains-filter_dropped (keep_set (r ∷ rs) daily weekly monthly yearly) r.id (r ∷ rs),
    keep_set_first r rs daily weekly monthly yearly h,
  ),
  (omega arith, d.0),
)

-- When some limit is positive and some record is not locked, the newest of the records that are
-- not locked is not among those to delete.
pub select_gfs_to_delete_keeps_newest :
    (records : List BackupRecord) (daily weekly monthly yearly : ℤ) (s : BackupRecord)
    → IsEnabled daily weekly monthly yearly
    → Member s (filter is_unlocked records)
    → (r : BackupRecord) × Member r (filter is_unlocked records)
      × (contains (ids (select_gfs_to_delete records daily weekly monthly yearly)) r.id ≡ false)
      × ((x : BackupRecord) → Member x (filter is_unlocked records) → record_time x ≤ record_time r)
unfolding select_gfs_to_delete
select_gfs_to_delete_keeps_newest records daily weekly monthly yearly s h m =
    let unlocked = filter is_unlocked records in
    let active = sort_records unlocked in
    let (r, in_active, kept, newest) =
      newest_kept active s daily weekly monthly yearly h (sort_records-IsDescending unlocked)
        (Member-sort_records_of s unlocked m) in
    (
      r,
      Member-sort_records r unlocked in_active,
      kept,
      λ x n.
          All-Member (λ y. record_time y ≤ record_time r) x active newest
            (Member-sort_records_of x unlocked n),
    )

-- Pigeonhole: as many records as ids, at most.
length-filter_same :
    (a : ℕ) (rs : List BackupRecord)
    → contains (ids rs) a ≡ false
    → length (filter (λ r. a == r.id) rs) ≡ 0
length-filter_same a [] h = refl
length-filter_same a (r ∷ rs) h = ground (arith, length-filter_same a rs)

length-filter_one :
    (a : ℕ) (rs : List BackupRecord) → Distinct rs → length (filter (λ r. a == r.id) rs) ≤ 1
length-filter_one a [] d = omega arith
length-filter_one a (r ∷ rs) d = ground (arith, length-filter_same a rs, length-filter_one a rs d.1)

length-filter_or :
    (p q : BackupRecord → Bool) (rs : List BackupRecord)
    → length (filter (λ r. p r || q r) rs) ≤ length (filter p rs) + length (filter q rs)
length-filter_or p q [] = omega arith
length-filter_or p q (r ∷ rs) = ground (arith, length-filter_or p q rs)

length-filter_kept :
    (keep : List ℕ) (rs : List BackupRecord)
    → Distinct rs
    → length (filter (λ r. contains keep r.id) rs) ≤ length keep
length-filter_kept [] [] d = omega arith
length-filter_kept [] (r ∷ rs) d = length-filter_kept [] rs d.1
length-filter_kept (k ∷ keep) rs d = omega (
  arith,
  length-filter_or (λ r. k == r.id) (λ r. contains keep r.id) rs,
  length-filter_one k rs d,
  length-filter_kept keep rs d,
)

length-filter_dropped :
    (keep : List ℕ) (rs : List BackupRecord)
    → length (filter (λ (r : BackupRecord). contains keep r.id) rs)
        + length (filter (is_dropped keep) rs)
      ≡ length rs
unfolding is_dropped
length-filter_dropped keep [] = refl
length-filter_dropped keep (r ∷ rs) = ground (arith, length-filter_dropped keep rs)

-- With different ids, at most as many unlocked records remain as the four limits allow together; a
-- limit that is not positive allows none.
pub select_gfs_to_delete_bound :
    (records : List BackupRecord) (daily weekly monthly yearly : ℤ)
    → Distinct records
    → length (filter is_unlocked records)
      ≤ length (select_gfs_to_delete records daily weekly monthly yearly)
        + (pos_part daily + pos_part weekly + pos_part monthly + pos_part yearly)
unfolding select_gfs_to_delete
select_gfs_to_delete_bound records daily weekly monthly yearly d =
    let unlocked = filter is_unlocked records in
    let active = sort_records unlocked in
    let keep = keep_set active daily weekly monthly yearly in
    omega (
      arith,
      length-sort_records unlocked,
      length-filter_dropped keep active,
      length-filter_kept keep active
          (Distinct-sort_records unlocked (Distinct-filter is_unlocked records d)),
      keep_set-length active daily weekly monthly yearly,
    )
