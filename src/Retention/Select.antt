-- ===== src/Retention/Select.antt =====
-- Which records the retention policies delete: the selection functions of
-- server/internal/backup/retention/service.go, with the record of
-- server/internal/model/backup_record.go and the policy fields of the task.
pub mod Records
pub mod Order
pub mod Simple
pub mod Gfs
pub mod Plan
pub mod Protect
pub mod Survivors
mod Tests
use backup_x.Base.{
  ℕ, zero, suc, ◌+◌, ◌-◌, ◌*◌, Bool, true, false, not, ◌&&◌, ◌||◌, List, [], ◌∷◌, Option, none,
  some, ltb, leb, ◌==◌, if◌then◌else◌, length, drop, filter, any, contains, map, ◌++◌,
}
use backup_x.Base.Int.{ℤ, is_positive, pos_part}
use backup_x.Base.Text.{Text, text_eq}
use backup_x.Retention.Calendar.{day_nanos, day_key, iso_week_key, month_key, year_key}

-- The copies that a record's storage_upload_results column lists.
pub record UploadResult : Type 0 where
  pub storage_target_id : ℕ
  pub status : Text
  pub storage_path : Text

-- The storage_upload_results column: blank, not a JSON array of copies, or such an array decoded.
pub data UploadResults : Type 0 where
  blank malformed : UploadResults
  decoded : List UploadResult → UploadResults

pub data BackupKind : Type 0 where
  full differential repository other : BackupKind

-- The columns of a backup record that retention reads. Instants are nanoseconds since 1970 UTC.
pub record BackupRecord : Type 0 where
  pub id : ℕ
  pub storage_target_id : ℕ
  pub storage_path : Text
  pub storage_upload_results : UploadResults
  pub locked : Bool
  pub backup_kind : BackupKind
  pub base_record_id : ℕ
  pub started_at : ℕ
  pub completed_at : Option ℕ

pub record BackupTask : Type 0 where
  pub retention_days : ℤ
  pub max_backups : ℤ
  pub keep_daily : ℤ
  pub keep_weekly : ℤ
  pub keep_monthly : ℤ
  pub keep_yearly : ℤ

abbrev pub ids : List BackupRecord → List ℕ
ids [] = []
ids (r ∷ rs) = r.id ∷ ids rs

abbrev pub is_unlocked : BackupRecord → Bool
is_unlocked r = not r.locked

pub has_locked : List BackupRecord → Bool
has_locked records = any (λ r. r.locked) records

-- A Go map from ids to records, as the list of its writes, the last one first.
pub find_selected : ℕ → List BackupRecord → Option BackupRecord
find_selected id [] = none
find_selected id (r ∷ rs) = let rest = find_selected id rs in if r.id == id then some r else rest

-- `for _, record := range records { selected[record.ID] = record }`.
pub select_all : List BackupRecord → List BackupRecord → List BackupRecord
select_all [] selected = selected
select_all (r ∷ rs) selected = select_all rs (r ∷ selected)

-- `record.CompletedAt != nil && record.CompletedAt.Before(cutoff)`.
pub is_expired : ℕ → BackupRecord → Bool
is_expired cutoff r = elim r.completed_at [ none ↦ false | some t ↦ ltb t cutoff ]

-- The loop that selects by age.
pub select_expired : ℕ → List BackupRecord → List BackupRecord → List BackupRecord
select_expired cutoff [] selected = selected
select_expired cutoff (r ∷ rs) selected =
    select_expired cutoff rs (if is_expired cutoff r then r ∷ selected else selected)

-- The loop that lists the selected records in the order of the records.
pub collect_selected : List BackupRecord → List BackupRecord → List BackupRecord
collect_selected [] selected = []
collect_selected (r ∷ rs) selected =
    let rest = collect_selected rs selected in
    elim (find_selected r.id selected) [ none ↦ rest | some s ↦ s ∷ rest ]

-- now.AddDate(0, 0, -days) of a UTC instant. No instant lies before 1970, so a cutoff that would
-- is as good as 1970.
pub cutoff_of : ℕ → ℕ → ℕ
cutoff_of now days = now - days * day_nanos

pub unlocked_records : List BackupRecord → List BackupRecord
unfolding has_locked
unlocked_records records = if has_locked records then filter is_unlocked records else records

-- The records behind the first max_backups.
pub surplus_records : List BackupRecord → ℤ → List BackupRecord
surplus_records records max_backups =
    if is_positive max_backups && ltb (pos_part max_backups) (length records)
    then select_all (drop (pos_part max_backups) records) []
    else []

-- The selected map after both loops.
pub selected_records : List BackupRecord → ℤ → ℤ → ℕ → List BackupRecord
selected_records records retention_days max_backups now =
    let surplus = surplus_records records max_backups in
    if is_positive retention_days
    then select_expired (cutoff_of now (pos_part retention_days)) records surplus
    else surplus

pub select_records_to_delete : List BackupRecord → ℤ → ℤ → ℕ → List BackupRecord
select_records_to_delete records retention_days max_backups now =
    let unlocked = unlocked_records records in
    collect_selected unlocked (selected_records unlocked retention_days max_backups now)

pub gfs_enabled : BackupTask → Bool
gfs_enabled task =
    is_positive task.keep_daily
    || is_positive task.keep_weekly
    || is_positive task.keep_monthly
    || is_positive task.keep_yearly

pub record_time : BackupRecord → ℕ
record_time r = elim r.completed_at [ none ↦ r.started_at | some t ↦ t ]

-- sort.SliceStable by descending time: an earlier record stays before one of the same time.
pub insert_record : BackupRecord → List BackupRecord → List BackupRecord
insert_record r [] = r ∷ []
insert_record r (s ∷ rest) =
    let further = insert_record r rest in
    if ltb (record_time r) (record_time s) then s ∷ further else r ∷ s ∷ rest

pub sort_records : List BackupRecord → List BackupRecord
sort_records [] = []
sort_records (r ∷ rs) = insert_record r (sort_records rs)

-- `havePrev && p == lastPeriod`, with no last period while havePrev is false.
pub same_period : Option (List ℕ) → List ℕ → Bool
same_period none p = false
same_period (some q) p = text_eq p q

-- The loop of keepTier, from `periods` kept and the last period; the ids that it adds to `keep`.
pub tier_loop : ℕ → (ℕ → List ℕ) → ℕ → Option (List ℕ) → List BackupRecord → List ℕ
tier_loop count key periods last [] = []
tier_loop count key periods last (r ∷ rs) =
    let p = key (record_time r) in
    let skipped = tier_loop count key periods last rs in
    let kept = tier_loop count key (periods + 1) (some p) rs in
    if same_period last p then skipped else if leb count periods then [] else r.id ∷ kept

pub keep_tier : ℤ → (ℕ → List ℕ) → List BackupRecord → List ℕ
keep_tier count key active =
    if is_positive count then tier_loop (pos_part count) key 0 none active else []

-- The ids that some tier keeps.
pub keep_set : List BackupRecord → ℤ → ℤ → ℤ → ℤ → List ℕ
keep_set active daily weekly monthly yearly =
    keep_tier daily day_key active
    ++ (keep_tier weekly iso_week_key active
        ++ (keep_tier monthly month_key active ++ keep_tier yearly year_key active))

-- `!keep[active[i].ID]`.
pub is_dropped : List ℕ → BackupRecord → Bool
is_dropped keep r = not (contains keep r.id)

pub select_gfs_to_delete : List BackupRecord → ℤ → ℤ → ℤ → ℤ → List BackupRecord
select_gfs_to_delete records daily weekly monthly yearly =
    let active = sort_records (filter is_unlocked records) in
    let keep = keep_set active daily weekly monthly yearly in filter (is_dropped keep) active

abbrev pub is_differential : BackupKind → Bool
is_differential differential = true
is_differential _ = false

abbrev pub is_full : BackupKind → Bool
is_full full = true
is_full _ = false

-- The base ids of the differentials that are not among the candidates.
pub protected_ids : List ℕ → List BackupRecord → List ℕ
protected_ids deleting [] = []
protected_ids deleting (r ∷ rs) =
    let rest = protected_ids deleting rs in
    if not (is_differential r.backup_kind) || r.base_record_id == 0
    then rest
    else if contains deleting r.id
    then rest
    else r.base_record_id ∷ rest

abbrev is_empty : List ℕ → Bool
is_empty [] = true
is_empty (x ∷ xs) = false

-- Whether the last loop leaves a candidate in.
pub is_deletable : List ℕ → BackupRecord → Bool
is_deletable protected r = not (is_full r.backup_kind && contains protected r.id)

pub protect_differential_bases : List BackupRecord → List BackupRecord → List BackupRecord
protect_differential_bases all candidates =
    let protected = protected_ids (ids candidates) all in
    if is_empty protected then candidates else filter (is_deletable protected) candidates

-- The choice of the policy in cleanup, before protection.
pub policy_candidates : List BackupRecord → BackupTask → ℕ → List BackupRecord
policy_candidates records task now =
    if gfs_enabled task
    then select_gfs_to_delete records task.keep_daily task.keep_weekly task.keep_monthly
        task.keep_yearly
    else select_records_to_delete records task.retention_days task.max_backups now

-- The records that one run of cleanup sets out to delete.
pub cleanup_candidates : List BackupRecord → BackupTask → ℕ → List BackupRecord
cleanup_candidates records task now =
    protect_differential_bases records (policy_candidates records task now)
