-- ===== src/Retention/Select/Tests.antt =====
-- Retention on concrete records (server/internal/backup/retention/service.go).
use backup_x.Base.{
  none, All, ℕ, ◌+◌, ◌*◌, ◌≤◌, ◌≡◌, ◌≢◌, refl, inl, Bool, true, false, List, [], ◌∷◌, some, arith,
  length, filter, contains,
}
use backup_x.Base.Int.{pos}
use backup_x.Base.Text.{codes, text_eq}
use backup_x.Retention.Calendar.{day_nanos, day_key, iso_week_key, month_key, year_key}
use backup_x.Retention.Select.{
  BackupRecord, BackupKind, full, differential, blank, BackupTask, ids, is_unlocked, has_locked,
  find_selected, select_all, is_expired, select_expired, collect_selected, cutoff_of,
  unlocked_records, surplus_records, selected_records, select_records_to_delete, gfs_enabled,
  record_time, insert_record, sort_records, same_period, tier_loop, keep_tier, keep_set, is_dropped,
  select_gfs_to_delete, protected_ids, is_deletable, protect_differential_bases, policy_candidates,
  cleanup_candidates,
}
use backup_x.Retention.Select.Records.{Distinct, Member}
use backup_x.Retention.Select.Order.{IsDescending}
use backup_x.Retention.Select.Simple.{expected, select_records_to_delete-eq-expected}
use backup_x.Retention.Select.Gfs.{ids_of, NewPeriods, Served, keep_tier-Served}
use backup_x.Retention.Select.Survivors.{
  select_gfs_to_delete_keeps_newest, select_gfs_to_delete_bound,
}
use backup_x.Retention.Select.Plan.{cleanup_candidates-unlocked, cleanup_candidates_chain}

-- A record of a day, completed as soon as it started.
abbrev backup_of : ℕ → ℕ → BackupKind → ℕ → Bool → BackupRecord
backup_of id day kind base locked = record {
  id = id;
  storage_target_id = 1;
  storage_path = codes "files/a.tar";
  storage_upload_results = blank;
  locked = locked;
  backup_kind = kind;
  base_record_id = base;
  started_at = day * day_nanos;
  completed_at = some (day * day_nanos);
}

-- The differential 2 is based on 1, which is older than it, as is 3; 4 is locked.
abbrev newest : BackupRecord
newest = backup_of 2 20783 differential 1 false

abbrev base : BackupRecord
base = backup_of 1 20782 full 0 false

abbrev oldest : BackupRecord
oldest = backup_of 3 20700 full 0 false

abbrev kept_by_hand : BackupRecord
kept_by_hand = backup_of 4 20600 full 0 true

abbrev four : List BackupRecord
four = newest ∷ base ∷ oldest ∷ kept_by_hand ∷ []

four-Distinct : Distinct four
four-Distinct = (refl, (refl, (refl, (refl, tt))))

-- Keep one record.
abbrev keep_one : BackupTask
keep_one = record {
  retention_days = pos 0;
  max_backups = pos 1;
  keep_daily = pos 0;
  keep_weekly = pos 0;
  keep_monthly = pos 0;
  keep_yearly = pos 0;
}

only_oldest : cleanup_candidates four keep_one (20784 * day_nanos) ≡ oldest ∷ []
unfolding cleanup_candidates policy_candidates gfs_enabled select_records_to_delete unlocked_records
    has_locked selected_records surplus_records select_all select_expired is_expired cutoff_of
    collect_selected find_selected protect_differential_bases protected_ids is_deletable
only_oldest = refl

cleanup_candidates_chain_example : ◌≢◌ {A = ℕ} 3 1
unfolding cleanup_candidates policy_candidates gfs_enabled select_records_to_delete unlocked_records
    has_locked selected_records surplus_records select_all select_expired is_expired cutoff_of
    collect_selected find_selected protect_differential_bases protected_ids is_deletable
cleanup_candidates_chain_example =
    cleanup_candidates_chain four keep_one (20784 * day_nanos) newest oldest four-Distinct
      (inl refl) refl (λ e. ground (arith, e)) refl (inl refl) refl

cleanup_candidates-unlocked_example : Member oldest four × (oldest.locked ≡ false)
unfolding cleanup_candidates policy_candidates gfs_enabled select_records_to_delete unlocked_records
    has_locked selected_records surplus_records select_all select_expired is_expired cutoff_of
    collect_selected find_selected protect_differential_bases protected_ids is_deletable
cleanup_candidates-unlocked_example =
    cleanup_candidates-unlocked four keep_one (20784 * day_nanos) oldest four-Distinct (inl refl)

select_records_to_delete-eq-expected_example :
    select_records_to_delete four (pos 30) (pos 2) (20784 * day_nanos) ≡ oldest ∷ []
unfolding expected is_expired cutoff_of
select_records_to_delete-eq-expected_example =
    select_records_to_delete-eq-expected four (pos 30) (pos 2) (20784 * day_nanos) four-Distinct

select_gfs_to_delete_bound_example :
    length (filter is_unlocked four)
    ≤ length (select_gfs_to_delete four (pos 1) (pos 0) (pos 1) (pos 0)) + (1 + 0 + 1 + 0)
select_gfs_to_delete_bound_example =
    select_gfs_to_delete_bound four (pos 1) (pos 0) (pos 1) (pos 0) four-Distinct

select_gfs_to_delete_keeps_newest_example :
    (r : BackupRecord) × Member r (filter is_unlocked four)
    × (contains (ids (select_gfs_to_delete four (pos 1) (pos 0) (pos 0) (pos 0))) r.id ≡ false)
    × ((x : BackupRecord) → Member x (filter is_unlocked four) → record_time x ≤ record_time r)
select_gfs_to_delete_keeps_newest_example =
    select_gfs_to_delete_keeps_newest four (pos 1) (pos 0) (pos 0) (pos 0) newest refl (inl refl)

three-IsDescending : IsDescending (newest ∷ base ∷ oldest ∷ [])
unfolding record_time
three-IsDescending = ((omega arith, (omega arith, tt)), ((omega arith, tt), (tt, tt)))

keep_tier-Served_example :
    let three = newest ∷ base ∷ oldest ∷ [] in
    (kept : List BackupRecord) × (keep_tier (pos 2) day_key three ≡ ids_of kept)
    × All (λ (s : BackupRecord). Member s three) kept
    × NewPeriods day_key none kept
    × ((r : BackupRecord) → Member r three → Served 2 day_key three kept r)
keep_tier-Served_example =
    keep_tier-Served (pos 2) day_key (newest ∷ base ∷ oldest ∷ []) refl three-IsDescending

-- One record of each of the two newest months, and the locked one.
gfs_monthly : ids (select_gfs_to_delete four (pos 0) (pos 0) (pos 2) (pos 0)) ≡ 1 ∷ []
unfolding select_gfs_to_delete sort_records insert_record record_time keep_set keep_tier tier_loop
    same_period is_dropped month_key iso_week_key day_key year_key text_eq
gfs_monthly = refl

-- 2026-11-26 is day 20783; 2021-01-03 lies in week 53 of 2020; 2024-02-29 is a leap day.
known_days :
    (day_key (20783 * day_nanos) ≡ 2026 ∷ 11 ∷ 26 ∷ [])
    × (iso_week_key (18630 * day_nanos) ≡ 2020 ∷ 53 ∷ [])
    × (day_key (19782 * day_nanos + 5) ≡ 2024 ∷ 2 ∷ 29 ∷ [])
    × (iso_week_key (19781 * day_nanos) ≡ 2024 ∷ 9 ∷ [])
unfolding day_key iso_week_key
known_days = (refl, refl, refl, refl)
