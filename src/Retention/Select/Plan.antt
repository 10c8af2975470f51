-- ===== src/Retention/Select/Plan.antt =====
-- What one run of cleanup sets out to delete, under either policy (cleanup in
-- server/internal/backup/retention/service.go).
use backup_x.Base.{ℕ, ◌≡◌, ◌≢◌, inl, inr, false, List, arith, filter, contains, Bool-cases}
use backup_x.Base.Int.{ℤ}
use backup_x.Retention.Select.{
  BackupRecord, BackupTask, full, differential, ids, is_unlocked, is_deletable, is_dropped,
  keep_set, protected_ids, sort_records, select_gfs_to_delete, select_records_to_delete,
  gfs_enabled, policy_candidates, cleanup_candidates,
}
use backup_x.Retention.Select.Records.{Distinct, Member, Member-filter}
use backup_x.Retention.Select.Simple.{Member-expected, select_records_to_delete-eq-expected}
use backup_x.Retention.Select.Order.{Member-sort_records}
use backup_x.Retention.Select.Protect.{protect-filter, protect_differential_bases_chain}

-- Both policies choose among the unlocked records.
Member-select_records_to_delete :
    (records : List BackupRecord) (retention_days max_backups : ℤ) (now : ℕ) (c : BackupRecord)
    → Distinct records
    → Member c (select_records_to_delete records retention_days max_backups now)
    → Member c (filter is_unlocked records)
Member-select_records_to_delete records retention_days max_backups now c d m =
    Member-expected retention_days max_backups now 0 c (filter is_unlocked records)
      (rw (select_records_to_delete-eq-expected records retention_days max_backups now d) at m)

Member-select_gfs_to_delete :
    (records : List BackupRecord) (daily weekly monthly yearly : ℤ) (c : BackupRecord)
    → Member c (select_gfs_to_delete records daily weekly monthly yearly)
    → Member c (filter is_unlocked records)
unfolding select_gfs_to_delete
Member-select_gfs_to_delete records daily weekly monthly yearly c m =
    let active = sort_records (filter is_unlocked records) in
    Member-sort_records c (filter is_unlocked records)
      (Member-filter (is_dropped (keep_set active daily weekly monthly yearly)) c active m).0

Member-policy_candidates :
    (records : List BackupRecord) (task : BackupTask) (now : ℕ) (c : BackupRecord)
    → Distinct records
    → Member c (policy_candidates records task now)
    → Member c (filter is_unlocked records)
unfolding policy_candidates
Member-policy_candidates records task now c d m = elim (Bool-cases (gfs_enabled task)) [
  | inl e ↦ Member-select_gfs_to_delete records _ _ _ _ c (rw e at m)
  | inr e ↦ Member-select_records_to_delete records _ _ now c d (rw e at m)
]

-- With different ids, a run sets out to delete only records of its list that are not locked.
pub cleanup_candidates-unlocked :
    (records : List BackupRecord) (task : BackupTask) (now : ℕ) (c : BackupRecord)
    → Distinct records
    → Member c (cleanup_candidates records task now)
    → Member c records × (c.locked ≡ false)
unfolding cleanup_candidates
cleanup_candidates-unlocked records task now c d m =
    let chosen = policy_candidates records task now in
    let (in_chosen, _) =
      Member-filter (is_deletable (protected_ids (ids chosen) records)) c chosen
        (rw (protect-filter records chosen) at m) in
    let (in_records, unlocked) =
      Member-filter is_unlocked c records
        (Member-policy_candidates records task now c d in_chosen) in
    (in_records, ground arith)

-- With different ids, while a differential of the list stays out of a run, the run does not set out
-- to delete the full record that it is based on.
pub cleanup_candidates_chain :
    (records : List BackupRecord) (task : BackupTask) (now : ℕ) (r c : BackupRecord)
    → Distinct records
    → Member r records
    → r.backup_kind ≡ differential
    → r.base_record_id ≢ 0
    → contains (ids (cleanup_candidates records task now)) r.id ≡ false
    → Member c (cleanup_candidates records task now)
    → c.backup_kind ≡ full
    → c.id ≢ r.base_record_id
unfolding cleanup_candidates
cleanup_candidates_chain records task now r c d m k b out n f =
    protect_differential_bases_chain records (policy_candidates records task now) r d
      (λ x in_chosen.
        (Member-filter is_unlocked x records
          (Member-policy_candidates records task now x d in_chosen)).0)
      m out k b c n f
