-- ===== src/Retention/Cleanup/Tests.antt =====
-- Runs of the cleanup on a concrete environment (server/internal/backup/retention/service.go).
use backup_x.Base.{ℕ, ◌≡◌, refl, true, false, List, [], ◌∷◌, none, some, All, contains}
use backup_x.Base.Int.{pos}
use backup_x.Base.Text.{codes, text_eq, trim_space, equal_fold}
use backup_x.Retention.Select.{BackupRecord, UploadResult, decoded, full}
use backup_x.Retention.Select.Records.{Member}
use backup_x.Retention.Cleanup.{
  CleanupObject, objects, is_blank, copy_path, copy_objects, cleanup_objects_for_record, Progress,
  warn, clean_object, clean_objects, clean_row, clean_record, clean_records, object_not_deleted,
}
use backup_x.Retention.Cleanup.Objects.{
  DistinctTargets, path_on, first_usable, cleanup_objects_for_record_copies,
}
use backup_x.Retention.Cleanup.Run.{
  before_last_slash, has_text, parent_dir, collect_from, collect_dir_prefixes, prune_targets,
  remove_dirs, clean_dirs, cleanup,
}
use backup_x.Retention.Cleanup.World.{World, Faults, calls_of, remove_object, remove_row, is_stored}
use backup_x.Retention.Cleanup.Rows.{clean_records_rows}

abbrev copies : List UploadResult
copies =
    record { storage_target_id = 1; status = codes "success"; storage_path = [] }
    ∷ record { storage_target_id = 2; status = codes "failed"; storage_path = codes "x" }
    ∷ record { storage_target_id = 3; status = codes "Success"; storage_path = codes "c/a.tar" }
    ∷ []

abbrev copied : BackupRecord
copied = record {
  id = 9;
  storage_target_id = 1;
  storage_path = codes "d/a.tar";
  storage_upload_results = decoded copies;
  locked = false;
  backup_kind = full;
  base_record_id = 0;
  started_at = 0;
  completed_at = none;
}

abbrev two_objects : List CleanupObject
two_objects =
    record { target_id = 1; path = codes "d/a.tar" }
    ∷ record { target_id = 3; path = codes "c/a.tar" }
    ∷ []

finds : cleanup_objects_for_record copied ≡ objects two_objects
unfolding cleanup_objects_for_record copy_objects copy_path trim_space equal_fold
finds = refl

cleanup_objects_for_record_copies_example :
    DistinctTargets two_objects
    × ((t : ℕ) → path_on t two_objects ≡ first_usable (trim_space copied.storage_path) t copies)
    × (two_objects ≡ [] → is_blank (trim_space copied.storage_path) ≡ true)
cleanup_objects_for_record_copies_example =
    cleanup_objects_for_record_copies copied copies two_objects refl finds

abbrev world : World
world = record { stored = two_objects; rows = 8 ∷ 9 ∷ [] }

abbrev no_faults : Faults
no_faults = record { has_provider = λ t. true; object_fails = λ o. false; row_fails = λ a. false }

abbrev target_3_fails : Faults
target_3_fails = record {
  has_provider = λ t. true;
  object_fails = λ o. text_eq o.path (codes "c/a.tar");
  row_fails = λ a. false;
}

abbrev start : Progress World
start = record {
  env = world;
  deleted_records = 0;
  deleted_objects = 0;
  warnings = [];
  repository_targets = [];
  touched_targets = [];
}

row_goes : contains (clean_records (calls_of no_faults) (copied ∷ []) start).env.rows 9 ≡ false
unfolding clean_records clean_record clean_objects clean_object clean_row calls_of remove_object
    remove_row cleanup_objects_for_record copy_objects copy_path trim_space equal_fold text_eq
row_goes = refl

clean_records_rows_example :
    (c : BackupRecord) × Member c (copied ∷ [])
    × (c.id ≡ 9)
    × (os : List CleanupObject) × (cleanup_objects_for_record c ≡ objects os)
    × All
        (λ o.
          is_stored (clean_records (calls_of no_faults) (copied ∷ []) start).env.stored o ≡ false)
        os
clean_records_rows_example = clean_records_rows no_faults (copied ∷ []) 9 start refl row_goes

-- An object that is not deleted keeps the row.
row_stays :
    let p = clean_records (calls_of target_3_fails) (copied ∷ []) start in
    (p.env.rows ≡ 8 ∷ 9 ∷ [])
    × (p.deleted_objects ≡ 1)
    × (p.warnings ≡ object_not_deleted (record { target_id = 3; path = codes "c/a.tar" }) ∷ [])
unfolding clean_records clean_record clean_objects clean_object clean_row calls_of warn
    remove_object remove_row cleanup_objects_for_record copy_objects copy_path trim_space equal_fold
    text_eq
row_stays = (refl, refl, refl)

prefixes : collect_dir_prefixes (copied ∷ copied ∷ []) ≡ codes "d" ∷ []
unfolding collect_dir_prefixes collect_from parent_dir before_last_slash has_text trim_space text_eq
prefixes = refl

-- A run with no policy deletes nothing.
no_policy :
    (p : Progress World) × (cleanup
        (calls_of no_faults)
        (some [])
        (record {
          retention_days = pos 0;
          max_backups = pos 0;
          keep_daily = pos 0;
          keep_weekly = pos 0;
          keep_monthly = pos 0;
          keep_yearly = pos 0;
        })
        0
        world
      ≡ some p)
unfolding cleanup prune_targets clean_dirs remove_dirs
no_policy = (_, refl)
