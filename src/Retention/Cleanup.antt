-- ===== src/Retention/Cleanup.antt =====
-- The cleanup run of server/internal/backup/retention/service.go: which objects a record has, and
-- the loop that deletes them, the rows, the unused packs and the empty directories.
--
-- What the run asks of the database and of the storage providers is an interface over an
-- environment `E`: each call returns the environment after it and whether it succeeded. A Go map
-- of targets is the list of its keys in the order of their first write.
pub mod Objects
pub mod Run
pub mod World
pub mod Rows
mod Tests
use backup_x.Base.{
  ℕ, ◌+◌, Bool, true, false, not, ◌&&◌, List, [], ◌∷◌, ◌++◌, Option, none, some, if◌then◌else◌,
  contains,
}
use backup_x.Base.Text.{Text, codes, trim_space, equal_fold}
use backup_x.Retention.Select.{
  BackupRecord, BackupKind, repository, UploadResult, blank, malformed, decoded, BackupTask,
  cleanup_candidates,
}

pub record CleanupObject : Type 0 where
  pub target_id : ℕ
  pub path : Text

pub data ObjectsResult : Type 0 where
  objects : List CleanupObject → ObjectsResult
  decode_error no_successful_copy : ObjectsResult

abbrev pub is_blank : Text → Bool
is_blank [] = true
is_blank (c ∷ cs) = false

-- The path of a copy: its own, or that of the record.
pub copy_path : Text → UploadResult → Text
copy_path default_path copy =
    let own = trim_space copy.storage_path in if is_blank own then default_path else own

-- The loop over the copies, from the targets that were seen.
pub copy_objects : Text → List ℕ → List UploadResult → List CleanupObject
unfolding copy_path
copy_objects default_path seen [] = []
copy_objects default_path seen (copy ∷ copies) =
    let target = copy.storage_target_id in
    let path = copy_path default_path copy in
    let skip = copy_objects default_path seen copies in
    let add = copy_objects default_path (target ∷ seen) copies in
    if not (equal_fold (trim_space copy.status) (codes "success"))
    then skip
    else if is_blank path
    then skip
    else if contains seen target
    then skip
    else record { target_id = target; path = path } ∷ add

abbrev no_objects : List CleanupObject → Bool
no_objects [] = true
no_objects (o ∷ os) = false

-- cleanupObjectsForRecord.
pub cleanup_objects_for_record : BackupRecord → ObjectsResult
cleanup_objects_for_record r =
    let default_path = trim_space r.storage_path in
    elim r.storage_upload_results [
      | blank ↦
          if is_blank default_path
          then objects []
          else objects (record { target_id = r.storage_target_id; path = default_path } ∷ [])
      | malformed ↦ decode_error
      | decoded copies ↦
          let found = copy_objects default_path [] copies in
          if no_objects found && not (is_blank default_path)
          then no_successful_copy
          else objects found
    ]

pub data Warning : Type 0 where
  objects_unknown : ℕ → Warning
  provider_missing : ℕ → ℕ → Warning
  object_not_deleted : CleanupObject → Warning
  record_not_deleted : ℕ → Warning
  prune_failed : ℕ → Warning
  dirs_not_removed : ℕ → Text → Warning

-- CleanupResult, with the environment and the two maps of providers.
pub record Progress (E : Type 0) : Type 0 where
  pub env : E
  pub deleted_records : ℕ
  pub deleted_objects : ℕ
  pub warnings : List Warning
  pub repository_targets : List ℕ
  pub touched_targets : List ℕ

-- The calls of a run: the provider of a target, its deletion of an object, the deletion of a row,
-- the pruning of a target's repository, whether a target removes empty directories, and that
-- removal.
pub record Calls (E : Type 0) : Type 0 where
  pub resolve : ℕ → Bool
  pub delete_object : E → CleanupObject → E × Bool
  pub delete_row : E → ℕ → E × Bool
  pub prune : E → ℕ → E × Option ℕ
  pub cleans_dirs : ℕ → Bool
  pub remove_empty_dirs : E → ℕ → Text → E × Bool

abbrev pub is_repository : BackupKind → Bool
is_repository repository = true
is_repository _ = false

abbrev pub add_key : ℕ → List ℕ → List ℕ
add_key a keys = if contains keys a then keys else keys ++ a ∷ []

module _ {E : Type 0} (calls : Calls E) where
  pub warn : Warning → Progress E → Progress E
  warn w p = record p { warnings = p.warnings ++ w ∷ [] }

  -- One object of a record; the Boolean is false when it was not deleted.
  pub clean_object : BackupRecord → CleanupObject → Progress E → Progress E × Bool
  unfolding warn
  clean_object r o p =
      let (env', done) = calls.delete_object p.env o in
      let after = record p { env = env' } in
      if not (calls.resolve o.target_id)
      then (warn (provider_missing r.id o.target_id) p, false)
      else if not done
      then (warn (object_not_deleted o) after, false)
      else (
        record after {
          deleted_objects = p.deleted_objects + 1;
          touched_targets = add_key o.target_id p.touched_targets;
          repository_targets =
              if is_repository r.backup_kind
              then add_key o.target_id p.repository_targets
              else p.repository_targets;
        },
        true,
      )

  -- The loop over the objects of a record; the Boolean is allObjectsDeleted.
  pub clean_objects : BackupRecord → List CleanupObject → Progress E → Progress E × Bool
  clean_objects r [] p = (p, true)
  clean_objects r (o ∷ os) p =
      let (p', done) = clean_object r o p in
      let (p'', rest) = clean_objects r os p' in (p'', done && rest)

  -- The row of a record whose objects are all deleted.
  pub clean_row : BackupRecord → Progress E → Progress E
  unfolding warn
  clean_row r p =
      let (env', done) = calls.delete_row p.env r.id in
      let after = record p { env = env' } in
      if done
      then record after { deleted_records = p.deleted_records + 1 }
      else warn (record_not_deleted r.id) after

  -- The body of the loop over the candidates.
  pub clean_record : BackupRecord → Progress E → Progress E
  unfolding warn
  clean_record r p = elim (cleanup_objects_for_record r) [
    | objects os ↦ let (p', all) = clean_objects r os p in if all then clean_row r p' else p'
    | decode_error ↦ warn (objects_unknown r.id) p
    | no_successful_copy ↦ warn (objects_unknown r.id) p
  ]

  pub clean_records : List BackupRecord → Progress E → Progress E
  clean_records [] p = p
  clean_records (r ∷ rs) p = clean_records rs (clean_record r p)
