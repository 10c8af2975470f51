-- ===== src/Retention/Cleanup/Objects.antt =====
-- The objects of a record (cleanupObjectsForRecord in
-- server/internal/backup/retention/service.go): one to a target, that of its first usable
-- copy.
use backup_x.Base.{
  ℕ, ◌≡◌, refl, sym, ap, ◌∙◌, subst, Bool, true, false, not, ◌&&◌, List, [], ◌∷◌, Option, none,
  some, arith, ◌==◌, if◌then◌else◌, contains,
}
use backup_x.Base.Text.{Text, codes, trim_space, equal_fold}
use backup_x.Retention.Select.{BackupRecord, UploadResult, decoded}
use backup_x.Retention.Cleanup.{
  CleanupObject, objects, is_blank, copy_path, copy_objects, cleanup_objects_for_record,
}

abbrev pub targets : List CleanupObject → List ℕ
targets [] = []
targets (o ∷ os) = o.target_id ∷ targets os

abbrev pub DistinctTargets : List CleanupObject → Type 0
DistinctTargets [] = Unit
DistinctTargets (o ∷ os) = (contains (targets os) o.target_id ≡ false) × DistinctTargets os

-- A target that was seen is not listed again.
copy_objects-seen :
    (default_path : Text) (seen : List ℕ) (copies : List UploadResult) (a : ℕ)
    → contains seen a ≡ true
    → contains (targets (copy_objects default_path seen copies)) a ≡ false
unfolding copy_objects
copy_objects-seen default_path seen [] a h = refl
copy_objects-seen default_path seen (copy ∷ copies) a h = ground (
  arith,
  copy_objects-seen default_path seen copies a h,
  copy_objects-seen default_path (copy.storage_target_id ∷ seen) copies a,
)

copy_objects-DistinctTargets :
    (default_path : Text) (seen : List ℕ) (copies : List UploadResult)
    → DistinctTargets (copy_objects default_path seen copies)
unfolding copy_objects
copy_objects-DistinctTargets default_path seen [] = tt
copy_objects-DistinctTargets default_path seen (copy ∷ copies) = ground (
  arith,
  copy_objects-DistinctTargets default_path seen copies,
  copy_objects-DistinctTargets default_path (copy.storage_target_id ∷ seen) copies,
  copy_objects-seen default_path (copy.storage_target_id ∷ seen) copies copy.storage_target_id,
)

-- The path of the object on a target.
unfoldable pub path_on : ℕ → List CleanupObject → Option Text
path_on t [] = none
path_on t (o ∷ os) = let rest = path_on t os in if o.target_id == t then some o.path else rest

abbrev pub or_default : Text → Text → Text
or_default default_path [] = default_path
or_default default_path (c ∷ cs) = c ∷ cs

-- A successful copy that has a path, its own or that of the record.
unfoldable pub is_usable : Text → UploadResult → Bool
is_usable default_path copy =
    equal_fold (trim_space copy.status) (codes "success")
    && not (is_blank (or_default default_path (trim_space copy.storage_path)))

-- The path of the first usable copy on a target.
unfoldable pub first_usable : Text → ℕ → List UploadResult → Option Text
first_usable default_path t [] = none
first_usable default_path t (copy ∷ copies) =
    let rest = first_usable default_path t copies in
    if is_usable default_path copy && (copy.storage_target_id == t)
    then some (or_default default_path (trim_space copy.storage_path))
    else rest

copy_path-or_default :
    (default_path : Text) (copy : UploadResult)
    → copy_path default_path copy ≡ or_default default_path (trim_space copy.storage_path)
unfolding copy_path
copy_path-or_default default_path copy = by_path (trim_space copy.storage_path)
  where
    by_path :
        (own : Text) → (if is_blank own then default_path else own) ≡ or_default default_path own
    by_path [] = refl
    by_path (c ∷ cs) = refl

path_on-copy_objects :
    (default_path : Text) (t : ℕ) (seen : List ℕ) (copies : List UploadResult)
    → path_on t (copy_objects default_path seen copies)
      ≡ (if contains seen t then none else first_usable default_path t copies)
unfolding copy_objects path_on first_usable is_usable
path_on-copy_objects default_path t seen [] = ground arith
path_on-copy_objects default_path t seen (copy ∷ copies) = ground (
  arith,
  copy_path-or_default default_path copy,
  path_on-copy_objects default_path t seen copies,
  path_on-copy_objects default_path t (copy.storage_target_id ∷ seen) copies,
)

-- The objects of a record with decoded copies: no two lie on one target, and on every target the
-- object is that of the first usable copy there, with the path of this copy or else of the record;
-- a target without a usable copy has none. When there is no object, the record has no path.
pub cleanup_objects_for_record_copies :
    (r : BackupRecord) (copies : List UploadResult) (os : List CleanupObject)
    → r.storage_upload_results ≡ decoded copies
    → cleanup_objects_for_record r ≡ objects os
    → DistinctTargets os
      × ((t : ℕ) → path_on t os ≡ first_usable (trim_space r.storage_path) t copies)
      × (os ≡ [] → is_blank (trim_space r.storage_path) ≡ true)
unfolding cleanup_objects_for_record
cleanup_objects_for_record_copies r copies os e h =
    let default_path = trim_space r.storage_path in
    let found : copy_objects default_path [] copies ≡ os = ground arith in
    (
      subst DistinctTargets found (copy_objects-DistinctTargets default_path [] copies),
      λ t. ap (path_on t) (sym found) ∙ path_on-copy_objects default_path t [] copies,
      λ none_found. ground arith,
    )
