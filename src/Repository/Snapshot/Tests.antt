-- ===== src/Repository/Snapshot/Tests.antt =====
-- A snapshot with a symlink (validateSnapshot in server/internal/backup/repository.go).
use backup_x.Base.{◌≡◌, ◌↔◌, refl, true, false, List, [], ◌∷◌}
use backup_x.Base.Text.{
  Text, codes, text_eq, split_on, extend_first, cut_prefix, before_last, has_code, replace_code,
}
use backup_x.Base.Int.{pos}
use backup_x.Base.Dict.{has_key}
use backup_x.Repository.{RepositoryEntry, RepositorySnapshot}
use backup_x.Repository.Index.{is_compression}
use backup_x.Repository.Paths.{
  clean, join_parts, clean_parts, clean_step, all_plain, dir, is_plain, is_utf8, is_utf8_from,
  utf8_start, is_valid_path, join,
}
use backup_x.Repository.Snapshot.{
  all_chunk_ids, check_entries, crosses_symlink, escapes_root, is_plain_entry, is_valid_file,
  is_valid_kind, no_crossing, resolved_target, validate_snapshot,
}
use backup_x.Repository.Snapshot.Accepts.{IsAccepted, validate_snapshot_iff}

abbrev entry : Text → Text → Text → RepositoryEntry
entry path kind target = record {
  path = path;
  kind = kind;
  mode = 420;
  mod_time = pos 0;
  size = pos 0;
  link_target = target;
  chunks = [];
}

abbrev snapshot : List RepositoryEntry → RepositorySnapshot
snapshot entries = record {
  version = pos 1;
  task_id = 1;
  created_at = 0;
  compression = codes "none";
  encrypted = false;
  source_paths = [];
  entries = entries;
}

abbrev link : RepositoryEntry
link = entry (codes "d/l") (codes "symlink") (codes "../e")

abbrev beside : RepositoryEntry
beside = entry (codes "d/lf/g") (codes "file") []

accepted : validate_snapshot (snapshot (link ∷ beside ∷ [])) ≡ true
unfolding text_eq split_on extend_first cut_prefix before_last has_code replace_code has_key
    is_compression clean join_parts clean_parts clean_step all_plain dir is_plain is_utf8
    is_utf8_from utf8_start is_valid_path join all_chunk_ids check_entries crosses_symlink
    escapes_root is_plain_entry is_valid_file is_valid_kind no_crossing resolved_target
    validate_snapshot
accepted = refl

-- An entry below the symlink is refused, and so is a symlink that leaves the root.
below_refused :
    validate_snapshot (snapshot (link ∷ entry (codes "d/l/x/g") (codes "file") [] ∷ [])) ≡ false
unfolding text_eq split_on extend_first cut_prefix before_last has_code replace_code has_key
    is_compression clean join_parts clean_parts clean_step all_plain dir is_plain is_utf8
    is_utf8_from utf8_start is_valid_path join all_chunk_ids check_entries crosses_symlink
    escapes_root is_plain_entry is_valid_file is_valid_kind no_crossing resolved_target
    validate_snapshot
below_refused = refl

escape_refused :
    validate_snapshot
      (snapshot (entry (codes "d/l") (codes "symlink") (codes "x\\..\\../../e") ∷ []))
    ≡ false
unfolding text_eq split_on extend_first cut_prefix before_last has_code replace_code has_key
    is_compression clean join_parts clean_parts clean_step all_plain dir is_plain is_utf8
    is_utf8_from utf8_start is_valid_path join all_chunk_ids check_entries crosses_symlink
    escapes_root is_plain_entry is_valid_file is_valid_kind no_crossing resolved_target
    validate_snapshot
escape_refused = refl

validate_snapshot_iff_example :
    (validate_snapshot (snapshot (link ∷ beside ∷ [])) ≡ true)
    ↔ IsAccepted (snapshot (link ∷ beside ∷ []))
validate_snapshot_iff_example = validate_snapshot_iff (snapshot (link ∷ beside ∷ []))
