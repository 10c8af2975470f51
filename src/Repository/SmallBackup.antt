-- ===== src/Repository/SmallBackup.antt =====
-- The plan of a backup of one directory with one file, for the tests (BuildPlan in
-- server/internal/backup/repository.go).
use backup_x.Base.{◌≡◌, refl, true, false, [], ◌∷◌, Option, none, some}
use backup_x.Base.Text.{Text, codes}
use backup_x.Base.Int.{pos}
use backup_x.Chunker.{Chunker, Source, read, last}
use backup_x.Repository.{RepositoryStore, RepositorySnapshot, IndexSegment, Tools}
use backup_x.Repository.Plan.{RepositoryPlan}
use backup_x.Repository.Files.{TaskSpec, FileInfo, directory, regular, Tree, node, leaf, branch}
use backup_x.Repository.World.{tools_with}
use backup_x.Base.Text.{
  text_eq, to_lower, split_on, cut_prefix, cut_suffix, before_last, extend_first, has_code, lower,
  replace_code,
}
use backup_x.Repository.Spaces.{trim_space}
use backup_x.Base.Dict.{get_key, has_key, put_key}
use backup_x.Repository.Codec.{normalize_compression, chunk_id}
use backup_x.Repository.Hex.{hex_decode, hex_encode}
use backup_x.Repository.Index.{is_chunk_id, is_compression}
use backup_x.Repository.Keys.{is_hash}
use backup_x.Repository.Paths.{
  clean, join_parts, clean_parts, clean_step, all_plain, base, dir, is_plain, is_utf8, is_utf8_from,
  utf8_start, is_valid_path, join,
}
use backup_x.Repository.Plan.{
  build_plan, source_paths_of, compact_paths, build_with, walk_sources, walk, walk_all, visit,
  visit_path, add_by_kind, add_chunk, add_entry, add_file, plan_of, remove_key,
}
use backup_x.Repository.Files.{normalize_exclude_patterns, should_exclude_entry, trim_slash}
use backup_x.Repository.Snapshot.{
  all_chunk_ids, check_entries, crosses_symlink, escapes_root, is_plain_entry, is_valid_file,
  is_valid_kind, no_crossing, resolved_target, validate_snapshot,
}
use backup_x.Chunker.{
  split, split_from, drain, finish, find_cut_point, scan, is_boundary, roll, no_cut, cut_or,
}
use backup_x.Repository.World.{digest, pad}

abbrev pub no_segment : IndexSegment
no_segment = record { version = pos 1; created_at = 0; pack = []; chunks = [] }

abbrev pub no_snapshot : RepositorySnapshot
no_snapshot = record {
  version = pos 1;
  task_id = 1;
  created_at = 0;
  compression = codes "none";
  encrypted = false;
  source_paths = [];
  entries = [];
}

abbrev pub tools : Tools
tools = tools_with no_segment no_snapshot

abbrev pub store : RepositoryStore
store = record { key = []; pack_size = 100 }

abbrev pub small_chunker : Chunker
small_chunker = record {
  min_size = 1;
  avg_size = 2;
  max_size = 3;
  small_mask = 1;
  large_mask = 1;
  gear = [];
}

abbrev bytes : Source
bytes = read (1 ∷ 2 ∷ 1 ∷ []) (last (2 ∷ 9 ∷ []))

abbrev folder : FileInfo
folder = record {
  walk_failed = false;
  relative = some (codes "d");
  kind = directory;
  mode = 493;
  mod_time = pos 0;
  size = 0;
}

abbrev letter : FileInfo
letter = record folder {
  relative = some (codes "d/f");
  kind = regular (some bytes) true;
  mode = 420;
  size = 5;
}

abbrev pub tree : Tree
tree = node folder (branch (node letter leaf) leaf)

abbrev pub files : Text → Option Tree
files path = some tree

abbrev pub task : TaskSpec
task = record {
  id = 1;
  started_at = 0;
  source_path = codes "/d";
  source_paths = [];
  compression = codes "gzip";
  encrypt = false;
  exclude_patterns = [];
}

abbrev no_plan : RepositoryPlan
no_plan = record {
  spool = [];
  chunks = [];
  chunk_order = [];
  snapshot = no_snapshot;
  logical_size = 0;
  unique_size = 0;
}

abbrev or_no_plan : Option RepositoryPlan → RepositoryPlan
or_no_plan none = no_plan
or_no_plan (some plan) = plan

planned : Option RepositoryPlan
unfolding text_eq trim_space to_lower split_on cut_prefix cut_suffix before_last extend_first
    has_code lower replace_code get_key has_key put_key normalize_compression chunk_id hex_decode
    hex_encode is_chunk_id is_compression is_hash clean join_parts clean_parts clean_step all_plain
    base dir is_plain is_utf8 is_utf8_from utf8_start is_valid_path join build_plan source_paths_of
    compact_paths build_with walk_sources walk walk_all visit visit_path add_by_kind add_chunk
    add_entry add_file normalize_exclude_patterns plan_of remove_key should_exclude_entry trim_slash
    all_chunk_ids check_entries crosses_symlink escapes_root is_plain_entry is_valid_file
    is_valid_kind no_crossing resolved_target validate_snapshot split split_from drain finish
    find_cut_point scan is_boundary roll no_cut cut_or digest pad
planned = build_plan tools store small_chunker (λ p. false) (λ pattern name. false) files task

unfoldable pub plan : RepositoryPlan
unfolding planned
plan = or_no_plan planned

-- The second chunk is the first one again.
spool_of_plan : plan.spool ≡ 1 ∷ 2 ∷ 9 ∷ []
unfolding plan
spool_of_plan = refl

pub build_plan_runs :
    build_plan tools store small_chunker (λ p. false) (λ pattern name. false) files task ≡ some plan
unfolding plan
build_plan_runs = refl
