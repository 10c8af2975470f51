-- ===== src/Repository/Plan.antt =====
-- The plan of a backup: the walk over the sources, the entries, and the spool of distinct chunks
-- (BuildPlan and compactPaths in server/internal/backup/repository.go).
--
-- The file system is an argument: for a source, the tree that filepath.Walk visits, or nothing when
-- os.Lstat fails. The context is a test of the plan so far. The manifest of the plan, which
-- repeats the entries, and the log lines are left out.
pub mod Sound
pub mod Contents
pub mod Walk
pub mod Sources
pub mod Build
use backup_x.Base.{
  ℕ, ◌+◌, Bool, true, false, not, ◌&&◌, ◌||◌, List, [], ◌∷◌, ◌++◌, Option, none, some, ◌==◌,
  if◌then◌else◌, length, is_some,
}
use backup_x.Base.Text.{Text, codes, text_eq, cut_prefix, cut_suffix}
use backup_x.Repository.Spaces.{trim_space}
use backup_x.Base.Int.{ℤ, pos}
use backup_x.Base.Dict.{get_key, put_key, has_key}
use backup_x.Chunker.{Chunker, Source, SplitEnd, finished, split}
use backup_x.Repository.{
  Bytes, RepositoryStore, PlanChunk, RepositoryEntry, RepositorySnapshot, Tools,
  repository_format_version,
}
use backup_x.Repository.Codec.{normalize_compression, chunk_id}
use backup_x.Repository.Paths.{dot, clean, base}
use backup_x.Repository.Snapshot.{
  directory_kind, symlink_kind, file_kind, is_none_left, validate_snapshot,
}
use backup_x.Repository.Files.{
  TaskSpec, FileKind, directory, special, symlink, regular, FileInfo, Tree, node, Trees, leaf,
  branch, normalize_exclude_patterns, should_exclude_entry, is_directory,
}

-- RepositoryPlan with the bytes of its spool.
pub record RepositoryPlan : Type 0 where
  pub spool : Bytes
  pub chunks : List (Text × PlanChunk)
  pub chunk_order : List Text
  pub snapshot : RepositorySnapshot
  pub logical_size : ℕ
  pub unique_size : ℕ

-- The variables of BuildPlan: those of the plan, and the chunks of the entry at hand.
pub record Planning : Type 0 where
  pub spool : Bytes
  pub spool_offset : ℕ
  pub chunks : List (Text × PlanChunk)
  pub chunk_order : List Text
  pub entries : List RepositoryEntry
  pub seen_paths : List Text
  pub logical_size : ℕ
  pub unique_size : ℕ
  pub entry_chunks : List Text

-- What the callback of the walk returns.
pub data Visited : Type 0 where
  visited skip_dir : Planning → Visited
  walk_error : Visited

unfoldable pub compact_paths : List Text → List Text
compact_paths [] = []
compact_paths (item ∷ items) =
    let value = trim_space item in
    let rest = compact_paths items in if text_eq value [] then rest else clean value ∷ rest

abbrev pub no_planning : Planning
no_planning = record {
  spool = [];
  spool_offset = 0;
  chunks = [];
  chunk_order = [];
  entries = [];
  seen_paths = [];
  logical_size = 0;
  unique_size = 0;
  entry_chunks = [];
}

-- The end of the callback of the walk.
unfoldable pub add_entry : Text → Text → Text → FileInfo → Planning → Visited
add_entry path kind link_target info p = visited (record p {
  entries =
      p.entries
      ++ record {
        path = path;
        kind = kind;
        mode = info.mode;
        mod_time = info.mod_time;
        size = pos info.size;
        link_target = link_target;
        chunks = p.entry_chunks;
      }
        ∷ [];
})

abbrev pub is_finished : SplitEnd → Bool
is_finished finished = true
is_finished _ = false

unfoldable pub remove_key : Text → List Text → List Text
remove_key t [] = []
remove_key t (x ∷ xs) = let rest = remove_key t xs in if text_eq x t then rest else x ∷ rest

module _ (tools : Tools) (store : RepositoryStore) (compression : Text) (encrypted : Bool) where
  -- The callback of Split: a chunk that the plan lacks goes to the end of the spool.
  unfoldable pub add_chunk : Planning → Bytes → Planning × Bool
  add_chunk p raw =
      let id = chunk_id tools store raw compression encrypted in
      let named = record p { entry_chunks = p.entry_chunks ++ id ∷ [] } in
      if is_some (get_key id p.chunks) then (named, true) else (
        record named {
          spool = p.spool ++ raw;
          chunks = put_key id (record { offset = p.spool_offset; size = length raw }) p.chunks;
          chunk_order = p.chunk_order ++ id ∷ [];
          unique_size = p.unique_size + length raw;
          spool_offset = p.spool_offset + length raw;
        },
        true,
      )

  module _ (chunker : Chunker) (cancelled : Planning → Bool) where
    -- The case of a regular file, with its Close after the chunks.
    unfoldable pub add_file : Text → FileInfo → Option Source → Bool → Planning → Visited
    add_file path info none closes p = walk_error
    add_file path info (some source) closes p =
        let (p', why) =
          split chunker cancelled add_chunk (record p { logical_size = p.logical_size + info.size })
            source in
        if is_finished why && closes then add_entry path file_kind [] info p' else walk_error

    -- The switch on the mode of a file, after its path has been noted.
    unfoldable pub add_by_kind : Text → FileInfo → FileKind → Planning → Visited
    add_by_kind path info directory p = add_entry path directory_kind [] info p
    add_by_kind path info (symlink none) p = walk_error
    add_by_kind path info (symlink (some target)) p = add_entry path symlink_kind target info p
    add_by_kind path info (regular source closes) p = add_file path info source closes p
    add_by_kind path info special p =
        visited (record p { seen_paths = remove_key path p.seen_paths })

    -- The callback of the walk for a file at a path.
    unfoldable pub visit_path :
        (Text → Text → Bool) → List Text → Text → FileInfo → Planning → Visited
    visit_path matches excludes path info p =
        if text_eq path dot || is_some (cut_prefix (codes "../") path)
        then walk_error
        else if should_exclude_entry matches path (is_directory info.kind) excludes
        then if is_directory info.kind then skip_dir p else visited p
        else if has_key p.seen_paths path
        then walk_error
        else add_by_kind path info info.kind
            (record p { seen_paths = path ∷ p.seen_paths; entry_chunks = [] })

    unfoldable pub visit : (Text → Text → Bool) → List Text → FileInfo → Planning → Visited
    visit matches excludes info p =
        if info.walk_failed || cancelled p then walk_error else elim info.relative [
          | none ↦ walk_error
          | some relative ↦ visit_path matches excludes (clean relative) info p
        ]

    -- filepath.Walk: a file, then what lies below it unless the callback says to skip it.
    unfoldable mutual
      pub walk : (Text → Text → Bool) → List Text → Tree → Planning → Option Planning
      walk matches excludes (node info trees) p = elim (visit matches excludes info p) [
        | visited p' ↦ walk_all matches excludes trees p'
        | skip_dir p' ↦ some p'
        | walk_error ↦ none
      ]

      pub walk_all : (Text → Text → Bool) → List Text → Trees → Planning → Option Planning
      walk_all matches excludes leaf p = some p
      walk_all matches excludes (branch tree trees) p = elim (walk matches excludes tree p) [
        | none ↦ none
        | some p' ↦ walk_all matches excludes trees p'
      ]

    -- The loop over the sources.
    unfoldable pub walk_sources :
        (Text → Text → Bool)
        → List Text
        → (Text → Option Tree)
        → List Text
        → Planning
        → Option Planning
    walk_sources matches excludes files [] p = some p
    walk_sources matches excludes files (source ∷ sources) p =
        elim (files (clean (trim_space source))) [
          | none ↦ none
          | some tree ↦ elim (walk matches excludes tree p) [
            | none ↦ none
            | some p' ↦ walk_sources matches excludes files sources p'
          ]
        ]

-- The sources of a task: its list, or its single path when the list is empty.
unfoldable pub source_paths_of : TaskSpec → List Text
source_paths_of task = elim (compact_paths task.source_paths) [
  | [] ↦ let path = trim_space task.source_path in if text_eq path [] then [] else clean path ∷ []
  | path ∷ paths ↦ path ∷ paths
]

-- The snapshot of a walk that has ended.
abbrev pub snapshot_of : TaskSpec → List Text → Text → Planning → RepositorySnapshot
snapshot_of task sources compression p = record {
  version = pos repository_format_version;
  task_id = task.id;
  created_at = task.started_at;
  compression = compression;
  encrypted = task.encrypt;
  source_paths = sources;
  entries = p.entries;
}

abbrev pub plan_with : Planning → RepositorySnapshot → RepositoryPlan
plan_with p snapshot = record {
  spool = p.spool;
  chunks = p.chunks;
  chunk_order = p.chunk_order;
  snapshot = snapshot;
  logical_size = p.logical_size;
  unique_size = p.unique_size;
}

-- The end of BuildPlan: the plan, if its snapshot is valid.
unfoldable pub plan_of : TaskSpec → List Text → Text → Planning → Option RepositoryPlan
plan_of task sources compression p =
    let snapshot = snapshot_of task sources compression p in
    if validate_snapshot snapshot then some (plan_with p snapshot) else none

module _ (tools : Tools) (store : RepositoryStore) (chunker : Chunker) (cancelled : Planning → Bool)
    (matches : Text → Text → Bool) (files : Text → Option Tree) where
  -- BuildPlan once the compression is known.
  unfoldable pub build_with : TaskSpec → Text → Option RepositoryPlan
  build_with task compression =
      let sources = source_paths_of task in
      elim (walk_sources tools store compression task.encrypt chunker cancelled matches
        (normalize_exclude_patterns task.exclude_patterns) files sources no_planning) [
          | none ↦ none
          | some p ↦ plan_of task sources compression p
        ]

  unfoldable pub build_plan : TaskSpec → Option RepositoryPlan
  build_plan task =
      if is_none_left (source_paths_of task)
      then none
      else elim (normalize_compression task.compression) [
        | none ↦ none
        | some compression ↦
            if task.encrypt && not (length store.key == 32)
            then none
            else build_with task compression
      ]
