-- ===== src/Repository/Files.antt =====
-- What a backup is asked for, the tree of files that it walks over, and the entries that it leaves
-- out (TaskSpec in server/internal/backup/types.go, BuildPlan in
-- server/internal/backup/repository.go, and the exclusion of entries in
-- server/internal/backup/file_runner.go).
use backup_x.Base.{
  ℕ, Bool, true, false, ◌&&◌, ◌||◌, List, [], ◌∷◌, Option, none, some, if◌then◌else◌,
}
use backup_x.Base.Text.{Text, text_eq, cut_suffix}
use backup_x.Repository.Spaces.{trim_space}
use backup_x.Base.Int.{ℤ}
use backup_x.Chunker.{Source}
use backup_x.Repository.Paths.{base}

-- The fields of TaskSpec that BuildPlan reads.
pub record TaskSpec : Type 0 where
  pub id : ℕ
  pub started_at : ℕ
  pub source_path : Text
  pub source_paths : List Text
  pub compression : Text
  pub encrypt : Bool
  pub exclude_patterns : List Text

-- What the mode of a file says, with what os.Readlink and os.Open give and whether Close succeeds.
pub data FileKind : Type 0 where
  directory special : FileKind
  symlink : Option Text → FileKind
  regular : Option Source → Bool → FileKind

pub record FileInfo : Type 0 where
  pub walk_failed : Bool
  pub relative : Option Text
  pub kind : FileKind
  pub mode : ℕ
  pub mod_time : ℤ
  pub size : ℕ

mutual
  pub data Tree : Type 0 where
    node : FileInfo → Trees → Tree

  pub data Trees : Type 0 where
    leaf : Trees
    branch : Tree → Trees → Trees

unfoldable pub normalize_exclude_patterns : List Text → List Text
normalize_exclude_patterns [] = []
normalize_exclude_patterns (item ∷ items) =
    let value = trim_space item in
    let rest = normalize_exclude_patterns items in if text_eq value [] then rest else value ∷ rest

unfoldable pub trim_slash : Text → Text
trim_slash pattern = elim (cut_suffix (b'/' ∷ []) pattern) [ none ↦ pattern | some front ↦ front ]

-- `matches` is path.Match where it reports no error.
unfoldable pub should_exclude_entry : (Text → Text → Bool) → Text → Bool → List Text → Bool
should_exclude_entry matches rel_path is_dir [] = false
should_exclude_entry matches rel_path is_dir (pattern ∷ patterns) =
    matches pattern rel_path
    || matches pattern (base rel_path)
    || (is_dir && text_eq (trim_slash pattern) (base rel_path))
    || should_exclude_entry matches rel_path is_dir patterns

abbrev pub is_directory : FileKind → Bool
is_directory directory = true
is_directory _ = false
