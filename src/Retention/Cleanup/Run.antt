-- ===== src/Retention/Cleanup/Run.antt =====
-- The whole cleanup run: the loop over the candidates, then pruning and empty directories
-- (cleanup and collectDirPrefixes in server/internal/backup/retention/service.go).
use backup_x.Base.{
  ℕ, ◌+◌, Bool, false, ◌||◌, List, [], ◌∷◌, ◌++◌, Option, none, some, ◌==◌, if◌then◌else◌,
}
use backup_x.Base.Text.{Text, trim_space, text_eq}
use backup_x.Retention.Select.{BackupRecord, BackupTask, cleanup_candidates}
use backup_x.Retention.Cleanup.{
  Calls, Progress, is_blank, prune_failed, dirs_not_removed, warn, clean_records,
}

-- path[:strings.LastIndex(path, "/")], if there is a slash.
unfoldable pub before_last_slash : Text → Option Text
before_last_slash [] = none
before_last_slash (c ∷ cs) = elim (before_last_slash cs) [
  | some d ↦ some (c ∷ d)
  | none ↦ if c == b'/' then some [] else none
]

unfoldable pub has_text : List Text → Text → Bool
has_text [] t = false
has_text (x ∷ xs) t = text_eq x t || has_text xs t

-- The directory that a record's path lies in, unless it is the root.
unfoldable pub parent_dir : BackupRecord → Option Text
unfolding before_last_slash
parent_dir r = elim (before_last_slash (trim_space r.storage_path)) [
  | none ↦ none
  | some d ↦ if is_blank d then none else some d
]

-- The loop of collectDirPrefixes, from the prefixes found so far.
unfoldable pub collect_from : List Text → List BackupRecord → List Text
collect_from prefixes [] = prefixes
collect_from prefixes (r ∷ rs) =
    collect_from
      (elim (parent_dir r) [
        | none ↦ prefixes
        | some d ↦ if has_text prefixes d then prefixes else prefixes ++ d ∷ []
      ])
      rs

unfoldable pub collect_dir_prefixes : List BackupRecord → List Text
collect_dir_prefixes records = collect_from [] records

module _ {E : Type 0} (calls : Calls E) where
  unfoldable pub prune_targets : List ℕ → Progress E → Progress E
  prune_targets [] p = p
  prune_targets (target ∷ targets) p =
      let (env', pruned) = calls.prune p.env target in
      let after = record p { env = env' } in
      prune_targets targets (elim pruned [
        | none ↦ warn calls (prune_failed target) after
        | some n ↦ record after { deleted_objects = p.deleted_objects + n }
      ])

  unfoldable pub remove_dirs : ℕ → List Text → Progress E → Progress E
  remove_dirs target [] p = p
  remove_dirs target (prefix ∷ prefixes) p =
      let (env', done) = calls.remove_empty_dirs p.env target prefix in
      let after = record p { env = env' } in
      remove_dirs target prefixes
        (if done then after else warn calls (dirs_not_removed target prefix) after)

  unfoldable pub clean_dirs : List Text → List ℕ → Progress E → Progress E
  clean_dirs prefixes [] p = p
  clean_dirs prefixes (target ∷ targets) p =
      clean_dirs prefixes targets
        (if calls.cleans_dirs target then remove_dirs target prefixes p else p)

  -- cleanup, from the outcome of the database query; none when it failed.
  unfoldable pub cleanup : Option (List BackupRecord) → BackupTask → ℕ → E → Option (Progress E)
  cleanup none task now env = none
  cleanup (some records) task now env =
      let candidates = cleanup_candidates records task now in
      let start : Progress E = record {
        env = env;
        deleted_records = 0;
        deleted_objects = 0;
        warnings = [];
        repository_targets = [];
        touched_targets = [];
      } in
      let cleaned = clean_records calls candidates start in
      let pruned = prune_targets cleaned.repository_targets cleaned in
      some (clean_dirs (collect_dir_prefixes candidates) pruned.touched_targets pruned)
