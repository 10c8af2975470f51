-- ===== src/Repository/Plan/Build.antt =====
-- The recursion of the walk, the loop over the sources and the plan that BuildPlan returns
-- (server/internal/backup/repository.go).
use backup_x.Base.{
  ◌≤◌, ◌≡◌, subst, Bool, true, inl, inr, List, Option, some, length, All, arith, Bool-cases,
  Option-cases,
}
use backup_x.Base.Text.{Text}
use backup_x.Chunker.{Chunker}
use backup_x.Repository.{RepositoryStore, RepositoryEntry, Tools, repository_chunk_max}
use backup_x.Repository.Codec.{normalize_compression}
use backup_x.Repository.Index.{is_compression}
use backup_x.Repository.Snapshot.{validate_snapshot}
use backup_x.Repository.Plan.{
  RepositoryPlan, Planning, walk_sources, no_planning, source_paths_of, snapshot_of, plan_with,
  plan_of, build_with, build_plan,
}
use backup_x.Repository.Files.{TaskSpec, FileInfo, Tree, normalize_exclude_patterns}
use backup_x.Repository.Plan.Sound.{IsPlanned, IsSpool, no_planning-IsSound}
use backup_x.Repository.Plan.Contents.{HasNoCollision}
use backup_x.Repository.Plan.Walk.{IsRecorded, IsWalked}
use backup_x.Repository.Plan.Sources.{
  normalize_compression-is_compression, AllFiles, LeavesPlan, walk_sources-LeavesPlan,
}

-- A plan: every chunk of an entry stands in the spool, once, under the id of its bytes, and the
-- chunks of a file entry are, put together, the bytes of a file that the walk visited.
pub record IsPlan (tools : Tools) (store : RepositoryStore) (V : FileInfo → Type 0)
    (plan : RepositoryPlan) : Type 0 where
  pub spool_ok :
      IsSpool tools store plan.snapshot.compression plan.snapshot.encrypted plan.spool plan.chunks
        plan.chunk_order
  pub planned :
      All
        (λ (e : RepositoryEntry).
          IsPlanned tools store plan.snapshot.compression plan.snapshot.encrypted plan.chunks
            e.chunks)
        plan.snapshot.entries
  pub files :
      All
        (IsRecorded tools store plan.snapshot.compression plan.snapshot.encrypted V plan.spool
          plan.chunks)
        plan.snapshot.entries
  pub unique : plan.unique_size ≡ length plan.spool
  pub valid : validate_snapshot plan.snapshot ≡ true

module _ (tools : Tools) (store : RepositoryStore) (unique_ids : HasNoCollision tools store)
    (V : FileInfo → Type 0) (chunker : Chunker) (m : chunker.min_size ≤ chunker.max_size)
    (max : chunker.max_size ≤ repository_chunk_max) (cancelled : Planning → Bool)
    (matches : Text → Text → Bool) (files : Text → Option Tree)
    (all : (source : Text) (tree : Tree) → files source ≡ some tree → AllFiles V tree) where
  plan_of-IsPlan :
      (task : TaskSpec) (sources : List Text) (compression : Text) (p : Planning)
      {plan : RepositoryPlan}
      → IsWalked tools store compression task.encrypt V p
      → plan_of task sources compression p ≡ some plan
      → IsPlan tools store V plan
  unfolding plan_of
  plan_of-IsPlan task sources compression p {plan} w h =
      let snapshot = snapshot_of task sources compression p in
      elim (Bool-cases (validate_snapshot snapshot)) [
        | inr bad ↦ absurd (ground (arith, bad))
        | inl good ↦
            let same : plan_with p snapshot ≡ plan = ground (arith, good) in
            subst (IsPlan tools store V) same (record {
              spool_ok = w.sound.spool_ok;
              planned = w.sound.entries_named;
              files = w.recorded;
              unique = w.sound.unique;
              valid = good;
            })
      ]

  build_with-IsPlan :
      (task : TaskSpec) (compression : Text) {plan : RepositoryPlan}
      → is_compression compression ≡ true
      → build_with tools store chunker cancelled matches files task compression ≡ some plan
      → IsPlan tools store V plan
  unfolding build_with
  build_with-IsPlan task compression {plan} known h =
      let excludes = normalize_exclude_patterns task.exclude_patterns in
      let sources = source_paths_of task in
      let start : IsWalked tools store compression task.encrypt V no_planning = record {
        sound = no_planning-IsSound tools store compression task.encrypt;
        recorded = tt;
      } in
      let walked =
        walk_sources tools store compression task.encrypt chunker cancelled matches excludes files
          sources no_planning in
      let good =
        walk_sources-LeavesPlan tools store compression task.encrypt unique_ids known V chunker m
          max cancelled matches excludes files all sources no_planning start in
      elim (Option-cases walked) [
        | inl bad ↦ absurd (ground (arith, bad))
        | inr (p, e) ↦
            plan_of-IsPlan task sources compression p
              (subst
                (LeavesPlan tools store compression task.encrypt unique_ids known V chunker m max
                  cancelled matches excludes)
                e good)
              (ground (arith, e))
      ]

  -- A plan that BuildPlan returns has, when no two chunks have one id, every chunk of its entries in
  -- its spool, once, under the id of its bytes; the chunks of every file entry are, put together,
  -- the bytes of a regular file that the walk visited under that path; the unique size is the size
  -- of the spool, and the snapshot is valid.
  pub build_plan-IsPlan :
      (task : TaskSpec) {plan : RepositoryPlan}
      → build_plan tools store chunker cancelled matches files task ≡ some plan
      → IsPlan tools store V plan
  unfolding build_plan
  build_plan-IsPlan task {plan} h = elim (Option-cases (normalize_compression task.compression)) [
    | inl bad ↦ absurd (ground (arith, bad))
    | inr (compression, e) ↦
        build_with-IsPlan task compression (normalize_compression-is_compression task.compression e)
          (ground (arith, e))
  ]
