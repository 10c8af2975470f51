-- ===== src/Repository/Upload/Restore.antt =====
-- From the source of a backup to a restored file (BuildPlan, uploadMissingChunks, readChunk and the
-- file case of Restore in server/internal/backup/repository.go).
use backup_x.Base.{
  ℕ, ◌≤◌, ◌≡◌, Bool, true, List, Option, none, some, ◌==◌, if◌then◌else◌, length, All, Among,
  All-Among, arith,
}
use backup_x.Base.Text.{Text}
use backup_x.Chunker.{Chunker}
use backup_x.Chunker.Streaming.{content}
use backup_x.Repository.{
  RepositoryStore, RepositoryEntry, RepositorySnapshot, ChunkLocation, Provider, Tools,
  repository_chunk_max,
}
use backup_x.Repository.Index.{is_compression}
use backup_x.Repository.Codec.RoundTrip.{IsFaithful}
use backup_x.Repository.Snapshot.{file_kind, validate_snapshot}
use backup_x.Repository.Plan.{RepositoryPlan, Planning, build_plan}
use backup_x.Repository.Files.{TaskSpec, FileInfo, Tree}
use backup_x.Repository.Plan.Sound.{IsPlanned}
use backup_x.Repository.Plan.Contents.{HasNoCollision}
use backup_x.Repository.Plan.Walk.{IsFileOf}
use backup_x.Repository.Plan.Build.{IsPlan, build_plan-IsPlan}
use backup_x.Repository.Plan.Sources.{AllFiles}
use backup_x.Repository.Export.{is_size, restored_file}
use backup_x.Repository.Upload.{Uploading, upload_missing_chunks}
use backup_x.Repository.Upload.Packs.{IsServed}
use backup_x.Repository.Upload.Sound.{IsStore, HasNoPackCollision, IsKept}
use backup_x.Repository.Upload.Reads.{read_chunks-file_bytes}

validate_snapshot-is_compression :
    (snapshot : RepositorySnapshot)
    → validate_snapshot snapshot ≡ true
    → is_compression snapshot.compression ≡ true
unfolding validate_snapshot
validate_snapshot-is_compression snapshot h = ground arith

module _ (tools : Tools) (store : RepositoryStore) {E : Type 0} (provider : Provider E)
    (stored : E → Text → Option (List ℕ)) (is_store : IsStore provider stored)
    (unique_packs : HasNoPackCollision tools) (unique_ids : HasNoCollision tools store)
    (faithful : IsFaithful tools) (now : ℕ) (random : Text → List ℕ) (V : FileInfo → Type 0)
    (plan : RepositoryPlan) (is_plan : IsPlan tools store V plan) (env : E)
    (locations : List (Text × ChunkLocation))
    (readable : All (IsKept tools store provider stored is_store unique_packs env) locations)
    (done : (upload_missing_chunks tools store provider now random plan env locations).1 ≡ true)
    (served : IsServed tools store stored provider
      (upload_missing_chunks tools store provider now random plan env locations).0.env) where
  abbrev after : Uploading E
  after = (upload_missing_chunks tools store provider now random plan env locations).0

  restored_file-content :
      (entry : RepositoryEntry)
      → IsPlanned tools store plan.snapshot.compression plan.snapshot.encrypted plan.chunks
          entry.chunks
      → (f : IsFileOf tools store plan.snapshot.compression plan.snapshot.encrypted V plan.spool
          plan.chunks entry)
      → restored_file tools store provider after.env after.locations entry
        ≡ (if length (content f.source) == f.info.size then some (content f.source) else none)
  unfolding restored_file is_size
  restored_file-content entry planned f = ground (
    arith,
    read_chunks-file_bytes tools store provider stored is_store unique_packs unique_ids faithful now
        random plan (validate_snapshot-is_compression plan.snapshot is_plan.valid) is_plan.spool_ok
        env locations readable done served entry.chunks planned,
    f.whole,
    f.same_size,
  )

-- A file that was backed up is restored byte by byte: for every file entry of a plan that BuildPlan
-- made, after its chunks were uploaded without an error over an index that could be read, restoring
-- the entry from the index at hand gives the bytes of a regular file that the walk visited under
-- the entry's path, when there are as many as its size was on the walk, and fails when not. Chunks
-- with one id are equal, packs with one key are equal, decoding undoes encoding, the provider
-- stores what it says it has stored, and it serves what it stores after the upload.
pub backup_restores :
    (tools : Tools) (store : RepositoryStore) {E : Type 0} (provider : Provider E)
    (stored : E → Text → Option (List ℕ)) (is_store : IsStore provider stored)
    (unique_packs : HasNoPackCollision tools)
    → HasNoCollision tools store
    → IsFaithful tools
    → (now : ℕ) (random : Text → List ℕ) (V : FileInfo → Type 0) (chunker : Chunker)
    → chunker.min_size ≤ chunker.max_size
    → chunker.max_size ≤ repository_chunk_max
    → (cancelled : Planning → Bool) (matches : Text → Text → Bool) (files : Text → Option Tree)
    → ((source : Text) (tree : Tree) → files source ≡ some tree → AllFiles V tree)
    → (task : TaskSpec) (plan : RepositoryPlan)
    → build_plan tools store chunker cancelled matches files task ≡ some plan
    → (env : E) (locations : List (Text × ChunkLocation))
    → All (IsKept tools store provider stored is_store unique_packs env) locations
    → let r = upload_missing_chunks tools store provider now random plan env locations in
      r.1 ≡ true
      → IsServed tools store stored provider r.0.env
      → (entry : RepositoryEntry) → Among entry plan.snapshot.entries
      → entry.kind ≡ file_kind
      → (f : IsFileOf tools store plan.snapshot.compression plan.snapshot.encrypted V plan.spool
          plan.chunks entry)
        × (restored_file tools store provider r.0.env r.0.locations entry
            ≡ (if length (content f.source) == f.info.size then some (content f.source) else none))
backup_restores tools store provider stored is_store unique_packs unique_ids faithful now random V
      chunker min max cancelled matches files all task plan built env locations readable done served
      entry among kind =
    let is_plan =
      build_plan-IsPlan tools store unique_ids V chunker min max cancelled matches files all task
        built in
    let entries = plan.snapshot.entries in
    let file = All-Among _ entry entries is_plan.files among kind in
    (
      file,
      restored_file-content tools store provider stored is_store unique_packs unique_ids faithful
          now random V plan is_plan env locations readable done served entry
          (All-Among _ entry entries is_plan.planned among) file,
    )
