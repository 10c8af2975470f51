-- ===== src/Repository/Upload.antt =====
-- Upload of a plan: missing chunks go into packs, each pack with its index, then the snapshot
-- (uploadMissingChunks, Upload and EstimateUploadSize in
-- server/internal/backup/repository.go).
--
-- The random bytes are an argument: those for a chunk by its id, and those for the snapshot. So is
-- the time that an index is stamped with.
pub mod Packs
pub mod Sound
pub mod Loop
pub mod Chunks
pub mod Reads
pub mod Restore
use backup_x.Base.{
  ℕ, ◌+◌, Bool, true, false, not, ◌&&◌, List, [], ◌∷◌, ◌++◌, Option, none, some, ltb, ◌==◌,
  if◌then◌else◌, length, drop, is_some,
}
use backup_x.Base.Text.{Text, codes, text_eq}
use backup_x.Repository.Spaces.{trim_space}
use backup_x.Base.Int.{ℤ, pos}
use backup_x.Base.Dict.{get_key, put_key, has_key}
use backup_x.Repository.{
  Bytes, RepositoryStore, PlanChunk, ChunkLocation, IndexSegment, Provider, Tools,
  repository_format_version,
}
use backup_x.Repository.Hex.{hex_encode}
use backup_x.Repository.Keys.{pack_key, index_key}
use backup_x.Repository.Codec.{read_exactly, encode_chunk}
use backup_x.Repository.Index.{has_chunks, load_index}
use backup_x.Repository.Snapshot.{encode_snapshot}
use backup_x.Repository.Plan.{RepositoryPlan}
use backup_x.Repository.Packs.{with_pack, upload_pack}

-- The variables of uploadMissingChunks, with the state of the provider and the index at hand.
pub record Uploading (E : Type 0) : Type 0 where
  pub env : E
  pub locations : List (Text × ChunkLocation)
  pub new_chunk_ids : List Text
  pub uploaded_bytes : ℕ
  pub pack_file : Option Bytes
  pub pack_size : ℕ
  pub pack_chunks : List (Text × ChunkLocation)

pub record UploadResult : Type 0 where
  pub snapshot_key : Text
  pub snapshot_size : ℕ
  pub logical_size : ℕ
  pub uploaded_bytes : ℕ
  pub reused_bytes : ℕ
  pub unique_chunks : ℕ
  pub new_chunks : ℕ
  pub checksum : Text

-- The loop of flush that enters the chunks of a pack into the index at hand.
unfoldable pub enter_locations :
    List (Text × ChunkLocation) → List (Text × ChunkLocation) → List (Text × ChunkLocation)
enter_locations locations [] = locations
enter_locations locations ((id, location) ∷ chunks) =
    enter_locations (put_key id location locations) chunks

unfoldable pub enter_ids : List Text → List (Text × ChunkLocation) → List Text
enter_ids ids [] = ids
enter_ids ids ((id, location) ∷ chunks) =
    enter_ids (if has_key ids id then ids else ids ++ id ∷ []) chunks

abbrev pub no_chunk : PlanChunk
no_chunk = record { offset = 0; size = 0 }

-- `plan.chunks[id]`, with the zero value for an id that is not there.
unfoldable pub plan_chunk : RepositoryPlan → Text → PlanChunk
plan_chunk plan id = elim (get_key id plan.chunks) [ none ↦ no_chunk | some c ↦ c ]

-- The bytes of a chunk, by ReadAt on the spool.
unfoldable pub spooled_chunk : RepositoryPlan → Text → Option Bytes
unfolding plan_chunk read_exactly
spooled_chunk plan id = let c = plan_chunk plan id in read_exactly c.size (drop c.offset plan.spool)

-- The sum of the sizes of the chunks that were there already.
unfoldable pub reused_bytes : RepositoryPlan → List Text → List Text → ℕ
reused_bytes plan new_ids [] = 0
reused_bytes plan new_ids (id ∷ ids) =
    let rest = reused_bytes plan new_ids ids in
    if has_key new_ids id then rest else (plan_chunk plan id).size + rest

-- The sum of the allowances for the chunks that are missing.
unfoldable pub missing_bytes : RepositoryPlan → List (Text × ChunkLocation) → List Text → ℕ
missing_bytes plan locations [] = 0
missing_bytes plan locations (id ∷ ids) =
    let rest = missing_bytes plan locations ids in
    if is_some (get_key id locations) then rest else (plan_chunk plan id).size + 256 + rest

unfoldable pub opened_pack : Option Bytes → Bytes
opened_pack none = []
opened_pack (some pack) = pack

-- The end of the loop's body: the encoded chunk goes into the pack.
unfoldable pub pack_chunk : {E : Type 0} → RepositoryPlan → Text → Bytes → Uploading E → Uploading E
pack_chunk plan id encoded u = record u {
  pack_file = some (opened_pack u.pack_file ++ encoded);
  pack_chunks =
      put_key id
        (record {
          pack = [];
          offset = pos u.pack_size;
          length = pos (length encoded);
          plain_size = pos (plan_chunk plan id).size;
          compression = plan.snapshot.compression;
          encrypted = plan.snapshot.encrypted;
        })
        u.pack_chunks;
  pack_size = u.pack_size + length encoded;
}

-- The chunk as it is stored.
unfoldable pub stored_chunk :
    Tools → RepositoryStore → (Text → Bytes) → RepositoryPlan → Text → Option Bytes
stored_chunk tools store random plan id = elim (spooled_chunk plan id) [
  | none ↦ none
  | some raw ↦
      encode_chunk tools store raw plan.snapshot.compression plan.snapshot.encrypted id (random id)
]

module _ (tools : Tools) (store : RepositoryStore) {E : Type 0} (provider : Provider E) where
  -- flush, for a pack that is open and not empty.
  unfoldable pub flush_pack : ℕ → Bytes → Uploading E → Uploading E × Bool
  flush_pack now pack u =
      let (env', outcome) = upload_pack tools provider now u.env pack u.pack_chunks in
      elim outcome [
        | none ↦ (record u { env = env' }, false)
        | some (key, index_bytes, pack_bytes) ↦ (
          record u {
            env = env';
            locations = enter_locations u.locations (with_pack key u.pack_chunks);
            new_chunk_ids = enter_ids u.new_chunk_ids u.pack_chunks;
            uploaded_bytes = u.uploaded_bytes + (pack_bytes + index_bytes);
            pack_file = none;
            pack_size = 0;
            pack_chunks = [];
          },
          true,
        )
      ]

  unfoldable pub flush : ℕ → Uploading E → Uploading E × Bool
  flush now u = elim u.pack_file [
    | none ↦ (u, true)
    | some pack ↦ if not (has_chunks u.pack_chunks) then (u, true) else flush_pack now pack u
  ]

  -- The test whether a chunk of the given length still fits.
  unfoldable pub make_room : ℕ → ℕ → Uploading E → Uploading E × Bool
  make_room now size u =
      if is_some u.pack_file && ltb 0 u.pack_size && ltb store.pack_size (u.pack_size + size)
      then flush now u
      else (u, true)

  unfoldable pub upload_missing :
      ℕ → RepositoryPlan → Text → Bytes → Uploading E → Uploading E × Bool
  upload_missing now plan id encoded u =
      let (u', fits) = make_room now (length encoded) u in
      if fits then (pack_chunk plan id encoded u', true) else (u', false)

  -- The body of the loop over the chunks of a plan.
  unfoldable pub upload_chunk :
      ℕ → (Text → Bytes) → RepositoryPlan → Text → Uploading E → Uploading E × Bool
  upload_chunk now random plan id u =
      if is_some (get_key id u.locations)
      then (u, true)
      else elim (stored_chunk tools store random plan id) [
        | none ↦ (u, false)
        | some encoded ↦ upload_missing now plan id encoded u
      ]

  unfoldable pub upload_chunks :
      ℕ → (Text → Bytes) → RepositoryPlan → List Text → Uploading E → Uploading E × Bool
  upload_chunks now random plan [] u = flush now u
  upload_chunks now random plan (id ∷ ids) u =
      let (u', done) = upload_chunk now random plan id u in
      let rest = upload_chunks now random plan ids u' in if done then rest else (u', false)

  unfoldable pub upload_missing_chunks :
      ℕ → (Text → Bytes) → RepositoryPlan → E → List (Text × ChunkLocation) → Uploading E × Bool
  upload_missing_chunks now random plan env locations =
      upload_chunks now random plan plan.chunk_order (record {
        env = env;
        locations = locations;
        new_chunk_ids = [];
        uploaded_bytes = 0;
        pack_file = none;
        pack_size = 0;
        pack_chunks = [];
      })

  -- The end of Upload, after the chunks.
  unfoldable pub upload_snapshot :
      RepositoryPlan → Text → Bytes → Uploading E → E × Option UploadResult
  upload_snapshot plan key bytes u =
      let (env', sent) = provider.upload u.env key bytes in
      if not sent then (env', none) else (
        env',
        some (record {
          snapshot_key = key;
          snapshot_size = length bytes;
          logical_size = plan.logical_size;
          uploaded_bytes = u.uploaded_bytes + length bytes;
          reused_bytes = reused_bytes plan u.new_chunk_ids plan.chunk_order;
          unique_chunks = length plan.chunk_order;
          new_chunks = length u.new_chunk_ids;
          checksum = hex_encode (tools.sha256 bytes);
        }),
      )

  unfoldable pub upload_with :
      ℕ
      → (Text → Bytes)
      → Bytes
      → RepositoryPlan
      → Text
      → E
      → List (Text × ChunkLocation)
      → E × Option UploadResult
  upload_with now random snapshot_random plan key env locations =
      let (u, done) = upload_missing_chunks now random plan env locations in
      if not done
      then (u.env, none)
      else elim (encode_snapshot tools store snapshot_random plan.snapshot) [
        | none ↦ (u.env, none)
        | some bytes ↦ upload_snapshot plan key bytes u
      ]

  unfoldable pub upload :
      ℕ → (Text → Bytes) → Bytes → RepositoryPlan → Text → E → E × Option UploadResult
  upload now random snapshot_random plan key env =
      if text_eq (trim_space key) []
      then (env, none)
      else elim (load_index tools store provider env) [
        | none ↦ (env, none)
        | some locations ↦ upload_with now random snapshot_random plan key env locations
      ]

  unfoldable pub estimate_upload_size : Bytes → RepositoryPlan → E → Option ℕ
  estimate_upload_size snapshot_random plan env = elim (load_index tools store provider env) [
    | none ↦ none
    | some locations ↦ elim (encode_snapshot tools store snapshot_random plan.snapshot) [
      | none ↦ none
      | some bytes ↦ some (length bytes + missing_bytes plan locations plan.chunk_order)
    ]
  ]
