-- ===== src/Repository.antt =====
-- The deduplicating repository of server/internal/backup/repository.go: its data, and what its
-- operations ask of a storage provider and of the packages for hashes, ciphers, compression and
-- encodings.
--
-- Objects, keys and ids are lists of bytes. Numbers that come from JSON may be negative. The
-- temporary files of a plan and of a pack are byte lists, and writing them does not fail.
pub mod Hex
pub mod Slices
pub mod Spaces
pub mod Keys
pub mod Codec
pub mod Index
pub mod Paths
pub mod Snapshot
pub mod Files
pub mod Plan
pub mod Packs
pub mod Upload
pub mod Export
pub mod Verify
pub mod Prune
pub mod Buckets
pub mod World
pub mod SmallBackup
mod Tests
use backup_x.Base.{ℕ, ◌*◌, ◌+◌, Bool, List, Option}
use backup_x.Base.Text.{Text}
use backup_x.Base.Int.{ℤ}

abbrev pub Bytes : Type 0
Bytes = List ℕ

abbrev pub repository_format_version : ℕ
repository_format_version = 1

abbrev pub repository_chunk_max : ℕ
repository_chunk_max = 4 * 1048576

abbrev pub repository_default_pack : ℕ
repository_default_pack = 32 * 1048576

abbrev pub repository_max_index_size : ℕ
repository_max_index_size = 64 * 1048576

abbrev pub repository_max_snapshot : ℕ
repository_max_snapshot = 256 * 1048576

abbrev pub repository_max_encoded : ℕ
repository_max_encoded = repository_chunk_max + 256 * 1024

pub record RepositoryStore : Type 0 where
  pub key : Bytes
  pub pack_size : ℕ

pub record PlanChunk : Type 0 where
  pub offset : ℕ
  pub size : ℕ

pub record RepositoryEntry : Type 0 where
  pub path : Text
  pub kind : Text
  pub mode : ℕ
  pub mod_time : ℤ
  pub size : ℤ
  pub link_target : Text
  pub chunks : List Text

pub record RepositorySnapshot : Type 0 where
  pub version : ℤ
  pub task_id : ℕ
  pub created_at : ℕ
  pub compression : Text
  pub encrypted : Bool
  pub source_paths : List Text
  pub entries : List RepositoryEntry

-- What repositorySnapshotEnvelope holds: the JSON of the snapshot, or the text of its ciphertext.
pub record SnapshotEnvelope : Type 0 where
  pub version : ℤ
  pub encrypted : Bool
  pub payload : Bytes
  pub ciphertext : Text

pub record ChunkLocation : Type 0 where
  pub pack : Text
  pub offset : ℤ
  pub length : ℤ
  pub plain_size : ℤ
  pub compression : Text
  pub encrypted : Bool

pub record IndexSegment : Type 0 where
  pub version : ℤ
  pub created_at : ℕ
  pub pack : Text
  pub chunks : List (Text × ChunkLocation)

-- storage.ObjectInfo.
pub record ObjectInfo : Type 0 where
  pub key : Text
  pub size : ℕ

-- A storage provider over its state: reads leave the state alone, a write or a deletion returns the
-- state after it and whether it succeeded. `download_range` is there when the provider can read
-- ranges.
pub record Provider (E : Type 0) : Type 0 where
  pub list_objects : E → Text → Option (List ObjectInfo)
  pub download : E → Text → Option Bytes
  pub download_range : Option (E → Text → ℕ → ℕ → Option Bytes)
  pub upload : E → Text → Bytes → E × Bool
  pub delete_object : E → Text → E × Bool

-- The packages that the repository calls. A decompressor reads at most the given number of bytes.
-- A cipher has a key, a nonce, a text and additional data.
pub record Tools : Type 0 where
  pub sha256 : Bytes → Bytes
  pub hmac_sha256 : Bytes → Bytes → Bytes
  pub gzip : Bytes → Option Bytes
  pub gunzip : Bytes → ℕ → Option Bytes
  pub zstd_encode : Bytes → Option Bytes
  pub zstd_decode : Bytes → ℕ → Option Bytes
  pub nonce_size : ℕ
  pub seal : Bytes → Bytes → Bytes → Bytes → Bytes
  pub unseal : Bytes → Bytes → Bytes → Bytes → Option Bytes
  pub marshal_segment : IndexSegment → Bytes
  pub unmarshal_segment : Bytes → Option IndexSegment
  pub marshal_snapshot : RepositorySnapshot → Bytes
  pub unmarshal_snapshot : Bytes → Option RepositorySnapshot
  pub marshal_envelope : SnapshotEnvelope → Bytes
  pub unmarshal_envelope : Bytes → Option SnapshotEnvelope
  pub base64_encode : Bytes → Text
  pub base64_decode : Text → Option Bytes
