-- ===== src/Repository/Prune/Tests.antt =====
-- A bucket with one snapshot, its index and its pack, and a pack without an index: what a pruning
-- and a verification make of it (server/internal/backup/repository.go).
use backup_x.Base.{◌≡◌, ◌↔◌, refl, true, false, inl, [], ◌∷◌, ◌++◌, some, is_some, Among}
use backup_x.Base.Text.{
  Text, codes, text_eq, cut_prefix, cut_suffix, to_lower, has_code, equal_fold, split_on,
  before_last,
}
use backup_x.Repository.Spaces.{trim_space}
use backup_x.Base.Int.{pos}
use backup_x.Base.Dict.{get_key, has_key, put_key}
use backup_x.Repository.{
  Bytes, RepositoryStore, RepositoryEntry, RepositorySnapshot, IndexSegment, ObjectInfo, Tools,
}
use backup_x.Repository.Hex.{hex_encode, hex_decode}
use backup_x.Repository.Keys.{
  pack_key, index_key, is_hash, index_id, repository_index_prefix, repository_snapshot_root,
}
use backup_x.Repository.Paths.{
  clean, clean_parts, clean_step, join_parts, all_plain, is_plain, is_utf8, is_utf8_from,
  utf8_start, is_valid_path, dir,
}
use backup_x.Repository.Codec.{read_chunk}
use backup_x.Repository.Index.{
  is_chunk_id, is_compression, pack_limit, is_valid_location, all_valid, check_segment,
  insert_object, sort_objects, merge_chunks, decode_segment, read_index_segment, load_segments,
  load_index,
}
use backup_x.Repository.Snapshot.{
  is_plain_entry, all_chunk_ids, is_valid_file, is_valid_kind, check_entries, crosses_symlink,
  no_crossing, validate_snapshot, matches_checksum, open_envelope, same_flag, check_snapshot,
  decode_snapshot, load_snapshot,
}
use backup_x.Repository.Prune.{prune}
use backup_x.Repository.Prune.Keeps.{prune_keeps_live}
use backup_x.Repository.Verify.{verify}
use backup_x.Repository.Verify.Complete.{verify_iff}
use backup_x.Repository.World.{tools_with, digest, pad}
use backup_x.Repository.Buckets.{Bucket, bucket, bucket-DeletesOne, bucket-ListsPacks}

abbrev sixteen : Text
sixteen = codes "0123456789abcdef"

abbrev pack_hash : Text
pack_hash = sixteen ++ (sixteen ++ (sixteen ++ sixteen))

abbrev chunk : Text
chunk = codes "p-" ++ pack_hash

abbrev segment : IndexSegment
segment = record {
  version = pos 1;
  created_at = 0;
  pack = pack_key pack_hash;
  chunks =
      (
        chunk,
        record {
          pack = pack_key pack_hash;
          offset = pos 0;
          length = pos 4;
          plain_size = pos 4;
          compression = codes "none";
          encrypted = false;
        },
      )
      ∷ [];
}

abbrev entry : RepositoryEntry
entry = record {
  path = codes "d/f";
  kind = codes "file";
  mode = 420;
  mod_time = pos 0;
  size = pos 4;
  link_target = [];
  chunks = chunk ∷ [];
}

abbrev snapshot : RepositorySnapshot
snapshot = record {
  version = pos 1;
  task_id = 1;
  created_at = 0;
  compression = codes "none";
  encrypted = false;
  source_paths = [];
  entries = entry ∷ [];
}

abbrev tools : Tools
tools = tools_with segment snapshot

abbrev store : RepositoryStore
store = record { key = []; pack_size = 0 }

-- The stored snapshot has 31 bytes, so that its hash has 32.
abbrev snapshot_bytes : Bytes
snapshot_bytes = codes "{the snapshot, 31 bytes of JSON"

abbrev snapshot_key : Text
snapshot_key = codes ".backupx/repository/v1/snapshots/1/a.bxrs"

abbrev orphan : Text
orphan = codes ".backupx/repository/v1/packs/aa/orphan.pack"

abbrev full_bucket : Bucket
full_bucket = record {
  objects =
      (snapshot_key, snapshot_bytes)
      ∷ (index_key pack_hash, codes "index")
      ∷ (pack_key pack_hash, 1 ∷ 2 ∷ 3 ∷ 4 ∷ [])
      ∷ (orphan, 9 ∷ [])
      ∷ [];
  upload_fails = [];
  delete_fails = [];
}

abbrev index_object : ObjectInfo
index_object = record { key = index_key pack_hash; size = 5 }

abbrev snapshot_object : ObjectInfo
snapshot_object = record { key = snapshot_key; size = 31 }

abbrev checksum : Text
checksum = hex_encode (digest snapshot_bytes)

snapshots_listed :
    bucket.list_objects full_bucket repository_snapshot_root ≡ some (snapshot_object ∷ [])
unfolding bucket cut_prefix index_key pack_key
snapshots_listed = refl

indexes_listed : bucket.list_objects full_bucket repository_index_prefix ≡ some (index_object ∷ [])
unfolding bucket cut_prefix index_key pack_key
indexes_listed = refl

segment_read : read_index_segment tools store bucket full_bucket index_object.key ≡ some segment
unfolding read_index_segment index_id index_key pack_key cut_prefix cut_suffix is_hash hex_decode
    to_lower text_eq has_code bucket get_key decode_segment check_segment all_valid
    is_valid_location is_chunk_id is_compression pack_limit
segment_read = refl

snapshot_loads : load_snapshot tools store bucket full_bucket snapshot_key checksum ≡ some snapshot
unfolding load_snapshot matches_checksum trim_space hex_encode hex_decode digest pad cut_prefix
    cut_suffix text_eq equal_fold bucket get_key index_key pack_key decode_snapshot open_envelope
    check_snapshot same_flag validate_snapshot check_entries no_crossing crosses_symlink
    is_plain_entry is_valid_kind is_valid_file all_chunk_ids is_chunk_id is_compression is_hash
    to_lower has_code has_key is_utf8 is_utf8_from utf8_start is_valid_path all_plain is_plain
    split_on clean clean_parts clean_step join_parts dir before_last
snapshot_loads = refl

snapshot_loads_unchecked :
    load_snapshot tools store bucket full_bucket snapshot_object.key [] ≡ some snapshot
unfolding load_snapshot matches_checksum trim_space hex_decode text_eq bucket get_key index_key
    pack_key decode_snapshot open_envelope check_snapshot same_flag validate_snapshot check_entries
    no_crossing crosses_symlink is_plain_entry is_valid_kind is_valid_file all_chunk_ids is_chunk_id
    is_compression is_hash to_lower cut_prefix has_code has_key is_utf8 is_utf8_from utf8_start
    is_valid_path all_plain is_plain split_on clean clean_parts clean_step join_parts dir
    before_last
snapshot_loads_unchecked = refl

chunk_named : has_key entry.chunks chunk ≡ true
unfolding has_key text_eq
chunk_named = refl

chunk_indexed : is_some (get_key chunk segment.chunks) ≡ true
unfolding get_key text_eq
chunk_indexed = refl

prune_keeps_live_example :
    (bucket.download (prune tools store bucket full_bucket).0 index_object.key
      ≡ bucket.download full_bucket index_object.key)
    × (bucket.download (prune tools store bucket full_bucket).0 segment.pack
        ≡ bucket.download full_bucket segment.pack)
prune_keeps_live_example =
    prune_keeps_live tools store bucket bucket-DeletesOne full_bucket index_object segment
      segment_read (bucket-ListsPacks full_bucket) (snapshot_object ∷ []) (index_object ∷ [])
      snapshots_listed indexes_listed (inl refl) snapshot_object snapshot entry chunk (inl refl)
      snapshot_loads_unchecked (inl refl) chunk_named chunk_indexed

index_loads : load_index tools store bucket full_bucket ≡ some segment.chunks
unfolding load_index load_segments sort_objects insert_object merge_chunks put_key
    read_index_segment index_id index_key pack_key cut_prefix cut_suffix is_hash hex_decode to_lower
    text_eq has_code bucket get_key decode_segment check_segment all_valid is_valid_location
    is_chunk_id is_compression pack_limit
index_loads = refl

checksum_given : text_eq (trim_space checksum) [] ≡ false
unfolding trim_space text_eq hex_encode digest cut_prefix pad
checksum_given = refl

verify_iff_example :
    (is_some (verify tools store bucket full_bucket snapshot_key checksum) ≡ true) ↔ (
      (e : RepositoryEntry)
      → Among e snapshot.entries
      → (id : Text) → has_key e.chunks id ≡ true
      → is_some (read_chunk tools store bucket full_bucket id segment.chunks) ≡ true)
verify_iff_example =
    verify_iff tools store bucket full_bucket snapshot_key checksum snapshot segment.chunks
      checksum_given snapshot_loads index_loads
