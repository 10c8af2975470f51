-- ===== src/Repository/Index.antt =====
-- The index of the repository: its segments, and the map from the ids of chunks to their locations
-- (readIndexSegment and loadIndex in server/internal/backup/repository.go).
use backup_x.Base.{
  ℕ, ◌-◌, Bool, true, false, not, ◌&&◌, ◌||◌, List, [], ◌∷◌, Option, none, some, ltb, ◌==◌,
  if◌then◌else◌, length,
}
use backup_x.Base.Text.{Text, codes, text_eq, text_lt, cut_prefix}
use backup_x.Base.Int.{ℤ, pos, negsuc, pos_part}
use backup_x.Base.Dict.{get_key, put_key}
use backup_x.Repository.{
  Bytes, RepositoryStore, ChunkLocation, IndexSegment, ObjectInfo, Provider, Tools,
  repository_format_version, repository_chunk_max, repository_default_pack,
  repository_max_index_size, repository_max_encoded,
}
use backup_x.Repository.Keys.{repository_index_prefix, pack_key, is_hash, index_id}
use backup_x.Repository.Codec.{none_compression, gzip_compression, zstd_compression}

-- Whether an id is a hash behind `e-` or `p-`, as its chunk is encrypted or not.
unfoldable pub is_chunk_id : Bool → Text → Bool
is_chunk_id encrypted id = elim (cut_prefix (if encrypted then codes "e-" else codes "p-") id) [
  | none ↦ false
  | some hash ↦ is_hash hash
]

unfoldable pub is_compression : Text → Bool
is_compression value =
    text_eq value none_compression
    || text_eq value gzip_compression
    || text_eq value zstd_compression

abbrev pub is_negative : ℤ → Bool
is_negative (pos n) = false
is_negative (negsuc n) = true

-- packLimit.
unfoldable pub pack_limit : RepositoryStore → ℕ
pack_limit store =
    let limit = if store.pack_size == 0 then repository_default_pack else store.pack_size in
    if ltb limit repository_max_encoded then repository_max_encoded else limit

-- The tests of a location; the length is at most the limit when the offset is tested.
unfoldable pub is_valid_location : RepositoryStore → Text → Text → ChunkLocation → Bool
is_valid_location store expected_pack id location =
    is_chunk_id location.encrypted id
    && is_compression location.compression
    && text_eq location.pack expected_pack
    && not (is_negative location.offset)
    && ltb 0 (pos_part location.length)
    && not (ltb repository_max_encoded (pos_part location.length))
    && not (ltb (pack_limit store) (pos_part location.length))
    && ltb 0 (pos_part location.plain_size)
    && not (ltb repository_chunk_max (pos_part location.plain_size))
    && not (ltb (pack_limit store - pos_part location.length) (pos_part location.offset))

-- The loop over the chunks of a segment.
unfoldable pub all_valid : RepositoryStore → Text → List (Text × ChunkLocation) → Bool
all_valid store expected_pack [] = true
all_valid store expected_pack ((id, location) ∷ chunks) =
    is_valid_location store expected_pack id location && all_valid store expected_pack chunks

abbrev pub has_chunks : List (Text × ChunkLocation) → Bool
has_chunks [] = false
has_chunks (c ∷ cs) = true

abbrev pub is_version : ℤ → Bool
is_version (pos n) = n == repository_format_version
is_version (negsuc n) = false

unfoldable pub check_segment : RepositoryStore → Text → IndexSegment → Option IndexSegment
check_segment store expected_pack segment =
    if not (is_version segment.version)
      || not (text_eq segment.pack expected_pack)
      || not (has_chunks segment.chunks)
    then none
    else if all_valid store expected_pack segment.chunks
    then some segment
    else none

-- The objects of a list by their keys, as sort.Slice leaves them.
unfoldable pub insert_object : ObjectInfo → List ObjectInfo → List ObjectInfo
insert_object o [] = o ∷ []
insert_object o (x ∷ xs) = if text_lt x.key o.key then x ∷ insert_object o xs else o ∷ x ∷ xs

unfoldable pub sort_objects : List ObjectInfo → List ObjectInfo
sort_objects [] = []
sort_objects (o ∷ os) = insert_object o (sort_objects os)

-- The loop over a segment: the first location of a chunk stays.
unfoldable pub merge_chunks :
    List (Text × ChunkLocation) → List (Text × ChunkLocation) → List (Text × ChunkLocation)
merge_chunks locations [] = locations
merge_chunks locations ((id, location) ∷ chunks) =
    merge_chunks
      (elim (get_key id locations) [ some _ ↦ locations | none ↦ put_key id location locations ])
      chunks

module _ (tools : Tools) (store : RepositoryStore) {E : Type 0} (provider : Provider E) where
  unfoldable pub decode_segment : Text → Bytes → Option IndexSegment
  decode_segment expected_pack bytes =
      if ltb repository_max_index_size (length bytes)
      then none
      else elim (tools.unmarshal_segment bytes) [
        | none ↦ none
        | some segment ↦ check_segment store expected_pack segment
      ]

  unfoldable pub read_index_segment : E → Text → Option IndexSegment
  read_index_segment env key = elim (index_id key) [
    | none ↦ none
    | some id ↦ elim (provider.download env key) [
      | none ↦ none
      | some bytes ↦ decode_segment (pack_key id) bytes
    ]
  ]

  unfoldable pub load_segments :
      E → List (Text × ChunkLocation) → List ObjectInfo → Option (List (Text × ChunkLocation))
  load_segments env locations [] = some locations
  load_segments env locations (object ∷ objects) = elim (read_index_segment env object.key) [
    | none ↦ none
    | some segment ↦ load_segments env (merge_chunks locations segment.chunks) objects
  ]

  unfoldable pub load_index : E → Option (List (Text × ChunkLocation))
  load_index env = elim (provider.list_objects env repository_index_prefix) [
    | none ↦ none
    | some objects ↦ load_segments env [] (sort_objects objects)
  ]
