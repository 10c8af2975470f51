-- ===== src/Repository/Codec.antt =====
-- How a chunk is compressed, encrypted, named and read back (encodeChunk, decodeChunk, chunkID,
-- encrypt, decrypt, normalizeCompression and readChunk in server/internal/backup/repository.go).
--
-- Bytes of the random source are an argument; io.ReadFull fails when there are too few.
pub mod RoundTrip
use backup_x.Base.{
  ℕ, ◌+◌, Bool, true, false, not, ◌||◌, List, [], ◌∷◌, ◌++◌, Option, none, some, ltb, ◌==◌,
  if◌then◌else◌, length, take, drop,
}
use mathlib.Core.Option
use backup_x.Base.Text.{Text, codes, text_eq, to_lower}
use backup_x.Repository.Spaces.{trim_space}
use backup_x.Base.Int.{pos_part}
use backup_x.Base.Dict.{get_key}
use backup_x.Repository.{Bytes, RepositoryStore, ChunkLocation, Provider, Tools}
use backup_x.Repository.Hex.{hex_encode}

abbrev pub none_compression : Text
none_compression = codes "none"

abbrev pub gzip_compression : Text
gzip_compression = codes "gzip"

abbrev pub zstd_compression : Text
zstd_compression = codes "zstd"

unfoldable pub normalize_compression : Text → Option Text
normalize_compression value =
    let name = to_lower (trim_space value) in
    if text_eq name [] || text_eq name zstd_compression
    then some zstd_compression
    else if text_eq name gzip_compression
    then some gzip_compression
    else if text_eq name none_compression
    then some none_compression
    else none

-- io.ReadFull into a buffer of the given size.
unfoldable pub read_exactly : ℕ → Bytes → Option Bytes
read_exactly size bytes = if ltb (length bytes) size then none else some (take size bytes)

module _ (tools : Tools) (store : RepositoryStore) where
  unfoldable pub encrypt : Bytes → Bytes → Bytes → Option Bytes
  encrypt random plain additional =
      if not (length store.key == 32)
      then none
      else Option.map (λ nonce. nonce ++ tools.seal store.key nonce plain additional)
          (read_exactly tools.nonce_size random)

  unfoldable pub decrypt : Bytes → Bytes → Option Bytes
  decrypt ciphertext additional =
      if not (length store.key == 32)
      then none
      else if ltb (length ciphertext) tools.nonce_size
      then none
      else tools.unseal store.key (take tools.nonce_size ciphertext)
          (drop tools.nonce_size ciphertext) additional

  -- The switch of encodeChunk.
  unfoldable pub compress : Text → Bytes → Option Bytes
  compress compression raw =
      if text_eq compression none_compression
      then some raw
      else if text_eq compression gzip_compression
      then tools.gzip raw
      else if text_eq compression zstd_compression
      then tools.zstd_encode raw
      else none

  unfoldable pub encode_chunk : Bytes → Text → Bool → Text → Bytes → Option Bytes
  encode_chunk raw compression encrypted id random = elim (compress compression raw) [
    | none ↦ none
    | some encoded ↦ if encrypted then encrypt random encoded id else some encoded
  ]

  -- The switch of decodeChunk.
  unfoldable pub decompress : Text → ℕ → Bytes → Option Bytes
  decompress compression plain_size payload =
      if text_eq compression none_compression
      then some payload
      else if text_eq compression gzip_compression
      then tools.gunzip payload (plain_size + 1)
      else if text_eq compression zstd_compression
      then tools.zstd_decode payload (plain_size + 1)
      else none

  unfoldable pub decode_chunk : Bytes → ChunkLocation → Text → Option Bytes
  decode_chunk encoded location id =
      elim (if location.encrypted then decrypt encoded id else some encoded) [
        | none ↦ none
        | some payload ↦ decompress location.compression (pos_part location.plain_size) payload
      ]

  unfoldable pub chunk_id : Bytes → Text → Bool → Text
  chunk_id raw compression encrypted =
      let domain =
        λ (kind : Text). codes "backupx-repository-v1/" ++ (compression ++ (kind ++ (0 ∷ []))) in
      if encrypted
      then codes "e-"
        ++ hex_encode (tools.hmac_sha256 store.key (domain (codes "/encrypted") ++ raw))
      else codes "p-" ++ hex_encode (tools.sha256 (domain (codes "/plain") ++ raw))

  module _ {E : Type 0} (provider : Provider E) (env : E) where
    -- The reader at the start of a chunk: a ranged read, or the whole pack with a part skipped.
    unfoldable pub open_chunk : ChunkLocation → Option Bytes
    open_chunk location =
        let offset = pos_part location.offset in
        elim provider.download_range [
          | some range ↦ range env location.pack offset (pos_part location.length)
          | none ↦ elim (provider.download env location.pack) [
            | none ↦ none
            | some bytes ↦ if ltb (length bytes) offset then none else some (drop offset bytes)
          ]
        ]

    -- The tests of readChunk on what it has decoded.
    unfoldable pub check_chunk : ChunkLocation → Text → Bytes → Option Bytes
    check_chunk location id raw =
        if not (length raw == pos_part location.plain_size)
        then none
        else if text_eq (chunk_id raw location.compression location.encrypted) id
        then some raw
        else none

    unfoldable pub read_located : ChunkLocation → Text → Option Bytes
    read_located location id = elim (open_chunk location) [
      | none ↦ none
      | some reader ↦ elim (read_exactly (pos_part location.length) reader) [
        | none ↦ none
        | some encoded ↦ elim (decode_chunk encoded location id) [
          | none ↦ none
          | some raw ↦ check_chunk location id raw
        ]
      ]
    ]

    unfoldable pub read_chunk : Text → List (Text × ChunkLocation) → Option Bytes
    read_chunk id locations = elim (get_key id locations) [
      | none ↦ none
      | some location ↦ read_located location id
    ]
