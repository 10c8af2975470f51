-- ===== src/Repository/Codec/RoundTrip.antt =====
-- Encoding and decoding of chunks (encodeChunk and decodeChunk in
-- server/internal/backup/repository.go).
use backup_x.Base.{
  ℕ, ◌+◌, ◌≤◌, ◌≡◌, ◌∙◌, ◌++◌, some, inl, inr, length, take, length-append, length-take, arith,
  Option-cases,
}
use backup_x.Base.Text.{Text}
use backup_x.Base.Int.{pos}
use backup_x.Repository.{Bytes, RepositoryStore, ChunkLocation, Tools, repository_chunk_max}
use backup_x.Repository.Slices.{take_all, take-append_length, drop-append_length}
use backup_x.Repository.Codec.{
  read_exactly, encrypt, decrypt, compress, decompress, encode_chunk, decode_chunk,
}

-- What the packages for compression and encryption document: decoding undoes encoding, up to the
-- number of bytes asked for, and zstd within the memory that the decoder is given.
pub record IsFaithful (tools : Tools) : Type 0 where
  pub gunzip-gzip :
      (raw out : Bytes) (n : ℕ) → tools.gzip raw ≡ some out → tools.gunzip out n ≡ some (take n raw)
  pub zstd_decode-zstd_encode :
      (raw out : Bytes) (n : ℕ)
      → length raw ≤ repository_chunk_max
      → tools.zstd_encode raw ≡ some out
      → tools.zstd_decode out n ≡ some (take n raw)
  pub unseal-seal :
      (key nonce plain additional : Bytes)
      → length nonce ≡ tools.nonce_size
      → tools.unseal key nonce (tools.seal key nonce plain additional) additional ≡ some plain

pub length-read_exactly :
    (n : ℕ) (bytes : Bytes) {out : Bytes} → read_exactly n bytes ≡ some out → length out ≡ n
unfolding read_exactly
length-read_exactly n bytes h = ground (arith, length-take n bytes)

module _ (tools : Tools) (faithful : IsFaithful tools) (store : RepositoryStore) where
  decrypt_parts :
      (nonce sealed additional : Bytes)
      → length store.key ≡ 32
      → length nonce ≡ tools.nonce_size
      → decrypt tools store (nonce ++ sealed) additional
        ≡ tools.unseal store.key nonce sealed additional
  unfolding decrypt
  decrypt_parts nonce sealed additional k n = rw (← n) (
      ground (
        arith,
        length-append nonce sealed,
        take-append_length nonce sealed,
        drop-append_length nonce sealed,
      ))

  decrypt-encrypt :
      (random plain additional : Bytes) {out : Bytes}
      → encrypt tools store random plain additional ≡ some out
      → decrypt tools store out additional ≡ some plain
  unfolding encrypt
  decrypt-encrypt random plain additional {out} h =
      elim (Option-cases (read_exactly tools.nonce_size random)) [
        | inl bad ↦ absurd (ground (arith, bad))
        | inr (nonce, good) ↦
            let n = length-read_exactly tools.nonce_size random good in
            let sealed = tools.seal store.key nonce plain additional in
            let same : out ≡ nonce ++ sealed = ground (arith, good) in
            rw same (
              decrypt_parts nonce sealed additional (ground (arith, good)) n
              ∙ faithful.unseal-seal store.key nonce plain additional n)
      ]

  decompress-compress :
      (compression : Text) (raw : Bytes) {out : Bytes}
      → length raw ≤ repository_chunk_max
      → compress tools store compression raw ≡ some out
      → decompress tools store compression (length raw) out ≡ some raw
  unfolding compress decompress
  decompress-compress compression raw {out} small h = ground (
    arith,
    faithful.gunzip-gzip raw out (length raw + 1),
    faithful.zstd_decode-zstd_encode raw out (length raw + 1),
    take_all (length raw + 1) raw,
  )

  -- Decoding an encoded chunk gives its bytes, for every compression, encrypted or not.
  pub decode_chunk-encode_chunk :
      (raw : Bytes) (location : ChunkLocation) (id : Text) (random : Bytes) {out : Bytes}
      → length raw ≤ repository_chunk_max
      → location.plain_size ≡ pos (length raw)
      → encode_chunk tools store raw location.compression location.encrypted id random ≡ some out
      → decode_chunk tools store out location id ≡ some raw
  unfolding encode_chunk decode_chunk
  decode_chunk-encode_chunk raw location id random {out} small size h =
      elim (Option-cases (compress tools store location.compression raw)) [
        | inl bad ↦ absurd (ground (arith, bad))
        | inr (encoded, good) ↦ ground (
          arith,
          good,
          decompress-compress location.compression raw small good,
          decrypt-encrypt random encoded id {out = out},
        )
      ]
