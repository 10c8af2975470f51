-- ===== src/Repository/Upload/Packs.antt =====
-- What a chunk is in a pack, and what is left of it when more is written
-- (uploadMissingChunks and readChunk in server/internal/backup/repository.go).
use backup_x.Base.{
  ℕ, ◌+◌, ◌≤◌, ◌≡◌, sym, ◌∙◌, ap, Bool, true, inl, inr, [], ◌++◌, Option, some, length,
  length-append, length-take, length-drop, drop, arith, Option-cases,
}
use backup_x.Base.Text.{Text, text_eq_refl}
use backup_x.Base.Int.{pos, pos_part}
use backup_x.Repository.{
  Bytes, RepositoryStore, ChunkLocation, Provider, Tools, repository_chunk_max,
}
use backup_x.Repository.Slices.{slice, slice-append, slice-append_end, take_all}
use backup_x.Repository.Keys.{pack_key}
use backup_x.Repository.Index.{is_compression}
use backup_x.Repository.Codec.{
  read_exactly, encode_chunk, decode_chunk, chunk_id, open_chunk, check_chunk, read_located,
}
use backup_x.Repository.Codec.RoundTrip.{IsFaithful, decode_chunk-encode_chunk}
use backup_x.Repository.Packs.{located, pack_id}

module _ (tools : Tools) (store : RepositoryStore) where
  -- The part of a pack at a location decodes to a chunk of that id.
  pub record IsPacked (pack : Bytes) (id : Text) (location : ChunkLocation) : Type 0 where
    pub raw : Bytes
    pub within : pos_part location.offset + pos_part location.length ≤ length pack
    pub decodes :
        decode_chunk tools store
          (slice (pos_part location.offset) (pos_part location.length) pack)
          location
          id
        ≡ some raw
    pub sized : length raw ≡ pos_part location.plain_size
    pub hashed : chunk_id tools store raw location.compression location.encrypted ≡ id
    pub known : is_compression location.compression ≡ true

  pub IsPacked-append :
      (pack more : Bytes) (id : Text) (location : ChunkLocation)
      → IsPacked pack id location
      → IsPacked (pack ++ more) id location
  IsPacked-append pack more id location p = record {
    raw = p.raw;
    within = omega (arith, length-append pack more);
    decodes =
        ap (λ (x : Bytes). decode_chunk tools store x location id)
          (slice-append (pos_part location.offset) (pos_part location.length) pack more p.within)
        ∙ p.decodes;
    sized = p.sized;
    hashed = p.hashed;
    known = p.known;
  }

  -- The key of the pack in a location has no part in its chunk.
  pub IsPacked-located :
      (pack : Bytes) (id key : Text) (location : ChunkLocation)
      → IsPacked pack id location
      → IsPacked pack id (located key location)
  unfolding decode_chunk
  IsPacked-located pack id key location p = record {
    raw = p.raw;
    within = p.within;
    decodes = p.decodes;
    sized = p.sized;
    hashed = p.hashed;
    known = p.known;
  }

  -- A chunk that has just been encoded, at the end of a pack.
  pub IsPacked-encode_chunk :
      IsFaithful tools
      → (pack raw encoded : Bytes) (offset size : ℕ) (id : Text) (compression : Text)
        (encrypted : Bool) (random : Bytes)
      → offset ≡ length pack
      → size ≡ length raw
      → length raw ≤ repository_chunk_max
      → is_compression compression ≡ true
      → chunk_id tools store raw compression encrypted ≡ id
      → encode_chunk tools store raw compression encrypted id random ≡ some encoded
      → IsPacked (pack ++ encoded) id (record {
        pack = [];
        offset = pos offset;
        length = pos (length encoded);
        plain_size = pos size;
        compression = compression;
        encrypted = encrypted;
      })
  IsPacked-encode_chunk faithful pack raw encoded offset size id compression encrypted random ends
        full small known hashed e =
      let location : ChunkLocation = record {
        pack = [];
        offset = pos offset;
        length = pos (length encoded);
        plain_size = pos size;
        compression = compression;
        encrypted = encrypted;
      } in
      record {
        raw = raw;
        within = omega (arith, length-append pack encoded);
        decodes =
            ap (λ (x : Bytes). decode_chunk tools store x location id)
              (rw ends (slice-append_end pack encoded))
            ∙ decode_chunk-encode_chunk tools faithful store raw location id random small
                (ap pos full) e;
        sized = sym full;
        hashed = hashed;
        known = known;
      }

  module _ {E : Type 0} (stored : E → Text → Option Bytes) where
    -- A location of the index: its pack is stored under the key of its bytes, and has the chunk.
    pub record IsStored (env : E) (id : Text) (location : ChunkLocation) : Type 0 where
      pub pack : Bytes
      pub there : stored env location.pack ≡ some pack
      pub keyed : location.pack ≡ pack_key (pack_id tools pack)
      pub packed : IsPacked pack id location

    -- In a state every object can be read, whole and in parts.
    pub record IsServed (provider : Provider E) (env : E) : Type 0 where
      pub download :
          (key : Text) (bytes : Bytes)
          → stored env key ≡ some bytes
          → provider.download env key ≡ some bytes
      pub download_range :
          (range : E → Text → ℕ → ℕ → Option Bytes) (key : Text) (bytes : Bytes) (offset size : ℕ)
          → provider.download_range ≡ some range
          → stored env key ≡ some bytes
          → range env key offset size ≡ some (slice offset size bytes)

    open_chunk-IsStored :
        (provider : Provider E) (env : E) (id : Text) (location : ChunkLocation)
        → IsServed provider env
        → (s : IsStored env id location)
        → (reader : Bytes) × (open_chunk tools store provider env location ≡ some reader)
          × (read_exactly (pos_part location.length) reader
              ≡ some (slice (pos_part location.offset) (pos_part location.length) s.pack))
    unfolding open_chunk read_exactly
    open_chunk-IsStored provider env id location served s =
        let offset = pos_part location.offset in
        let size = pos_part location.length in
        let sized : length (slice offset size s.pack) ≡ size = omega (
          arith,
          length-take size (drop offset s.pack),
          length-drop offset s.pack,
          s.packed.within,
        ) in
        elim (Option-cases provider.download_range) [
          | inr (range, e) ↦ (
            slice offset size s.pack,
            rw (e, open_chunk)
                (served.download_range range location.pack s.pack offset size e s.there),
            ground (arith, take_all size (slice offset size s.pack)),
          )
          | inl whole ↦ (
            drop offset s.pack,
            rw (whole, open_chunk)
                (rw (served.download location.pack s.pack s.there)
                  (ground (arith, s.packed.within))),
            ground (arith, length-drop offset s.pack, s.packed.within),
          )
        ]

    -- A stored chunk is read, and its bytes have its id.
    pub read_located-IsStored :
        (provider : Provider E) (env : E) (id : Text) (location : ChunkLocation)
        → IsServed provider env
        → (s : IsStored env id location)
        → read_located tools store provider env location id ≡ some s.packed.raw
    unfolding read_located check_chunk
    read_located-IsStored provider env id location served s =
        let (reader, opened, full) = open_chunk-IsStored provider env id location served s in
        ground
          (arith, opened, full, s.packed.decodes, s.packed.sized, s.packed.hashed, text_eq_refl id)
