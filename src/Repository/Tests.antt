-- ===== src/Repository/Tests.antt =====
-- The upload of a small plan into a bucket, the restore of its file, and a chunk that is encrypted
-- (server/internal/backup/repository.go).
use backup_x.Repository.Spaces.{trim_space}
use backup_x.Base.{
  ◌≡◌, refl, true, false, inl, inr, List, [], ◌∷◌, Option, none, some, ◌==◌, if◌then◌else◌, length,
  Among, subst, ap, arith,
}
use backup_x.Base.Text.{Text, codes}
use backup_x.Base.Int.{pos}
use backup_x.Chunker.Streaming.{content}
use backup_x.Repository.{Bytes, RepositoryStore, RepositoryEntry}
use backup_x.Repository.Files.{Tree}
use backup_x.Repository.Plan.Walk.{IsFileOf}
use backup_x.Repository.Export.{restored_file}
use backup_x.Repository.Upload.{upload_missing_chunks}
use backup_x.Repository.Upload.Restore.{backup_restores}
use backup_x.Repository.World.{tools-IsFaithful, tools-HasNoCollision, tools-HasNoPackCollision}
use backup_x.Repository.Buckets.{Bucket, bucket, stored_in, bucket-IsStore, bucket-IsServed}
use backup_x.Base.Text.{text_eq}
use backup_x.Repository.Index.{is_compression}
use backup_x.Repository.Upload.{
  enter_locations, enter_ids, plan_chunk, spooled_chunk, flush_pack, flush, make_room, opened_pack,
  pack_chunk, stored_chunk, upload_missing, upload_chunk, upload_chunks,
}
use backup_x.Repository.Packs.{upload_pack}
use backup_x.Repository.Packs.{with_pack}
use backup_x.Repository.Codec.{
  read_exactly, encode_chunk, compress, decode_chunk, decompress, open_chunk, check_chunk,
  read_located, read_chunk,
}
use backup_x.Repository.Keys.{pack_key, index_key}
use backup_x.Repository.Export.{is_size, read_chunks}
use backup_x.Repository.Plan.Sources.{AllFiles, AllBelow}
use backup_x.Repository.Codec.{encrypt}
use backup_x.Repository.Codec.RoundTrip.{decode_chunk-encode_chunk}
use backup_x.Repository.Plan.Build.{IsPlan, build_plan-IsPlan}
use backup_x.Repository.Upload.Sound.{IsKept}
use backup_x.Repository.Upload.Reads.{upload_missing_chunks-IsKept}
use backup_x.Base.{All, ◌++◌}
use backup_x.Repository.{ChunkLocation}
use backup_x.Repository.SmallBackup.{
  no_segment, no_snapshot, tools, store, small_chunker, tree, files, task, plan, build_plan_runs,
}

abbrev empty_bucket : Bucket
empty_bucket = record { objects = []; upload_fails = []; delete_fails = [] }

abbrev random : Text → Bytes
random id = []

upload_succeeds : (upload_missing_chunks tools store bucket 0 random plan empty_bucket []).1 ≡ true
unfolding plan upload_missing_chunks bucket with_pack enter_locations enter_ids plan_chunk
    spooled_chunk upload_pack flush_pack flush make_room opened_pack pack_chunk stored_chunk
    upload_missing upload_chunk upload_chunks read_exactly encode_chunk compress decode_chunk
    decompress open_chunk check_chunk read_located read_chunk pack_key index_key is_size read_chunks
upload_succeeds = refl

abbrev file_entry : RepositoryEntry
file_entry = record {
  path = codes "d/f";
  kind = codes "file";
  mode = 420;
  mod_time = pos 0;
  size = pos 5;
  link_target = [];
  chunks = [];
}

abbrev second_entry : List RepositoryEntry → RepositoryEntry
second_entry (a ∷ b ∷ es) = b
second_entry _ = file_entry

is_second : Among (second_entry plan.snapshot.entries) plan.snapshot.entries
unfolding plan
is_second = inr (inl refl)

second_is_file : (second_entry plan.snapshot.entries).kind ≡ codes "file"
unfolding plan
second_is_file = refl

abbrev or_tree : Option Tree → Tree
or_tree none = tree
or_tree (some t) = t

files_all : (source : Text) (t : Tree) → files source ≡ some t → AllFiles (λ i. Unit {0}) t
unfolding AllFiles AllBelow
files_all source t h = subst (AllFiles (λ i. Unit {0})) (ap or_tree h) (tt, ((tt, tt), tt))

backup_restores_example :
    let entry = second_entry plan.snapshot.entries in
    let u = (upload_missing_chunks tools store bucket 0 random plan empty_bucket []).0 in
    (f : IsFileOf tools store plan.snapshot.compression plan.snapshot.encrypted
      (λ i. Unit {0})
      plan.spool
      plan.chunks
      entry)
    × (restored_file tools store bucket u.env u.locations entry
        ≡ (if length (content f.source) == f.info.size then some (content f.source) else none))
backup_restores_example =
    backup_restores tools store bucket stored_in bucket-IsStore
      (tools-HasNoPackCollision no_segment no_snapshot)
      (tools-HasNoCollision no_segment no_snapshot store) (tools-IsFaithful no_segment no_snapshot)
      0 random (λ i. Unit {0}) small_chunker (omega arith) (omega arith) (λ p. false)
      (λ pattern name. false) files files_all task plan build_plan_runs empty_bucket [] tt
      upload_succeeds (bucket-IsServed tools store _) (second_entry plan.snapshot.entries) is_second
      second_is_file

-- The restored bytes.
restored :
    let u = (upload_missing_chunks tools store bucket 0 random plan empty_bucket []).0 in
    restored_file tools store bucket u.env u.locations (second_entry plan.snapshot.entries)
    ≡ some (1 ∷ 2 ∷ 1 ∷ 2 ∷ 9 ∷ [])
unfolding plan upload_missing_chunks restored_file bucket with_pack enter_locations enter_ids
    plan_chunk spooled_chunk upload_pack flush_pack flush make_room opened_pack pack_chunk
    stored_chunk upload_missing upload_chunk upload_chunks read_exactly encode_chunk compress
    decode_chunk decompress open_chunk check_chunk read_located read_chunk pack_key index_key
    is_size read_chunks
restored = refl

plan_is_sound : IsPlan tools store (λ i. Unit {0}) plan
plan_is_sound =
    build_plan-IsPlan tools store (tools-HasNoCollision no_segment no_snapshot store)
      (λ i. Unit {0}) small_chunker (omega arith) (omega arith) (λ p. false) (λ pattern name. false)
      files files_all task build_plan_runs

compression_known : is_compression plan.snapshot.compression ≡ true
unfolding plan is_compression text_eq
compression_known = refl

upload_missing_chunks-IsKept_example :
    let packs = tools-HasNoPackCollision no_segment no_snapshot in
    let u = (upload_missing_chunks tools store bucket 0 random plan empty_bucket []).0 in
    All (IsKept tools store bucket stored_in bucket-IsStore packs u.env) u.locations
upload_missing_chunks-IsKept_example =
    upload_missing_chunks-IsKept tools store bucket stored_in bucket-IsStore
      (tools-HasNoPackCollision no_segment no_snapshot)
      (tools-HasNoCollision no_segment no_snapshot store) (tools-IsFaithful no_segment no_snapshot)
      0 random plan compression_known plan_is_sound.spool_ok empty_bucket [] tt upload_succeeds

abbrev sixteen_bytes : Bytes
sixteen_bytes = codes "0123456789abcdef"

abbrev locked_store : RepositoryStore
locked_store = record { key = sixteen_bytes ++ sixteen_bytes; pack_size = 100 }

abbrev nonce : Bytes
nonce = 1 ∷ 2 ∷ 3 ∷ 4 ∷ 5 ∷ 6 ∷ 7 ∷ 8 ∷ 9 ∷ 10 ∷ 11 ∷ 12 ∷ []

abbrev secret : ChunkLocation
secret = record {
  pack = [];
  offset = pos 0;
  length = pos 15;
  plain_size = pos 3;
  compression = codes "gzip";
  encrypted = true;
}

encodes :
    encode_chunk tools locked_store
      (7 ∷ 8 ∷ 9 ∷ [])
      secret.compression
      secret.encrypted
      (codes "e-1")
      nonce
    ≡ some (nonce ++ 7 ∷ 8 ∷ 9 ∷ [])
unfolding encode_chunk compress encrypt read_exactly text_eq
encodes = refl

decode_chunk-encode_chunk_example :
    decode_chunk tools locked_store (nonce ++ 7 ∷ 8 ∷ 9 ∷ []) secret (codes "e-1")
    ≡ some (7 ∷ 8 ∷ 9 ∷ [])
decode_chunk-encode_chunk_example =
    decode_chunk-encode_chunk tools (tools-IsFaithful no_segment no_snapshot) locked_store
      (7 ∷ 8 ∷ 9 ∷ []) secret (codes "e-1") nonce (omega arith) refl encodes

-- U+3000 and a blank before, and U+00A0 behind; and a byte 0xA0 that ends a letter stays.
trims :
    (trim_space (0x20 ∷ 0xe3 ∷ 0x80 ∷ 0x80 ∷ b'a' ∷ 0xc2 ∷ 0xa0 ∷ []) ≡ codes "a")
    × (trim_space (0xc3 ∷ 0xa0 ∷ []) ≡ 0xc3 ∷ 0xa0 ∷ [])
    × (trim_space (codes " \t") ≡ [])
unfolding trim_space
trims = (refl, refl, refl)
