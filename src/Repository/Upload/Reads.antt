-- ===== src/Repository/Upload/Reads.antt =====
-- From a backup to its restore (BuildPlan, uploadMissingChunks, readChunk and the file case of
-- Restore in server/internal/backup/repository.go).
use backup_x.Base.{
  ℕ, ◌≡◌, refl, sym, ◌∙◌, ap, Bool, true, inl, inr, List, [], ◌∷◌, Option, none, some, All, is_some,
  arith, Option-cases,
}
use backup_x.Base.Text.{Text, text_eq_refl}
use backup_x.Base.Dict.{get_key, has_key, All-get_key}
use backup_x.Repository.{Bytes, RepositoryStore, ChunkLocation, Provider, Tools}
use backup_x.Repository.Index.{is_compression}
use backup_x.Repository.Codec.{read_chunk}
use backup_x.Repository.Codec.RoundTrip.{IsFaithful}
use backup_x.Repository.Plan.{RepositoryPlan}
use backup_x.Repository.Plan.Sound.{IsSpool, IsPlanned}
use backup_x.Repository.Plan.Contents.{chunk_bytes, file_bytes, HasNoCollision}
use backup_x.Repository.Export.{read_chunks}
use backup_x.Repository.Upload.{Uploading, opened_pack, upload_missing_chunks}
use backup_x.Repository.Upload.Packs.{IsServed, read_located-IsStored}
use backup_x.Repository.Upload.Sound.{IsStore, HasNoPackCollision, IsKept, IsUploading}
use backup_x.Repository.Upload.Chunks.{plan-IsReady, upload_chunks-Moves}

module _ (tools : Tools) (store : RepositoryStore) {E : Type 0} (provider : Provider E)
    (stored : E → Text → Option Bytes) (is_store : IsStore provider stored)
    (unique_packs : HasNoPackCollision tools) (unique_ids : HasNoCollision tools store)
    (faithful : IsFaithful tools) (now : ℕ) (random : Text → Bytes) (plan : RepositoryPlan)
    (known : is_compression plan.snapshot.compression ≡ true)
    (spool_ok : IsSpool tools store plan.snapshot.compression plan.snapshot.encrypted plan.spool
      plan.chunks plan.chunk_order)
    (env : E) (locations : List (Text × ChunkLocation))
    (readable : All (IsKept tools store provider stored is_store unique_packs env) locations) where
  abbrev uploaded : Uploading E × Bool
  uploaded = upload_missing_chunks tools store provider now random plan env locations

  loop_outcome :
      uploaded.1 ≡ true
      → All
          (IsKept tools store provider stored is_store unique_packs uploaded.0.env)
          uploaded.0.locations
        × ((id : Text)
            → has_key plan.chunk_order id ≡ true
            → is_some (get_key id uploaded.0.locations) ≡ true)
  unfolding upload_missing_chunks opened_pack get_key
  loop_outcome done =
      let start : Uploading E = record {
        env = env;
        locations = locations;
        new_chunk_ids = [];
        uploaded_bytes = 0;
        pack_file = none;
        pack_size = 0;
        pack_chunks = [];
      } in
      let good : IsUploading tools store provider stored is_store unique_packs start = record {
        indexed = readable;
        packed = tt;
        sizes = refl;
        closed = λ e. refl;
      } in
      let (moves, all) =
        upload_chunks-Moves tools store provider stored is_store unique_packs now faithful plan
          known random spool_ok plan.chunk_order start (λ id m. m) good done in
      (moves.good.indexed, λ id m. all id (ground (arith, m)))

  -- Uploading the chunks of a plan keeps the index readable: when every location of the index at hand
  -- points at a stored pack, under the key of its bytes, whose part there decodes to a chunk of that
  -- id and size, and the upload succeeds, the same holds of the index at hand and of the provider
  -- after it. The plan's spool holds its chunks under their ids, decoding undoes encoding, packs
  -- with one key are equal, and the provider stores what it says it has stored.
  pub upload_missing_chunks-IsKept :
      uploaded.1 ≡ true
      → All
          (IsKept tools store provider stored is_store unique_packs uploaded.0.env)
          uploaded.0.locations
  upload_missing_chunks-IsKept done = (loop_outcome done).0

  -- Every chunk of the plan can then be read, with the bytes that the spool has.
  pub upload_missing_chunks_read :
      uploaded.1 ≡ true
      → IsServed tools store stored provider uploaded.0.env
      → (id : Text) → has_key plan.chunk_order id ≡ true
      → read_chunk tools store provider uploaded.0.env id uploaded.0.locations
        ≡ some (chunk_bytes plan.spool plan.chunks id)
  unfolding read_chunk
  upload_missing_chunks_read done served id ordered =
      let (kept, all) = loop_outcome done in
      let ready =
        plan-IsReady tools store provider stored is_store unique_packs now faithful plan known
          random spool_ok id ordered in
      elim (Option-cases (get_key id uploaded.0.locations)) [
        | inl missing ↦ absurd (ground (arith, missing, all id ordered))
        | inr (location, e) ↦
            let s = All-get_key _ id uploaded.0.locations kept e in
            let same : s.packed.raw ≡ chunk_bytes plan.spool plan.chunks id =
              unique_ids s.packed.raw (chunk_bytes plan.spool plan.chunks id) location.compression
                plan.snapshot.compression location.encrypted plan.snapshot.encrypted s.packed.known
                known (s.packed.hashed ∙ sym ready.hashed) in
            rw (e, read_chunk)
              (read_located-IsStored tools store stored provider uploaded.0.env id location served s
                ∙ ap some same)
      ]

  pub read_chunks-file_bytes :
      uploaded.1 ≡ true
      → IsServed tools store stored provider uploaded.0.env
      → (ids : List Text)
      → IsPlanned tools store plan.snapshot.compression plan.snapshot.encrypted plan.chunks ids
      → read_chunks tools store provider uploaded.0.env uploaded.0.locations ids
        ≡ some (file_bytes plan.spool plan.chunks ids)
  unfolding read_chunks file_bytes has_key
  read_chunks-file_bytes done served [] planned = refl
  read_chunks-file_bytes done served (id ∷ ids) planned = ground (
    arith,
    upload_missing_chunks_read done served id
        (spool_ok.ordered id ∙ planned id (ground (arith, text_eq_refl id))),
    read_chunks-file_bytes done served ids (λ j m. planned j (ground (arith, m))),
  )
