-- ===== src/Repository/Upload/Chunks.antt =====
-- The body of the loop of uploadMissingChunks, and the whole loop
-- (server/internal/backup/repository.go): every chunk of the plan ends up in the index.
use backup_x.Base.{
  ℕ, ◌≤◌, ◌≡◌, ◌∙◌, ap, subst, true, ◌||◌, inl, inr, List, [], ◌∷◌, Option, some, length,
  length-append, length-take, length-drop, drop, All-imp, is_some, arith, Bool-cases, Option-cases,
}
use backup_x.Base.Text.{Text, text_eq, text_eq_refl, text_eq→eq}
use backup_x.Base.Int.{pos}
use backup_x.Base.Dict.{get_key, has_key, get_key-put_key, All-put_key}
use backup_x.Repository.{
  Bytes, RepositoryStore, ChunkLocation, Provider, Tools, repository_chunk_max,
}
use backup_x.Repository.Slices.{slice}
use backup_x.Repository.Codec.{encode_chunk, chunk_id}
use backup_x.Repository.Index.{is_compression}
use backup_x.Repository.Codec.RoundTrip.{IsFaithful}
use backup_x.Repository.Plan.{RepositoryPlan}
use backup_x.Repository.Plan.Sound.{IsSpool}
use backup_x.Repository.Plan.Contents.{chunk_bytes}
use backup_x.Repository.Upload.{
  Uploading, opened_pack, plan_chunk, spooled_chunk, stored_chunk, pack_chunk, make_room,
  upload_missing, upload_chunk, upload_chunks,
}
use backup_x.Repository.Upload.Packs.{IsPacked-append, IsPacked-encode_chunk}
use backup_x.Repository.Upload.Sound.{IsStore, HasNoPackCollision}
use backup_x.Repository.Upload.Loop.{covers, IsGood, Goes, Goes-trans, flush-Goes, make_room-Goes}

module _ (tools : Tools) (store : RepositoryStore) {E : Type 0} (provider : Provider E)
    (stored : E → Text → Option Bytes) (is_store : IsStore provider stored)
    (unique_packs : HasNoPackCollision tools) (now : ℕ) (faithful : IsFaithful tools)
    (plan : RepositoryPlan) (known : is_compression plan.snapshot.compression ≡ true)
    (random : Text → Bytes)
    (spool_ok : IsSpool tools store plan.snapshot.compression plan.snapshot.encrypted plan.spool
      plan.chunks plan.chunk_order) where
  abbrev Good : Uploading E → Type 0
  Good u = IsGood tools store provider stored is_store unique_packs u

  abbrev pub Moves : Uploading E → Uploading E → Type 0
  Moves u u' = Goes tools store provider stored is_store unique_packs u u'

  abbrev Has : Uploading E → Text → Type 0
  Has u id = covers u.locations u.pack_chunks id ≡ true

  -- What the spool holds for a chunk of the plan.
  pub record IsReady (id : Text) : Type 0 where
    pub spooled : spooled_chunk plan id ≡ some (chunk_bytes plan.spool plan.chunks id)
    pub sized : (plan_chunk plan id).size ≡ length (chunk_bytes plan.spool plan.chunks id)
    pub small : length (chunk_bytes plan.spool plan.chunks id) ≤ repository_chunk_max
    pub hashed :
        chunk_id tools store
          (chunk_bytes plan.spool plan.chunks id)
          plan.snapshot.compression
          plan.snapshot.encrypted
        ≡ id

  pub plan-IsReady : (id : Text) → has_key plan.chunk_order id ≡ true → IsReady id
  unfolding spooled_chunk plan_chunk chunk_bytes
  plan-IsReady id ordered = elim (Option-cases (get_key id plan.chunks)) [
    | inl missing ↦ absurd (ground (arith, missing, spool_ok.ordered id))
    | inr (c, e) ↦
        let s = spool_ok.spooled id c e in
        let full : length (slice c.offset c.size plan.spool) ≡ c.size = omega (
          arith,
          length-take c.size (drop c.offset plan.spool),
          length-drop c.offset plan.spool,
          s.within,
        ) in
        let same : chunk_bytes plan.spool plan.chunks id ≡ slice c.offset c.size plan.spool =
          ground (arith, e) in
        record {
          spooled = ground (arith, e, full, length-drop c.offset plan.spool, s.within);
          sized = ground (arith, e, full);
          small = ground (arith, same, full, s.small);
          hashed =
              ap
                (λ (x : Bytes).
                  chunk_id tools store x plan.snapshot.compression plan.snapshot.encrypted)
                same
              ∙ s.hashed;
        }
  ]

  stored_chunk-encode_chunk :
      (id : Text) {encoded : Bytes}
      → has_key plan.chunk_order id ≡ true
      → stored_chunk tools store random plan id ≡ some encoded
      → encode_chunk tools store
          (chunk_bytes plan.spool plan.chunks id)
          plan.snapshot.compression
          plan.snapshot.encrypted
          id
          (random id)
        ≡ some encoded
  unfolding stored_chunk
  stored_chunk-encode_chunk id ordered e = ground (arith, (plan-IsReady id ordered).spooled)

  -- A chunk of the plan, encoded, at the end of the open pack.
  pack_chunk-Goes :
      (id : Text) (encoded : Bytes) (u : Uploading E)
      → has_key plan.chunk_order id ≡ true
      → stored_chunk tools store random plan id ≡ some encoded
      → Good u
      → Moves u (pack_chunk plan id encoded u) × Has (pack_chunk plan id encoded u) id
  unfolding pack_chunk opened_pack
  pack_chunk-Goes id encoded u ordered e g =
      let ready = plan-IsReady id ordered in
      let raw = chunk_bytes plan.spool plan.chunks id in
      let pack = opened_pack u.pack_file in
      let location : ChunkLocation = record {
        pack = [];
        offset = pos u.pack_size;
        length = pos (length encoded);
        plain_size = pos (plan_chunk plan id).size;
        compression = plan.snapshot.compression;
        encrypted = plan.snapshot.encrypted;
      } in
      (
        record {
          good = record {
            indexed = g.indexed;
            packed =
                All-put_key _ id location u.pack_chunks
                  (All-imp _ _ (λ c. IsPacked-append tools store pack encoded c.0 c.1) u.pack_chunks
                    g.packed)
                  (IsPacked-encode_chunk tools store faithful pack raw encoded u.pack_size
                    (plan_chunk plan id).size id plan.snapshot.compression plan.snapshot.encrypted
                    (random id) g.sizes ready.sized ready.small known ready.hashed
                    (stored_chunk-encode_chunk id ordered e));
            sizes = omega (arith, g.sizes, length-append pack encoded);
            closed = λ h. absurd (cc);
          };
          kept = λ j c. ground (arith, c, get_key-put_key id j location u.pack_chunks);
        },
        ground (arith, get_key-put_key id id location u.pack_chunks, text_eq_refl id),
      )

  upload_missing-Moves :
      (id : Text) (encoded : Bytes) (u : Uploading E)
      → has_key plan.chunk_order id ≡ true
      → stored_chunk tools store random plan id ≡ some encoded
      → Good u
      → (upload_missing tools store provider now plan id encoded u).1 ≡ true
      → Moves u (upload_missing tools store provider now plan id encoded u).0
        × Has (upload_missing tools store provider now plan id encoded u).0 id
  unfolding upload_missing
  upload_missing-Moves id encoded u ordered e g done =
      let room = make_room tools store provider now (length encoded) u in
      elim (Bool-cases room.1) [
        | inr full ↦ absurd (ground (arith, full))
        | inl fits ↦
            let first =
              make_room-Goes tools store provider stored is_store unique_packs now (length encoded)
                u g fits in
            let (second, has) = pack_chunk-Goes id encoded room.0 ordered e first.good in
            rw (fits, upload_missing)
              (
                Goes-trans tools store provider stored is_store unique_packs u room.0
                    (pack_chunk plan id encoded room.0) first second,
                has,
              )
      ]

  upload_chunk-Moves :
      (id : Text) (u : Uploading E)
      → has_key plan.chunk_order id ≡ true
      → Good u
      → (upload_chunk tools store provider now random plan id u).1 ≡ true
      → Moves u (upload_chunk tools store provider now random plan id u).0
        × Has (upload_chunk tools store provider now random plan id u).0 id
  unfolding upload_chunk
  upload_chunk-Moves id u ordered g done = elim (Bool-cases (is_some (get_key id u.locations))) [
    | inl there ↦
        rw (there, upload_chunk) (record { good = g; kept = λ j c. c }, ground (arith, there))
    | inr missing ↦ elim (Option-cases (stored_chunk tools store random plan id)) [
      | inl fails ↦ absurd (ground (arith, missing, fails))
      | inr (encoded, e) ↦
          rw (missing, e, upload_chunk)
            (upload_missing-Moves id encoded u ordered e g (ground (arith, missing, e)))
    ]
  ]

  cover_step :
      (v u : Uploading E) (id : Text) (ids : List Text) (j : Text)
      → Has v id
      → (Has u j → Has v j)
      → (has_key (id ∷ ids) j || covers u.locations u.pack_chunks j) ≡ true
      → (has_key ids j || covers v.locations v.pack_chunks j) ≡ true
  unfolding has_key
  cover_step v u id ids j has kept c = elim (Bool-cases (text_eq id j)) [
    | inl same ↦ ground (arith, subst (Has v) (text_eq→eq id j same) has)
    | inr other ↦ elim (Bool-cases (has_key ids j)) [
      | inl later ↦ ground (arith, later)
      | inr gone ↦ ground (arith, kept (ground (arith, other, gone)))
    ]
  ]

  -- When the loop ends well, the index has every chunk that it went over.
  pub upload_chunks-Moves :
      (ids : List Text) (u : Uploading E)
      → ((id : Text) → has_key ids id ≡ true → has_key plan.chunk_order id ≡ true)
      → Good u
      → (upload_chunks tools store provider now random plan ids u).1 ≡ true
      → Moves u (upload_chunks tools store provider now random plan ids u).0
        × ((id : Text)
            → (has_key ids id || covers u.locations u.pack_chunks id) ≡ true
            → is_some
                (get_key id (upload_chunks tools store provider now random plan ids u).0.locations)
              ≡ true)
  unfolding upload_chunks has_key get_key
  upload_chunks-Moves [] u inside g done =
      let (moves, empty) =
        flush-Goes tools store provider stored is_store unique_packs now u g done in
      (moves, λ id c. ground (arith, moves.kept id c, empty))
  upload_chunks-Moves (id ∷ ids) u inside g done =
      let r = upload_chunk tools store provider now random plan id u in
      elim (Bool-cases r.1) [
        | inr fails ↦ absurd (ground (arith, fails))
        | inl fine ↦
            let (first, has) =
              upload_chunk-Moves id u (inside id (ground (arith, text_eq_refl id))) g fine in
            let (rest, all) =
              upload_chunks-Moves ids r.0 (λ j m. inside j (ground (arith, m))) first.good
                (ground (arith, fine)) in
            rw (fine, upload_chunks)
              (
                Goes-trans tools store provider stored is_store unique_packs u r.0 _ first rest,
                λ j c. all j (cover_step r.0 u id ids j has (first.kept j) c),
              )
      ]
