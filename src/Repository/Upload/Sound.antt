-- ===== src/Repository/Upload/Sound.antt =====
-- What uploadMissingChunks keeps true: every location of the index at hand can be read, and so can
-- every chunk of the open pack (server/internal/backup/repository.go).
use backup_x.Base.{
  ℕ, ◌≡◌, refl, sym, ◌∙◌, ap, subst, Bool, true, inl, inr, List, [], ◌∷◌, Option, none, some,
  if◌then◌else◌, length, All, arith, Bool-cases,
}
use backup_x.Base.Text.{Text, text_eq, text_eq_refl, text_eq→eq}
use backup_x.Base.Int.{pos}
use backup_x.Repository.{
  Bytes, RepositoryStore, ChunkLocation, Provider, Tools, repository_format_version,
}
use backup_x.Repository.Keys.{pack_key, index_key, index_key-ne-pack_key}
use backup_x.Repository.Upload.{Uploading, opened_pack}
use backup_x.Repository.Packs.{upload_pack}
use backup_x.Repository.Packs.{located, with_pack, pack_id}
use backup_x.Repository.Upload.Packs.{IsPacked, IsStored, IsPacked-located}

-- What a provider promises of its objects: an upload that succeeds stores the bytes under the key
-- and leaves the other keys alone.
pub record IsStore {E : Type 0} (provider : Provider E) (stored : E → Text → Option Bytes)
    : Type 0 where
  pub upload_stores :
      (env : E) (key other : Text) (bytes : Bytes)
      → (provider.upload env key bytes).1 ≡ true
      → stored (provider.upload env key bytes).0 other
        ≡ (if text_eq key other then some bytes else stored env other)

-- Different packs have different keys, since SHA-256 has no collision.
abbrev pub HasNoPackCollision : Tools → Type 0
HasNoPackCollision tools =
    (pack pack' : Bytes)
    → pack_key (pack_id tools pack) ≡ pack_key (pack_id tools pack')
    → pack ≡ pack'

module _ (tools : Tools) (store : RepositoryStore) {E : Type 0} (provider : Provider E)
    (stored : E → Text → Option Bytes) (is_store : IsStore provider stored)
    (unique_packs : HasNoPackCollision tools) where
  abbrev pub IsKept : E → Text × ChunkLocation → Type 0
  IsKept env e = IsStored tools store stored env e.0 e.1

  abbrev pub IsInPack : Bytes → Text × ChunkLocation → Type 0
  IsInPack pack e = IsPacked tools store pack e.0 e.1

  pub record IsUploading (u : Uploading E) : Type 0 where
    pub indexed : All (IsKept u.env) u.locations
    pub packed : All (IsInPack (opened_pack u.pack_file)) u.pack_chunks
    pub sizes : u.pack_size ≡ length (opened_pack u.pack_file)
    pub closed : u.pack_file ≡ none → u.pack_chunks ≡ []

  -- An upload of a pack leaves what is stored readable.
  IsKept-upload_pack :
      (env : E) (pack : Bytes) (e : Text × ChunkLocation)
      → (provider.upload env (pack_key (pack_id tools pack)) pack).1 ≡ true
      → IsKept env e
      → IsKept (provider.upload env (pack_key (pack_id tools pack)) pack).0 e
  IsKept-upload_pack env pack e done k =
      let key = pack_key (pack_id tools pack) in
      let after = is_store.upload_stores env key e.1.pack pack done in
      record {
        pack = k.pack;
        there = elim (Bool-cases (text_eq key e.1.pack)) [
          | inr other ↦ after ∙ (rw other k.there)
          | inl same ↦
              after
              ∙ (rw same
                  (ap some (unique_packs pack k.pack (text_eq→eq key e.1.pack same ∙ k.keyed))))
        ];
        keyed = k.keyed;
        packed = k.packed;
      }

  IsKept-upload_index :
      (env : E) (id : Text) (bytes : Bytes) (e : Text × ChunkLocation)
      → (provider.upload env (index_key id) bytes).1 ≡ true
      → IsKept env e
      → IsKept (provider.upload env (index_key id) bytes).0 e
  IsKept-upload_index env id bytes e done k = record {
    pack = k.pack;
    there =
        is_store.upload_stores env (index_key id) e.1.pack bytes done
        ∙ (rw (k.keyed, index_key-ne-pack_key id (pack_id tools k.pack))
            (subst (λ key. stored env key ≡ some k.pack) k.keyed k.there));
    keyed = k.keyed;
    packed = k.packed;
  }

  -- What an upload of a pack with its index leaves when it succeeds.
  module _ (now : ℕ) (env : E) (pack : Bytes) (chunks : List (Text × ChunkLocation)) where
    abbrev sent : E × Bool
    sent = provider.upload env (pack_key (pack_id tools pack)) pack

    abbrev pub outcome : E × Option (Text × ℕ × ℕ)
    outcome = upload_pack tools provider now env pack chunks

    abbrev index_of : Bytes
    index_of = tools.marshal_segment (record {
      version = pos repository_format_version;
      created_at = now;
      pack = pack_key (pack_id tools pack);
      chunks = with_pack (pack_key (pack_id tools pack)) chunks;
    })

    abbrev indexed_after : E × Bool
    indexed_after = provider.upload sent.0 (index_key (pack_id tools pack)) index_of

    outcome_lem :
        {key : Text} {index_bytes pack_bytes : ℕ}
        → outcome.1 ≡ some (key, index_bytes, pack_bytes)
        → (sent.1 ≡ true)
          × (indexed_after.1 ≡ true)
          × (outcome.0 ≡ indexed_after.0)
          × (key ≡ pack_key (pack_id tools pack))
    unfolding upload_pack
    outcome_lem h = elim (Bool-cases sent.1) [
      | inr lost ↦ absurd (ground (arith, lost))
      | inl there ↦ elim (Bool-cases indexed_after.1) [
        | inr lost ↦ absurd (ground (arith, there, lost))
        | inl indexed ↦
            (there, indexed, ground (arith, there, indexed), ground (arith, there, indexed))
      ]
    ]

    pub IsKept-outcome :
        {key : Text} {index_bytes pack_bytes : ℕ}
        → outcome.1 ≡ some (key, index_bytes, pack_bytes)
        → (e : Text × ChunkLocation) → IsKept env e
        → IsKept outcome.0 e
    IsKept-outcome h e k =
        let (there, indexed, same, keyed) = outcome_lem h in
        subst (λ x. IsKept x e) (sym same)
          (IsKept-upload_index sent.0 (pack_id tools pack) index_of e indexed
            (IsKept-upload_pack env pack e there k))

    -- The chunks of the pack can be read.
    IsKept-located :
        {key : Text} {index_bytes pack_bytes : ℕ}
        → outcome.1 ≡ some (key, index_bytes, pack_bytes)
        → (e : Text × ChunkLocation) → IsInPack pack e
        → IsKept outcome.0 (e.0, located key e.1)
    IsKept-located {key} h e p =
        let (there, indexed, same, keyed) = outcome_lem h in
        let own = pack_key (pack_id tools pack) in
        let stored_pack : stored sent.0 own ≡ some pack =
          is_store.upload_stores env own own pack there ∙ (rw (text_eq_refl own) refl) in
        let kept : IsKept sent.0 (e.0, located own e.1) = record {
          pack = pack;
          there = stored_pack;
          keyed = refl;
          packed = IsPacked-located tools store pack e.0 own e.1 p;
        } in
        subst (λ k. IsKept outcome.0 (e.0, located k e.1)) (sym keyed)
          (subst (λ x. IsKept x (e.0, located own e.1)) (sym same)
            (IsKept-upload_index sent.0 (pack_id tools pack) index_of (e.0, located own e.1) indexed
              kept))

    pub All-IsKept-with_pack :
        {key : Text} {index_bytes pack_bytes : ℕ}
        → outcome.1 ≡ some (key, index_bytes, pack_bytes)
        → (cs : List (Text × ChunkLocation)) → All (IsInPack pack) cs
        → All (IsKept outcome.0) (with_pack key cs)
    unfolding with_pack
    All-IsKept-with_pack h [] all = tt
    All-IsKept-with_pack h (c ∷ cs) all =
        (IsKept-located h c all.0, All-IsKept-with_pack h cs all.1)
