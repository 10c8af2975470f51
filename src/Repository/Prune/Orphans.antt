-- ===== src/Repository/Prune/Orphans.antt =====
-- The packs without an index, and the whole of Prune (server/internal/backup/repository.go): no
-- live chunk is lost.
use backup_x.Base.{
  ℕ, ◌≡◌, refl, sym, subst, Bool, true, false, inl, inr, List, [], ◌∷◌, ◌++◌, some, if◌then◌else◌,
  All, Among, arith, Bool-cases, Option-cases,
}
use backup_x.Base.Text.{Text, text_eq, text_eq→eq}
use backup_x.Base.Dict.{put_key, has_key, All-put_key}
use backup_x.Repository.{RepositoryStore, IndexSegment, ObjectInfo, Provider, Tools}
use backup_x.Repository.Keys.{repository_pack_prefix, index_key}
use backup_x.Repository.Index.{read_index_segment}
use backup_x.Repository.Prune.{
  Pruning, any_live, remove_size, delete_segment, prune_segment, prune_index, prune_indexes,
  delete_orphan, prune_packs, sizes_of,
}
use backup_x.Repository.Prune.Live.{DeletesOne, IsSaved, IsKeptPack, IsSaved-delete_object}

pub pack_prefix-ne-index_key :
    (rest id : Text) → text_eq (repository_pack_prefix ++ rest) (index_key id) ≡ false
unfolding text_eq index_key
pack_prefix-ne-index_key rest id = refl

module _ (P : Text × ℕ → Type 0) where
  All-remove_size : (k : Text) (sizes : List (Text × ℕ)) → All P sizes → All P (remove_size k sizes)
  unfolding remove_size
  All-remove_size k [] all = tt
  All-remove_size k ((j, n) ∷ sizes) all = elim (Bool-cases (text_eq j k)) [
    | inl same ↦ rw same (All-remove_size k sizes all.1)
    | inr other ↦ rw other (all.0, All-remove_size k sizes all.1)
  ]

  pub All-sizes_of :
      (objects : List ObjectInfo) (sizes : List (Text × ℕ))
      → All P sizes
      → ((o : ObjectInfo) → Among o objects → P (o.key, o.size))
      → All P (sizes_of sizes objects)
  unfolding sizes_of
  All-sizes_of [] sizes all each = all
  All-sizes_of (o ∷ os) sizes all each =
      All-sizes_of os (put_key o.key o.size sizes)
        (All-put_key P o.key o.size sizes all (each o (inl refl))) (λ x m. each x (inr m))

  module _ (tools : Tools) (store : RepositoryStore) {E : Type 0} (provider : Provider E) where
    All-delete_segment :
        (key : Text) (segment : IndexSegment) (p : Pruning E)
        → All P p.pack_sizes
        → All P (delete_segment tools store provider key segment p).0.pack_sizes
    unfolding delete_segment
    All-delete_segment key segment p all = elim (Bool-cases (provider.delete_object p.env key).1) [
      | inr lost ↦ rw (lost, delete_segment) all
      | inl gone ↦
          elim (Bool-cases
            (provider.delete_object (provider.delete_object p.env key).0 segment.pack).1) [
              | inr lost ↦ rw (gone, lost, delete_segment) all
              | inl pack_gone ↦
                  rw (gone, pack_gone, delete_segment)
                    (All-remove_size segment.pack p.pack_sizes all)
            ]
    ]

    All-prune_index :
        (live : List Text) (o : ObjectInfo) (p : Pruning E)
        → All P p.pack_sizes
        → All P (prune_index tools store provider live o p).0.pack_sizes
    unfolding prune_index prune_segment
    All-prune_index live o p all =
        elim (Option-cases (read_index_segment tools store provider p.env o.key)) [
          | inl bad ↦ rw (bad, prune_index) all
          | inr (segment, found) ↦ elim (Bool-cases (any_live live segment.chunks)) [
            | inl kept ↦ rw (found, kept, prune_index) all
            | inr dead ↦ rw (found, dead, prune_index) (All-delete_segment o.key segment p all)
          ]
        ]

    pub All-prune_indexes :
        (live : List Text) (objects : List ObjectInfo) (p : Pruning E)
        → All P p.pack_sizes
        → All P (prune_indexes tools store provider live objects p).0.pack_sizes
    unfolding prune_indexes
    All-prune_indexes live [] p all = all
    All-prune_indexes live (o ∷ os) p all =
        elim (Bool-cases (prune_index tools store provider live o p).1) [
          | inr fails ↦ rw (fails, prune_indexes) (All-prune_index live o p all)
          | inl fine ↦
              rw (fine, prune_indexes)
                (All-prune_indexes live os (prune_index tools store provider live o p).0
                  (All-prune_index live o p all))
        ]

module _ (tools : Tools) (store : RepositoryStore) {E : Type 0} (provider : Provider E)
    (deletes : DeletesOne provider) (live : List Text) (env : E) (key : Text)
    (segment : IndexSegment)
    (segment_read : read_index_segment tools store provider env key ≡ some segment)
    (needed : any_live live segment.chunks ≡ true) where
  abbrev pub Saved : E → Type 0
  Saved env' = IsSaved tools store provider deletes live env key segment segment_read needed env'

  abbrev pub KeptPack : Pruning E → Type 0
  KeptPack p = IsKeptPack tools store provider deletes live env key segment segment_read needed p

  -- No size is that of the index.
  abbrev pub IsOther : Text × ℕ → Type 0
  IsOther s = text_eq s.0 key ≡ false

  delete_orphan-env :
      (pack : Text) (size : ℕ) (p : Pruning E)
      → (delete_orphan tools store provider pack size p).0.env
        ≡ (provider.delete_object p.env pack).0
  unfolding delete_orphan
  delete_orphan-env pack size p = ground arith

  delete_orphan-kept_packs :
      (pack : Text) (size : ℕ) (p : Pruning E)
      → (delete_orphan tools store provider pack size p).0.kept_packs ≡ p.kept_packs
  unfolding delete_orphan
  delete_orphan-kept_packs pack size p = ground arith

  -- One round over the packs.
  abbrev pack_round : Text → ℕ → Pruning E → Pruning E × Bool
  pack_round pack size p =
      if has_key p.kept_packs pack
      then (p, true)
      else delete_orphan tools store provider pack size p

  pack_round-Saved :
      (pack : Text) (size : ℕ) (p : Pruning E)
      → IsOther (pack, size)
      → KeptPack p
      → Saved p.env
      → Saved (pack_round pack size p).0.env × KeptPack (pack_round pack size p).0
  pack_round-Saved pack size p other kept s = elim (Bool-cases (has_key p.kept_packs pack)) [
    | inl keep ↦ rw keep (s, kept)
    | inr orphan ↦
        let apart : text_eq pack segment.pack ≡ false =
          ground (arith, orphan, kept, text_eq→eq pack segment.pack) in
        rw orphan (
          subst Saved (sym (delete_orphan-env pack size p)) (
              IsSaved-delete_object tools store provider deletes live env key segment segment_read
                needed p.env pack other apart s),
          ground (arith, kept, delete_orphan-kept_packs pack size p),
        )
  ]

  pub prune_packs-Saved :
      (sizes : List (Text × ℕ)) (p : Pruning E)
      → All IsOther sizes
      → KeptPack p
      → Saved p.env
      → Saved (prune_packs tools store provider sizes p).0.env
  unfolding prune_packs
  prune_packs-Saved [] p all kept s = s
  prune_packs-Saved ((pack, size) ∷ sizes) p all kept s =
      let (saved, kept') = pack_round-Saved pack size p all.0 kept s in
      elim (Bool-cases (pack_round pack size p).1) [
        | inr fails ↦ rw (fails, prune_packs) saved
        | inl fine ↦
            rw (fine, prune_packs)
              (prune_packs-Saved sizes (pack_round pack size p).0 all.1 kept' saved)
      ]
