-- ===== src/Repository/Prune/Live.antt =====
-- Pruning keeps what the snapshots need (Prune in server/internal/backup/repository.go).
use backup_x.Base.{
  ◌≡◌, ◌≢◌, sym, ◌∙◌, ap, subst, Bool, true, false, inl, inr, List, [], ◌∷◌, ◌++◌, some, Among,
  arith, Bool-cases, Option-cases,
}
use mathlib.Core.Path.{ap₂}
use backup_x.Base.Text.{Text, text_eq, text_eq_refl, text_eq→eq}
use backup_x.Base.Dict.{has_key}
use backup_x.Repository.{RepositoryStore, IndexSegment, ObjectInfo, Provider, Tools}
use backup_x.Repository.Keys.{
  repository_pack_prefix, pack_key, index_key, index_id, index_id-index_key, index_key-ne-pack_key,
  pack_key-ne-index_key, pack_key-injective,
}
use backup_x.Repository.Index.{check_segment, decode_segment, read_index_segment}
use backup_x.Repository.Prune.{
  Pruning, any_live, delete_segment, prune_segment, prune_index, prune_indexes,
}

text_ne : (a b : Text) → a ≢ b → text_eq a b ≡ false
text_ne a b ne = elim (Bool-cases (text_eq a b)) [
  | inl same ↦ absurd (ne (text_eq→eq a b same))
  | inr other ↦ other
]

-- What a provider promises of deletions: they leave the other keys alone, whether they succeed or
-- fail.
pub record DeletesOne {E : Type 0} (provider : Provider E) : Type 0 where
  pub download-delete :
      (env : E) (key other : Text)
      → text_eq key other ≡ false
      → provider.download (provider.delete_object env key).0 other ≡ provider.download env other

-- The objects that a provider lists for the packs are no indexes.
abbrev pub ListsPacks : {E : Type 0} → Provider E → E → Type 0
ListsPacks provider env =
    (objects : List ObjectInfo)
    → provider.list_objects env repository_pack_prefix ≡ some objects
    → (o : ObjectInfo) → Among o objects
    → (rest : Text) × (o.key ≡ repository_pack_prefix ++ rest)

module _ (tools : Tools) (store : RepositoryStore) {E : Type 0} (provider : Provider E)
    (deletes : DeletesOne provider) where
  -- A segment that can be read is that of its key's id, and names the pack of that id.
  pub read_index_segment_keys :
      (env : E) (key : Text) {segment : IndexSegment}
      → read_index_segment tools store provider env key ≡ some segment
      → (id : Text) × (index_id key ≡ some id) × (segment.pack ≡ pack_key id)
  unfolding read_index_segment decode_segment check_segment
  read_index_segment_keys env key {segment} h = elim (Option-cases (index_id key)) [
    | inl bad ↦ absurd (ground (arith, bad))
    | inr (id, e) ↦ elim (Option-cases (provider.download env key)) [
      | inl bad ↦ absurd (ground (arith, e, bad))
      | inr (bytes, d) ↦ elim (Option-cases (tools.unmarshal_segment bytes)) [
        | inl bad ↦ absurd (ground (arith, e, d, bad))
        | inr (found, u) ↦ (id, e, ground (arith, e, d, u, text_eq→eq found.pack (pack_key id)))
      ]
    ]
  ]

  read_index_segment-download :
      (env env' : E) (key : Text)
      → provider.download env' key ≡ provider.download env key
      → read_index_segment tools store provider env' key
        ≡ read_index_segment tools store provider env key
  unfolding read_index_segment
  read_index_segment-download env env' key h = ground arith

  module _ (live : List Text) (env : E) (key : Text) (segment : IndexSegment)
      (segment_read : read_index_segment tools store provider env key ≡ some segment)
      (needed : any_live live segment.chunks ≡ true) where
    -- The index and its pack are as they were.
    abbrev pub IsSaved : E → Type 0
    IsSaved env' =
        (provider.download env' key ≡ provider.download env key)
        × (provider.download env' segment.pack ≡ provider.download env segment.pack)

    pub IsSaved-delete_object :
        (env' : E) (other : Text)
        → text_eq other key ≡ false
        → text_eq other segment.pack ≡ false
        → IsSaved env'
        → IsSaved (provider.delete_object env' other).0
    IsSaved-delete_object env' other k p s = (
      deletes.download-delete env' other key k ∙ s.0,
      deletes.download-delete env' other segment.pack p ∙ s.1,
    )

    -- A segment of another key, and its pack, are not those of the segment that is needed.
    other_segment :
        (env' : E) (other : Text) {found : IndexSegment}
        → other ≢ key
        → read_index_segment tools store provider env' other ≡ some found
        → (text_eq other key ≡ false)
          × (text_eq other segment.pack ≡ false)
          × (text_eq found.pack key ≡ false)
          × (text_eq found.pack segment.pack ≡ false)
    other_segment env' other {found} ne h =
        let (id, e, pack) = read_index_segment_keys env key segment_read in
        let (id', e', pack') = read_index_segment_keys env' other h in
        let k : key ≡ index_key id = index_id-index_key key e in
        let o : other ≡ index_key id' = index_id-index_key other e' in
        (
          text_ne other key ne,
          ap₂ text_eq o pack ∙ index_key-ne-pack_key id' id,
          ap₂ text_eq pack' k ∙ pack_key-ne-index_key id' id,
          text_ne found.pack segment.pack (λ same.
              ne (o ∙ ap index_key (pack_key-injective id' id (sym pack' ∙ same ∙ pack)) ∙ sym k)),
        )

    delete_segment-IsSaved :
        (other : Text) (found : IndexSegment) (p : Pruning E)
        → other ≢ key
        → read_index_segment tools store provider p.env other ≡ some found
        → IsSaved p.env
        → IsSaved (delete_segment tools store provider other found p).0.env
    unfolding delete_segment
    delete_segment-IsSaved other found p ne h s =
        let (ok, op, fk, fp) = other_segment p.env other ne h in
        let first = IsSaved-delete_object p.env other ok op s in
        let both =
          IsSaved-delete_object (provider.delete_object p.env other).0 found.pack fk fp first in
        elim (Bool-cases (provider.delete_object p.env other).1) [
          | inr lost ↦ rw (lost, delete_segment) first
          | inl gone ↦
              elim (Bool-cases
                (provider.delete_object (provider.delete_object p.env other).0 found.pack).1) [
                  | inr lost ↦ rw (gone, lost, delete_segment) both
                  | inl pack_gone ↦ rw (gone, pack_gone, delete_segment) both
                ]
        ]

    delete_segment-kept_packs :
        (other : Text) (found : IndexSegment) (p : Pruning E)
        → (delete_segment tools store provider other found p).0.kept_packs ≡ p.kept_packs
    unfolding delete_segment
    delete_segment-kept_packs other found p = ground arith

    abbrev pub IsKeptPack : Pruning E → Type 0
    IsKeptPack p = has_key p.kept_packs segment.pack ≡ true

    -- One round over the indexes.
    abbrev Rounds : ObjectInfo → Pruning E → Pruning E × Bool → Type 0
    Rounds o p r =
        IsSaved r.0.env
        × (IsKeptPack p → IsKeptPack r.0)
        × ((o.key ≡ key) → (r.1 ≡ true) → IsKeptPack r.0)

    prune_index-Rounds :
        (o : ObjectInfo) (p : Pruning E)
        → IsSaved p.env
        → Rounds o p (prune_index tools store provider live o p)
    unfolding prune_index prune_segment has_key
    prune_index-Rounds o p s = elim (Bool-cases (text_eq o.key key)) [
      | inl equal ↦
          let same = text_eq→eq o.key key equal in
          let found : read_index_segment tools store provider p.env o.key ≡ some segment =
            ap (read_index_segment tools store provider p.env) same
            ∙ read_index_segment-download env p.env key s.0
            ∙ segment_read in
          let step : prune_index tools store provider live o p
              ≡ (record p { kept_packs = segment.pack ∷ p.kept_packs }, true) =
            ground (arith, found, needed) in
          subst (Rounds o p) (sym step)
            (s, λ k. ground (arith, k), λ e d. ground (arith, text_eq_refl segment.pack))
      | inr other ↦
          let ne : o.key ≢ key = λ e. ground (arith, other, e, text_eq_refl key) in
          elim (Option-cases (read_index_segment tools store provider p.env o.key)) [
            | inl bad ↦
                let step : prune_index tools store provider live o p ≡ (p, false) =
                  ground (arith, bad) in
                subst (Rounds o p) (sym step) (s, λ k. k, λ e d. absurd (ne e))
            | inr (found, read_found) ↦ elim (Bool-cases (any_live live found.chunks)) [
              | inl kept ↦
                  let step : prune_index tools store provider live o p
                      ≡ (record p { kept_packs = found.pack ∷ p.kept_packs }, true) =
                    ground (arith, read_found, kept) in
                  subst (Rounds o p) (sym step) (s, λ k. ground (arith, k), λ e d. absurd (ne e))
              | inr dead ↦
                  let step : prune_index tools store provider live o p
                      ≡ delete_segment tools store provider o.key found p =
                    ground (arith, read_found, dead) in
                  subst (Rounds o p) (sym step) (
                    delete_segment-IsSaved o.key found p ne read_found s,
                    λ k. ground (arith, k, delete_segment-kept_packs o.key found p),
                    λ e d. absurd (ne e),
                  )
            ]
          ]
    ]

    pub prune_indexes-IsSaved :
        (objects : List ObjectInfo) (p : Pruning E)
        → IsSaved p.env
        → let r = prune_indexes tools store provider live objects p in
          IsSaved r.0.env
          × (IsKeptPack p → IsKeptPack r.0)
          × ((o : ObjectInfo) → Among o objects → (o.key ≡ key) → (r.1 ≡ true) → IsKeptPack r.0)
    unfolding prune_indexes
    prune_indexes-IsSaved [] p s = (s, λ k. k, λ o m. absurd m)
    prune_indexes-IsSaved (object ∷ objects) p s =
        let (saved, kept, own) = prune_index-Rounds object p s in
        let r = prune_index tools store provider live object p in
        elim (Bool-cases r.1) [
          | inr fails ↦ rw (fails, prune_indexes) (saved, kept, λ o m e d. absurd (cc))
          | inl fine ↦
              let (saved', kept', others) = prune_indexes-IsSaved objects r.0 saved in
              rw (fine, prune_indexes)
                (
                  saved',
                  λ k. kept' (kept k),
                  λ o m e d. elim m [
                    | inl same ↦ kept' (own (ap (λ (x : ObjectInfo). x.key) (sym same) ∙ e) fine)
                    | inr later ↦ others o later e d
                  ],
                )
        ]
