-- ===== src/Repository/Prune/Keeps.antt =====
-- The whole of Prune (server/internal/backup/repository.go): the chunks of the snapshots stay.
use backup_x.Base.{
  ◌≡◌, refl, sym, ◌∙◌, ap, subst, Bool, true, false, inl, inr, List, [], ◌∷◌, ◌++◌, some, is_some,
  Among, arith, Bool-cases, Option-cases,
}
use mathlib.Core.Path.{ap₂}
use backup_x.Base.Text.{Text, text_eq, text_lt, text_eq→eq}
use backup_x.Base.Dict.{get_key, has_key, has_key-append}
use backup_x.Repository.{
  RepositoryStore, RepositoryEntry, RepositorySnapshot, ChunkLocation, IndexSegment, ObjectInfo,
  Provider, Tools,
}
use backup_x.Repository.Keys.{
  repository_index_prefix, repository_pack_prefix, repository_snapshot_root, index_id-index_key,
}
use backup_x.Repository.Index.{sort_objects, insert_object, read_index_segment}
use backup_x.Repository.Snapshot.{load_snapshot}
use backup_x.Repository.Prune.{
  Pruning, entry_chunks, any_live, live_chunks, prune_indexes, prune_objects, prune_live, prune,
  sizes_of, finish_prune,
}
use backup_x.Repository.Prune.Live.{
  DeletesOne, ListsPacks, prune_indexes-IsSaved, read_index_segment_keys,
}
use backup_x.Repository.Prune.Orphans.{
  All-sizes_of, All-prune_indexes, prune_packs-Saved, pack_prefix-ne-index_key,
}

any_live-get_key :
    (id : Text) (live : List Text) (chunks : List (Text × ChunkLocation))
    → is_some (get_key id chunks) ≡ true
    → has_key live id ≡ true
    → any_live live chunks ≡ true
unfolding any_live get_key
any_live-get_key id live [] h l = absurd (cc)
any_live-get_key id live ((j, location) ∷ chunks) h l =
    ground (arith, any_live-get_key id live chunks, text_eq→eq j id)

entry_chunks_has :
    (id : Text) (live : List Text) (entries : List RepositoryEntry)
    → ((has_key live id ≡ true) → has_key (entry_chunks live entries) id ≡ true)
      × ((entry : RepositoryEntry)
          → Among entry entries
          → has_key entry.chunks id ≡ true
          → has_key (entry_chunks live entries) id ≡ true)
unfolding entry_chunks
entry_chunks_has id live [] = (λ l. l, λ entry m. absurd m)
entry_chunks_has id live (e ∷ es) =
    let (later, among) = entry_chunks_has id (e.chunks ++ live) es in
    (
      λ l. later (ground (arith, l, has_key-append e.chunks live id)),
      λ entry m h. elim m [
        | inr rest ↦ among entry rest h
        | inl same ↦
            let own : has_key e.chunks id ≡ true =
              ap (λ (x : RepositoryEntry). has_key x.chunks id) (sym same) ∙ h in
            later (ground (arith, own, has_key-append e.chunks live id))
      ],
    )

Among-insert_object :
    (o x : ObjectInfo) (os : List ObjectInfo) → Among o (x ∷ os) → Among o (insert_object x os)
unfolding insert_object
Among-insert_object o x [] m = m
Among-insert_object o x (y ∷ os) m = elim (Bool-cases (text_lt y.key x.key)) [
  | inr before ↦ rw before m
  | inl after ↦ rw after (elim m [
    | inl same ↦ inr (Among-insert_object o x os (inl same))
    | inr (inl same) ↦ inl same
    | inr (inr rest) ↦ inr (Among-insert_object o x os (inr rest))
  ])
]

Among-sort_objects :
    (o : ObjectInfo) (os : List ObjectInfo) → Among o os → Among o (sort_objects os)
unfolding sort_objects
Among-sort_objects o [] m = m
Among-sort_objects o (x ∷ os) (inl same) = Among-insert_object o x (sort_objects os) (inl same)
Among-sort_objects o (x ∷ os) (inr rest) =
    Among-insert_object o x (sort_objects os) (inr (Among-sort_objects o os rest))

module _ (tools : Tools) (store : RepositoryStore) {E : Type 0} (provider : Provider E) where
  live_chunks_has :
      (env : E) (id : Text) (live : List Text) (objects : List ObjectInfo) {all : List Text}
      → live_chunks tools store provider env live objects ≡ some all
      → ((has_key live id ≡ true) → has_key all id ≡ true)
        × ((o : ObjectInfo) (snapshot : RepositorySnapshot) (entry : RepositoryEntry)
            → Among o objects
            → load_snapshot tools store provider env o.key [] ≡ some snapshot
            → Among entry snapshot.entries
            → has_key entry.chunks id ≡ true
            → has_key all id ≡ true)
  unfolding live_chunks
  live_chunks_has env id live [] {all} h = (λ l. ground (arith, l), λ o snapshot entry m. absurd m)
  live_chunks_has env id live (object ∷ objects) {all} h =
      elim (Option-cases (load_snapshot tools store provider env object.key [])) [
        | inl bad ↦ absurd (ground (arith, bad))
        | inr (found, e) ↦
            let live' = entry_chunks live found.entries in
            let (later, among) =
              live_chunks_has env id live' objects {all = all} (ground (arith, e)) in
            let (kept, own) = entry_chunks_has id live found.entries in
            (
              λ l. later (kept l),
              λ o snapshot entry m loaded inside has. elim m [
                | inr rest ↦ among o snapshot entry rest loaded inside has
                | inl same ↦
                    let snapshots : some snapshot ≡ some found =
                      sym loaded
                      ∙ ap (λ (x : ObjectInfo). load_snapshot tools store provider env x.key [])
                          same
                      ∙ e in
                    let eq : snapshot ≡ found = ground (arith, snapshots) in
                    later (
                      own entry
                        (subst (λ (x : RepositorySnapshot). Among entry x.entries) eq inside) has)
              ],
            )
      ]

  finish_prune-env : (r : Pruning E × Bool) → (finish_prune tools store provider r).0 ≡ r.0.env
  unfolding finish_prune
  finish_prune-env (p, true) = refl
  finish_prune-env (p, false) = refl

  module _ (deletes : DeletesOne provider) (env : E) (index : ObjectInfo) (segment : IndexSegment)
      (segment_read : read_index_segment tools store provider env index.key ≡ some segment) where
    -- The index and its pack can be read as before.
    abbrev Stays : E → Type 0
    Stays env' =
        (provider.download env' index.key ≡ provider.download env index.key)
        × (provider.download env' segment.pack ≡ provider.download env segment.pack)

    listed_pack-IsOther :
        (packs : List ObjectInfo)
        → ListsPacks provider env
        → provider.list_objects env repository_pack_prefix ≡ some packs
        → (o : ObjectInfo) → Among o packs
        → text_eq o.key index.key ≡ false
    listed_pack-IsOther packs lists listed o m =
        let (rest, front) = lists packs listed o m in
        let (id, e, pack) =
          read_index_segment_keys tools store provider deletes env index.key segment_read in
        ap₂ text_eq front (index_id-index_key index.key e) ∙ pack_prefix-ne-index_key rest id

    prune_objects-Stays :
        (live : List Text) (indexes packs : List ObjectInfo)
        → any_live live segment.chunks ≡ true
        → Among index indexes
        → ((o : ObjectInfo) → Among o packs → text_eq o.key index.key ≡ false)
        → Stays (prune_objects tools store provider live indexes packs env).0.env
    unfolding prune_objects
    prune_objects-Stays live indexes packs needed listed others =
        let start : Pruning E = record {
          env = env;
          kept_packs = [];
          pack_sizes = sizes_of [] packs;
          result = record { deleted_indexes = 0; deleted_packs = 0; reclaimed_bytes = 0 };
        } in
        let r = prune_indexes tools store provider live indexes start in
        let (saved, kept, own) =
          prune_indexes-IsSaved tools store provider deletes live env index.key segment segment_read
            needed indexes start (refl, refl) in
        let sizes =
          All-prune_indexes (λ s. text_eq s.0 index.key ≡ false) tools store provider live indexes
            start (All-sizes_of (λ s. text_eq s.0 index.key ≡ false) packs [] tt others) in
        elim (Bool-cases r.1) [
          | inr fails ↦ rw (fails, prune_objects) saved
          | inl fine ↦
              rw (fine, prune_objects)
                (prune_packs-Saved tools store provider deletes live env index.key segment
                  segment_read needed r.0.pack_sizes r.0 sizes (own index listed refl fine) saved)
        ]

    prune_live-Stays :
        (live : List Text) (indexes : List ObjectInfo)
        → ListsPacks provider env
        → provider.list_objects env repository_index_prefix ≡ some indexes
        → Among index indexes
        → any_live live segment.chunks ≡ true
        → Stays (prune_live tools store provider live env).0
    unfolding prune_live
    prune_live-Stays live indexes lists listed among needed =
        elim (Option-cases (provider.list_objects env repository_pack_prefix)) [
          | inl bad ↦ rw (listed, bad, prune_live) (refl, refl)
          | inr (packs, packs_listed) ↦
              rw (listed, packs_listed, prune_live)
                (subst Stays
                  (sym
                    (finish_prune-env (prune_objects tools store provider live indexes packs env)))
                  (prune_objects-Stays live indexes packs needed among
                    (listed_pack-IsOther packs lists packs_listed)))
        ]

    -- Pruning loses no chunk that a snapshot names, whatever fails on the way: when a snapshot that
    -- is listed and can be read names a chunk, and an index that is listed and can be read has it,
    -- then after Prune this index and its pack can be downloaded, or not, just as before. A
    -- deletion leaves the other keys alone, and what the provider lists for the packs has their
    -- prefix.
    pub prune_keeps_live :
        ListsPacks provider env
        → (snapshots indexes : List ObjectInfo)
        → provider.list_objects env repository_snapshot_root ≡ some snapshots
        → provider.list_objects env repository_index_prefix ≡ some indexes
        → Among index indexes
        → (o : ObjectInfo) (snapshot : RepositorySnapshot) (entry : RepositoryEntry) (id : Text)
        → Among o snapshots
        → load_snapshot tools store provider env o.key [] ≡ some snapshot
        → Among entry snapshot.entries
        → has_key entry.chunks id ≡ true
        → is_some (get_key id segment.chunks) ≡ true
        → (provider.download (prune tools store provider env).0 index.key
            ≡ provider.download env index.key)
          × (provider.download (prune tools store provider env).0 segment.pack
              ≡ provider.download env segment.pack)
    unfolding prune
    prune_keeps_live lists snapshots indexes s_listed i_listed among o snapshot entry id m loaded
          inside named found =
        elim (Option-cases (live_chunks tools store provider env [] (sort_objects snapshots))) [
          | inl bad ↦ rw (s_listed, bad, prune) (refl, refl)
          | inr (live, e) ↦
              let (later, has) = live_chunks_has env id [] (sort_objects snapshots) e in
              rw (s_listed, e, prune)
                (prune_live-Stays live indexes lists i_listed among (
                  any_live-get_key id live segment.chunks found
                    (has o snapshot entry (Among-sort_objects o snapshots m) loaded inside named)))
        ]
