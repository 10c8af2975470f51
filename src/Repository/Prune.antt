-- ===== src/Repository/Prune.antt =====
-- Pruning: the index segments without a live chunk go with their packs, then the packs without an
-- index (Prune in server/internal/backup/repository.go). A map of sizes by pack is an association
-- list, in whose order the orphans go.
pub mod Live
pub mod Orphans
pub mod Keeps
mod Tests
use backup_x.Base.{
  ℕ, ◌+◌, Bool, true, false, not, ◌||◌, List, [], ◌∷◌, ◌++◌, Option, none, some, if◌then◌else◌,
}
use backup_x.Base.Text.{Text, text_eq}
use backup_x.Base.Dict.{get_key, put_key, has_key}
use backup_x.Repository.{
  RepositoryStore, RepositoryEntry, ChunkLocation, IndexSegment, ObjectInfo, Provider, Tools,
}
use backup_x.Repository.Keys.{
  repository_index_prefix, repository_pack_prefix, repository_snapshot_root,
}
use backup_x.Repository.Index.{sort_objects, read_index_segment}
use backup_x.Repository.Snapshot.{load_snapshot}

pub record PruneResult : Type 0 where
  pub deleted_indexes : ℕ
  pub deleted_packs : ℕ
  pub reclaimed_bytes : ℕ

-- The variables of Prune, with the state of the provider.
pub record Pruning (E : Type 0) : Type 0 where
  pub env : E
  pub kept_packs : List Text
  pub pack_sizes : List (Text × ℕ)
  pub result : PruneResult

-- The loop over the entries of a snapshot.
unfoldable pub entry_chunks : List Text → List RepositoryEntry → List Text
entry_chunks live [] = live
entry_chunks live (entry ∷ entries) = entry_chunks (entry.chunks ++ live) entries

-- Whether some chunk of a segment is live.
unfoldable pub any_live : List Text → List (Text × ChunkLocation) → Bool
any_live live [] = false
any_live live ((id, location) ∷ chunks) = has_key live id || any_live live chunks

unfoldable pub sizes_of : List (Text × ℕ) → List ObjectInfo → List (Text × ℕ)
sizes_of sizes [] = sizes
sizes_of sizes (o ∷ os) = sizes_of (put_key o.key o.size sizes) os

unfoldable pub remove_size : Text → List (Text × ℕ) → List (Text × ℕ)
remove_size k [] = []
remove_size k ((j, n) ∷ sizes) =
    let rest = remove_size k sizes in if text_eq j k then rest else (j, n) ∷ rest

unfoldable pub size_or_zero : Text → List (Text × ℕ) → ℕ
size_or_zero k sizes = elim (get_key k sizes) [ none ↦ 0 | some n ↦ n ]

module _ (tools : Tools) (store : RepositoryStore) {E : Type 0} (provider : Provider E) where
  -- The loop over the snapshots; a snapshot that cannot be read ends it.
  unfoldable pub live_chunks : E → List Text → List ObjectInfo → Option (List Text)
  live_chunks env live [] = some live
  live_chunks env live (object ∷ objects) =
      elim (load_snapshot tools store provider env object.key []) [
        | none ↦ none
        | some snapshot ↦ live_chunks env (entry_chunks live snapshot.entries) objects
      ]

  -- A segment without a live chunk: its index goes first, then its pack.
  unfoldable pub delete_segment : Text → IndexSegment → Pruning E → Pruning E × Bool
  delete_segment key segment p =
      let (env', gone) = provider.delete_object p.env key in
      let (env'', pack_gone) = provider.delete_object env' segment.pack in
      let half = record p {
        env = env'';
        result = record p.result { deleted_indexes = p.result.deleted_indexes + 1 };
      } in
      if not gone
      then (record p { env = env' }, false)
      else if not pack_gone
      then (half, false)
      else (
        record half {
          pack_sizes = remove_size segment.pack p.pack_sizes;
          result = record {
            deleted_indexes = p.result.deleted_indexes + 1;
            deleted_packs = p.result.deleted_packs + 1;
            reclaimed_bytes = p.result.reclaimed_bytes + size_or_zero segment.pack p.pack_sizes;
          };
        },
        true,
      )

  unfoldable pub prune_segment : List Text → Text → IndexSegment → Pruning E → Pruning E × Bool
  prune_segment live key segment p =
      if any_live live segment.chunks
      then (record p { kept_packs = segment.pack ∷ p.kept_packs }, true)
      else delete_segment key segment p

  -- The body of the loop over the indexes.
  unfoldable pub prune_index : List Text → ObjectInfo → Pruning E → Pruning E × Bool
  prune_index live object p = elim (read_index_segment tools store provider p.env object.key) [
    | none ↦ (p, false)
    | some segment ↦ prune_segment live object.key segment p
  ]

  unfoldable pub prune_indexes : List Text → List ObjectInfo → Pruning E → Pruning E × Bool
  prune_indexes live [] p = (p, true)
  prune_indexes live (object ∷ objects) p =
      let (p', done) = prune_index live object p in
      let rest = prune_indexes live objects p' in if done then rest else (p', false)

  unfoldable pub delete_orphan : Text → ℕ → Pruning E → Pruning E × Bool
  delete_orphan key size p =
      let (env', gone) = provider.delete_object p.env key in
      let after = record p { env = env' } in
      if not gone then (after, false) else (
        record after {
          result = record p.result {
            deleted_packs = p.result.deleted_packs + 1;
            reclaimed_bytes = p.result.reclaimed_bytes + size;
          };
        },
        true,
      )

  -- The loop over the sizes that are left.
  unfoldable pub prune_packs : List (Text × ℕ) → Pruning E → Pruning E × Bool
  prune_packs [] p = (p, true)
  prune_packs ((key, size) ∷ sizes) p =
      let (p', done) = if has_key p.kept_packs key then (p, true) else delete_orphan key size p in
      let rest = prune_packs sizes p' in if done then rest else (p', false)

  unfoldable pub prune_objects :
      List Text → List ObjectInfo → List ObjectInfo → E → Pruning E × Bool
  prune_objects live indexes packs env =
      let start : Pruning E = record {
        env = env;
        kept_packs = [];
        pack_sizes = sizes_of [] packs;
        result = record { deleted_indexes = 0; deleted_packs = 0; reclaimed_bytes = 0 };
      } in
      let (p, done) = prune_indexes live indexes start in
      let rest = prune_packs p.pack_sizes p in if done then rest else (p, false)

  unfoldable pub finish_prune : Pruning E × Bool → E × Option PruneResult
  finish_prune (p, true) = (p.env, some p.result)
  finish_prune (p, false) = (p.env, none)

  unfoldable pub prune_live : List Text → E → E × Option PruneResult
  prune_live live env = elim (provider.list_objects env repository_index_prefix) [
    | none ↦ (env, none)
    | some indexes ↦ elim (provider.list_objects env repository_pack_prefix) [
      | none ↦ (env, none)
      | some packs ↦ finish_prune (prune_objects live indexes packs env)
    ]
  ]

  unfoldable pub prune : E → E × Option PruneResult
  prune env = elim (provider.list_objects env repository_snapshot_root) [
    | none ↦ (env, none)
    | some snapshots ↦ elim (live_chunks env [] (sort_objects snapshots)) [
      | none ↦ (env, none)
      | some live ↦ prune_live live env
    ]
  ]
