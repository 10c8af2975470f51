-- ===== src/Repository/Plan/Sources.antt =====
-- The recursion of the walk and the loop over the sources (BuildPlan in
-- server/internal/backup/repository.go).
use backup_x.Base.{
  ◌≤◌, ◌≡◌, ◌≢◌, refl, Bool, true, ◌||◌, inl, inr, List, [], ◌∷◌, Option, none, some, is_some,
  arith, Bool-cases, Option-cases,
}
use backup_x.Base.Text.{Text, codes, text_eq, cut_prefix}
use backup_x.Repository.Spaces.{trim_space}
use backup_x.Base.Dict.{has_key}
use backup_x.Chunker.{Chunker}
use backup_x.Repository.{RepositoryStore, Tools, repository_chunk_max}
use backup_x.Repository.Codec.{
  none_compression, gzip_compression, zstd_compression, normalize_compression,
}
use backup_x.Repository.Index.{is_compression}
use backup_x.Repository.Paths.{dot, clean}
use backup_x.Repository.Plan.{
  Planning, Visited, visited, skip_dir, walk_error, visit_path, visit, walk, walk_all, walk_sources,
}
use backup_x.Repository.Files.{
  FileInfo, Tree, Trees, node, leaf, branch, is_directory, should_exclude_entry,
}
use backup_x.Repository.Plan.Contents.{HasNoCollision}
use backup_x.Repository.Plan.Walk.{IsWalked, Leaves, add_by_kind-Leaves}

known_names :
    (is_compression none_compression ≡ true)
    × (is_compression gzip_compression ≡ true)
    × (is_compression zstd_compression ≡ true)
unfolding is_compression text_eq
known_names = (refl, refl, refl)

pub normalize_compression-is_compression :
    (value : Text) {compression : Text}
    → normalize_compression value ≡ some compression
    → is_compression compression ≡ true
unfolding normalize_compression
normalize_compression-is_compression value h = ground (arith, known_names)

-- Every file of a tree satisfies a predicate.
unfoldable mutual
  pub AllFiles : (FileInfo → Type 0) → Tree → Type 0
  AllFiles V (node info trees) = V info × AllBelow V trees

  pub AllBelow : (FileInfo → Type 0) → Trees → Type 0
  AllBelow V leaf = Unit
  AllBelow V (branch tree trees) = AllFiles V tree × AllBelow V trees

none_named : (id : Text) → has_key [] id ≢ true
unfolding has_key
none_named id h = cc

module _ (tools : Tools) (store : RepositoryStore) (compression : Text) (encrypted : Bool)
    (unique_ids : HasNoCollision tools store) (known : is_compression compression ≡ true)
    (V : FileInfo → Type 0) (chunker : Chunker) (m : chunker.min_size ≤ chunker.max_size)
    (max : chunker.max_size ≤ repository_chunk_max) (cancelled : Planning → Bool)
    (matches : Text → Text → Bool) (excludes : List Text) where
  abbrev IsGood : Planning → Type 0
  IsGood p = IsWalked tools store compression encrypted V p

  abbrev pub LeavesPlan : Option Planning → Type 0
  LeavesPlan none = Unit
  LeavesPlan (some p) = IsGood p

  visit_path-Leaves :
      (path relative : Text) (info : FileInfo) (p : Planning)
      → IsGood p
      → V info
      → info.relative ≡ some relative
      → path ≡ clean relative
      → Leaves tools store compression encrypted V (
          visit_path tools store compression encrypted chunker cancelled matches excludes path info
            p)
  unfolding visit_path
  visit_path-Leaves path relative info p w v a same =
      let entered = record p { seen_paths = path ∷ p.seen_paths; entry_chunks = [] } in
      let good : IsGood entered = record {
        sound = record {
          offset = w.sound.offset;
          unique = w.sound.unique;
          spool_ok = w.sound.spool_ok;
          named = λ id h. absurd (none_named id h);
          entries_named = w.sound.entries_named;
        };
        recorded = w.recorded;
      } in
      elim (Bool-cases (text_eq path dot || is_some (cut_prefix (codes "../") path))) [
        | inl bad ↦ rw bad tt
        | inr local ↦
            elim (Bool-cases
              (should_exclude_entry matches path (is_directory info.kind) excludes)) [
                | inl out ↦ elim (Bool-cases (is_directory info.kind)) [
                  | inl folder ↦ rw (local, out, folder) w
                  | inr other ↦ rw (local, out, other) w
                ]
                | inr kept ↦ elim (Bool-cases (has_key p.seen_paths path)) [
                  | inl twice ↦ rw (local, kept, twice) tt
                  | inr first ↦
                      rw (local, kept, first)
                        (add_by_kind-Leaves tools store compression encrypted V unique_ids known
                          chunker m max cancelled path info info.kind relative entered good refl v
                          refl a same)
                ]
              ]
      ]

  visit-Leaves :
      (info : FileInfo) (p : Planning)
      → IsGood p
      → V info
      → Leaves tools store compression encrypted V
          (visit tools store compression encrypted chunker cancelled matches excludes info p)
  unfolding visit
  visit-Leaves info p w v = elim (Bool-cases (info.walk_failed || cancelled p)) [
    | inl bad ↦ rw bad tt
    | inr fine ↦ elim (Option-cases info.relative) [
      | inl lost ↦ rw (fine, lost, visit) tt
      | inr (relative, a) ↦
          rw (fine, a, visit) (visit_path-Leaves (clean relative) relative info p w v a refl)
    ]
  ]

  -- The walk goes on after a visit.
  after_visit :
      (trees : Trees) (r : Visited)
      → Leaves tools store compression encrypted V r
      → ((p : Planning)
          → IsGood p
          → LeavesPlan (
              walk_all tools store compression encrypted chunker cancelled matches excludes trees
                p))
      → LeavesPlan (elim r [
        | visited p' ↦
            walk_all tools store compression encrypted chunker cancelled matches excludes trees p'
        | skip_dir p' ↦ some p'
        | walk_error ↦ none
      ])
  after_visit trees (visited p) w ih = ih p w
  after_visit trees (skip_dir p) w ih = w
  after_visit trees walk_error w ih = tt

  after_tree :
      (trees : Trees) (r : Option Planning)
      → LeavesPlan r
      → ((p : Planning)
          → IsGood p
          → LeavesPlan (
              walk_all tools store compression encrypted chunker cancelled matches excludes trees
                p))
      → LeavesPlan (elim r [
        | none ↦ none
        | some p' ↦
            walk_all tools store compression encrypted chunker cancelled matches excludes trees p'
      ])
  after_tree trees none w ih = tt
  after_tree trees (some p) w ih = ih p w

  mutual
    unfolding walk walk_all AllFiles AllBelow

    walk-LeavesPlan :
        (tree : Tree) (p : Planning)
        → AllFiles V tree
        → IsGood p
        → LeavesPlan
            (walk tools store compression encrypted chunker cancelled matches excludes tree p)
    walk-LeavesPlan (node info trees) p all w =
        after_visit trees _ (visit-Leaves info p w all.0) (λ q. walk_all-LeavesPlan trees q all.1)

    walk_all-LeavesPlan :
        (trees : Trees) (p : Planning)
        → AllBelow V trees
        → IsGood p
        → LeavesPlan
            (walk_all tools store compression encrypted chunker cancelled matches excludes trees p)
    walk_all-LeavesPlan leaf p all w = w
    walk_all-LeavesPlan (branch tree trees) p all w =
        after_tree trees _ (walk-LeavesPlan tree p all.0 w) (λ q. walk_all-LeavesPlan trees q all.1)

  module _ (files : Text → Option Tree)
      (all : (source : Text) (tree : Tree) → files source ≡ some tree → AllFiles V tree) where
    abbrev walked_sources : List Text → Planning → Option Planning
    walked_sources =
        walk_sources tools store compression encrypted chunker cancelled matches excludes files

    after_source :
        (sources : List Text) (r : Option Planning)
        → LeavesPlan r
        → ((p : Planning) → IsGood p → LeavesPlan (walked_sources sources p))
        → LeavesPlan (elim r [ none ↦ none | some p' ↦ walked_sources sources p' ])
    after_source sources none w ih = tt
    after_source sources (some p) w ih = ih p w

    pub walk_sources-LeavesPlan :
        (sources : List Text) (p : Planning) → IsGood p → LeavesPlan (walked_sources sources p)
    unfolding walk_sources
    walk_sources-LeavesPlan [] p w = w
    walk_sources-LeavesPlan (source ∷ sources) p w =
        elim (Option-cases (files (clean (trim_space source)))) [
          | inl lost ↦ rw (lost, walk_sources) tt
          | inr (tree, found) ↦
              rw (found, walk_sources)
                (after_source sources _ (walk-LeavesPlan tree p (all _ tree found) w)
                  (walk_sources-LeavesPlan sources))
        ]
