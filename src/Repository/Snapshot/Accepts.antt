-- ===== src/Repository/Snapshot/Accepts.antt =====
-- Which snapshots validateSnapshot in server/internal/backup/repository.go accepts, without its
-- loops.
use backup_x.Base.{
  ℕ, zero, suc, ◌≡◌, refl, ◌↔◌, Bool, true, false, ◌||◌, ◌&&◌, List, [], ◌∷◌, ◌++◌, some, length,
  arith, sym, ap, ◌∙◌, subst, inl, inr, is_some, Option-cases, Bool-cases, Among, All, All-Among,
  All-tabulate,
}
use mathlib.Core.List.{append_assoc}
use backup_x.Base.Text.{
  Text, text_eq, text_eq_refl, text_eq→eq, split_on, cut_prefix, cut_prefix-prefix,
  cut_prefix-append,
}
use backup_x.Base.Dict.{has_key, IsDistinct}
use backup_x.Repository.{RepositoryEntry, RepositorySnapshot}
use backup_x.Repository.Index.{is_version, is_compression}
use backup_x.Repository.Paths.{dot, all_plain, dir}
use backup_x.Repository.Paths.Parents.{dir-cases}
use backup_x.Repository.Snapshot.{
  symlink_kind, is_plain_entry, is_valid_kind, check_entries, crosses_symlink, no_crossing,
  validate_snapshot,
}
use backup_x.Repository.Snapshot.Symlinks.{is_plain_entry-all_plain, validate_snapshot_symlinks}
use backup_x.Repository.Snapshot.Entries.{
  paths_of, check_entries-accepted, check_entries-accepts, check_entries-origin,
}

-- Whether the first entry is a symlink and the second lies below it.
unfoldable pub is_below_symlink : RepositoryEntry → RepositoryEntry → Bool
is_below_symlink link entry =
    text_eq link.kind symlink_kind && is_some (cut_prefix (link.path ++ b'/' ∷ []) entry.path)

-- Every entry is valid by itself, no path is there twice, and no entry lies below a symlink,
-- wherever the two stand.
pub record IsAccepted (snapshot : RepositorySnapshot) : Type 0 where
  pub version_known : is_version snapshot.version ≡ true
  pub compression_known : is_compression snapshot.compression ≡ true
  pub entries_valid :
      All
        (λ (e : RepositoryEntry). (is_plain_entry e && is_valid_kind snapshot.encrypted e) ≡ true)
        snapshot.entries
  pub paths_distinct : IsDistinct (paths_of snapshot.entries)
  pub none_below :
      All
        (λ (link : RepositoryEntry).
          All (λ (e : RepositoryEntry). is_below_symlink link e ≡ false) snapshot.entries)
        snapshot.entries

crosses_symlink-step :
    (fuel : ℕ) (symlinks : List Text) (t : Text)
    → crosses_symlink (suc fuel) symlinks t ≡ true
    → (text_eq t dot ≡ false)
      × ((has_key symlinks t || crosses_symlink fuel symlinks (dir t)) ≡ true)
unfolding crosses_symlink
crosses_symlink-step fuel symlinks t h = elim (Bool-cases (text_eq t dot)) [
  | inl top ↦ absurd (ground (arith, top, h))
  | inr other ↦ (other, ground (arith, other, h))
]

-- A walk that meets a symlink started below it.
crosses_symlink-found :
    (fuel : ℕ) (symlinks : List Text) (t : Text)
    → all_plain (split_on b'/' t) ≡ true
    → crosses_symlink fuel symlinks (dir t) ≡ true
    → (s rest : Text) × (has_key symlinks s ≡ true) × (t ≡ s ++ b'/' ∷ rest)
unfolding crosses_symlink
crosses_symlink-found zero symlinks t plain h = absurd (cc)
crosses_symlink-found (suc fuel) symlinks t plain h = elim (dir-cases t plain) [
  | inl top ↦ absurd (
      ground (
        arith,
        text_eq_refl dot,
        (crosses_symlink-step fuel symlinks dot
            (subst (λ (x : Text). crosses_symlink (suc fuel) symlinks x ≡ true) top h)).0,
      ))
  | inr (front, last, e, split, above) ↦ elim (Bool-cases (has_key symlinks front)) [
    | inl found ↦ (front, last, found, split)
    | inr other ↦
        let met : crosses_symlink (suc fuel) symlinks front ≡ true =
          subst (λ (x : Text). crosses_symlink (suc fuel) symlinks x ≡ true) e h in
        let (s, rest, found, same) =
          crosses_symlink-found fuel symlinks front above
            (ground (arith, other, (crosses_symlink-step fuel symlinks front met).1)) in
        (
          s,
          rest ++ b'/' ∷ last,
          found,
          split
              ∙ ap (λ (x : Text). x ++ b'/' ∷ last) same
              ∙ append_assoc s (b'/' ∷ rest) (b'/' ∷ last),
        )
  ]
]

is_below_symlink-ne :
    (link entry : RepositoryEntry)
    → text_eq link.kind symlink_kind ≡ true
    → (rest : Text) → entry.path ≡ link.path ++ b'/' ∷ rest
    → is_below_symlink link entry ≡ true
unfolding is_below_symlink
is_below_symlink-ne link entry kind rest same =
    let e : entry.path ≡ (link.path ++ b'/' ∷ []) ++ rest =
      same ∙ sym (append_assoc link.path (b'/' ∷ []) rest) in
    let cut : is_some (cut_prefix (link.path ++ b'/' ∷ []) entry.path) ≡ true =
      ap (λ (x : Text). is_some (cut_prefix (link.path ++ b'/' ∷ []) x)) e
      ∙ ap is_some (cut_prefix-prefix (link.path ++ b'/' ∷ []) rest) in
    ground (arith, kind, cut)

is_below_symlink-below :
    (link entry : RepositoryEntry)
    → is_below_symlink link entry ≡ true
    → (link.kind ≡ symlink_kind) × (rest : Text) × (entry.path ≡ link.path ++ b'/' ∷ rest)
unfolding is_below_symlink
is_below_symlink-below link entry h =
    elim (Option-cases (cut_prefix (link.path ++ b'/' ∷ []) entry.path)) [
      | inl bad ↦ absurd (ground (arith, bad, h))
      | inr (rest, e) ↦ (
        text_eq→eq link.kind symlink_kind (ground (arith, h)),
        rest,
        cut_prefix-append (link.path ++ b'/' ∷ []) entry.path e
            ∙ append_assoc link.path (b'/' ∷ []) rest,
      )
    ]

no_crossing-all :
    (symlinks paths : List Text)
    → ((t : Text) → has_key paths t ≡ true → crosses_symlink (length t) symlinks (dir t) ≡ false)
    → no_crossing symlinks paths ≡ true
unfolding no_crossing has_key
no_crossing-all symlinks [] all = refl
no_crossing-all symlinks (p ∷ paths) all = ground (
  arith,
  all p (ground (arith, text_eq_refl p)),
  no_crossing-all symlinks paths (λ t m. all t (ground (arith, m))),
)

-- No walk from an accepted path meets a symlink.
accepted_clear :
    (snapshot : RepositorySnapshot)
    → IsAccepted snapshot
    → (r : List Text × List Text) → check_entries snapshot.encrypted [] [] snapshot.entries ≡ some r
    → (t : Text) → has_key r.0 t ≡ true
    → crosses_symlink (length t) r.1 (dir t) ≡ false
unfolding has_key
accepted_clear snapshot a r e t named = elim (Bool-cases (crosses_symlink (length t) r.1 (dir t))) [
  | inr clear ↦ clear
  | inl met ↦ elim ((check_entries-origin snapshot.encrypted [] [] snapshot.entries e t).0 named) [
    | inl nowhere ↦ absurd (cc)
    | inr (entry, among, same) ↦
        let plain : all_plain (split_on b'/' t) ≡ true =
          subst (λ (x : Text). all_plain (split_on b'/' x) ≡ true) same
            (is_plain_entry-all_plain entry
              (ground (arith, All-Among _ entry snapshot.entries a.entries_valid among))).0 in
        let (s, rest, found, split) = crosses_symlink-found (length t) r.1 t plain met in
        elim ((check_entries-origin snapshot.encrypted [] [] snapshot.entries e s).1 found) [
          | inl nowhere ↦ absurd (cc)
          | inr (link, link_among, here, kind) ↦
              let below =
                is_below_symlink-ne link entry kind rest
                  (same ∙ split ∙ ap (λ (x : Text). x ++ b'/' ∷ rest) (sym here)) in
              let apart =
                All-Among _ entry snapshot.entries
                  (All-Among _ link snapshot.entries a.none_below link_among) among in
              absurd (ground (arith, below, apart))
        ]
  ]
]

none_below_accepted :
    (snapshot : RepositorySnapshot)
    → validate_snapshot snapshot ≡ true
    → (link entry : RepositoryEntry) → Among link snapshot.entries
    → Among entry snapshot.entries
    → is_below_symlink link entry ≡ false
none_below_accepted snapshot valid link entry link_among among =
    elim (Bool-cases (is_below_symlink link entry)) [
      | inr apart ↦ apart
      | inl below ↦
          let (kind, rest, same) = is_below_symlink-below link entry below in
          absurd
            (validate_snapshot_symlinks snapshot valid entry link among link_among kind rest same)
    ]

validate_snapshot-IsAccepted :
    (snapshot : RepositorySnapshot) → validate_snapshot snapshot ≡ true → IsAccepted snapshot
unfolding validate_snapshot
validate_snapshot-IsAccepted snapshot valid =
    elim (Option-cases (check_entries snapshot.encrypted [] [] snapshot.entries)) [
      | inl bad ↦ absurd (ground (arith, bad, valid))
      | inr (r, e) ↦
          let (entries_valid, distinct, fresh) =
            check_entries-accepted snapshot.encrypted [] [] snapshot.entries e in
          record {
            version_known = ground (arith, valid);
            compression_known = ground (arith, valid);
            entries_valid = entries_valid;
            paths_distinct = distinct;
            none_below = All-tabulate _ snapshot.entries (λ link m.
                All-tabulate _ snapshot.entries
                  (λ entry n. none_below_accepted snapshot valid link entry m n));
          }
    ]

validate_snapshot_accepts :
    (snapshot : RepositorySnapshot) → IsAccepted snapshot → validate_snapshot snapshot ≡ true
unfolding validate_snapshot has_key
validate_snapshot_accepts snapshot a =
    elim (Option-cases (check_entries snapshot.encrypted [] [] snapshot.entries)) [
      | inl bad ↦ absurd (
          ground (
            arith,
            bad,
            check_entries-accepts snapshot.encrypted [] [] snapshot.entries a.entries_valid
                a.paths_distinct (All-tabulate _ snapshot.entries (λ x m. refl)),
          ))
      | inr (r, e) ↦ ground (
        arith,
        e,
        a.version_known,
        a.compression_known,
        no_crossing-all r.1 r.0 (accepted_clear snapshot a r e),
      )
    ]

-- validateSnapshot accepts a snapshot exactly when its version and its compression are known, every
-- entry is valid by itself, no path is there twice, and no entry, wherever it stands, has a path
-- below that of a symlink entry.
pub validate_snapshot_iff :
    (snapshot : RepositorySnapshot) → (validate_snapshot snapshot ≡ true) ↔ IsAccepted snapshot
validate_snapshot_iff snapshot =
    (validate_snapshot-IsAccepted snapshot, validate_snapshot_accepts snapshot)
