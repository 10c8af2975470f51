-- ===== src/Repository/Snapshot/Entries.antt =====
-- The loop of validateSnapshot over the entries (server/internal/backup/repository.go).
use backup_x.Base.{
  ◌≡◌, refl, ◌⊎◌, Bool, true, false, not, ◌||◌, ◌&&◌, List, [], ◌∷◌, some, if◌then◌else◌, arith,
  inl, inr, is_some, Bool-cases, Among, All, All-imp, map,
}
use backup_x.Base.Text.{Text, text_eq, text_eq_refl, text_eq→eq}
use backup_x.Base.Dict.{has_key, IsDistinct}
use backup_x.Repository.{RepositoryEntry}
use backup_x.Repository.Snapshot.{symlink_kind, is_plain_entry, is_valid_kind, check_entries}
use backup_x.Repository.Snapshot.Symlinks.{check_entries-step}

abbrev pub paths_of : List RepositoryEntry → List Text
paths_of entries = map (λ (e : RepositoryEntry). e.path) entries

paths_of-fresh :
    (t : Text) (seen : List Text) (entries : List RepositoryEntry)
    → All (λ (e : RepositoryEntry). has_key (t ∷ seen) e.path ≡ false) entries
    → has_key (paths_of entries) t ≡ false
unfolding has_key
paths_of-fresh t seen [] h = refl
paths_of-fresh t seen (e ∷ entries) h =
    ground (arith, h.0, paths_of-fresh t seen entries h.1, text_eq→eq e.path t, text_eq_refl t)

fresh-paths_of :
    (t : Text) (seen : List Text) (entries : List RepositoryEntry)
    → has_key (paths_of entries) t ≡ false
    → All (λ (e : RepositoryEntry). has_key seen e.path ≡ false) entries
    → All (λ (e : RepositoryEntry). has_key (t ∷ seen) e.path ≡ false) entries
unfolding has_key
fresh-paths_of t seen [] new h = tt
fresh-paths_of t seen (e ∷ entries) new h = (
  ground (arith, new, h.0, text_eq→eq t e.path, text_eq_refl t),
  fresh-paths_of t seen entries (ground (arith, new)) h.1,
)

-- What the loop over the entries has let pass.
pub check_entries-accepted :
    (encrypted : Bool) (seen symlinks : List Text) (entries : List RepositoryEntry)
    {r : List Text × List Text}
    → check_entries encrypted seen symlinks entries ≡ some r
    → All (λ (e : RepositoryEntry). (is_plain_entry e && is_valid_kind encrypted e) ≡ true) entries
      × IsDistinct (paths_of entries)
      × All (λ (e : RepositoryEntry). has_key seen e.path ≡ false) entries
unfolding check_entries has_key
check_entries-accepted encrypted seen symlinks [] h = (tt, tt, tt)
check_entries-accepted encrypted seen symlinks (e ∷ entries) h =
    elim (Bool-cases
      (not (is_plain_entry e) || has_key seen e.path || not (is_valid_kind encrypted e))) [
        | inl bad ↦ absurd (ground (arith, bad, h))
        | inr good ↦
            let (valid, distinct, fresh) =
              check_entries-accepted encrypted (e.path ∷ seen)
                (if text_eq e.kind symlink_kind then e.path ∷ symlinks else symlinks) entries
                (check_entries-step encrypted seen symlinks e entries h).1 in
            (
              (ground (arith, good), valid),
              (paths_of-fresh e.path seen entries fresh, distinct),
              (ground (arith, good), All-imp _ _ (λ x n. ground (arith, n)) entries fresh),
            )
      ]

-- Valid entries with new and different paths pass the loop.
pub check_entries-accepts :
    (encrypted : Bool) (seen symlinks : List Text) (entries : List RepositoryEntry)
    → All (λ (e : RepositoryEntry). (is_plain_entry e && is_valid_kind encrypted e) ≡ true) entries
    → IsDistinct (paths_of entries)
    → All (λ (e : RepositoryEntry). has_key seen e.path ≡ false) entries
    → is_some (check_entries encrypted seen symlinks entries) ≡ true
unfolding check_entries has_key
check_entries-accepts encrypted seen symlinks [] valid distinct fresh = refl
check_entries-accepts encrypted seen symlinks (e ∷ entries) valid distinct fresh = ground (
  arith,
  valid.0,
  fresh.0,
  check_entries-accepts encrypted (e.path ∷ seen)
      (if text_eq e.kind symlink_kind then e.path ∷ symlinks else symlinks) entries valid.1
      distinct.1 (fresh-paths_of e.path seen entries distinct.0 fresh.1),
)

-- A path that the loop has seen is that of an entry, and a symlink that of a symlink entry.
pub check_entries-origin :
    (encrypted : Bool) (seen symlinks : List Text) (entries : List RepositoryEntry)
    {r : List Text × List Text}
    → check_entries encrypted seen symlinks entries ≡ some r
    → (t : Text)
    → (has_key r.0 t ≡ true
        → (has_key seen t ≡ true) ⊎ ((e : RepositoryEntry) × Among e entries × (e.path ≡ t)))
      × (has_key r.1 t ≡ true
          → (has_key symlinks t ≡ true)
            ⊎ ((e : RepositoryEntry) × Among e entries
                × (e.path ≡ t)
                × (text_eq e.kind symlink_kind ≡ true)))
unfolding check_entries has_key
check_entries-origin encrypted seen symlinks [] h t =
    (λ m. inl (ground (arith, h, m)), λ m. inl (ground (arith, h, m)))
check_entries-origin encrypted seen symlinks (e ∷ entries) {r} h t =
    let symlinks' = if text_eq e.kind symlink_kind then e.path ∷ symlinks else symlinks in
    let (paths, links) =
      check_entries-origin encrypted (e.path ∷ seen) symlinks' entries
        (check_entries-step encrypted seen symlinks e entries h).1 t in
    (
      λ m. elim (paths m) [
        | inr (x, among, same) ↦ inr (x, inr among, same)
        | inl named ↦ elim (Bool-cases (text_eq e.path t)) [
          | inl same ↦ inr (e, inl refl, text_eq→eq e.path t same)
          | inr other ↦ inl (ground (arith, named, other))
        ]
      ],
      λ m. elim (links m) [
        | inr (x, among, same, kind) ↦ inr (x, inr among, same, kind)
        | inl named ↦ elim (Bool-cases (text_eq e.kind symlink_kind && text_eq e.path t)) [
          | inl own ↦
              inr (e, inl refl, text_eq→eq e.path t (ground (arith, own)), ground (arith, own))
          | inr other ↦ inl (ground (arith, named, other))
        ]
      ],
    )
