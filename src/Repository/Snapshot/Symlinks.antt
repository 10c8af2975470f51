-- ===== src/Repository/Snapshot/Symlinks.antt =====
-- Symlinks of an accepted snapshot (validateSnapshot in server/internal/backup/repository.go). A
-- restore makes the entries of a snapshot in order, and would write through a symlink to another
-- place if an entry had a path below it.
use backup_x.Base.{
  ℕ, zero, suc, ◌≡◌, Bool, true, false, not, ◌||◌, List, [], ◌∷◌, ◌++◌, some, if◌then◌else◌, length,
  arith, sym, ap, ◌∙◌, ◌≤◌, subst, inl, inr, length-append, Option-cases, Bool-cases, Among,
}
use backup_x.Base.Text.{Text, text_eq, text_eq_refl, text_eq→eq, split_on}
use backup_x.Base.Dict.{has_key}
use backup_x.Repository.{RepositoryEntry, RepositorySnapshot}
use backup_x.Repository.Paths.{dot, all_plain, is_valid_path, dir}
use backup_x.Repository.Paths.Parents.{is_plain_dot, dir-below}
use backup_x.Repository.Snapshot.{
  symlink_kind, is_plain_entry, is_valid_kind, check_entries, crosses_symlink, no_crossing,
  validate_snapshot,
}

-- A plain path is not `.`.
plain_ne_dot : (t : Text) → all_plain (split_on b'/' t) ≡ true → text_eq t dot ≡ false
plain_ne_dot t h = elim (Bool-cases (text_eq t dot)) [
  | inr other ↦ other
  | inl same ↦ absurd (
      ground (
        arith,
        h,
        is_plain_dot,
        ap (λ (x : Text). all_plain (split_on b'/' x)) (text_eq→eq t dot same),
      ))
]

crosses_symlink-hit :
    (fuel : ℕ) (symlinks : List Text) (s : Text)
    → text_eq s dot ≡ false
    → has_key symlinks s ≡ true
    → crosses_symlink (suc fuel) symlinks s ≡ true
unfolding crosses_symlink
crosses_symlink-hit fuel symlinks s other h = ground (arith, other, h)

crosses_symlink-up :
    (fuel : ℕ) (symlinks : List Text) (t : Text)
    → text_eq t dot ≡ false
    → crosses_symlink fuel symlinks (dir t) ≡ true
    → crosses_symlink (suc fuel) symlinks t ≡ true
unfolding crosses_symlink
crosses_symlink-up fuel symlinks t other h = ground (arith, other, h)

-- The walk from a path below a symlink meets it, with fuel as long as the path.
crosses_symlink-below :
    (fuel : ℕ) (symlinks : List Text) (s rest : Text)
    → has_key symlinks s ≡ true
    → text_eq s dot ≡ false
    → all_plain (split_on b'/' (s ++ b'/' ∷ rest)) ≡ true
    → length (s ++ b'/' ∷ rest) ≤ fuel
    → crosses_symlink fuel symlinks (dir (s ++ b'/' ∷ rest)) ≡ true
crosses_symlink-below zero symlinks s rest link other plain enough =
    absurd (omega (arith, enough, length-append s (b'/' ∷ rest)))
crosses_symlink-below (suc fuel) symlinks s rest link other plain enough =
    elim (dir-below s rest plain) [
      | inl top ↦
          subst (λ (t : Text). crosses_symlink (suc fuel) symlinks t ≡ true) (sym top)
            (crosses_symlink-hit fuel symlinks s other link)
      | inr (front, e, above, shorter) ↦
          subst (λ (t : Text). crosses_symlink (suc fuel) symlinks t ≡ true) (sym e)
            (crosses_symlink-up fuel symlinks (s ++ b'/' ∷ front)
              (plain_ne_dot (s ++ b'/' ∷ front) above)
              (crosses_symlink-below fuel symlinks s front link other above
                (omega (arith, shorter, enough))))
    ]

pub check_entries-step :
    (encrypted : Bool) (seen symlinks : List Text) (e : RepositoryEntry)
    (entries : List RepositoryEntry) {r : List Text × List Text}
    → check_entries encrypted seen symlinks (e ∷ entries) ≡ some r
    → (is_plain_entry e ≡ true)
      × (check_entries encrypted
            (e.path ∷ seen)
            (if text_eq e.kind symlink_kind then e.path ∷ symlinks else symlinks)
            entries
          ≡ some r)
unfolding check_entries
check_entries-step encrypted seen symlinks e entries h =
    elim (Bool-cases
      (not (is_plain_entry e) || has_key seen e.path || not (is_valid_kind encrypted e))) [
        | inl bad ↦ absurd (ground (arith, bad, h))
        | inr good ↦ (ground (arith, good), ground (arith, good, h))
      ]

-- What the loop over the entries has seen stays.
check_entries-keeps :
    (encrypted : Bool) (seen symlinks : List Text) (entries : List RepositoryEntry)
    {r : List Text × List Text}
    → check_entries encrypted seen symlinks entries ≡ some r
    → (t : Text)
    → (has_key seen t ≡ true → has_key r.0 t ≡ true)
      × (has_key symlinks t ≡ true → has_key r.1 t ≡ true)
unfolding check_entries has_key
check_entries-keeps encrypted seen symlinks [] h t =
    (λ m. ground (arith, h, m), λ m. ground (arith, h, m))
check_entries-keeps encrypted seen symlinks (e ∷ entries) h t =
    let (plain, rest) = check_entries-step encrypted seen symlinks e entries h in
    let (paths, links) =
      check_entries-keeps encrypted (e.path ∷ seen)
        (if text_eq e.kind symlink_kind then e.path ∷ symlinks else symlinks) entries rest t in
    (λ m. paths (ground (arith, m)), λ m. links (ground (arith, m)))

-- The loop sees every entry and every symlink, and lets plain paths pass only.
pub check_entries-sees :
    (encrypted : Bool) (seen symlinks : List Text) (entries : List RepositoryEntry)
    {r : List Text × List Text}
    → check_entries encrypted seen symlinks entries ≡ some r
    → (entry : RepositoryEntry) → Among entry entries
    → (is_plain_entry entry ≡ true)
      × (has_key r.0 entry.path ≡ true)
      × (text_eq entry.kind symlink_kind ≡ true → has_key r.1 entry.path ≡ true)
unfolding has_key
check_entries-sees encrypted seen symlinks [] h entry m = elim m [ ]
check_entries-sees encrypted seen symlinks (e ∷ entries) {r} h entry m =
    let (plain, rest) = check_entries-step encrypted seen symlinks e entries h in
    let symlinks' = if text_eq e.kind symlink_kind then e.path ∷ symlinks else symlinks in
    elim m [
      | inr below ↦ check_entries-sees encrypted (e.path ∷ seen) symlinks' entries rest entry below
      | inl same ↦
          let (paths, links) =
            check_entries-keeps encrypted (e.path ∷ seen) symlinks' entries rest e.path in
          subst
            (λ (x : RepositoryEntry).
              (is_plain_entry x ≡ true)
              × (has_key r.0 x.path ≡ true)
              × (text_eq x.kind symlink_kind ≡ true → has_key r.1 x.path ≡ true))
            (sym same)
            (
              plain,
              paths (ground (arith, text_eq_refl e.path)),
              λ k. links (ground (arith, k, text_eq_refl e.path)),
            )
    ]

pub no_crossing-path :
    (symlinks paths : List Text) (t : Text)
    → no_crossing symlinks paths ≡ true
    → has_key paths t ≡ true
    → crosses_symlink (length t) symlinks (dir t) ≡ false
unfolding no_crossing has_key
no_crossing-path symlinks [] t h m = absurd (ground (arith, m))
no_crossing-path symlinks (p ∷ paths) t h m = elim (Bool-cases (text_eq p t)) [
  | inl same ↦
      let t_is : p ≡ t = text_eq→eq p t same in
      let first : crosses_symlink (length p) symlinks (dir p) ≡ false = ground (arith, h) in
      subst (λ (x : Text). crosses_symlink (length x) symlinks (dir x) ≡ false) t_is first
  | inr other ↦ no_crossing-path symlinks paths t (ground (arith, h)) (ground (arith, m, other))
]

pub is_plain_entry-all_plain :
    (e : RepositoryEntry)
    → is_plain_entry e ≡ true
    → (all_plain (split_on b'/' e.path) ≡ true) × (text_eq e.path dot ≡ false)
unfolding is_plain_entry is_valid_path
is_plain_entry-all_plain e h = (ground (arith, h), ground (arith, h))

-- A snapshot that validateSnapshot accepts has no entry below a symlink: the path of a symlink entry,
-- with a slash and anything behind it, is not the path of an entry.
pub validate_snapshot_symlinks :
    (snapshot : RepositorySnapshot)
    → validate_snapshot snapshot ≡ true
    → (entry link : RepositoryEntry) → Among entry snapshot.entries
    → Among link snapshot.entries
    → link.kind ≡ symlink_kind
    → (rest : Text) → ¬ (entry.path ≡ link.path ++ b'/' ∷ rest)
unfolding validate_snapshot
validate_snapshot_symlinks snapshot valid entry link among link_among kind rest same =
    elim (Option-cases (check_entries snapshot.encrypted [] [] snapshot.entries)) [
      | inl bad ↦ absurd (ground (arith, bad, valid))
      | inr ((seen, symlinks), e) ↦
          let clear : no_crossing symlinks seen ≡ true = ground (arith, e, valid) in
          let (plain, named, other) =
            check_entries-sees snapshot.encrypted [] [] snapshot.entries e entry among in
          let (link_plain, ignored, linked) =
            check_entries-sees snapshot.encrypted [] [] snapshot.entries e link link_among in
          let safe = no_crossing-path symlinks seen entry.path clear named in
          let crossed =
            crosses_symlink-below (length entry.path) symlinks link.path rest
              (linked (ap (λ (k : Text). text_eq k symlink_kind) kind ∙ text_eq_refl symlink_kind))
              (is_plain_entry-all_plain link link_plain).1
              (ap (λ (x : Text). all_plain (split_on b'/' x)) (sym same)
                ∙ (is_plain_entry-all_plain entry plain).0)
              (omega (arith, ap length same)) in
          let back : crosses_symlink (length entry.path) symlinks (dir entry.path) ≡ true =
            subst (λ (x : Text). crosses_symlink (length entry.path) symlinks (dir x) ≡ true)
              (sym same) crossed in
          ground (arith, safe, back)
    ]
