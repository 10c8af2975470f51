-- ===== src/Repository/Verify/Complete.antt =====
-- Verification reads every chunk of the snapshot (Verify in server/internal/backup/repository.go).
use backup_x.Base.{
  ◌+◌, ◌≡◌, ◌↔◌, refl, sym, ◌∙◌, subst, true, false, inl, inr, List, [], ◌∷◌, Option, some, length,
  is_some, Among, arith, Bool-cases, Option-cases,
}
use backup_x.Base.Text.{Text, text_eq, text_eq_refl, text_eq→eq}
use backup_x.Repository.Spaces.{trim_space}
use backup_x.Base.Dict.{has_key}
use backup_x.Repository.{
  RepositoryStore, RepositoryEntry, RepositorySnapshot, ChunkLocation, Provider, Tools,
}
use backup_x.Repository.Codec.{read_chunk}
use backup_x.Repository.Index.{load_index}
use backup_x.Repository.Snapshot.{load_snapshot}
use backup_x.Repository.Verify.{Checked, verify_chunks, verify_entries, verify}

module _ (tools : Tools) (store : RepositoryStore) {E : Type 0} (provider : Provider E) (env : E)
    (locations : List (Text × ChunkLocation)) where
  abbrev pub IsReadable : Text → Type 0
  IsReadable id = is_some (read_chunk tools store provider env id locations) ≡ true

  abbrev AllReadable : List Text → Type 0
  AllReadable ids = (id : Text) → has_key ids id ≡ true → IsReadable id

  abbrev checked : List Text → Checked → Option Checked
  checked ids c = verify_chunks tools store provider env locations ids c

  AllReadable-cons :
      (id : Text) (ids : List Text) → IsReadable id → AllReadable ids → AllReadable (id ∷ ids)
  unfolding has_key
  AllReadable-cons id ids r all j m = elim (Bool-cases (text_eq id j)) [
    | inl same ↦ subst IsReadable (text_eq→eq id j same) r
    | inr other ↦ all j (ground (arith, other))
  ]

  verify_chunks_sound :
      (ids : List Text) (c : Checked) {c' : Checked}
      → checked ids c ≡ some c'
      → AllReadable c.seen
      → AllReadable c'.seen × AllReadable ids
  unfolding verify_chunks has_key
  verify_chunks_sound [] c {c'} h seen =
      let same : c ≡ c' = ground (arith, h) in
      (subst (λ (x : Checked). AllReadable x.seen) same seen, λ j m. absurd (cc))
  verify_chunks_sound (id ∷ ids) c {c'} h seen = elim (Bool-cases (has_key c.seen id)) [
    | inl old ↦
        let (later, rest) = verify_chunks_sound ids c {c' = c'} (ground (arith, old)) seen in
        (later, AllReadable-cons id ids (seen id old) rest)
    | inr new ↦ elim (Option-cases (read_chunk tools store provider env id locations)) [
      | inl bad ↦ absurd (ground (arith, new, bad))
      | inr (raw, e) ↦
          let c'' : Checked = record {
            seen = id ∷ c.seen;
            chunks = c.chunks + 1;
            bytes = c.bytes + length raw;
          } in
          let good : IsReadable id = ground (arith, e) in
          let (later, rest) =
            verify_chunks_sound ids c'' {c' = c'} (ground (arith, new, e))
              (AllReadable-cons id c.seen good seen) in
          (later, AllReadable-cons id ids good rest)
    ]
  ]

  verify_chunks_complete :
      (ids : List Text) (c : Checked) → AllReadable ids → is_some (checked ids c) ≡ true
  unfolding verify_chunks has_key
  verify_chunks_complete [] c all = refl
  verify_chunks_complete (id ∷ ids) c all =
      let rest : AllReadable ids = λ j m. all j (ground (arith, m)) in
      elim (Bool-cases (has_key c.seen id)) [
        | inl old ↦ rw (old, verify_chunks) (verify_chunks_complete ids c rest)
        | inr new ↦ elim (Option-cases (read_chunk tools store provider env id locations)) [
          | inl bad ↦ absurd (ground (arith, bad, all id (ground (arith, text_eq_refl id))))
          | inr (raw, e) ↦
              rw (new, e, verify_chunks)
                (verify_chunks_complete ids
                  (record {
                    seen = id ∷ c.seen;
                    chunks = c.chunks + 1;
                    bytes = c.bytes + length raw;
                  })
                  rest)
        ]
      ]

  abbrev AllEntries : List RepositoryEntry → Type 0
  AllEntries entries = (entry : RepositoryEntry) → Among entry entries → AllReadable entry.chunks

  verify_entries_sound :
      (entries : List RepositoryEntry) (c : Checked)
      → is_some (verify_entries tools store provider env locations entries c) ≡ true
      → AllReadable c.seen
      → AllEntries entries
  unfolding verify_entries
  verify_entries_sound [] c h seen = λ entry m. absurd m
  verify_entries_sound (e ∷ es) c h seen = elim (Option-cases (checked e.chunks c)) [
    | inl bad ↦ absurd (ground (arith, bad))
    | inr (c', step) ↦
        let (later, own) = verify_chunks_sound e.chunks c step seen in
        let rest = verify_entries_sound es c' (ground (arith, step)) later in
        λ entry m. elim m [
          | inl same ↦ subst (λ (x : RepositoryEntry). AllReadable x.chunks) (sym same) own
          | inr below ↦ rest entry below
        ]
  ]

  verify_entries_complete :
      (entries : List RepositoryEntry) (c : Checked)
      → AllEntries entries
      → is_some (verify_entries tools store provider env locations entries c) ≡ true
  unfolding verify_entries
  verify_entries_complete [] c all = refl
  verify_entries_complete (e ∷ es) c all = elim (Option-cases (checked e.chunks c)) [
    | inl bad ↦ absurd (ground (arith, bad, verify_chunks_complete e.chunks c (all e (inl refl))))
    | inr (c', step) ↦
        rw (step, verify_entries) (verify_entries_complete es c' (λ entry m. all entry (inr m)))
  ]

-- With a checksum, a snapshot that loads and an index that loads, Verify succeeds exactly when every
-- chunk that an entry of the snapshot names can be read from the index.
pub verify_iff :
    (tools : Tools) (store : RepositoryStore) {E : Type 0} (provider : Provider E) (env : E)
    (key checksum : Text) (snapshot : RepositorySnapshot) (locations : List (Text × ChunkLocation))
    → text_eq (trim_space checksum) [] ≡ false
    → load_snapshot tools store provider env key checksum ≡ some snapshot
    → load_index tools store provider env ≡ some locations
    → (is_some (verify tools store provider env key checksum) ≡ true) ↔ (
        (entry : RepositoryEntry)
        → Among entry snapshot.entries
        → (id : Text) → has_key entry.chunks id ≡ true
        → is_some (read_chunk tools store provider env id locations) ≡ true)
unfolding verify has_key
verify_iff tools store provider env key checksum snapshot locations given loaded indexed =
    let start : Checked = record { seen = []; chunks = 0; bytes = 0 } in
    let same : is_some (verify tools store provider env key checksum)
        ≡ is_some (verify_entries tools store provider env locations snapshot.entries start) =
      ground (arith, given, loaded, indexed) in
    (
      λ h.
          verify_entries_sound tools store provider env locations snapshot.entries start
            (sym same ∙ h) (λ j m. absurd (cc)),
      λ all.
          same
          ∙ verify_entries_complete tools store provider env locations snapshot.entries start all,
    )
