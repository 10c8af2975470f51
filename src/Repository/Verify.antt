-- ===== src/Repository/Verify.antt =====
-- Verification of a snapshot (Verify in server/internal/backup/repository.go).
pub mod Complete
use backup_x.Base.{
  ℕ, zero, suc, ◌+◌, Bool, true, false, List, [], ◌∷◌, Option, none, some, if◌then◌else◌, length,
}
use backup_x.Base.Text.{Text, text_eq}
use backup_x.Repository.Spaces.{trim_space}
use backup_x.Base.Dict.{has_key}
use backup_x.Repository.{Bytes, RepositoryStore, RepositoryEntry, ChunkLocation, Provider, Tools}
use backup_x.Repository.Codec.{read_chunk}
use backup_x.Repository.Index.{load_index}
use backup_x.Repository.Snapshot.{load_snapshot}

-- RepositoryVerifyResult without its number of entries, and the ids that have been checked.
pub record Checked : Type 0 where
  pub seen : List Text
  pub chunks : ℕ
  pub bytes : ℕ

pub record VerifyResult : Type 0 where
  pub entries : ℕ
  pub chunks : ℕ
  pub bytes : ℕ

module _ (tools : Tools) (store : RepositoryStore) {E : Type 0} (provider : Provider E) where
  module _ (env : E) (locations : List (Text × ChunkLocation)) where
    unfoldable pub verify_chunks : List Text → Checked → Option Checked
    verify_chunks [] c = some c
    verify_chunks (id ∷ ids) c =
        let skip = verify_chunks ids c in
        if has_key c.seen id
        then skip
        else elim (read_chunk tools store provider env id locations) [
          | none ↦ none
          | some raw ↦
              verify_chunks ids
                (record { seen = id ∷ c.seen; chunks = c.chunks + 1; bytes = c.bytes + length raw })
        ]

    unfoldable pub verify_entries : List RepositoryEntry → Checked → Option Checked
    verify_entries [] c = some c
    verify_entries (entry ∷ entries) c = elim (verify_chunks entry.chunks c) [
      | none ↦ none
      | some c' ↦ verify_entries entries c'
    ]

  unfoldable pub verify : E → Text → Text → Option VerifyResult
  verify env key expected_checksum =
      if text_eq (trim_space expected_checksum) []
      then none
      else elim (load_snapshot tools store provider env key expected_checksum) [
        | none ↦ none
        | some snapshot ↦ elim (load_index tools store provider env) [
          | none ↦ none
          | some locations ↦
              elim (verify_entries env locations snapshot.entries
                (record { seen = []; chunks = 0; bytes = 0 })) [
                  | none ↦ none
                  | some c ↦ some (record {
                    entries = length snapshot.entries;
                    chunks = c.chunks;
                    bytes = c.bytes;
                  })
                ]
        ]
      ]
