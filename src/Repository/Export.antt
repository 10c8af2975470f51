-- ===== src/Repository/Export.antt =====
-- A snapshot as a tar archive, and the bytes that a restore writes into a file (ExportTar and the
-- file case of Restore in server/internal/backup/repository.go).
--
-- A member of the archive is its header with its bytes. archive/tar refuses more bytes than the
-- header says, and the next header or the end when there are fewer. The context and the local file
-- do not fail, and every header can be written.
use backup_x.Base.{
  ℕ, Bool, false, List, [], ◌∷◌, ◌++◌, Option, none, some, ◌==◌, if◌then◌else◌, length,
}
use backup_x.Base.Text.{Text, text_eq, cut_suffix}
use backup_x.Repository.Spaces.{trim_space}
use backup_x.Base.Int.{ℤ, pos_part}
use backup_x.Repository.{Bytes, RepositoryStore, RepositoryEntry, ChunkLocation, Provider, Tools}
use backup_x.Repository.Codec.{read_chunk}
use backup_x.Repository.Index.{is_negative, load_index}
use backup_x.Repository.Snapshot.{directory_kind, symlink_kind, file_kind, load_snapshot}

pub data Typeflag : Type 0 where
  type_dir type_symlink type_reg : Typeflag

pub record TarMember : Type 0 where
  pub name : Text
  pub typeflag : Typeflag
  pub linkname : Text
  pub mode : ℕ
  pub mod_time : ℤ
  pub content : Bytes

unfoldable pub with_slash : Text → Text
with_slash path =
    (elim (cut_suffix (b'/' ∷ []) path) [ none ↦ path | some front ↦ front ]) ++ (b'/' ∷ [])

-- The test on the number of bytes of a file.
unfoldable pub is_size : ℤ → Bytes → Bool
is_size size bytes = if is_negative size then false else length bytes == pos_part size

-- A member with the mode and the time of an entry.
abbrev pub member_with : RepositoryEntry → Text → Typeflag → Text → Bytes → TarMember
member_with entry name typeflag linkname content = record {
  name = name;
  typeflag = typeflag;
  linkname = linkname;
  mode = entry.mode;
  mod_time = entry.mod_time;
  content = content;
}

module _ (tools : Tools) (store : RepositoryStore) {E : Type 0} (provider : Provider E) where
  module _ (env : E) (locations : List (Text × ChunkLocation)) where
    -- The loop over the chunks of a file.
    unfoldable pub read_chunks : List Text → Option Bytes
    read_chunks [] = some []
    read_chunks (id ∷ ids) = elim (read_chunk tools store provider env id locations) [
      | none ↦ none
      | some raw ↦ elim (read_chunks ids) [ none ↦ none | some rest ↦ some (raw ++ rest) ]
    ]

    -- The bytes of a restored file, if there are as many as its entry says.
    unfoldable pub restored_file : RepositoryEntry → Option Bytes
    restored_file entry = elim (read_chunks entry.chunks) [
      | none ↦ none
      | some bytes ↦ if is_size entry.size bytes then some bytes else none
    ]

    unfoldable pub member_of : RepositoryEntry → Option TarMember
    member_of entry =
        if text_eq entry.kind directory_kind
        then some (member_with entry (with_slash entry.path) type_dir [] [])
        else if text_eq entry.kind symlink_kind
        then some (member_with entry entry.path type_symlink entry.link_target [])
        else if text_eq entry.kind file_kind
        then elim (restored_file entry) [
          | none ↦ none
          | some bytes ↦ some (member_with entry entry.path type_reg [] bytes)
        ]
        else none

    unfoldable pub members_of : List RepositoryEntry → Option (List TarMember)
    members_of [] = some []
    members_of (entry ∷ entries) = elim (member_of entry) [
      | none ↦ none
      | some m ↦ elim (members_of entries) [ none ↦ none | some ms ↦ some (m ∷ ms) ]
    ]

  unfoldable pub export_tar : E → Text → Text → Option (List TarMember)
  export_tar env key expected_checksum =
      if text_eq (trim_space expected_checksum) []
      then none
      else elim (load_snapshot tools store provider env key expected_checksum) [
        | none ↦ none
        | some snapshot ↦ elim (load_index tools store provider env) [
          | none ↦ none
          | some locations ↦ members_of env locations snapshot.entries
        ]
      ]
