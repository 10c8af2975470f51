-- ===== src/Repository/Snapshot.antt =====
-- Snapshots: their validation, and how they are written and read (validateSnapshot, encodeSnapshot
-- and loadSnapshot in server/internal/backup/repository.go).
--
-- The server runs on Unix, where filepath.IsAbs is path.IsAbs and no path has a volume.
pub mod Symlinks
pub mod Entries
pub mod Accepts
mod Tests
use backup_x.Base.{
  ℕ, zero, suc, Bool, true, false, not, ◌&&◌, ◌||◌, List, [], ◌∷◌, Option, none, some, ltb, ◌==◌,
  if◌then◌else◌, length, is_some,
}
use backup_x.Base.Text.{Text, codes, text_eq, equal_fold, cut_prefix, has_code, replace_code}
use backup_x.Repository.Spaces.{trim_space}
use backup_x.Base.Int.{pos, pos_part}
use backup_x.Base.Dict.{has_key}
use mathlib.Core.Option
use backup_x.Repository.{
  Bytes, RepositoryStore, RepositoryEntry, RepositorySnapshot, SnapshotEnvelope, Provider, Tools,
  repository_format_version, repository_max_snapshot,
}
use backup_x.Repository.Hex.{hex_encode, hex_decode}
use backup_x.Repository.Codec.{encrypt, decrypt}
use backup_x.Repository.Index.{is_chunk_id, is_compression, is_negative, is_version}
use backup_x.Repository.Paths.{dot, dot_dot, is_absolute, is_valid_path, clean, join, dir}

abbrev pub directory_kind : Text
directory_kind = codes "directory"

abbrev pub symlink_kind : Text
symlink_kind = codes "symlink"

abbrev pub file_kind : Text
file_kind = codes "file"

abbrev pub is_none_left : List Text → Bool
is_none_left [] = true
is_none_left (c ∷ cs) = false

-- The first test of an entry.
unfoldable pub is_plain_entry : RepositoryEntry → Bool
is_plain_entry entry = not (
    text_eq entry.path dot
    || not (is_valid_path entry.path)
    || not (text_eq (clean entry.path) entry.path)
    || has_code b'\\' entry.path
    || ltb 511 entry.mode
    || is_negative entry.size)

-- The target of a symlink from the root of the snapshot.
unfoldable pub resolved_target : RepositoryEntry → Text
resolved_target entry = clean (join (dir entry.path) (replace_code b'\\' b'/' entry.link_target))

unfoldable pub escapes_root : RepositoryEntry → Bool
escapes_root entry =
    let target = resolved_target entry in
    has_code 0 entry.link_target
    || is_absolute (replace_code b'\\' b'/' entry.link_target)
    || is_absolute entry.link_target
    || text_eq target dot_dot
    || is_some (cut_prefix (codes "../") target)

unfoldable pub all_chunk_ids : Bool → List Text → Bool
all_chunk_ids encrypted [] = true
all_chunk_ids encrypted (id ∷ ids) = is_chunk_id encrypted id && all_chunk_ids encrypted ids

unfoldable pub is_valid_file : Bool → RepositoryEntry → Bool
is_valid_file encrypted entry =
    not (
      not (text_eq entry.link_target [])
      || (pos_part entry.size == 0 && not (is_none_left entry.chunks))
      || (ltb 0 (pos_part entry.size) && is_none_left entry.chunks))
    && all_chunk_ids encrypted entry.chunks

-- The switch on the kind of an entry.
unfoldable pub is_valid_kind : Bool → RepositoryEntry → Bool
is_valid_kind encrypted entry =
    if text_eq entry.kind directory_kind
    then is_none_left entry.chunks && text_eq entry.link_target []
    else if text_eq entry.kind symlink_kind
    then not (text_eq entry.link_target []) && is_none_left entry.chunks && not (escapes_root entry)
    else if text_eq entry.kind file_kind
    then is_valid_file encrypted entry
    else false

-- The loop over the entries, from the paths and the symlinks seen so far, with those after it.
unfoldable pub check_entries :
    Bool → List Text → List Text → List RepositoryEntry → Option (List Text × List Text)
check_entries encrypted seen symlinks [] = some (seen, symlinks)
check_entries encrypted seen symlinks (entry ∷ entries) =
    let rest =
      check_entries encrypted (entry.path ∷ seen)
        (if text_eq entry.kind symlink_kind then entry.path ∷ symlinks else symlinks) entries in
    if not (is_plain_entry entry) || has_key seen entry.path || not (is_valid_kind encrypted entry)
    then none
    else rest

-- The loop from the parent of a path upwards. A parent is shorter than its path, so that the length
-- of the path is fuel enough.
unfoldable pub crosses_symlink : ℕ → List Text → Text → Bool
crosses_symlink zero symlinks parent = false
crosses_symlink (suc fuel) symlinks parent =
    let above = crosses_symlink fuel symlinks (dir parent) in
    if text_eq parent dot then false else has_key symlinks parent || above

unfoldable pub no_crossing : List Text → List Text → Bool
no_crossing symlinks [] = true
no_crossing symlinks (path ∷ paths) =
    not (crosses_symlink (length path) symlinks (dir path)) && no_crossing symlinks paths

unfoldable pub validate_snapshot : RepositorySnapshot → Bool
validate_snapshot snapshot =
    is_version snapshot.version
    && is_compression snapshot.compression
    && elim (check_entries snapshot.encrypted [] [] snapshot.entries) [
      | none ↦ false
      | some (seen, symlinks) ↦ no_crossing symlinks seen
    ]

abbrev pub snapshot_domain : Bytes
snapshot_domain = codes "backupx-repository-snapshot-v1"

module _ (tools : Tools) (store : RepositoryStore) where
  unfoldable pub encode_snapshot : Bytes → RepositorySnapshot → Option Bytes
  encode_snapshot random snapshot =
      let payload = tools.marshal_snapshot snapshot in
      let envelope = λ (data_bytes : Bytes) (ciphertext : Text). tools.marshal_envelope (record {
        version = pos repository_format_version;
        encrypted = snapshot.encrypted;
        payload = data_bytes;
        ciphertext = ciphertext;
      }) in
      if snapshot.encrypted
      then Option.map (λ sealed. envelope [] (tools.base64_encode sealed))
          (encrypt tools store random payload snapshot_domain)
      else some (envelope payload [])

  -- The test of the expected checksum, when there is one.
  unfoldable pub matches_checksum : Text → Bytes → Bool
  matches_checksum expected_checksum bytes =
      let expected = trim_space expected_checksum in
      if text_eq expected [] then true else elim (hex_decode expected) [
        | none ↦ false
        | some digest ↦ length digest == 32 && equal_fold expected (hex_encode (tools.sha256 bytes))
      ]

  unfoldable pub open_envelope : SnapshotEnvelope → Option Bytes
  open_envelope envelope =
      if not (is_version envelope.version)
      then none
      else if not envelope.encrypted
      then some envelope.payload
      else elim (tools.base64_decode envelope.ciphertext) [
        | none ↦ none
        | some sealed ↦ decrypt tools store sealed snapshot_domain
      ]

  unfoldable pub same_flag : Bool → Bool → Bool
  same_flag true b = b
  same_flag false b = not b

  -- The tests of the payload.
  unfoldable pub check_snapshot : SnapshotEnvelope → RepositorySnapshot → Option RepositorySnapshot
  check_snapshot envelope snapshot =
      if is_version snapshot.version
        && same_flag snapshot.encrypted envelope.encrypted
        && validate_snapshot snapshot
      then some snapshot
      else none

  unfoldable pub decode_snapshot : Bytes → Option RepositorySnapshot
  decode_snapshot bytes = elim (tools.unmarshal_envelope bytes) [
    | none ↦ none
    | some envelope ↦ elim (open_envelope envelope) [
      | none ↦ none
      | some payload ↦ elim (tools.unmarshal_snapshot payload) [
        | none ↦ none
        | some snapshot ↦ check_snapshot envelope snapshot
      ]
    ]
  ]

  unfoldable pub load_snapshot :
      {E : Type 0} → Provider E → E → Text → Text → Option RepositorySnapshot
  load_snapshot provider env key expected_checksum = elim (provider.download env key) [
    | none ↦ none
    | some bytes ↦
        if ltb repository_max_snapshot (length bytes)
        then none
        else if not (matches_checksum expected_checksum bytes)
        then none
        else decode_snapshot bytes
  ]
