-- ===== src/Repository/Packs.antt =====
-- How a pack and its index are written (uploadPack in server/internal/backup/repository.go).
use backup_x.Base.{ℕ, not, List, [], ◌∷◌, Option, none, some, if◌then◌else◌, length}
use backup_x.Base.Text.{Text}
use backup_x.Base.Int.{pos}
use backup_x.Repository.{Bytes, ChunkLocation, Provider, Tools, repository_format_version}
use backup_x.Repository.Hex.{hex_encode}
use backup_x.Repository.Keys.{pack_key, index_key}

abbrev pub located : Text → ChunkLocation → ChunkLocation
located key location = record location { pack = key }

-- The locations of a pack once it has its key.
unfoldable pub with_pack : Text → List (Text × ChunkLocation) → List (Text × ChunkLocation)
with_pack key [] = []
with_pack key ((id, location) ∷ chunks) = (id, located key location) ∷ with_pack key chunks

abbrev pub pack_id : Tools → Bytes → Text
pack_id tools pack = hex_encode (tools.sha256 pack)

module _ (tools : Tools) {E : Type 0} (provider : Provider E) where
  -- uploadPack: the key of the pack and the sizes of its index and of itself. A pack whose index
  -- cannot be written is deleted again.
  unfoldable pub upload_pack :
      ℕ → E → Bytes → List (Text × ChunkLocation) → E × Option (Text × ℕ × ℕ)
  upload_pack now env pack chunks =
      let key = pack_key (pack_id tools pack) in
      let index_bytes = tools.marshal_segment (record {
        version = pos repository_format_version;
        created_at = now;
        pack = key;
        chunks = with_pack key chunks;
      }) in
      let (env', sent) = provider.upload env key pack in
      let (env'', indexed) = provider.upload env' (index_key (pack_id tools pack)) index_bytes in
      if not sent
      then (env', none)
      else if not indexed
      then ((provider.delete_object env'' key).0, none)
      else (env'', some (key, length index_bytes, length pack))
