-- ===== src/Repository/Keys.antt =====
-- The keys of packs and indexes, and the ids in them (uploadPack and readIndexSegment in
-- server/internal/backup/repository.go).
use backup_x.Base.{
  ◌≡◌, refl, Bool, false, not, ◌&&◌, [], ◌∷◌, ◌++◌, Option, none, some, ◌==◌, if◌then◌else◌, length,
  take, arith, ap, ◌∙◌, inl, inr, Option-cases,
}
use backup_x.Base.Text.{
  Text, codes, text_eq, to_lower, cut_prefix, cut_suffix, has_code, cut_prefix-append,
  cut_suffix-append,
}
use mathlib.Core.List.{append_cancel_left, append_cancel_right}
use backup_x.Repository.Hex.{hex_decode}

abbrev pub repository_root : Text
repository_root = codes ".backupx/repository/v1"

abbrev pub repository_index_prefix : Text
repository_index_prefix = codes ".backupx/repository/v1/indexes"

abbrev pub repository_pack_prefix : Text
repository_pack_prefix = codes ".backupx/repository/v1/packs"

abbrev pub repository_snapshot_root : Text
repository_snapshot_root = codes ".backupx/repository/v1/snapshots"

unfoldable pub pack_key : Text → Text
pack_key pack_id =
    repository_pack_prefix ++ (b'/' ∷ (take 2 pack_id ++ (b'/' ∷ (pack_id ++ codes ".pack"))))

unfoldable pub index_key : Text → Text
index_key pack_id = repository_index_prefix ++ (b'/' ∷ (pack_id ++ codes ".json"))

-- A text of 64 hexadecimal digits in lower case.
unfoldable pub is_hash : Text → Bool
is_hash id = elim (hex_decode id) [
  | none ↦ false
  | some bytes ↦ length bytes == 32 && text_eq id (to_lower id)
]

-- The id in the key of an index, if the key is well formed.
unfoldable pub index_id : Text → Option Text
unfolding is_hash
index_id key = elim (cut_prefix (repository_index_prefix ++ (b'/' ∷ [])) key) [
  | none ↦ none
  | some name ↦ elim (cut_suffix (codes ".json") name) [
    | none ↦ none
    | some id ↦
        if is_hash id && not (has_code b'/' name) && not (has_code b'\\' name)
        then some id
        else none
  ]
]

-- The key of an index is that of its id.
pub index_id-index_key : (key : Text) {id : Text} → index_id key ≡ some id → key ≡ index_key id
unfolding index_id index_key
index_id-index_key key {id} h =
    elim (Option-cases (cut_prefix (repository_index_prefix ++ (b'/' ∷ [])) key)) [
      | inl bad ↦ absurd (ground (arith, bad))
      | inr (name, front) ↦ elim (Option-cases (cut_suffix (codes ".json") name)) [
        | inl bad ↦ absurd (ground (arith, front, bad))
        | inr (inner, back) ↦
            let same : inner ≡ id = ground (arith, front, back) in
            cut_prefix-append (repository_index_prefix ++ (b'/' ∷ [])) key front
            ∙ ap (◌++◌ (repository_index_prefix ++ (b'/' ∷ [])))
                (cut_suffix-append (codes ".json") name back)
            ∙ (rw same refl)
      ]
    ]

pub index_key-ne-pack_key : (id id' : Text) → text_eq (index_key id) (pack_key id') ≡ false
unfolding index_key pack_key text_eq
index_key-ne-pack_key id id' = refl

pub pack_key-ne-index_key : (id id' : Text) → text_eq (pack_key id) (index_key id') ≡ false
unfolding index_key pack_key text_eq
pack_key-ne-index_key id id' = refl

abbrev pack_tail : Text → Text
pack_tail id = b'/' ∷ (take 2 id ++ (b'/' ∷ (id ++ codes ".pack")))

pack_tail-injective : (a b : Text) → pack_tail a ≡ pack_tail b → a ≡ b
pack_tail-injective [] [] h = refl
pack_tail-injective [] (y ∷ []) h = absurd (ground (arith, h))
pack_tail-injective [] (y ∷ z ∷ b) h = absurd (ground (arith, h))
pack_tail-injective (x ∷ []) [] h = absurd (ground (arith, h))
pack_tail-injective (x ∷ []) (y ∷ []) h = ground (arith, h)
pack_tail-injective (x ∷ []) (y ∷ z ∷ b) h = absurd (ground (arith, h))
pack_tail-injective (w ∷ x ∷ a) [] h = absurd (ground (arith, h))
pack_tail-injective (w ∷ x ∷ a) (y ∷ []) h = absurd (ground (arith, h))
pack_tail-injective (w ∷ x ∷ a) (y ∷ z ∷ b) h =
    append_cancel_right (w ∷ x ∷ a) (y ∷ z ∷ b) (codes ".pack") (ground (arith, h))

-- Different ids have different packs.
pub pack_key-injective : (a b : Text) → pack_key a ≡ pack_key b → a ≡ b
unfolding pack_key
pack_key-injective a b h =
    pack_tail-injective a b
      (append_cancel_left repository_pack_prefix (pack_tail a) (pack_tail b) h)
