-- ===== src/Repository/Buckets.antt =====
-- A concrete bucket that stores objects by key, for the repository of
-- server/internal/backup/repository.go.
use backup_x.Base.{
  ◌≡◌, refl, sym, ◌∙◌, ap, subst, Bool, true, false, inl, inr, List, [], ◌∷◌, ◌++◌, Option, none,
  some, if◌then◌else◌, is_some, length, Among, arith, Option-cases,
}
use backup_x.Base.Text.{Text, text_eq, text_eq→eq, cut_prefix, cut_prefix-append}
use backup_x.Base.Dict.{get_key, put_key, has_key, get_key-put_key}
use backup_x.Repository.{Bytes, RepositoryStore, ObjectInfo, Provider, Tools}
use backup_x.Repository.Keys.{repository_pack_prefix}
use backup_x.Repository.Prune.Live.{DeletesOne, ListsPacks}
use backup_x.Repository.Upload.Packs.{IsServed}
use backup_x.Repository.Upload.Sound.{IsStore}

-- A bucket: its objects, and the keys whose upload or deletion fails.
pub record Bucket : Type 0 where
  pub objects : List (Text × Bytes)
  pub upload_fails : List Text
  pub delete_fails : List Text

unfoldable pub list_from : Text → List (Text × Bytes) → List ObjectInfo
list_from prefix [] = []
list_from prefix ((key, bytes) ∷ objects) =
    let rest = list_from prefix objects in
    if is_some (cut_prefix prefix key)
    then record { key = key; size = length bytes } ∷ rest
    else rest

unfoldable pub remove_object : Text → List (Text × Bytes) → List (Text × Bytes)
remove_object key [] = []
remove_object key ((k, bytes) ∷ objects) =
    let rest = remove_object key objects in if text_eq k key then rest else (k, bytes) ∷ rest

abbrev pub stored_in : Bucket → Text → Option Bytes
stored_in b key = get_key key b.objects

unfoldable pub bucket : Provider Bucket
unfolding list_from remove_object
bucket = record {
  list_objects = λ b prefix. some (list_from prefix b.objects);
  download = stored_in;
  download_range = none;
  upload = λ b key bytes.
      if has_key b.upload_fails key
      then (b, false)
      else (record b { objects = put_key key bytes b.objects }, true);
  delete_object = λ b key.
      if has_key b.delete_fails key
      then (b, false)
      else (record b { objects = remove_object key b.objects }, true);
}

pub bucket-IsStore : IsStore bucket stored_in
unfolding bucket
bucket-IsStore = record {
  upload_stores =
      λ b key other bytes done. ground (arith, done, get_key-put_key key other bytes b.objects);
}

get_key-remove_object :
    (key other : Text) (objects : List (Text × Bytes))
    → text_eq key other ≡ false
    → get_key other (remove_object key objects) ≡ get_key other objects
unfolding get_key remove_object
get_key-remove_object key other [] h = refl
get_key-remove_object key other ((k, bytes) ∷ objects) h =
    ground (arith, get_key-remove_object key other objects h, text_eq→eq k key, text_eq→eq k other)

pub bucket-DeletesOne : DeletesOne bucket
unfolding bucket
bucket-DeletesOne = record {
  download-delete = λ b key other h. ground (arith, get_key-remove_object key other b.objects h);
}

list_from-prefix :
    (prefix : Text) (objects : List (Text × Bytes)) (o : ObjectInfo)
    → Among o (list_from prefix objects)
    → (rest : Text) × (o.key ≡ prefix ++ rest)
unfolding list_from
list_from-prefix prefix [] o m = absurd m
list_from-prefix prefix ((key, bytes) ∷ objects) o m = elim (Option-cases (cut_prefix prefix key)) [
  | inl outside ↦
      list_from-prefix prefix objects o (subst (λ c. Among o (listed c)) (ap is_some outside) m)
  | inr (rest, e) ↦ elim (subst (λ c. Among o (listed c)) (ap is_some e) m) [
    | inl same ↦ (rest, ap (λ (x : ObjectInfo). x.key) same ∙ cut_prefix-append prefix key e)
    | inr below ↦ list_from-prefix prefix objects o below
  ]
]
  where
    listed : Bool → List ObjectInfo
    listed c =
        if c
        then record { key = key; size = length bytes } ∷ list_from prefix objects
        else list_from prefix objects

pub bucket-ListsPacks : (b : Bucket) → ListsPacks bucket b
unfolding bucket
bucket-ListsPacks b objects listed o m =
    list_from-prefix repository_pack_prefix b.objects o
      (subst (Among o) (sym (ground (arith, listed))) m)

pub bucket-IsServed :
    (tools : Tools) (store : RepositoryStore) (b : Bucket) → IsServed tools store stored_in bucket b
unfolding bucket
bucket-IsServed tools store b = record {
  download = λ key bytes h. h;
  download_range = λ range key bytes offset size e h. absurd (cc);
}
