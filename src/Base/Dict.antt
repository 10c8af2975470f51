-- ===== src/Base/Dict.antt =====
-- Go's `map[string]V` as an association list with one entry for each key.
use backup_x.Base.Tests.{if◌then◌else◌, Bool-cases}
use backup_x.Base.Text.{Text, text_eq, text_eq_refl, text_eq→eq}
use mathlib.Core.Path.{◌≡◌, refl, subst}
use mathlib.Core.Logic.{inl, inr}
use backup_x.Base.Lists.{All}
use mathlib.Core.Bool.{Bool, false, ◌||◌}
use mathlib.Core.Option.{Option, none, some}
use mathlib.Core.List.{List, [], ◌∷◌, ◌++◌}
use native.Mathlib.Omega.{arith}

module _ {ℓ} {V : Type ℓ} where
  unfoldable pub get_key : Text → List (Text × V) → Option V
  get_key k [] = none
  get_key k ((j, v) ∷ m) = if text_eq j k then some v else get_key k m

  -- `m[k] = v`.
  unfoldable pub put_key : Text → V → List (Text × V) → List (Text × V)
  put_key k v [] = (k, v) ∷ []
  put_key k v ((j, w) ∷ m) = if text_eq j k then (k, v) ∷ m else (j, w) ∷ put_key k v m

  pub get_key-put_key :
      (k j : Text) (v : V) (m : List (Text × V))
      → get_key j (put_key k v m) ≡ (if text_eq k j then some v else get_key j m)
  unfolding get_key put_key
  get_key-put_key k j v [] = refl
  get_key-put_key k j v ((i, w) ∷ m) = ground (
    arith,
    text_eq→eq i k,
    text_eq→eq i j,
    text_eq→eq k j,
    text_eq_refl j,
    text_eq_refl k,
    get_key-put_key k j v m,
  )

-- Go's `map[string]struct{}` as the list of its keys.
unfoldable pub has_key : List Text → Text → Bool
has_key [] t = false
has_key (x ∷ xs) t = text_eq x t || has_key xs t

-- No key is listed twice.
abbrev pub IsDistinct : List Text → Type 0
IsDistinct [] = Unit
IsDistinct (x ∷ xs) = (has_key xs x ≡ false) × IsDistinct xs

pub has_key-append :
    (xs ys : List Text) (t : Text) → has_key (xs ++ ys) t ≡ (has_key xs t || has_key ys t)
unfolding has_key
has_key-append [] ys t = refl
has_key-append (x ∷ xs) ys t = ground (arith, has_key-append xs ys t)

pub IsDistinct-snoc :
    (xs : List Text) (t : Text) → IsDistinct xs → has_key xs t ≡ false → IsDistinct (xs ++ t ∷ [])
unfolding has_key
IsDistinct-snoc [] t d h = (refl, tt)
IsDistinct-snoc (x ∷ xs) t d h = (
  ground (arith, has_key-append xs (t ∷ []) x, text_eq→eq t x, text_eq_refl x),
  IsDistinct-snoc xs t d.1 (ground arith),
)

module _ {ℓ κ} {V : Type ℓ} (P : Text × V → Type κ) where
  pub All-put_key :
      (k : Text) (v : V) (m : List (Text × V)) → All P m → P (k, v) → All P (put_key k v m)
  unfolding put_key
  All-put_key k v [] all p = (p, tt)
  All-put_key k v ((j, w) ∷ m) all p = elim (Bool-cases (text_eq j k)) [
    | inl same ↦ rw same (p, all.1)
    | inr other ↦ rw other (all.0, All-put_key k v m all.1 p)
  ]

  pub All-get_key :
      (k : Text) {v : V} (m : List (Text × V)) → All P m → get_key k m ≡ some v → P (k, v)
  unfolding get_key
  All-get_key k [] all e = absurd (cc)
  All-get_key k {v} ((j, w) ∷ m) all e = elim (Bool-cases (text_eq j k)) [
    | inl same ↦
        let values : w ≡ v = ground (arith, same) in
        subst (λ x. P (k, x)) values (subst (λ x. P (x, w)) (text_eq→eq j k same) all.0)
    | inr other ↦ All-get_key k m all.1 (ground (arith, other))
  ]
