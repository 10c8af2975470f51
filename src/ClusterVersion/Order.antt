-- ===== src/ClusterVersion/Order.antt =====
-- The comparison of versions (isVersionOutdated in server/internal/service/cluster_version.go)
-- against the numbers that a version shows.
use backup_x.Base.{
  ℕ, ◌+◌, ◌-◌, ◌*◌, ◌%◌, ◌<◌, ◌≤◌, ◌≡◌, refl, ap, ◌∙◌, Bool, false, ◌&&◌, ◌||◌, List, [], ◌∷◌, ◌++◌,
  map, Option, none, some, arith, ltb, ◌==◌, All, contains, if◌then◌else◌, inl, inr, Bool-cases,
}
use mathlib.Core.List.{append-nil}
use backup_x.Base.Text.{
  Text, codes, text_eq, is_space, cut_prefix, split_on, trim_space-plain, split_on-plain,
  split_on_whole,
}
use backup_x.ClusterVersion.{
  word, sign_bit, signed_lt, atoi_from, atoi, pair_of, split_parts, bare_version, is_unversioned,
  split_major_minor, is_older, is_older_opt, is_version_outdated,
}

-- A version by its decimal digits: the numbers that count, and the patch if it shows one.
pub record Version : Type 0 where
  pub prefixed : Bool
  pub major : List ℕ
  pub minor : List ℕ
  pub patch : Option (List ℕ)

abbrev pub AreDigits : List ℕ → Type 0
AreDigits ds = All (λ (d : ℕ). d < 10) ds

abbrev pub shown : List ℕ → Text
shown ds = map (λ (d : ℕ). d + b'0') ds

abbrev pub shown_patch : Option (List ℕ) → Text
shown_patch none = []
shown_patch (some ds) = b'.' ∷ shown ds

abbrev body : Version → Text
body v = shown v.major ++ b'.' ∷ (shown v.minor ++ shown_patch v.patch)

-- The text of a version, such as v1.10.2 or 1.10.
unfoldable pub print : Version → Text
print v = if v.prefixed then b'v' ∷ body v else body v

unfoldable pub value_from : ℕ → List ℕ → ℕ
value_from n [] = n
value_from n (d ∷ ds) = value_from (n * 10 + d) ds

abbrev pub value : List ℕ → ℕ
value ds = value_from 0 ds

abbrev pub ArePatchDigits : Option (List ℕ) → Type 0
ArePatchDigits none = Unit
ArePatchDigits (some ds) = AreDigits ds

-- The digits are digits, and the numbers fit an int.
pub record IsVersion (v : Version) : Type 0 where
  pub major_digits : AreDigits v.major
  pub minor_digits : AreDigits v.minor
  pub patch_digits : ArePatchDigits v.patch
  pub major_fits : value v.major < sign_bit
  pub minor_fits : value v.minor < sign_bit

value_from_ge : (n : ℕ) (ds : List ℕ) → n ≤ value_from n ds
unfolding value_from
value_from_ge n [] = omega arith
value_from_ge n (d ∷ ds) = omega (arith, value_from_ge (n * 10 + d) ds)

small_mod : (n : ℕ) → n < word → n % word ≡ n
small_mod n h = omega (arith, h)

atoi_from-shown :
    (n : ℕ) (ds : List ℕ)
    → AreDigits ds
    → value_from n ds < word
    → atoi_from n (shown ds) ≡ some (value_from n ds)
unfolding atoi_from value_from
atoi_from-shown n [] digits fits = refl
atoi_from-shown n (d ∷ ds) digits fits =
    let small : n * 10 + d < word = omega (arith, value_from_ge (n * 10 + d) ds, fits) in
    let wrapped : (n * 10 + ((d + b'0') - b'0')) % word ≡ n * 10 + d =
      omega (arith, small_mod (n * 10 + d) small) in
    ground (arith, wrapped, digits.0, atoi_from-shown (n * 10 + d) ds digits.1 fits)

atoi-shown : (ds : List ℕ) → AreDigits ds → value ds < sign_bit → atoi (shown ds) ≡ some (value ds)
unfolding atoi
atoi-shown ds digits fits = atoi_from-shown 0 ds digits (omega (arith, fits))

no_dot : (ds : List ℕ) → AreDigits ds → contains (shown ds) b'.' ≡ false
no_dot [] digits = refl
no_dot (d ∷ ds) digits = ground (arith, no_dot ds digits.1)

signed_lt-small : (a b : ℕ) → a < sign_bit → b < sign_bit → signed_lt a b ≡ ltb a b
unfolding signed_lt
signed_lt-small a b h k = ground (
  arith,
  small_mod (a + sign_bit) (omega (arith, h)),
  small_mod (b + sign_bit) (omega (arith, k)),
)

is_older-values :
    (a b c d : ℕ)
    → a < sign_bit
    → b < sign_bit
    → c < sign_bit
    → d < sign_bit
    → is_older (a, b) (c, d) ≡ (ltb a c || ((a == c) && ltb b d))
unfolding is_older
is_older-values a b c d fa fb fc fd =
    ground (arith, signed_lt-small a c fa fc, signed_lt-small b d fb fd)

All-append : (P : ℕ → Type 0) (xs ys : List ℕ) → All P xs → All P ys → All P (xs ++ ys)
All-append P [] ys h k = k
All-append P (x ∷ xs) ys h k = (h.0, All-append P xs ys h.1 k)

digit-IsInk : (d : ℕ) → d < 10 → is_space (d + b'0') ≡ false
unfolding is_space
digit-IsInk d h = ground (arith, h)

shown_ink : (ds : List ℕ) → AreDigits ds → All (λ (c : ℕ). is_space c ≡ false) (shown ds)
shown_ink [] h = tt
shown_ink (d ∷ ds) h = (digit-IsInk d h.0, shown_ink ds h.1)

marks_ink : (is_space b'.' ≡ false) × (is_space b'v' ≡ false)
unfolding is_space
marks_ink = (refl, refl)

shown_patch_ink :
    (p : Option (List ℕ)) → ArePatchDigits p → All (λ (c : ℕ). is_space c ≡ false) (shown_patch p)
shown_patch_ink none h = tt
shown_patch_ink (some ds) h = (marks_ink.0, shown_ink ds h)

module _ (v : Version) (ok : IsVersion v) where
  body_ink : All (λ (c : ℕ). is_space c ≡ false) (body v)
  body_ink =
      All-append _ (shown v.major) (b'.' ∷ (shown v.minor ++ shown_patch v.patch))
        (shown_ink v.major ok.major_digits)
        (
          marks_ink.0,
          All-append _ (shown v.minor) (shown_patch v.patch) (shown_ink v.minor ok.minor_digits)
              (shown_patch_ink v.patch ok.patch_digits),
        )

  -- The body starts with a digit or with the point.
  body_head :
      (ds : List ℕ) (rest : Text)
      → AreDigits ds
      → (cut_prefix (codes "v") (shown ds ++ b'.' ∷ rest) ≡ none)
        × (is_unversioned (shown ds ++ b'.' ∷ rest) ≡ false)
  unfolding cut_prefix is_unversioned text_eq
  body_head [] rest h = (refl, refl)
  body_head (d ∷ ds) rest h = (ground (arith, h.0), ground (arith, h.0))

  bare_version-print : bare_version (print v) ≡ body v
  unfolding bare_version print cut_prefix
  bare_version-print = elim (Bool-cases v.prefixed) [
    | inl e ↦
        let trimmed = trim_space-plain (b'v' ∷ body v) (marks_ink.1, body_ink) in
        ground (arith, e, trimmed)
    | inr e ↦
        let trimmed = trim_space-plain (body v) body_ink in
        let head = body_head v.major (shown v.minor ++ shown_patch v.patch) ok.major_digits in
        ground (arith, e, trimmed, head.0)
  ]

  split_on-tail :
      (p : Option (List ℕ))
      → (rest : List Text) × (split_on b'.' (shown v.minor ++ shown_patch p) ≡ shown v.minor ∷ rest)
  split_on-tail none = (
    [],
    ap (split_on b'.') (append-nil (shown v.minor))
        ∙ split_on_whole b'.' (shown v.minor) (no_dot v.minor ok.minor_digits),
  )
  split_on-tail (some ds) = (
    split_on b'.' (shown ds),
    split_on-plain b'.' (shown v.minor) (shown ds) (no_dot v.minor ok.minor_digits),
  )

  split_major_minor-body : split_major_minor (body v) ≡ some (value v.major, value v.minor)
  unfolding split_major_minor split_parts
  split_major_minor-body =
      let (rest, tail) = split_on-tail v.patch in
      let parts : split_on b'.' (body v) ≡ shown v.major ∷ shown v.minor ∷ rest =
        split_on-plain b'.' (shown v.major) (shown v.minor ++ shown_patch v.patch)
          (no_dot v.major ok.major_digits)
        ∙ ap (λ l. shown v.major ∷ l) tail in
      ap split_parts parts
      ∙ ap (λ o. pair_of o (atoi (shown v.minor)))
          (atoi-shown v.major ok.major_digits ok.major_fits)
      ∙ ap (pair_of (some (value v.major))) (atoi-shown v.minor ok.minor_digits ok.minor_fits)

-- For versions in decimal digits whose numbers fit an int, with or without the v and a patch, an
-- agent is outdated exactly when its major number is the smaller one, or the major numbers are the
-- same and its minor number is the smaller one.
pub is_version_outdated-print :
    (agent master : Version)
    → IsVersion agent
    → IsVersion master
    → is_version_outdated (print agent) (print master) ≡ (
        ltb (value agent.major) (value master.major)
        || ((value agent.major == value master.major)
            && ltb (value agent.minor) (value master.minor)))
unfolding is_version_outdated is_older_opt
is_version_outdated-print a m a_ok m_ok =
    let a_head =
      body_head a a_ok a.major (shown a.minor ++ shown_patch a.patch) a_ok.major_digits in
    let m_head =
      body_head m m_ok m.major (shown m.minor ++ shown_patch m.patch) m_ok.major_digits in
    ground (
      arith,
      bare_version-print a a_ok,
      bare_version-print m m_ok,
      a_head.1,
      m_head.1,
      split_major_minor-body a a_ok,
      split_major_minor-body m m_ok,
      is_older-values (value a.major) (value a.minor) (value m.major) (value m.minor)
          a_ok.major_fits a_ok.minor_fits m_ok.major_fits m_ok.minor_fits,
    )
