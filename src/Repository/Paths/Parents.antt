-- ===== src/Repository/Paths/Parents.antt =====
-- The parent that path.Dir gives for a plain path, one whose components fs.ValidPath accepts
-- (validateSnapshot in server/internal/backup/repository.go walks up with it).
use backup_x.Base.{
  ℕ, ◌≡◌, refl, true, false, ◌&&◌, List, [], ◌∷◌, ◌++◌, none, some, ◌==◌, length, arith, sym, ap,
  ◌∙◌, ◌<◌, inl, inr, ◌⊎◌, Option-cases, Bool-cases, length-append,
}
use mathlib.Core.List.{reverse, reverse-cons, append-nil, append_assoc}
use backup_x.Base.Text.{Text, text_eq, split_on, extend_first, before_last}
use backup_x.Repository.Paths.{
  dot, is_absolute, is_plain, all_plain, clean_step, clean_parts, join_parts, or_dot, clean, dir,
}

pub all_plain-append : (xs ys : List Text) → all_plain (xs ++ ys) ≡ (all_plain xs && all_plain ys)
unfolding all_plain
all_plain-append [] ys = refl
all_plain-append (x ∷ xs) ys = ground (arith, all_plain-append xs ys)

split_on_cons :
    (sep : ℕ) (t : Text) → (part : Text) × (parts : List Text) × (split_on sep t ≡ part ∷ parts)
unfolding split_on extend_first
split_on_cons sep [] = ([], [], refl)
split_on_cons sep (c ∷ cs) =
    let (part, parts, e) = split_on_cons sep cs in
    elim (Bool-cases (c == sep)) [
      | inl same ↦ ([], part ∷ parts, ground (arith, e, same))
      | inr other ↦ (c ∷ part, parts, ground (arith, e, other))
    ]

pub split_on-append :
    (sep : ℕ) (a b : Text) → split_on sep (a ++ sep ∷ b) ≡ split_on sep a ++ split_on sep b
unfolding split_on extend_first
split_on-append sep [] b = ground arith
split_on-append sep (c ∷ a) b =
    let (part, parts, e) = split_on_cons sep a in ground (arith, e, split_on-append sep a b)

-- Joining undoes the split.
join_parts-split_on : (t : Text) → join_parts (split_on b'/' t) ≡ t
unfolding split_on extend_first join_parts
join_parts-split_on [] = refl
join_parts-split_on (c ∷ t) =
    let (part, parts, e) = split_on_cons b'/' t in ground (arith, e, join_parts-split_on t)

-- Cleaning leaves plain components, and drops an empty one at the end.
clean_parts-plain :
    (done parts : List Text)
    → all_plain parts ≡ true
    → clean_parts false done (parts ++ [] ∷ []) ≡ reverse done ++ parts
unfolding clean_parts clean_step all_plain is_plain text_eq
clean_parts-plain done [] h = sym (append-nil (reverse done))
clean_parts-plain done (part ∷ parts) h = ground (
  arith,
  clean_parts-plain (part ∷ done) parts,
  reverse-cons part done,
  append_assoc (reverse done) (part ∷ []) parts,
)

pub before_last-append :
    (s rest : Text)
    → before_last b'/' (s ++ b'/' ∷ rest)
      ≡ some (elim (before_last b'/' rest) [ none ↦ s | some front ↦ s ++ b'/' ∷ front ])
unfolding before_last
before_last-append [] rest = elim (Option-cases (before_last b'/' rest)) [
  | inl e ↦ ground (arith, e)
  | inr (front, e) ↦ ground (arith, e)
]
before_last-append (c ∷ s) rest = ground (arith, before_last-append s rest)

pub before_last-some :
    (t : Text) {front : Text}
    → before_last b'/' t ≡ some front
    → (last : Text) × (t ≡ front ++ b'/' ∷ last)
unfolding before_last
before_last-some [] h = absurd (ground (arith, h))
before_last-some (c ∷ t) {front} h = elim (Option-cases (before_last b'/' t)) [
  | inl none_left ↦ (t, ground (arith, none_left))
  | inr (inner, e) ↦ let (last, split) = before_last-some t e in (last, ground (arith, e, split))
]

pub is_plain_dot : all_plain (split_on b'/' dot) ≡ false
unfolding all_plain is_plain split_on extend_first text_eq
is_plain_dot = refl

-- A plain path is relative.
is_absolute-plain :
    (t rest : Text) → all_plain (split_on b'/' t) ≡ true → is_absolute (t ++ rest) ≡ false
unfolding all_plain is_plain split_on extend_first text_eq
is_absolute-plain [] rest h = absurd (ground (arith, h))
is_absolute-plain (c ∷ t) rest h = elim (Bool-cases (c == b'/')) [
  | inl slash ↦ absurd (ground (arith, slash, h))
  | inr other ↦ other
]

or_dot-plain : (t : Text) → all_plain (split_on b'/' t) ≡ true → or_dot t ≡ t
unfolding all_plain is_plain split_on text_eq
or_dot-plain [] h = absurd (ground (arith, h))
or_dot-plain (c ∷ t) h = refl

-- Cleaning a plain path with a slash behind it takes the slash off.
clean-plain : (t : Text) → all_plain (split_on b'/' t) ≡ true → clean (t ++ b'/' ∷ []) ≡ t
unfolding clean split_on
clean-plain t h =
    let parts : clean_parts false [] (split_on b'/' (t ++ b'/' ∷ [])) ≡ split_on b'/' t =
      ap (clean_parts false []) (split_on-append b'/' t [])
      ∙ clean_parts-plain [] (split_on b'/' t) h in
    rw (is_absolute-plain t (b'/' ∷ []) h, parts, join_parts-split_on t) (or_dot-plain t h)

dir-plain :
    (t : Text) {front : Text}
    → before_last b'/' t ≡ some front
    → all_plain (split_on b'/' front) ≡ true
    → dir t ≡ front
unfolding dir
dir-plain t {front} e h = rw (e, dir) (clean-plain front h)

-- The parent of a plain path below `s` is `s`, or is itself below `s`, plain and shorter.
pub dir-below :
    (s rest : Text)
    → all_plain (split_on b'/' (s ++ b'/' ∷ rest)) ≡ true
    → (dir (s ++ b'/' ∷ rest) ≡ s)
      ⊎ ((front : Text) × (dir (s ++ b'/' ∷ rest) ≡ s ++ b'/' ∷ front)
          × (all_plain (split_on b'/' (s ++ b'/' ∷ front)) ≡ true)
          × (length (s ++ b'/' ∷ front) < length (s ++ b'/' ∷ rest)))
dir-below s rest h =
    let plain : (all_plain (split_on b'/' s) && all_plain (split_on b'/' rest)) ≡ true =
      sym (all_plain-append (split_on b'/' s) (split_on b'/' rest))
      ∙ ap all_plain (sym (split_on-append b'/' s rest))
      ∙ h in
    let parent = before_last-append s rest in
    elim (Option-cases (before_last b'/' rest)) [
      | inl e ↦ inl (dir-plain (s ++ b'/' ∷ rest) (parent ∙ (rw e refl)) (ground (arith, plain)))
      | inr (front, e) ↦
          let (last, split) = before_last-some rest e in
          let parts : all_plain (split_on b'/' rest)
              ≡ (all_plain (split_on b'/' front) && all_plain (split_on b'/' last)) =
            ap (λ (x : Text). all_plain (split_on b'/' x)) split
            ∙ ap all_plain (split_on-append b'/' front last)
            ∙ all_plain-append (split_on b'/' front) (split_on b'/' last) in
          let above : all_plain (split_on b'/' (s ++ b'/' ∷ front)) ≡ true =
            ap all_plain (split_on-append b'/' s front)
            ∙ all_plain-append (split_on b'/' s) (split_on b'/' front)
            ∙ ground (arith, plain, parts) in
          inr (
            front,
            dir-plain (s ++ b'/' ∷ rest) (parent ∙ (rw e refl)) above,
            above,
            omega (
              arith,
              length-append s (b'/' ∷ front),
              length-append s (b'/' ∷ rest),
              ap length split,
              length-append front (b'/' ∷ last),
            ),
          )
    ]

-- The parent of a plain path is `.`, or what stands in front of its last slash.
pub dir-cases :
    (t : Text)
    → all_plain (split_on b'/' t) ≡ true
    → (dir t ≡ dot)
      ⊎ ((front last : Text) × (dir t ≡ front)
          × (t ≡ front ++ b'/' ∷ last)
          × (all_plain (split_on b'/' front) ≡ true))
unfolding dir
dir-cases t h = elim (Option-cases (before_last b'/' t)) [
  | inl e ↦ inl (rw (e, dir) refl)
  | inr (front, e) ↦
      let (last, split) = before_last-some t e in
      let parts : (all_plain (split_on b'/' front) && all_plain (split_on b'/' last)) ≡ true =
        sym (all_plain-append (split_on b'/' front) (split_on b'/' last))
        ∙ ap all_plain (sym (split_on-append b'/' front last))
        ∙ ap (λ (x : Text). all_plain (split_on b'/' x)) (sym split)
        ∙ h in
      let above : all_plain (split_on b'/' front) ≡ true = ground (arith, parts) in
      inr (front, last, dir-plain t e above, split, above)
]
