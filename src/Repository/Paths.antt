-- ===== src/Repository/Paths.antt =====
-- Go's path and io/fs functions on slash-separated paths, as validateSnapshot and ExportTar in
-- server/internal/backup/repository.go call them.
pub mod Parents
use backup_x.Base.{
  ℕ, zero, suc, Bool, true, false, not, ◌&&◌, ◌||◌, List, [], ◌∷◌, ◌++◌, Option, none, some, ltb,
  ◌==◌, if◌then◌else◌,
}
use mathlib.Core.List.{reverse}
use backup_x.Base.Text.{Text, text_eq, split_on, before_last}

abbrev pub dot : Text
dot = b'.' ∷ []

abbrev pub dot_dot : Text
dot_dot = b'.' ∷ b'.' ∷ []

-- path.IsAbs.
abbrev pub is_absolute : Text → Bool
is_absolute [] = false
is_absolute (c ∷ cs) = c == b'/'

-- A component that fs.ValidPath accepts.
unfoldable pub is_plain : Text → Bool
is_plain part = not (text_eq part [] || text_eq part dot || text_eq part dot_dot)

unfoldable pub all_plain : List Text → Bool
all_plain [] = true
all_plain (part ∷ parts) = is_plain part && all_plain parts

-- The number of bytes that follow the first byte of a character in UTF-8, with the bounds of the
-- next of them; nothing for a byte that starts no character.
unfoldable pub utf8_start : ℕ → Option (ℕ × ℕ × ℕ)
utf8_start b =
    if ltb b 128
    then some (0, 128, 191)
    else if ltb b 194
    then none
    else if ltb b 224
    then some (1, 128, 191)
    else if b == 224
    then some (2, 160, 191)
    else if b == 237
    then some (2, 128, 159)
    else if ltb b 240
    then some (2, 128, 191)
    else if b == 240
    then some (3, 144, 191)
    else if ltb b 244
    then some (3, 128, 191)
    else if b == 244
    then some (3, 128, 143)
    else none

-- utf8.ValidString on a rest that starts with so many bytes of a character, the first within bounds.
unfoldable pub is_utf8_from : ℕ → ℕ → ℕ → Text → Bool
is_utf8_from zero low high [] = true
is_utf8_from (suc n) low high [] = false
is_utf8_from zero low high (b ∷ bs) = elim (utf8_start b) [
  | none ↦ false
  | some (n, low', high') ↦ is_utf8_from n low' high' bs
]
is_utf8_from (suc n) low high (b ∷ bs) =
    not (ltb b low) && not (ltb high b) && is_utf8_from n 128 191 bs

unfoldable pub is_utf8 : Text → Bool
is_utf8 = is_utf8_from 0 128 191

-- fs.ValidPath.
unfoldable pub is_valid_path : Text → Bool
is_valid_path name = is_utf8 name && (text_eq name dot || all_plain (split_on b'/' name))

-- What path.Clean does with a component: the components so far stand in reverse.
unfoldable pub clean_step : Bool → List Text → Text → List Text
clean_step rooted done part =
    if text_eq part [] || text_eq part dot
    then done
    else if text_eq part dot_dot
    then elim done [
      | [] ↦ if rooted then [] else dot_dot ∷ []
      | top ∷ rest ↦ if text_eq top dot_dot then dot_dot ∷ top ∷ rest else rest
    ]
    else part ∷ done

unfoldable pub clean_parts : Bool → List Text → List Text → List Text
clean_parts rooted done [] = reverse done
clean_parts rooted done (part ∷ parts) = clean_parts rooted (clean_step rooted done part) parts

unfoldable pub join_parts : List Text → Text
join_parts [] = []
join_parts (part ∷ []) = part
join_parts (part ∷ next ∷ parts) = part ++ (b'/' ∷ join_parts (next ∷ parts))

abbrev pub or_dot : Text → Text
or_dot [] = dot
or_dot (c ∷ cs) = c ∷ cs

-- path.Clean.
unfoldable pub clean : Text → Text
clean name =
    let parts = clean_parts (is_absolute name) [] (split_on b'/' name) in
    if is_absolute name then b'/' ∷ join_parts parts else or_dot (join_parts parts)

-- path.Join of two elements.
unfoldable pub join : Text → Text → Text
join [] [] = []
join [] (c ∷ cs) = clean (c ∷ cs)
join (c ∷ cs) [] = clean (c ∷ cs)
join (c ∷ cs) (d ∷ ds) = clean ((c ∷ cs) ++ (b'/' ∷ d ∷ ds))

-- path.Dir.
unfoldable pub dir : Text → Text
dir name = elim (before_last b'/' name) [ none ↦ dot | some front ↦ clean (front ++ (b'/' ∷ [])) ]

-- path.Base of a clean path that is not empty.
unfoldable pub base : Text → Text
base name = elim (reverse (split_on b'/' name)) [ [] ↦ dot | part ∷ parts ↦ part ]
