-- ===== src/Base/Text.antt =====
-- Texts as lists of code points, with the functions of Go's strings and unicode packages that the
-- code calls. Texts are valid UTF-8, so a list of code points stands for the string.
use Prim.Native.Nat.{ℕ, ◌+◌}
use Prim.Native.Char.{code}
use Prim.Native.String.{String}
use mathlib.Core.Path.{◌≡◌, refl, sym, ap, ◌∙◌}
use mathlib.Core.Logic.{inl, inr}
use mathlib.Core.Option
use mathlib.Core.Bool.{Bool, true, false, ◌&&◌, ◌||◌}
use mathlib.Core.Option.{Option, none, some}
use mathlib.Core.List.{List, [], ◌∷◌, ◌++◌, reverse, reverse_aux, reverse-reverse, reverse-append}
use native.Mathlib.Omega.{arith}
use backup_x.Base.Lists.{All, contains}
use backup_x.Base.Tests.{ltb, leb, Option-cases, ◌==◌, if◌then◌else◌}

abbrev pub Text : Type 0
Text = List ℕ

-- The code points of a literal.
abbrev pub codes : String → Text
codes String.[] = []
codes (String.◌∷◌ c s) = code c ∷ codes s

-- `a == b` on strings.
unfoldable pub text_eq : Text → Text → Bool
text_eq [] [] = true
text_eq [] (y ∷ ys) = false
text_eq (x ∷ xs) [] = false
text_eq (x ∷ xs) (y ∷ ys) = x == y && text_eq xs ys

pub text_eq_refl : (t : Text) → text_eq t t ≡ true
unfolding text_eq
text_eq_refl [] = refl
text_eq_refl (x ∷ xs) = ground (arith, text_eq_refl xs)

pub text_eq→eq : (s t : Text) → text_eq s t ≡ true → s ≡ t
unfolding text_eq
text_eq→eq [] [] h = refl
text_eq→eq [] (y ∷ ys) h = ground arith
text_eq→eq (x ∷ xs) [] h = ground arith
text_eq→eq (x ∷ xs) (y ∷ ys) h = ground (arith, text_eq→eq xs ys)

-- unicode.IsSpace.
unfoldable pub is_space : ℕ → Bool
is_space c =
    (leb 0x9 c && leb c 0xd)
    || (c == 0x20)
    || (c == 0x85)
    || (c == 0xa0)
    || (c == 0x1680)
    || (leb 0x2000 c && leb c 0x200a)
    || (c == 0x2028)
    || (c == 0x2029)
    || (c == 0x202f)
    || (c == 0x205f)
    || (c == 0x3000)

unfoldable pub trim_left : Text → Text
trim_left [] = []
trim_left (c ∷ cs) = let rest = trim_left cs in if is_space c then rest else c ∷ cs

-- strings.TrimSpace.
unfoldable pub trim_space : Text → Text
unfolding trim_left is_space
trim_space t = reverse (trim_left (reverse (trim_left t)))

-- strings.HasPrefix and strings.TrimPrefix at once: what follows the prefix.
unfoldable pub cut_prefix : Text → Text → Option Text
cut_prefix [] t = some t
cut_prefix (p ∷ ps) [] = none
cut_prefix (p ∷ ps) (c ∷ cs) = let rest = cut_prefix ps cs in if p == c then rest else none

-- A part put in front of those of the rest, or the first of them made longer.
unfoldable pub extend_first : ℕ → List Text → List Text
extend_first c [] = (c ∷ []) ∷ []
extend_first c (part ∷ parts) = (c ∷ part) ∷ parts

-- strings.Split by a separator of one character.
unfoldable pub split_on : ℕ → Text → List Text
unfolding extend_first
split_on sep [] = [] ∷ []
split_on sep (c ∷ cs) =
    let parts = split_on sep cs in if c == sep then [] ∷ parts else extend_first c parts

-- strings.SplitN with 2 parts: before and after the first separator, if there is one.
unfoldable pub split_first : ℕ → Text → Option (Text × Text)
split_first sep [] = none
split_first sep (c ∷ cs) =
    let rest = split_first sep cs in
    if c == sep then some ([], cs) else elim rest [ none ↦ none | some (a, b) ↦ some (c ∷ a, b) ]

-- unicode.ToLower where the result is ASCII. Every other letter has a lower case outside ASCII,
-- and is left alone.
unfoldable pub lower : ℕ → ℕ
lower c =
    if leb b'A' c && leb c b'Z'
    then c + 32
    else if c == 0x130
    then b'i'
    else if c == 0x212a
    then b'k'
    else c

unfoldable pub to_lower : Text → Text
unfolding lower
to_lower [] = []
to_lower (c ∷ cs) = lower c ∷ to_lower cs

-- strings.EqualFold with an ASCII text in lower case: the long s and the Kelvin sign fold to `s`
-- and `k`.
unfoldable pub fold : ℕ → ℕ
fold c =
    if leb b'A' c && leb c b'Z'
    then c + 32
    else if c == 0x17f
    then b's'
    else if c == 0x212a
    then b'k'
    else c

unfoldable pub equal_fold : Text → Text → Bool
unfolding fold text_eq
equal_fold [] [] = true
equal_fold [] (y ∷ ys) = false
equal_fold (x ∷ xs) [] = false
equal_fold (x ∷ xs) (y ∷ ys) = fold x == y && equal_fold xs ys

-- strings.HasSuffix and strings.TrimSuffix at once: what precedes the suffix.
unfoldable pub cut_suffix : Text → Text → Option Text
unfolding cut_prefix
cut_suffix s t = Option.map reverse (cut_prefix (reverse s) (reverse t))

pub cut_prefix-prefix : (p r : Text) → cut_prefix p (p ++ r) ≡ some r
unfolding cut_prefix
cut_prefix-prefix [] r = refl
cut_prefix-prefix (x ∷ p) r = ground (arith, cut_prefix-prefix p r)

pub cut_prefix-append : (p t : Text) {r : Text} → cut_prefix p t ≡ some r → t ≡ p ++ r
unfolding cut_prefix
cut_prefix-append [] t h = ground (arith, h)
cut_prefix-append (p ∷ ps) [] h = absurd (cc)
cut_prefix-append (p ∷ ps) (c ∷ cs) {r} h = ground (arith, cut_prefix-append ps cs {r = r})

pub cut_suffix-append : (s t : Text) {r : Text} → cut_suffix s t ≡ some r → t ≡ r ++ s
unfolding cut_suffix
cut_suffix-append s t {r} h = elim (Option-cases (cut_prefix (reverse s) (reverse t))) [
  | inl bad ↦ absurd (ground (arith, bad))
  | inr (front, good) ↦
      sym (reverse-reverse t)
      ∙ ap reverse (cut_prefix-append (reverse s) (reverse t) good)
      ∙ reverse-append (reverse s) front
      ∙ (rw (reverse-reverse s) (ap (λ (x : Text). x ++ s) (ground (arith, good))))
]

-- `a < b` on strings.
unfoldable pub text_lt : Text → Text → Bool
text_lt xs [] = false
text_lt [] (y ∷ ys) = true
text_lt (x ∷ xs) (y ∷ ys) = ltb x y || (x == y && text_lt xs ys)

-- strings.Contains with a text of one character.
unfoldable pub has_code : ℕ → Text → Bool
has_code c [] = false
has_code c (x ∷ xs) = x == c || has_code c xs

-- What precedes the last occurrence of a character, as strings.LastIndex finds it.
unfoldable pub before_last : ℕ → Text → Option Text
before_last sep [] = none
before_last sep (c ∷ cs) = elim (before_last sep cs) [
  | some front ↦ some (c ∷ front)
  | none ↦ if c == sep then some [] else none
]

-- strings.ReplaceAll of one character by another.
unfoldable pub replace_code : ℕ → ℕ → Text → Text
replace_code old new [] = []
replace_code old new (c ∷ cs) = (if c == old then new else c) ∷ replace_code old new cs

trim_left-nonspace : (c : ℕ) (t : Text) → is_space c ≡ false → trim_left (c ∷ t) ≡ c ∷ t
unfolding trim_left
trim_left-nonspace c t h = rw h refl

-- A text that begins and ends without a space is not trimmed.
pub trim_space-framed :
    (c d : ℕ) (t : Text)
    → is_space c ≡ false
    → is_space d ≡ false
    → trim_space (c ∷ (t ++ d ∷ [])) ≡ c ∷ (t ++ d ∷ [])
unfolding trim_space
trim_space-framed c d t h k =
    let turned : reverse (c ∷ (t ++ d ∷ [])) ≡ d ∷ reverse (c ∷ t) =
      reverse-append (c ∷ t) (d ∷ []) in
    ap (λ (l : Text). reverse (trim_left (reverse l))) (trim_left-nonspace c (t ++ d ∷ []) h)
    ∙ ap (λ (l : Text). reverse (trim_left l)) turned
    ∙ ap reverse (trim_left-nonspace d (reverse (c ∷ t)) k)
    ∙ ap reverse (sym turned)
    ∙ reverse-reverse (c ∷ (t ++ d ∷ []))

pub split_on-plain :
    (sep : ℕ) (t rest : Text)
    → contains t sep ≡ false
    → split_on sep (t ++ sep ∷ rest) ≡ t ∷ split_on sep rest
unfolding split_on extend_first
split_on-plain sep [] rest h = ground arith
split_on-plain sep (c ∷ t) rest h = ground (arith, split_on-plain sep t rest)

pub split_on_whole : (sep : ℕ) (t : Text) → contains t sep ≡ false → split_on sep t ≡ t ∷ []
unfolding split_on extend_first
split_on_whole sep [] h = refl
split_on_whole sep (c ∷ t) h = ground (arith, split_on_whole sep t)

abbrev pub HasNoSpace : Text → Type 0
HasNoSpace t = All (λ (c : ℕ). is_space c ≡ false) t

HasNoSpace-reverse_aux :
    (t acc : Text) → HasNoSpace t → HasNoSpace acc → HasNoSpace (reverse_aux t acc)
HasNoSpace-reverse_aux [] acc h k = k
HasNoSpace-reverse_aux (c ∷ t) acc h k = HasNoSpace-reverse_aux t (c ∷ acc) h.1 (h.0, k)

trim_left-plain : (t : Text) → HasNoSpace t → trim_left t ≡ t
unfolding trim_left
trim_left-plain [] h = refl
trim_left-plain (c ∷ t) h = ground (arith, h.0)

-- A text without a space is not trimmed.
pub trim_space-plain : (t : Text) → HasNoSpace t → trim_space t ≡ t
unfolding trim_space
trim_space-plain t h =
    ap (λ (l : Text). reverse (trim_left (reverse l))) (trim_left-plain t h)
    ∙ ap reverse (trim_left-plain (reverse t) (HasNoSpace-reverse_aux t [] h tt))
    ∙ reverse-reverse t
