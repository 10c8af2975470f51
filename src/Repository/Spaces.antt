-- ===== src/Repository/Spaces.antt =====
-- strings.TrimSpace on the bytes of a UTF-8 text, as server/internal/backup/repository.go and
-- server/internal/backup/file_runner.go call it.
use backup_x.Base.{
  ℕ, zero, suc, ◌-◌, Bool, true, false, ◌&&◌, ◌||◌, List, [], ◌∷◌, leb, ◌==◌, if◌then◌else◌,
}
use mathlib.Core.List.{reverse}

is_ascii_space : ℕ → Bool
is_ascii_space b = (leb 9 b && leb b 13) || b == 32

-- The spaces of two bytes: U+0085 and U+00A0.
is_space_of_two : ℕ → ℕ → Bool
is_space_of_two a b = (a == 0xc2) && ((b == 0x85) || (b == 0xa0))

-- The spaces of three bytes: U+1680, U+2000 to U+200A, U+2028, U+2029, U+202F, U+205F and U+3000.
is_space_of_three : ℕ → ℕ → ℕ → Bool
is_space_of_three a b c =
    ((a == 0xe1) && (b == 0x9a) && (c == 0x80))
    || ((a == 0xe2)
        && (b == 0x80)
        && ((leb 0x80 c && leb c 0x8a) || (c == 0xa8) || (c == 0xa9) || (c == 0xaf)))
    || ((a == 0xe2) && (b == 0x81) && (c == 0x9f))
    || ((a == 0xe3) && (b == 0x80) && (c == 0x80))

-- The length of the space of more than one byte that `a` and the bytes behind it begin, or that
-- they end when they are read from the back; 0 when there is none.
wide_length : Bool → ℕ → List ℕ → ℕ
unfolding is_space_of_two is_space_of_three
wide_length back a [] = 0
wide_length back a (b ∷ []) =
    if (if back then is_space_of_two b a else is_space_of_two a b) then 2 else 0
wide_length back a (b ∷ c ∷ bs) =
    if (if back then is_space_of_two b a else is_space_of_two a b)
    then 2
    else if (if back then is_space_of_three c b a else is_space_of_three a b c)
    then 3
    else 0

space_length : Bool → ℕ → List ℕ → ℕ
unfolding is_ascii_space wide_length
space_length back a bs = if is_ascii_space a then 1 else wide_length back a bs

-- Bytes without the spaces that they begin with, after a number of bytes that are left out.
skip_spaces : Bool → ℕ → List ℕ → List ℕ
unfolding space_length
skip_spaces back skip [] = []
skip_spaces back (suc skip) (b ∷ bs) = skip_spaces back skip bs
skip_spaces back zero (b ∷ bs) =
    let n = space_length back b bs in
    let rest = skip_spaces back (n - 1) bs in if n == 0 then b ∷ bs else rest

unfoldable pub trim_space : List ℕ → List ℕ
unfolding skip_spaces
trim_space bytes = reverse (skip_spaces true 0 (reverse (skip_spaces false 0 bytes)))
