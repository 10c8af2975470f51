-- ===== src/Repository/Slices.antt =====
-- Parts of byte lists: a chunk in the spool or in a pack of server/internal/backup/repository.go.
use backup_x.Base.{ℕ, zero, suc, ◌+◌, ◌≤◌, ◌≡◌, refl, ap, [], ◌∷◌, ◌++◌, length, take, drop, arith}
use backup_x.Repository.{Bytes}

abbrev pub slice : ℕ → ℕ → Bytes → Bytes
slice offset size bytes = take size (drop offset bytes)

pub take_all : (n : ℕ) (xs : Bytes) → length xs ≤ n → take n xs ≡ xs
take_all zero [] h = refl
take_all zero (x ∷ xs) h = absurd (omega arith)
take_all (suc n) [] h = refl
take_all (suc n) (x ∷ xs) h = ap (◌∷◌ x) (take_all n xs (omega arith))

pub take-append_length : (xs ys : Bytes) → take (length xs) (xs ++ ys) ≡ xs
take-append_length [] ys = refl
take-append_length (x ∷ xs) ys = ap (◌∷◌ x) (take-append_length xs ys)

pub drop-append_length : (xs ys : Bytes) → drop (length xs) (xs ++ ys) ≡ ys
drop-append_length [] ys = refl
drop-append_length (x ∷ xs) ys = drop-append_length xs ys

take-append_le : (n : ℕ) (xs ys : Bytes) → n ≤ length xs → take n (xs ++ ys) ≡ take n xs
take-append_le zero xs ys h = refl
take-append_le (suc n) [] ys h = absurd (omega arith)
take-append_le (suc n) (x ∷ xs) ys h = ap (◌∷◌ x) (take-append_le n xs ys (omega arith))

-- What is appended does not change the parts of a list.
pub slice-append :
    (offset size : ℕ) (xs ys : Bytes)
    → offset + size ≤ length xs
    → slice offset size (xs ++ ys) ≡ slice offset size xs
slice-append zero size xs ys h = take-append_le size xs ys (omega arith)
slice-append (suc offset) size [] ys h = absurd (omega arith)
slice-append (suc offset) size (x ∷ xs) ys h = slice-append offset size xs ys (omega arith)

-- The part at the end is what was appended.
pub slice-append_end : (xs ys : Bytes) → slice (length xs) (length ys) (xs ++ ys) ≡ ys
slice-append_end [] ys = take_all (length ys) ys (omega arith)
slice-append_end (x ∷ xs) ys = slice-append_end xs ys
