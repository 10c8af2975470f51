-- ===== src/Repository/Hex.antt =====
-- Go's encoding/hex on lists of bytes.
use backup_x.Base.{
  ℕ, ◌+◌, ◌-◌, ◌*◌, ◌/◌, ◌%◌, ◌≡◌, refl, ◌&&◌, [], ◌∷◌, Option, none, some, ltb, leb, if◌then◌else◌,
  length, arith, Option-cases, inl, inr,
}
use backup_x.Base.Text.{Text}
use mathlib.Core.Option
use mathlib.Core.Path.{ap₂}
use backup_x.Repository.{Bytes}

hex_digit : ℕ → ℕ
hex_digit d = if ltb d 10 then b'0' + d else b'a' + (d - 10)

-- hex.EncodeToString.
unfoldable pub hex_encode : Bytes → Text
unfolding hex_digit
hex_encode [] = []
hex_encode (b ∷ bs) = hex_digit (b / 16) ∷ hex_digit (b % 16) ∷ hex_encode bs

hex_value : ℕ → Option ℕ
hex_value c =
    if leb b'0' c && leb c b'9'
    then some (c - b'0')
    else if leb b'a' c && leb c b'f'
    then some (c - b'a' + 10)
    else if leb b'A' c && leb c b'F'
    then some (c - b'A' + 10)
    else none

-- hex.DecodeString; an odd length is an error.
unfoldable pub hex_decode : Text → Option Bytes
unfolding hex_value
hex_decode [] = some []
hex_decode (c ∷ []) = none
hex_decode (c ∷ d ∷ cs) = elim (hex_value c) [
  | none ↦ none
  | some hi ↦ elim (hex_value d) [
    | none ↦ none
    | some lo ↦ Option.map (◌∷◌ (hi * 16 + lo)) (hex_decode cs)
  ]
]

-- A text that decodes is twice as long as its bytes.
pub length-hex_decode :
    (t : Text) {bytes : Bytes} → hex_decode t ≡ some bytes → length t ≡ length bytes + length bytes
unfolding hex_decode
length-hex_decode [] h = ground arith
length-hex_decode (c ∷ []) h = ground arith
length-hex_decode (c ∷ d ∷ cs) {bytes} h = elim (Option-cases (hex_decode cs)) [
  | inl bad ↦ absurd (ground (arith, bad))
  | inr (rest, good) ↦ ground (arith, good, length-hex_decode cs good)
]

hex_digit-injective : (a b : ℕ) → hex_digit a ≡ hex_digit b → a ≡ b
unfolding hex_digit
hex_digit-injective a b h = ground arith

pub hex_encode-injective : (xs ys : Bytes) → hex_encode xs ≡ hex_encode ys → xs ≡ ys
unfolding hex_encode
hex_encode-injective [] [] h = refl
hex_encode-injective [] (y ∷ ys) h = absurd (ground (arith, h))
hex_encode-injective (x ∷ xs) [] h = absurd (ground (arith, h))
hex_encode-injective (x ∷ xs) (y ∷ ys) h =
    let hi : hex_digit (x / 16) ≡ hex_digit (y / 16) = cc in
    let lo : hex_digit (x % 16) ≡ hex_digit (y % 16) = cc in
    let rest : hex_encode xs ≡ hex_encode ys = cc in
    ap₂ ◌∷◌
      (omega
        (arith, hex_digit-injective (x / 16) (y / 16) hi, hex_digit-injective (x % 16) (y % 16) lo))
      (hex_encode-injective xs ys rest)
