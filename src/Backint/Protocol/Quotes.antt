-- ===== src/Backint/Protocol/Quotes.antt =====
-- Quoted fields, and lines and fields up to a separator
-- (server/internal/backint/protocol.go).
use backup_x.Base.{ℕ, ◌≡◌, refl, ◌∙◌, ap, false, [], ◌∷◌, ◌++◌, some, arith, contains}
use backup_x.Base.Text.{trim_space-framed, Text, is_space, split_first}
use backup_x.Backint.Protocol.{last_code, without_last, strip_quotes, trim_quotes, escape, quote}

pub last_code-append : (c d : ℕ) (t : Text) → last_code c (t ++ d ∷ []) ≡ d
last_code-append c d [] = refl
last_code-append c d (x ∷ t) = last_code-append x d t

without_last-append : (c d : ℕ) (t : Text) → without_last c (t ++ d ∷ []) ≡ c ∷ t
without_last-append c d [] = refl
without_last-append c d (x ∷ t) = ap (◌∷◌ c) (without_last-append x d t)

pub escape_plain : (t : Text) → contains t b'"' ≡ false → escape t ≡ t
unfolding escape
escape_plain [] h = refl
escape_plain (c ∷ t) h = ground (arith, escape_plain t)

pub mark : is_space b'"' ≡ false
unfolding is_space
mark = refl

strip_quotes-framed : (t : Text) → strip_quotes (b'"' ∷ (t ++ b'"' ∷ [])) ≡ t
unfolding strip_quotes
strip_quotes-framed [] = refl
strip_quotes-framed (c ∷ t) = rw (last_code-append c b'"' t) (without_last-append c b'"' t)

-- What quote prints, trimQuotes takes off: for a text without a quotation mark.
pub trim_quotes-quote : (t : Text) → contains t b'"' ≡ false → trim_quotes (quote t) ≡ t
unfolding trim_quotes quote
trim_quotes-quote t h =
    ap strip_quotes (trim_space-framed b'"' b'"' (escape t) mark mark)
    ∙ strip_quotes-framed (escape t)
    ∙ escape_plain t h

pub split_first-plain :
    (sep : ℕ) (t rest : Text)
    → contains t sep ≡ false
    → split_first sep (t ++ sep ∷ rest) ≡ some (t, rest)
unfolding split_first
split_first-plain sep [] rest h = ground arith
split_first-plain sep (c ∷ t) rest h = ground (arith, split_first-plain sep t rest)
