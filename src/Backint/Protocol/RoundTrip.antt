-- ===== src/Backint/Protocol/RoundTrip.antt =====
-- Files of RESTORE requests, printed and parsed
-- (server/internal/backint/protocol.go).
use mathlib.Core.List.{append_assoc}
use backup_x.Base.{
  ℕ, ◌≡◌, refl, ◌∙◌, sym, ap, subst, Bool, true, false, List, [], ◌∷◌, ◌++◌, map, some, arith, ltb,
  leb, if◌then◌else◌, contains, All,
}
use backup_x.Base.Text.{
  Text, trim_space-framed, split_on-plain, codes, trim_space, trim_left, is_space, cut_prefix,
  split_on, split_first,
}
use backup_x.Backint.Protocol.{
  RestoreRequest, item, requests, is_blank, byte_length, max_line, drop_cr, scan_parts, scan_lines,
  parse_lines, parse_text, strip_quotes, trim_quotes, escape, quote, split_field, split_first_field,
  without_ebid, restore_fields, parse_restore_line, parse_restore_requests,
}
use backup_x.Backint.Protocol.Quotes.{
  last_code-append, escape_plain, mark, trim_quotes-quote, split_first-plain,
}

-- A restore request as the protocol prints it: `#PIPE "<ebid>" "<path>"` or `"<ebid>" "<path>"`.
abbrev pub print_fields : Text → Text → Text
print_fields ebid path = quote ebid ++ 0x20 ∷ quote path

abbrev pub print_restore : RestoreRequest → Text
print_restore r =
    if r.is_pipe then codes "#PIPE " ++ print_fields r.ebid r.path else print_fields r.ebid r.path

abbrev framed : Text → Text → Text
framed ebid path = escape ebid ++ b'"' ∷ 0x20 ∷ b'"' ∷ escape path

print_fields-framed :
    (ebid path : Text) → print_fields ebid path ≡ b'"' ∷ (framed ebid path ++ b'"' ∷ [])
unfolding quote
print_fields-framed ebid path =
    ap (λ t. b'"' ∷ t)
      (append_assoc (escape ebid) (b'"' ∷ []) (0x20 ∷ quote path)
        ∙ sym (append_assoc (escape ebid) (b'"' ∷ 0x20 ∷ b'"' ∷ escape path) (b'"' ∷ [])))

trim_space-print_fields :
    (ebid path : Text) → trim_space (print_fields ebid path) ≡ print_fields ebid path
trim_space-print_fields ebid path =
    rw (print_fields-framed ebid path) (trim_space-framed b'"' b'"' (framed ebid path) mark mark)

trim_space-blank : (t : Text) → trim_space (0x20 ∷ t) ≡ trim_space t
unfolding trim_space trim_left is_space
trim_space-blank t = refl

trim_space-quote : (t : Text) → trim_space (quote t) ≡ quote t
unfolding quote
trim_space-quote t = trim_space-framed b'"' b'"' (escape t) mark mark

-- What a request is made of for its print to be read back.
pub record IsPlain (r : RestoreRequest) : Type 0 where
  pub ebid_unquoted : contains r.ebid b'"' ≡ false
  pub path_unquoted : contains r.path b'"' ≡ false
  pub ebid_trimmed : trim_space r.ebid ≡ r.ebid
  pub ebid_given : is_blank r.ebid ≡ false
  pub one_line : contains (print_restore r) 0xa ≡ false
  pub fits : ltb (byte_length (print_restore r)) max_line ≡ true

split_first_field-print :
    (ebid path : Text)
    → contains ebid b'"' ≡ false
    → split_first_field (print_fields ebid path) ≡ (ebid, quote path)
unfolding split_first_field split_field quote
split_first_field-print ebid path h =
    let found : split_first b'"' ((escape ebid ++ b'"' ∷ []) ++ 0x20 ∷ quote path)
        ≡ some (ebid, 0x20 ∷ quote path) =
      rw (append_assoc (escape ebid) (b'"' ∷ []) (0x20 ∷ quote path), escape_plain ebid h)
        (split_first-plain b'"' ebid (0x20 ∷ quote path) h) in
    ap split_field (trim_space-print_fields ebid path)
    ∙ rw (found, split_field)
        (ap (λ t. (ebid, t)) (trim_space-blank (quote path) ∙ trim_space-quote path))

strip_quotes_unquoted : (t : Text) → contains t b'"' ≡ false → strip_quotes t ≡ t
unfolding strip_quotes
strip_quotes_unquoted [] h = refl
strip_quotes_unquoted (c ∷ []) h = refl
strip_quotes_unquoted (c ∷ d ∷ t) h = ground (arith, h)

trim_quotes_plain : (t : Text) → contains t b'"' ≡ false → trim_space t ≡ t → trim_quotes t ≡ t
unfolding trim_quotes
trim_quotes_plain t h k = ap strip_quotes k ∙ strip_quotes_unquoted t h

quote_given : (t : Text) → is_blank (quote t) ≡ false
unfolding quote
quote_given t = refl

restore_fields-print :
    (is_pipe : Bool) (r : RestoreRequest)
    → IsPlain r
    → restore_fields is_pipe (print_fields r.ebid r.path)
      ≡ item (record { is_pipe = is_pipe; ebid = r.ebid; path = r.path })
restore_fields-print is_pipe r v =
    rw
      (
        split_first_field-print r.ebid r.path v.ebid_unquoted,
        v.ebid_given,
        quote_given r.path,
        trim_quotes_plain r.ebid v.ebid_unquoted v.ebid_trimmed,
        trim_quotes-quote r.path v.path_unquoted,
      )
      refl

without_ebid-print :
    (ebid path : Text) → without_ebid (print_fields ebid path) ≡ print_fields ebid path
unfolding cut_prefix quote
without_ebid-print ebid path = refl

parse_restore_line-print :
    (is_pipe : Bool) (ebid path : Text)
    → IsPlain (record { is_pipe = is_pipe; ebid = ebid; path = path })
    → parse_restore_line (print_restore (record { is_pipe = is_pipe; ebid = ebid; path = path }))
      ≡ item (record { is_pipe = is_pipe; ebid = ebid; path = path })
unfolding parse_restore_line cut_prefix quote
parse_restore_line-print true ebid path v =
    rw
      (
        trim_space-blank (print_fields ebid path),
        trim_space-print_fields ebid path,
        without_ebid-print ebid path,
      )
      (restore_fields-print true _ v)
parse_restore_line-print false ebid path v = restore_fields-print false _ v

-- A printed line begins with a mark that is no space and ends with a quotation mark.
print_restore-framed :
    (is_pipe : Bool) (ebid path : Text)
    → (c : ℕ) × (t : Text) × (is_space c ≡ false)
      × (print_restore (record { is_pipe = is_pipe; ebid = ebid; path = path })
          ≡ c ∷ (t ++ b'"' ∷ []))
unfolding is_space
print_restore-framed true ebid path = (
  b'#',
  codes "PIPE " ++ b'"' ∷ framed ebid path,
  refl,
  ap (λ t. codes "#PIPE " ++ t) (print_fields-framed ebid path),
)
print_restore-framed false ebid path = (b'"', framed ebid path, refl, print_fields-framed ebid path)

drop_cr-framed : (c : ℕ) (t : Text) → drop_cr (c ∷ (t ++ b'"' ∷ [])) ≡ c ∷ (t ++ b'"' ∷ [])
unfolding drop_cr
drop_cr-framed c t = rw (last_code-append c b'"' t) refl

drop_cr-print : (r : RestoreRequest) → drop_cr (print_restore r) ≡ print_restore r
drop_cr-print r =
    let (c, t, plain, e) = print_restore-framed r.is_pipe r.ebid r.path in
    subst (λ l. drop_cr l ≡ l) (sym e) (drop_cr-framed c t)

trim_space-print :
    (r : RestoreRequest)
    → (trim_space (print_restore r) ≡ print_restore r) × (is_blank (print_restore r) ≡ false)
trim_space-print r =
    let (c, t, plain, e) = print_restore-framed r.is_pipe r.ebid r.path in
    subst (λ l. (trim_space l ≡ l) × (is_blank l ≡ false)) (sym e)
      (trim_space-framed c b'"' t plain mark, refl)

-- An input file with one request per line.
abbrev pub print_all : List RestoreRequest → Text
print_all [] = []
print_all (r ∷ rs) = print_restore r ++ 0xa ∷ print_all rs

split_on-print :
    (rs : List RestoreRequest)
    → All IsPlain rs
    → split_on 0xa (print_all rs) ≡ map print_restore rs ++ [] ∷ []
unfolding split_on
split_on-print [] v = refl
split_on-print (r ∷ rs) v =
    split_on-plain 0xa (print_restore r) (print_all rs) v.0.one_line
    ∙ ap (λ l. print_restore r ∷ l) (split_on-print rs v.1)

not_longer : (n : ℕ) → ltb n max_line ≡ true → leb max_line n ≡ false
not_longer n h = ground arith

scan_parts-step :
    (part : Text) (parts lines : List Text)
    → ltb (byte_length part) max_line ≡ true
    → drop_cr part ≡ part
    → scan_parts (parts ++ [] ∷ []) ≡ (lines, true)
    → scan_parts (part ∷ (parts ++ [] ∷ [])) ≡ (part ∷ lines, true)
unfolding scan_parts
scan_parts-step part [] lines h k e =
    let short : leb max_line (byte_length part) ≡ false = not_longer (byte_length part) h in
    rw (short, k) (ap (λ l. (part ∷ l.0, true)) e)
scan_parts-step part (next ∷ parts) lines h k e =
    let short : leb max_line (byte_length part) ≡ false = not_longer (byte_length part) h in
    rw (short, k, e) refl

scan_parts-print :
    (rs : List RestoreRequest)
    → All IsPlain rs
    → scan_parts (map print_restore rs ++ [] ∷ []) ≡ (map print_restore rs, true)
unfolding scan_parts
scan_parts-print [] v = refl
scan_parts-print (r ∷ rs) v =
    scan_parts-step (print_restore r) (map print_restore rs) (map print_restore rs) v.0.fits
      (drop_cr-print r) (scan_parts-print rs v.1)

parse_lines-print :
    (rs : List RestoreRequest)
    → All IsPlain rs
    → parse_lines parse_restore_line (map print_restore rs) true ≡ requests rs
unfolding parse_lines
parse_lines-print [] v = refl
parse_lines-print (r ∷ rs) v =
    rw
      (
        (trim_space-print r).0,
        (trim_space-print r).1,
        parse_restore_line-print r.is_pipe r.ebid r.path v.0,
        parse_lines-print rs v.1,
      )
      refl

-- An input file of RESTORE with one printed request per line is read back as these requests, in
-- their order, when no id and no path has a quotation mark, ids are not empty and have no space at
-- their ends, and every line is free of newlines and shorter than 4 MiB.
pub parse_restore_requests-print_all :
    (rs : List RestoreRequest)
    → All IsPlain rs
    → parse_restore_requests (print_all rs) ≡ requests rs
unfolding parse_restore_requests parse_text scan_lines
parse_restore_requests-print_all rs v =
    rw (split_on-print rs v, scan_parts-print rs v) (parse_lines-print rs v)
