-- ===== src/Backint/Protocol.antt =====
-- The input and output files of the Backint protocol (server/internal/backint/protocol.go).
--
-- A file is its text, read without an error of the reader. bufio.Scanner is its lines, up to the
-- first one that does not fit into the buffer of 4 MiB.
pub mod Quotes
pub mod RoundTrip
mod Tests
use mathlib.Core.List.{reverse}
use backup_x.Base.{
  ℕ, ◌+◌, Bool, true, false, ◌&&◌, ◌||◌, List, [], ◌∷◌, ◌++◌, Option, none, some, ltb, leb, ◌==◌,
  if◌then◌else◌,
}
use backup_x.Base.Text.{
  Text, codes, text_eq, trim_space, cut_prefix, split_on, split_first, to_lower,
}

pub data BackintFunction : Type 0 where
  backup restore inquire delete : BackintFunction

pub record BackupRequest : Type 0 where
  pub is_pipe : Bool
  pub path : Text

pub record RestoreRequest : Type 0 where
  pub is_pipe : Bool
  pub ebid : Text
  pub path : Text

pub record InquireRequest : Type 0 where
  pub all : Bool
  pub ebid : Text

pub record DeleteRequest : Type 0 where
  pub ebid : Text

-- What one line comes to: a request, or the line that the error names.
pub data Line {ℓ} (A : Type ℓ) : Type ℓ where
  item : A → Line A
  bad : Text → Line A

-- What a file comes to: the requests, an invalid line, or the error of the scanner.
pub data Parsed {ℓ} (A : Type ℓ) : Type ℓ where
  requests : List A → Parsed A
  invalid : Text → Parsed A
  too_long : Parsed A

abbrev pub is_blank : Text → Bool
is_blank [] = true
is_blank (c ∷ cs) = false

abbrev code_bytes : ℕ → ℕ
code_bytes c = if ltb c 128 then 1 else if ltb c 2048 then 2 else if ltb c 65536 then 3 else 4

-- The length of a text in UTF-8.
pub byte_length : Text → ℕ
byte_length [] = 0
byte_length (c ∷ cs) = code_bytes c + byte_length cs

abbrev pub max_line : ℕ
max_line = 4194304

abbrev last_code : ℕ → Text → ℕ
last_code c [] = c
last_code c (d ∷ cs) = last_code d cs

-- All but the last code point of `c ∷ cs`.
abbrev without_last : ℕ → Text → Text
without_last c [] = []
without_last c (d ∷ cs) = c ∷ without_last d cs

-- A line without the carriage return at its end.
pub drop_cr : Text → Text
drop_cr [] = []
drop_cr (c ∷ cs) = if last_code c cs == 0xd then without_last c cs else c ∷ cs

-- The lines of the parts between the newlines, and whether all of them fit.
pub scan_parts : List Text → List Text × Bool
scan_parts [] = ([], true)
scan_parts (part ∷ []) =
    if is_blank part
    then ([], true)
    else if leb max_line (byte_length part)
    then ([], false)
    else (drop_cr part ∷ [], true)
scan_parts (part ∷ next ∷ parts) =
    let (lines, fits) = scan_parts (next ∷ parts) in
    if leb max_line (byte_length part) then ([], false) else (drop_cr part ∷ lines, fits)

pub scan_lines : Text → List Text × Bool
scan_lines text = scan_parts (split_on 0xa text)

abbrev add_request {ℓ} : {A : Type ℓ} → A → Parsed A → Parsed A
add_request a (requests items) = requests (a ∷ items)
add_request a (invalid line) = invalid line
add_request a too_long = too_long

-- The loop that the four parsers share: a blank line is skipped, an invalid one ends it.
pub parse_lines {ℓ} : {A : Type ℓ} → (Text → Line A) → List Text → Bool → Parsed A
parse_lines parse [] fits = if fits then requests [] else too_long
parse_lines parse (l ∷ lines) fits =
    let line = trim_space l in
    let rest = parse_lines parse lines fits in
    if is_blank line
    then rest
    else elim (parse line) [ item a ↦ add_request a rest | bad b ↦ invalid b ]

pub parse_text {ℓ} : {A : Type ℓ} → (Text → Line A) → Text → Parsed A
parse_text parse text = let (lines, fits) = scan_lines text in parse_lines parse lines fits

-- trimQuotes behind its TrimSpace.
pub strip_quotes : Text → Text
strip_quotes [] = []
strip_quotes (c ∷ []) = c ∷ []
strip_quotes (c ∷ d ∷ cs) =
    if (c == b'"') && (last_code d cs == b'"') then without_last d cs else c ∷ d ∷ cs

pub trim_quotes : Text → Text
trim_quotes s = strip_quotes (trim_space s)

-- strings.ReplaceAll(s, `"`, `\"`).
pub escape : Text → Text
escape [] = []
escape (c ∷ cs) = if c == b'"' then 0x5c ∷ b'"' ∷ escape cs else c ∷ escape cs

pub quote : Text → Text
quote s = b'"' ∷ (escape s ++ b'"' ∷ [])

-- Before and after the first space or tab.
pub split_blank : Text → Option (Text × Text)
split_blank [] = none
split_blank (c ∷ cs) =
    let rest = split_blank cs in
    if (c == 0x20) || (c == 0x9)
    then some ([], cs)
    else elim rest [ none ↦ none | some (a, b) ↦ some (c ∷ a, b) ]

-- splitFirstField behind its TrimSpace.
pub split_field : Text → Text × Text
split_field [] = ([], [])
split_field (c ∷ cs) =
    if c == b'"'
    then elim (split_first b'"' cs) [ none ↦ (c ∷ cs, []) | some (a, b) ↦ (a, trim_space b) ]
    else elim (split_blank (c ∷ cs)) [ none ↦ (c ∷ cs, []) | some (a, b) ↦ (a, trim_space b) ]

pub split_first_field : Text → Text × Text
split_first_field line = split_field (trim_space line)

pub parse_backup_line : Text → Line BackupRequest
parse_backup_line line = elim (cut_prefix (codes "#PIPE") line) [
  | none ↦ item (record { is_pipe = false; path = trim_quotes line })
  | some rest ↦
      if is_blank (trim_space rest)
      then bad line
      else item (record { is_pipe = true; path = trim_quotes (trim_space rest) })
]

pub parse_backup_requests : Text → Parsed BackupRequest
parse_backup_requests text = parse_text parse_backup_line text

abbrev pub without_ebid : Text → Text
without_ebid line = elim (cut_prefix (codes "#EBID") line) [
  | none ↦ line
  | some rest ↦ trim_space rest
]

abbrev pub restore_fields : Bool → Text → Line RestoreRequest
restore_fields is_pipe line =
    let (ebid, rest) = split_first_field line in
    if is_blank ebid || is_blank rest
    then bad line
    else item (record { is_pipe = is_pipe; ebid = trim_quotes ebid; path = trim_quotes rest })

pub parse_restore_line : Text → Line RestoreRequest
parse_restore_line line = elim (cut_prefix (codes "#PIPE") line) [
  | none ↦ restore_fields false (without_ebid line)
  | some rest ↦ restore_fields true (without_ebid (trim_space rest))
]

pub parse_restore_requests : Text → Parsed RestoreRequest
parse_restore_requests text = parse_text parse_restore_line text

pub parse_inquire_line : Text → Line InquireRequest
parse_inquire_line line =
    if text_eq line (codes "#NULL")
    then item (record { all = true; ebid = [] })
    else item (record { all = false; ebid = trim_quotes (without_ebid line) })

pub parse_inquire_requests : Text → Parsed InquireRequest
parse_inquire_requests text = parse_text parse_inquire_line text

pub parse_delete_line : Text → Line DeleteRequest
parse_delete_line line =
    let ebid = trim_quotes (trim_space (without_ebid line)) in
    if is_blank ebid then bad (without_ebid line) else item (record { ebid = ebid })

pub parse_delete_requests : Text → Parsed DeleteRequest
parse_delete_requests text = parse_text parse_delete_line text

abbrev newline : Text
newline = 0xa ∷ []

pub write_saved : Text → Text → Text
write_saved ebid path = codes "#SAVED " ++ (ebid ++ (codes " " ++ (quote path ++ newline)))

pub write_restored : Text → Text → Text
write_restored ebid path =
    codes "#RESTORED " ++ (quote ebid ++ (codes " " ++ (quote path ++ newline)))

pub write_backup : Text → Text
write_backup ebid = codes "#BACKUP " ++ (quote ebid ++ newline)

pub write_not_found : Text → Text
write_not_found identifier = codes "#NOTFOUND " ++ (quote identifier ++ newline)

pub write_deleted : Text → Text
write_deleted ebid = codes "#DELETED " ++ (quote ebid ++ newline)

pub write_error : Text → Text
write_error identifier = codes "#ERROR " ++ (quote identifier ++ newline)

-- ParseFunction; none for an unsupported one.
pub parse_function : Text → Option BackintFunction
parse_function s =
    let word = to_lower (trim_space s) in
    if text_eq word (codes "backup")
    then some backup
    else if text_eq word (codes "restore")
    then some restore
    else if text_eq word (codes "inquire")
    then some inquire
    else if text_eq word (codes "delete")
    then some delete
    else none
