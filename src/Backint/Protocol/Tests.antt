-- ===== src/Backint/Protocol/Tests.antt =====
-- Files of the Backint protocol (server/internal/backint/protocol.go).
use backup_x.Base.{◌≡◌, refl, true, false, [], ◌∷◌, some}
use backup_x.Base.Text.{
  codes, text_eq, trim_space, trim_left, is_space, cut_prefix, split_on, extend_first, split_first,
  to_lower,
}
use backup_x.Backint.Protocol.{
  RestoreRequest, requests, invalid, byte_length, drop_cr, scan_parts, scan_lines, parse_lines,
  parse_text, strip_quotes, trim_quotes, escape, quote, split_blank, split_field, split_first_field,
  parse_backup_line, parse_backup_requests, parse_restore_line, parse_restore_requests,
  parse_inquire_line, parse_inquire_requests, parse_delete_line, parse_delete_requests, write_saved,
  write_restored, write_backup, write_not_found, write_deleted, write_error, parse_function,
  restore,
}
use backup_x.Backint.Protocol.RoundTrip.{IsPlain, parse_restore_requests-print_all}

abbrev to_pipe : RestoreRequest
to_pipe = record { is_pipe = true; ebid = codes "backupx-123"; path = codes "/tmp/pipe one" }

abbrev to_file : RestoreRequest
to_file = record { is_pipe = false; ebid = codes "backupx-456"; path = codes "/tmp/file.bak" }

to_pipe-IsPlain : IsPlain to_pipe
unfolding escape quote byte_length trim_space
to_pipe-IsPlain = record {
  ebid_unquoted = refl;
  path_unquoted = refl;
  ebid_trimmed = refl;
  ebid_given = refl;
  one_line = refl;
  fits = refl;
}

to_file-IsPlain : IsPlain to_file
unfolding escape quote byte_length trim_space
to_file-IsPlain = record {
  ebid_unquoted = refl;
  path_unquoted = refl;
  ebid_trimmed = refl;
  ebid_given = refl;
  one_line = refl;
  fits = refl;
}

parse_restore_requests-print_all_example :
    parse_restore_requests
      (codes "#PIPE \"backupx-123\" \"/tmp/pipe one\"\n\"backupx-456\" \"/tmp/file.bak\"\n")
    ≡ requests (to_pipe ∷ to_file ∷ [])
unfolding escape quote
parse_restore_requests-print_all_example =
    parse_restore_requests-print_all (to_pipe ∷ to_file ∷ [])
      (to_pipe-IsPlain, (to_file-IsPlain, tt))

-- A quotation mark in a path is escaped on the way out, and not unescaped on the way in.
escapes : trim_quotes (quote (codes "a\"b")) ≡ codes "a\\\"b"
unfolding trim_quotes strip_quotes quote escape trim_space trim_left is_space
escapes = refl

-- The input files of the repository's own tests.
inputs :
    (parse_backup_requests (codes "#PIPE /tmp/pipe1\n\"/tmp/file two.bak\"\n")
      ≡ requests (
          record { is_pipe = true; path = codes "/tmp/pipe1" }
          ∷ record { is_pipe = false; path = codes "/tmp/file two.bak" }
          ∷ []))
    × (parse_restore_requests
          (codes "#EBID \"backupx-456\" \"/tmp/file.bak\"\r\n\nbackupx-789\t/tmp/plain.bak")
        ≡ requests (
            to_file
            ∷ record { is_pipe = false; ebid = codes "backupx-789"; path = codes "/tmp/plain.bak" }
            ∷ []))
    × (parse_inquire_requests (codes "#NULL\nbackupx-abc\n")
        ≡ requests (
            record { all = true; ebid = [] }
            ∷ record { all = false; ebid = codes "backupx-abc" }
            ∷ []))
    × (parse_delete_requests (codes "#EBID \"backupx-abc\"\n\"\"\n") ≡ invalid (codes "\"\""))
    × (parse_function (codes " Restore") ≡ some restore)
unfolding parse_backup_requests parse_backup_line parse_restore_requests parse_restore_line
    parse_inquire_requests parse_inquire_line parse_delete_requests parse_delete_line parse_text
    parse_lines scan_lines scan_parts drop_cr byte_length trim_quotes strip_quotes split_first_field
    split_field split_blank parse_function trim_space trim_left is_space cut_prefix split_on
    extend_first split_first to_lower text_eq
inputs = (refl, refl, refl, refl, refl)

outputs :
    (write_saved (codes "id") (codes "/p") ≡ codes "#SAVED id \"/p\"\n")
    × (write_restored (codes "id") (codes "/p") ≡ codes "#RESTORED \"id\" \"/p\"\n")
    × (write_backup (codes "id") ≡ codes "#BACKUP \"id\"\n")
    × (write_not_found (codes "id") ≡ codes "#NOTFOUND \"id\"\n")
    × (write_deleted (codes "id") ≡ codes "#DELETED \"id\"\n")
    × (write_error (codes "id") ≡ codes "#ERROR \"id\"\n")
unfolding write_saved write_restored write_backup write_not_found write_deleted write_error quote
    escape
outputs = (refl, refl, refl, refl, refl, refl)
