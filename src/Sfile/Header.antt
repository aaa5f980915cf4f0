-- ===== src/Sfile/Header.antt =====
-- src/parser.cc and src/sf-write.cc: the header of a history file behind its checksum, read by
-- `sccs_file_parser::parse_header` and written by `sccs_file::write`. The flags of a file are in
-- Sfile/Flags.
pub mod Ends
pub mod FlagLines
pub mod RoundTrip
use cssc.Common.{
  ℕ, zero, suc, ◌+◌, ◌≤◌, ◌<◌, ◌≡◌, refl, ap, ◌∙◌, List, [], ◌∷◌, ◌++◌, append_assoc, Bool, true,
  false, ◌&&◌, ◌||◌, not, Bytes, Option, none, some, if◌then◌else◌, ◌==◌, length, length-append,
  drop, All, arith,
}
use cssc.Common.Runs.{Run, value, quit, ◌>>=◌}
use cssc.Body.Line.{char_at, line_type}
use cssc.Sfile.{
  Entry, Mode, Stop, corrupt, out_of_fuel, unexpected_eof, expected_u, expected_user, bad_flag_arg,
  expected_t, expected_end_of_text, ◌>>◌, guard, next_line, check_arg, check_noarg, read_delta,
  write_delta,
}
use cssc.Sfile.Flags.{FileFlags, write_flags}
use cssc.Sfile.Entries.{IsRecorded, recorded, read_entry, read_delta-write_delta}

-- A flag with its value, where it has one.
pub record ParsedFlag : Type 0 where
  pub letter : ℕ
  pub value : Option Bytes

-- What `open_result` holds of the header.
pub record Header : Type 0 where
  pub entries : List Entry
  pub users : List Bytes
  pub flags : List ParsedFlag
  pub comments : List Bytes

-- The loop over the entries: they, the line that ends the loop, and those after it.
unfoldable pub read_table :
    ℕ → Mode → Bool → Bytes → List Bytes → Run Stop (List Entry × (Bytes × List Bytes))
read_table zero mode is_bk line lines = quit out_of_fuel
read_table (suc fuel) mode is_bk line lines =
    let more = (do
      d ← read_delta mode is_bk line lines
      next ← next_line d.1
      rest ← read_table fuel mode is_bk next.0 next.1
      value (d.0 ∷ rest.0, rest.1)) in
    if line_type line == b's' then more else value ([], (line, lines))

-- The loop over the names of users, from the present line on.
unfoldable pub read_users : Bytes → List Bytes → Run Stop (List Bytes × List Bytes)
read_users line [] =
    if line_type line == b'U'
    then value ([], [])
    else if line_type line == 0
    then quit (corrupt unexpected_eof)
    else quit (corrupt expected_user)
read_users line (next ∷ lines) =
    let more = (read_users next lines >>= λ r. value (line ∷ r.0, r.1)) in
    if line_type line == b'U'
    then value ([], next ∷ lines)
    else if line_type line == 0
    then more
    else quit (corrupt expected_user)

unfoldable pub read_flag : Bytes → Run Stop ParsedFlag
read_flag line = do
  check_arg line
  guard (not (char_at line 3 == 0 || (not (char_at line 4 == 0) && not (char_at line 4 == b' '))))
      (corrupt bad_flag_arg)
  value (record {
    letter = char_at line 3;
    value = if char_at line 4 == b' ' then some (drop 5 line) else none;
  })

-- The loop over the flags.
unfoldable pub read_flags : Bytes → List Bytes → Run Stop (List ParsedFlag × (Bytes × List Bytes))
read_flags line [] =
    if line_type line == b'f'
    then (read_flag line >>= λ f. quit (corrupt unexpected_eof))
    else value ([], (line, []))
read_flags line (next ∷ lines) =
    let more = (do f ← read_flag line; r ← read_flags next lines; value (f ∷ r.0, r.1)) in
    if line_type line == b'f' then more else value ([], (line, next ∷ lines))

-- The loop over the lines of the descriptive text.
unfoldable pub read_comments : Bytes → List Bytes → Run Stop (List Bytes × (Bytes × List Bytes))
read_comments line [] =
    if line_type line == 0 then quit (corrupt unexpected_eof) else value ([], (line, []))
read_comments line (next ∷ lines) =
    let more = (read_comments next lines >>= λ r. value (line ∷ r.0, r.1)) in
    if line_type line == 0 then more else value ([], (line, next ∷ lines))

-- `parse_header` behind the line of the checksum: the header, and the lines of the body. An entry has a
-- line, so that there is fuel for all.
unfoldable pub parse_header : Mode → Bool → List Bytes → Run Stop (Header × List Bytes)
parse_header mode is_bk lines = do
  t ← (next_line lines >>= λ l. read_table (length lines + 1) mode is_bk l.0 l.1)
  guard (line_type t.1.0 == b'u') (corrupt expected_u)
  check_noarg t.1.0
  us ← (next_line t.1.1 >>= λ l. read_users l.0 l.1)
  fs ← (next_line us.1 >>= λ l. read_flags l.0 l.1)
  guard (line_type fs.1.0 == b't') (corrupt expected_t)
  cs ← (next_line fs.1.1 >>= λ l. read_comments l.0 l.1)
  guard (line_type cs.1.0 == b'T') (corrupt expected_end_of_text)
  value (record { entries = t.0; users = us.0; flags = fs.0; comments = cs.0 }, cs.1.1)

abbrev pub bare : ℕ → Bytes
bare letter = 1 ∷ letter ∷ []

unfoldable pub write_table : List Entry → List Bytes
write_table [] = []
write_table (e ∷ es) = write_delta e ++ write_table es

-- What `write` takes from a history file.
pub record Contents : Type 0 where
  pub entries : List Entry
  pub users : List Bytes
  pub flags : FileFlags
  pub comments : List Bytes

-- `write`, as the lines that it writes.
unfoldable pub write_header : Contents → List Bytes
unfolding write_flags
write_header h =
    write_table h.entries
    ++ bare b'u'
      ∷ (h.users ++ bare b'U' ∷ (write_flags h.flags ++ bare b't' ∷ (h.comments ++ bare b'T' ∷ [])))
