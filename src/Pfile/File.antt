-- ===== src/Pfile/File.antt =====
-- src/pfile.cc, src/pf-del.cc and src/linebuf.cc: the p-file, read by the constructor of `sccs_pfile` and written
-- by `update`. A file is the list of its bytes; that a file can be opened, and that writing and renaming
-- succeed, is not modelled.
use cssc.Common.{
  ℕ, zero, suc, List, [], ◌∷◌, ◌++◌, Bool, ◌&&◌, ◌||◌, not, Bytes, Option, none, some, ltb,
  if◌then◌else◌, ◌==◌, length, get_or, drop, codes,
}
use cssc.Common.Cut.{cut, onto_first}
use cssc.Common.Runs.{Run, value, quit, ◌>>=◌}
use cssc.Sid.{parse, valid}
use cssc.Sid.Text.{print}
use cssc.SidList.{SidList, empty_list, is_empty, parse_list, print_list}
use cssc.Dates.{Date, Assertion, valid_date}
use cssc.Dates.Read.{of_file, byte_at}
use cssc.Dates.Print.{as_string}
use cssc.Pfile.{EditLock, is_some}

-- The lines that `read_line` gives, each with its newline; the last one may have none.
unfoldable pub raw_lines : Bytes → List Bytes
raw_lines [] = []
raw_lines (c ∷ s) =
    let rest = raw_lines s in if c == b'\n' then (c ∷ []) ∷ rest else onto_first c rest

-- The last character is cut off.
unfoldable pub chomp : Bytes → Bytes
chomp [] = []
chomp (c ∷ []) = []
chomp (c ∷ d ∷ s) = c ∷ chomp (d ∷ s)

-- The parts of a text that is cut, with those of what is left.
unfoldable pub parts : Bytes × Option Bytes → (Bytes → List Bytes) → List Bytes
parts ([], none) more = []
parts (c ∷ start, none) more = (c ∷ start) ∷ []
parts (start, some rest) more = start ∷ more rest

-- `cssc_linebuf::split` from offset 0: at most `len` parts, and an empty last one is not counted.
unfoldable pub split : ℕ → ℕ → Bytes → List Bytes
split zero c s = []
split (suc len) c s = parts (cut c s) (split len c)

pub data Complaint : Type 0 where
  expected_args : Complaint
  bad_option : Complaint
  invalid_gotten_sid : Complaint
  invalid_delta_sid : Complaint
  invalid_date : Complaint
  invalid_sid_list : Complaint

-- How reading ends the program: `corrupt` with its line, `ctor_fail` of a list of SIDs, or an assertion
-- on a date.
pub data Stop : Type 0 where
  corrupt : ℕ → Complaint → Stop
  range_too_long : Stop
  date_assertion : Stop

-- The variables `incl` and `excl`.
pub record Options : Type 0 where
  pub incl : Option Bytes
  pub excl : Option Bytes

abbrev pub no_options : Options
no_options = record { incl = none; excl = none }

-- The loop over the arguments from the sixth on.
unfoldable pub read_options : List Bytes → Options → Options
read_options [] o = o
read_options (arg ∷ args) o = read_options args (
    if byte_at arg 0 == b'-'
    then (if byte_at arg 1 == b'i'
        then record o { incl = some (drop 2 arg) }
        else if byte_at arg 1 == b'x'
        then record o { excl = some (drop 2 arg) }
        else o)
    else o)

unfoldable pub bad_options : ℕ → Options → Bool
bad_options argc o =
    (argc == 6 && (not (is_some o.excl) && not (is_some o.incl)))
    || (argc == 7 && (not (is_some o.excl) || not (is_some o.incl)))

abbrev pub or_too_long : Option SidList → Run Stop SidList
or_too_long none = quit range_too_long
or_too_long (some l) = value l

-- The constructor of a list from a text or a null pointer.
unfoldable pub list_of : Option Bytes → Run Stop SidList
list_of none = value empty_list
list_of (some text) = or_too_long (parse_list text)

abbrev pub or_assertion : Run Assertion Date → Run Stop Date
or_assertion (value d) = value d
or_assertion (quit e) = quit date_assertion

unfoldable pub date_of_args : Bytes → Bytes → Run Stop Date
date_of_args day time = or_assertion (of_file day time)

-- The constructor of `edit_lock`.
unfoldable pub make_lock : List Bytes → Options → Run Stop EditLock
make_lock args o = do
  date ← date_of_args (get_or args 3 []) (get_or args 4 [])
  include ← list_of o.incl
  exclude ← list_of o.excl
  value (record {
    got = parse (get_or args 0 []);
    delta = parse (get_or args 1 []);
    user = get_or args 2 [];
    date = date;
    include = include;
    exclude = exclude;
  })

-- The checks of the new lock.
unfoldable pub check_lock : ℕ → EditLock → Run Stop EditLock
check_lock lineno tmp =
    if not (valid tmp.got)
    then quit (corrupt lineno invalid_gotten_sid)
    else if not (valid tmp.delta)
    then quit (corrupt lineno invalid_delta_sid)
    else if not (valid_date tmp.date)
    then quit (corrupt lineno invalid_date)
    else if not tmp.include.valid_flag || not tmp.exclude.valid_flag
    then quit (corrupt lineno invalid_sid_list)
    else value tmp

unfoldable pub read_args : ℕ → List Bytes → Run Stop EditLock
read_args lineno args =
    let o = read_options (drop 5 args) no_options in
    let lock = (make_lock args o >>= check_lock lineno) in
    if ltb (length args) 5
    then quit (corrupt lineno expected_args)
    else if bad_options (length args) o
    then quit (corrupt lineno bad_option)
    else lock

-- The loop of the constructor over the lines, after `lineno` of them.
unfoldable pub read_locks : ℕ → List Bytes → Run Stop (List EditLock)
read_locks lineno [] = value []
read_locks lineno (line ∷ lines) = do
  tmp ← read_args (suc lineno) (split 7 b' ' (chomp line))
  locks ← read_locks (suc lineno) lines
  value (tmp ∷ locks)

unfoldable pub read_pfile : Option Bytes → Run Stop (List EditLock)
read_pfile none = value []
read_pfile (some content) = read_locks 0 (raw_lines content)

-- One line of `write_edit_locks`.
unfoldable pub lock_text : EditLock → Bytes
lock_text it =
    print it.got
    ++ b' '
      ∷ (print it.delta
          ++ b' '
            ∷ (it.user
                ++ b' '
                  ∷ (as_string it.date
                      ++ ((if is_empty it.include then [] else codes " -i" ++ print_list it.include)
                          ++ ((if is_empty it.exclude
                                then []
                                else codes " -x" ++ print_list it.exclude)
                              ++ b'\n' ∷ [])))))

-- The text that is written, and the number of locks.
unfoldable pub write_edit_locks : List EditLock → Bytes × ℕ
write_edit_locks [] = ([], 0)
write_edit_locks (it ∷ its) =
    let rest = write_edit_locks its in (lock_text it ++ rest.0, suc rest.1)

-- `update`: the p-file, where there is one, after it.
unfoldable pub update : List EditLock → Bool → Option Bytes → Option Bytes
update locks pfile_already_exists pfile =
    let written = write_edit_locks locks in
    let pfile' = (if pfile_already_exists then none else pfile) in
    if written.1 == 0 then pfile' else some written.0
