-- ===== src/Sfile.antt =====
-- src/parser.cc and src/sf-write.cc: an entry of the delta table of a history file, read by
-- `sccs_file_parser::read_delta` and written by `sccs_file::write_delta`; Sfile/Header is the whole header. The file is the list of its lines without
-- their newlines. Warnings are not modelled.
pub mod Counts
pub mod Lists
pub mod Entries
pub mod Flags
pub mod Header
pub mod Ends
use cssc.Common.{
  ℕ, zero, suc, ◌+◌, ◌-◌, ◌*◌, ◌%◌, ◌^◌, List, [], ◌∷◌, ◌++◌, Bool, true, false, ◌&&◌, ◌||◌, not,
  Bytes, Option, none, some, ltb, leb, if◌then◌else◌, ◌==◌, length, get_elem?, drop, codes,
  is_digit,
}
use cssc.Common.Cut.{cut, pieces}
use cssc.Common.Decimal.{decimal}
use cssc.Common.Runs.{Run, value, quit, ◌>>=◌}
use cssc.Sid.{Sid, parse, valid}
use cssc.Sid.Text.{print}
use cssc.Dates.{Date, Assertion, no_date, valid_date}
use cssc.Dates.Read.{of_file}
use cssc.Dates.Print.{as_string}
use cssc.DeltaTable.{Delta}
use cssc.DeltaTable.Entry.{
  blank_delta, set_idu, set_has_includes, set_has_excludes, set_has_ignores, add_include,
  add_exclude, add_ignore, add_mr, add_comment,
}
use cssc.Pfile.File.{split}
use cssc.Body.Line.{Result, ok, fail, Failure, char_at, line_type, strict_atous}

-- A delta with the two members that the table of deltas leaves out.
pub record Entry : Type 0 where
  pub delta : Delta
  pub date : Date
  pub user : Bytes

pub data Mode : Type 0 where
  for_reading : Mode
  for_update : Mode
  fix_checksum : Mode
  create : Mode

pub data Complaint : Type 0 where
  unexpected_eof : Complaint
  missing_arg : Complaint
  unexpected_arg : Complaint
  two_slashes : Complaint
  negative_count : Complaint
  unexpected_suffix : Complaint
  expected_d : Complaint
  bad_delta_type : Complaint
  bad_sid : Complaint
  bad_date : Complaint
  bad_number : Failure → Complaint
  expected_e : Complaint
  expected_u : Complaint
  expected_user : Complaint
  bad_flag_arg : Complaint
  expected_t : Complaint
  expected_end_of_text : Complaint

-- How reading ends the program. `unset_arg` is where the code reads an element of `args` that `split`
-- has not set.
pub data Stop : Type 0 where
  corrupt : Complaint → Stop
  unknown_feature : Stop
  date_assertion : Stop
  flag_assertion : Stop
  unset_arg : Stop
  out_of_fuel : Stop

infixl 5 ◌>>◌
abbrev pub ◌>>◌ : {E B : Type 0} → Run E (Unit {0}) → Run E B → Run E B
m >> k = m >>= λ _. k

abbrev pub guard : Bool → Stop → Run Stop (Unit {0})
guard true reason = value tt
guard false reason = quit reason

-- `read_line`: the line, and the lines after it; and the type of a line.
abbrev pub next_line : List Bytes → Run Stop (Bytes × List Bytes)
next_line [] = quit (corrupt unexpected_eof)
next_line (line ∷ lines) = value (line, lines)

abbrev pub check_arg : Bytes → Run Stop (Unit {0})
check_arg line = guard (char_at line 2 == b' ') (corrupt missing_arg)

abbrev pub check_noarg : Bytes → Run Stop (Unit {0})
check_noarg line = guard (char_at line 2 == 0) (corrupt unexpected_arg)

-- The elements that `cssc_linebuf::split` sets in its array of `len`, an empty last one too.
abbrev pub last_or : Bytes × Option Bytes → (Bytes → List Bytes) → List Bytes
last_or (start, none) more = start ∷ []
last_or (start, some rest) more = start ∷ more rest

unfoldable pub set_args : ℕ → ℕ → Bytes → List Bytes
set_args zero c s = []
set_args (suc len) c s = last_or (cut c s) (set_args len c)

abbrev pub arg : List Bytes → ℕ → Run Stop Bytes
arg args i = elim (get_elem? args i) [ none ↦ quit unset_arg | some s ↦ value s ]

-- The digits at the start of a text with the value read so far, and what follows them.
unfoldable pub digits_of : Bytes → ℕ → ℕ × Bytes
digits_of [] n = (n, [])
digits_of (c ∷ s) n =
    let later = digits_of s (n * 10 + (c - b'0')) in if is_digit c then later else (n, c ∷ s)

-- What is left of a text behind the characters of a kind at its start.
unfoldable pub skip : (ℕ → Bool) → Bytes → Bytes
skip kind [] = []
skip kind (c ∷ s) = let rest = skip kind s in if kind c then rest else c ∷ s

-- `isspace` in the C locale.
abbrev pub is_space : ℕ → Bool
is_space c = c == b' ' || (leb 9 c && leb c 13)

abbrev pub behind_sign : Bytes → Bytes
behind_sign s = if char_at s 0 == b'-' || char_at s 0 == b'+' then drop 1 s else s

-- `strtoul` with base 10: the value, 2 ^ 64 - 1 where it is too large, and the text behind the number,
-- which is the whole text where there is none.
unfoldable pub strtoul : Bytes → ℕ × Bytes
strtoul s =
    let t = skip is_space s in
    let (n, rest) = digits_of (behind_sign t) 0 in
    if not (is_digit (char_at (behind_sign t) 0))
    then (0, s)
    else if leb (2 ^ 64) n
    then (2 ^ 64 - 1, rest)
    else if char_at t 0 == b'-'
    then ((2 ^ 64 - n) % 2 ^ 64, rest)
    else (n, rest)

-- `strict_atoul_idu`.
unfoldable pub count_of : Bytes → Run Stop ℕ
count_of s =
    let t = skip (λ c. c == b' ') s in
    let (n, rest) = strtoul t in
    if char_at t 0 == b'-'
    then quit (corrupt negative_count)
    else if not (char_at rest 0 == 0) && not (char_at rest 0 == b' ')
    then quit (corrupt unexpected_suffix)
    else value n

abbrev pub number : Result ℕ → Run Stop ℕ
number (ok n) = value n
number (fail e) = quit (corrupt (bad_number e))

abbrev pub dated : Run Assertion Date → Run Stop Date
dated (value d) = value d
dated (quit e) = quit date_assertion

abbrev pub asserted : Option Delta → Run Stop Delta
asserted none = quit flag_assertion
asserted (some d) = value d

-- The numbers of lines, from the line of type `s`.
unfoldable pub read_counts : Bytes → Run Stop Delta
read_counts line = do
  check_arg line
  guard (length (split 3 b'/' (drop 3 line)) == 3) (corrupt two_slashes)
  i ← (arg (split 3 b'/' (drop 3 line)) 0 >>= count_of)
  d ← (arg (split 3 b'/' (drop 3 line)) 1 >>= count_of)
  u ← (arg (split 3 b'/' (drop 3 line)) 2 >>= count_of)
  value (set_idu blank_delta i d u)

-- The line of type `d`.
unfoldable pub read_description : Delta → Bytes → Run Stop Entry
read_description tmp line = do
  check_arg line
  delta_type ← arg (set_args 7 b' ' (drop 3 line)) 0
  guard
      ((char_at delta_type 0 == b'D' || char_at delta_type 0 == b'R') && char_at delta_type 1 == 0)
      (corrupt bad_delta_type)
  id ← arg (set_args 7 b' ' (drop 3 line)) 1
  guard (valid (parse id)) (corrupt bad_sid)
  day ← arg (set_args 7 b' ' (drop 3 line)) 2
  time ← arg (set_args 7 b' ' (drop 3 line)) 3
  date ← dated (of_file day time)
  guard (valid_date date) (corrupt bad_date)
  user ← arg (set_args 7 b' ' (drop 3 line)) 4
  seq ← (arg (set_args 7 b' ' (drop 3 line)) 5 >>= λ s. number (strict_atous s))
  prev_seq ← (arg (set_args 7 b' ' (drop 3 line)) 6 >>= λ s. number (strict_atous s))
  value (record {
    delta = record tmp {
      delta_type = char_at delta_type 0;
      id = parse id;
      seq = seq;
      prev_seq = prev_seq;
    };
    date = date;
    user = user;
  })

-- The three lists of numbers.
pub data Listed : Type 0 where
  includes : Listed
  excludes : Listed
  ignores : Listed

abbrev pub letter_of : Listed → ℕ
letter_of includes = b'i'
letter_of excludes = b'x'
letter_of ignores = b'g'

abbrev pub set_has : Listed → Delta → Run Stop Delta
set_has includes d = asserted (set_has_includes d true)
set_has excludes d = asserted (set_has_excludes d true)
set_has ignores d = asserted (set_has_ignores d true)

abbrev pub add_number : Listed → Delta → ℕ → Delta
add_number includes d seq = add_include d seq
add_number excludes d seq = add_exclude d seq
add_number ignores d seq = add_ignore d seq

-- The loop over the numbers of a list.
unfoldable pub add_numbers : Listed → Delta → List Bytes → Run Stop Delta
add_numbers k d [] = value d
add_numbers k d (s ∷ ss) = do seq ← number (strict_atous s); add_numbers k (add_number k d seq) ss

-- The line of a list: one without a blank behind its letter has no numbers.
unfoldable pub read_numbers : Listed → Delta → Bytes → Run Stop Delta
read_numbers k d line = do
  d' ← set_has k d
  if char_at line 2 == b' ' then add_numbers k d' (pieces b' ' (drop 3 line)) else value d'

-- One round of the loop over the three letters: the present line and those after it.
unfoldable pub read_list :
    Listed → Delta → Bytes → List Bytes → Run Stop (Delta × (Bytes × List Bytes))
read_list k d line lines =
    let taken = (do d' ← read_numbers k d line; next ← next_line lines; value (d', next)) in
    if line_type line == letter_of k then taken else value (d, (line, lines))

-- The characters behind the letter of a comment that other programs write.
unfoldable pub is_bk_comment : ℕ → Bool
is_bk_comment c = is_one_of c (codes "BCFHKMOPRSTVXZ ")
  where
    is_one_of : ℕ → Bytes → Bool
    is_one_of c [] = false
    is_one_of c (d ∷ ds) = c == d || is_one_of c ds

-- `saw_unknown_feature`, which warns in some modes.
unfoldable pub saw_unknown_feature : Mode → Run Stop (Unit {0})
saw_unknown_feature for_reading = value tt
saw_unknown_feature fix_checksum = value tt
saw_unknown_feature for_update = quit unknown_feature
saw_unknown_feature create = quit unknown_feature

unfoldable pub check_comment : Mode → Bool → ℕ → Run Stop (Unit {0})
check_comment mode is_bk c =
    if is_bk
    then (if is_bk_comment c then value tt else saw_unknown_feature mode)
    else if c == 0 || c == b' '
    then value tt
    else saw_unknown_feature mode

-- One line of type `m` or `c`.
unfoldable pub read_text : Mode → Bool → Delta → Bytes → Run Stop Delta
read_text mode is_bk d line =
    if line_type line == b'm'
    then (if char_at line 2 == b' ' then value (add_mr d (drop 3 line)) else value d)
    else (do check_comment mode is_bk (char_at line 2); value (add_comment d (drop 3 line)))

-- The loop over the lines of type `m` and `c`: the line that ends it and those after it.
unfoldable pub read_texts :
    Mode → Bool → Delta → Bytes → List Bytes → Run Stop (Delta × (Bytes × List Bytes))
read_texts mode is_bk d line [] =
    if line_type line == b'm' || line_type line == b'c'
    then (read_text mode is_bk d line >>= λ d'. quit (corrupt unexpected_eof))
    else value (d, (line, []))
read_texts mode is_bk d line (next ∷ lines) =
    let later = (read_text mode is_bk d line >>= λ d'. read_texts mode is_bk d' next lines) in
    if line_type line == b'm' || line_type line == b'c'
    then later
    else value (d, (line, next ∷ lines))

-- `read_delta` from its line of type `s` on: the entry, and the lines after it.
unfoldable pub read_delta : Mode → Bool → Bytes → List Bytes → Run Stop (Entry × List Bytes)
read_delta mode is_bk line lines = do
  counted ← read_counts line
  l1 ← next_line lines
  guard (line_type l1.0 == b'd') (corrupt expected_d)
  e ← read_description counted l1.0
  l2 ← next_line l1.1
  d1 ← read_list includes e.delta l2.0 l2.1
  d2 ← read_list excludes d1.0 d1.1.0 d1.1.1
  d3 ← read_list ignores d2.0 d2.1.0 d2.1.1
  d4 ← read_texts mode is_bk d3.0 d3.1.0 d3.1.1
  guard (line_type d4.1.0 == b'e') (corrupt expected_e)
  check_noarg d4.1.0
  value (record e { delta = d4.0 }, d4.1.1)

-- `%05lu`.
unfoldable pub padded : ℕ → Bytes → Bytes
padded zero s = s
padded (suc n) s = if ltb (length s) 5 then padded n (b'0' ∷ s) else s

abbrev pub cap5 : ℕ → ℕ
cap5 n = if ltb n 99999 then n else 99999

abbrev pub five_places : ℕ → Bytes
five_places n = padded 5 (decimal (cap5 n))

abbrev pub control_text : ℕ → Bytes → Bytes
control_text letter text = 1 ∷ letter ∷ b' ' ∷ text

unfoldable pub joined : List ℕ → Bytes
joined [] = []
joined (n ∷ []) = decimal n
joined (n ∷ m ∷ ns) = decimal n ++ b' ' ∷ joined (m ∷ ns)

-- `print_seqs`, as the lines that it writes.
unfoldable pub print_seqs : ℕ → List ℕ → List Bytes
print_seqs control [] = []
print_seqs control (n ∷ ns) = control_text control (joined (n ∷ ns)) ∷ []

abbrev pub texts_of : ℕ → List Bytes → List Bytes
texts_of letter [] = []
texts_of letter (s ∷ ss) = control_text letter s ∷ texts_of letter ss

abbrev pub counts_text : Delta → Bytes
counts_text d =
    five_places d.inserted ++ b'/' ∷ (five_places d.deleted ++ b'/' ∷ five_places d.unchanged)

abbrev pub description_text : Entry → Bytes
description_text e =
    e.delta.delta_type
    ∷ b' '
    ∷ (print e.delta.id
        ++ b' '
          ∷ (as_string e.date
              ++ b' '
                ∷ (e.user ++ b' ' ∷ (decimal e.delta.seq ++ b' ' ∷ decimal e.delta.prev_seq))))

-- The lines of `write_delta` after the first two.
unfoldable pub rest_lines : Delta → List Bytes
rest_lines d =
    print_seqs b'i' d.included
    ++ (print_seqs b'x' d.excluded
        ++ (print_seqs b'g' d.ignored
            ++ (texts_of b'm' d.mrs ++ (texts_of b'c' d.comments ++ (1 ∷ b'e' ∷ []) ∷ []))))

-- `write_delta`, as the lines that it writes.
unfoldable pub write_delta : Entry → List Bytes
write_delta e =
    control_text b's' (counts_text e.delta)
    ∷ control_text b'd' (description_text e)
    ∷ rest_lines e.delta
