-- ===== src/Diff.antt =====
-- src/diff-state.h and src/diff-state.cc: the reader of the output of `diff`, which says of each line
-- whether it is inserted, deleted or left, and writes the control lines around it. The output of `diff`
-- is the list of its lines, each with its newline; the echo and read errors are left out. An `int` is an
-- integer, for line numbers below 2 ^ 31.
pub mod Balanced
pub mod Insertions
pub mod Ended
pub mod Shrink
use cssc.Common.{
  ℕ, zero, suc, ◌+◌, ◌-◌, ◌*◌, ◌^◌, List, [], ◌∷◌, ◌++◌, Bool, true, false, ◌&&◌, ◌||◌, not, Bytes,
  Option, none, some, if◌then◌else◌, ltb, leb, ◌==◌, is_digit, drop,
}
use cssc.Common.Decimal.{decimal}
use cssc.Common.Int.{ℤ, pos, negsuc, ◌+ℤ◌, ◌-ℤ◌, sub_ℕ, ltb_ℤ, eqb_ℤ}
use cssc.Common.Runs.{Run, value, quit, ◌>>=◌}
use cssc.Body.Line.{char_at}

pub data Phase : Type 0 where
  start : Phase
  nochange : Phase
  delete : Phase
  insert : Phase
  end : Phase

pub record DiffState : Type 0 where
  pub phase : Phase
  pub in_lineno : ℤ
  pub out_lineno : ℤ
  pub lines_left : ℤ
  pub change_left : ℤ
  pub linebuf : Bytes
  pub input : List Bytes

-- Why the output is reported corrupt, a number out of range, and a failed assertion.
pub data Corrupt : Type 0 where
  unexpected_eof : Corrupt
  expected_dashes : Corrupt
  expected_eof : Corrupt
  left_end_line : Corrupt
  left_start_line : Corrupt
  right_start_line : Corrupt
  right_end_line : Corrupt
  end_of_line : Corrupt
  unknown_operation : Corrupt
  expected_deletion : Corrupt
  expected_insertion : Corrupt
  out_of_range : Corrupt
  assertion : Corrupt

abbrev pub initial : List Bytes → DiffState
initial lines = record {
  phase = start;
  in_lineno = pos 0;
  out_lineno = pos 0;
  lines_left = pos 0;
  change_left = pos 0;
  linebuf = [];
  input = lines;
}

abbrev pub is_delete : Phase → Bool
is_delete delete = true
is_delete _ = false

abbrev pub is_insert : Phase → Bool
is_insert insert = true
is_insert _ = false

abbrev pub is_nochange : Phase → Bool
is_nochange nochange = true
is_nochange _ = false

abbrev pub is_end : Phase → Bool
is_end end = true
is_end _ = false

unfoldable pub read_line : DiffState → Option DiffState
read_line st = elim st.input [
  | [] ↦ none
  | line ∷ lines ↦ some (record st { linebuf = line; input = lines })
]

-- `strtol` in base 10: blanks, a sign, and digits. Without digits nothing is read.
unfoldable pub digits_value : Bytes → ℕ → ℕ × Bytes
digits_value [] n = (n, [])
digits_value (c ∷ s) n =
    let later = digits_value s (n * 10 + (c - b'0')) in if is_digit c then later else (n, c ∷ s)

abbrev pub is_blank : ℕ → Bool
is_blank c = c == b' ' || (leb 9 c && leb c 13)

unfoldable pub skip_blanks : Bytes → Bytes
skip_blanks [] = []
skip_blanks (c ∷ s) = let later = skip_blanks s in if is_blank c then later else c ∷ s

unfoldable pub signed : Bytes → Bool × Bytes
signed [] = (false, [])
signed (c ∷ s) = if c == b'-' then (true, s) else if c == b'+' then (false, s) else (false, c ∷ s)

-- The value and the rest of the text. The code takes the two greatest magnitudes for range errors only
-- where `strtol` sets `errno`, which it does beyond them.
unfoldable pub get_num : Bytes → Run Corrupt (ℤ × Bytes)
unfolding digits_value skip_blanks signed
get_num s =
    let sign = signed (skip_blanks s) in
    let n = digits_value sign.1 0 in
    if not (is_digit (char_at sign.1 0))
    then value (pos 0, s)
    else if sign.0
    then (if ltb (2 ^ 63) n.0 then quit out_of_range else value (sub_ℕ 0 n.0, n.1))
    else if leb (2 ^ 63) n.0
    then quit out_of_range
    else value (pos n.0, n.1)

-- The second number of a range, or the first one again.
unfoldable pub range_end : Corrupt → ℤ → Bytes → Run Corrupt (ℤ × Bytes)
unfolding get_num
range_end fault from s =
    if char_at s 0 == b','
    then (get_num (drop 1 s) >>= λ n. if ltb_ℤ from n.0 then value n else quit fault)
    else value (from, s)

abbrev pub operation : ℕ → ℤ → ℤ → DiffState → Run Corrupt DiffState
operation c left right st =
    if c == b'a'
    then value (record st { phase = insert; lines_left = right })
    else if c == b'd'
    then value (record st { phase = delete; lines_left = left })
    else if c == b'c'
    then value (record st { phase = delete; lines_left = left; change_left = right })
    else quit unknown_operation

-- The part of a command behind its letter.
unfoldable pub right_side : ℕ → ℤ → ℤ → Bytes → DiffState → Run Corrupt DiffState
unfolding get_num range_end
right_side c line1 line2 s st = do
  n3 ← get_num s
  n4 ←
      (if eqb_ℤ n3.0 (if c == b'd' then st.out_lineno else st.out_lineno +ℤ pos 1)
        then range_end right_end_line n3.0 n3.1
        else quit right_start_line)
  (if char_at n4.1 0 == b'\n'
      then operation c (line2 -ℤ line1 +ℤ pos 1) (n4.0 -ℤ n3.0 +ℤ pos 1) st
      else quit end_of_line)

-- The command in the line buffer: there may be lines to leave before it.
unfoldable pub command : DiffState → Run Corrupt DiffState
unfolding get_num range_end right_side
command st = do
  n1 ← get_num st.linebuf
  n2 ← range_end left_end_line n1.0 n1.1
  let c = char_at n2.1 0
  let rest = right_side c n1.0 n2.0 (drop 1 n2.1) st
  let ahead = (if c == b'a' then n1.0 +ℤ pos 1 else n1.0)
  (if c == 0
      then quit assertion
      else if ltb_ℤ st.in_lineno ahead
      then value (record st { phase = nochange; lines_left = ahead -ℤ st.in_lineno })
      else if eqb_ℤ ahead st.in_lineno
      then rest
      else quit left_start_line)

-- A new line of the output: a command, or its end.
unfoldable pub fetch : DiffState → Run Corrupt DiffState
unfolding read_line command
fetch st = elim (read_line st) [
  | none ↦ value (record st { phase = end })
  | some st' ↦
      if char_at st'.linebuf 0 == b'\\'
      then elim (read_line st') [
        | none ↦ value (record st' { phase = end })
        | some _ ↦ quit expected_eof
      ]
      else command st'
]

-- The lines that are put in the place of the deleted ones.
unfoldable pub changed : DiffState → Run Corrupt DiffState
unfolding read_line
changed st = elim (read_line st) [
  | none ↦ quit unexpected_eof
  | some st' ↦
      if char_at st'.linebuf 0 == b'-'
        && char_at st'.linebuf 1 == b'-'
        && char_at st'.linebuf 2 == b'-'
        && char_at st'.linebuf 3 == b'\n'
        && char_at st'.linebuf 4 == 0
      then value (record st' { lines_left = st.change_left; change_left = pos 0; phase = insert })
      else quit expected_dashes
]

unfoldable pub next_state : DiffState → Run Corrupt DiffState
unfolding changed fetch command
next_state st =
    if is_delete st.phase && not (eqb_ℤ st.change_left (pos 0))
    then changed st
    else if is_nochange st.phase
    then command st
    else fetch st

-- A control line.
abbrev pub control_line : ℕ → ℕ → Bytes
control_line letter seq = 1 ∷ letter ∷ b' ' ∷ (decimal seq ++ b'\n' ∷ [])

abbrev pub closing : Phase → ℕ → List Bytes
closing p seq = if is_delete p || is_insert p then control_line b'E' seq ∷ [] else []

abbrev pub opening : Phase → ℕ → List Bytes
opening p seq =
    if is_insert p
    then control_line b'I' seq ∷ []
    else if is_delete p
    then control_line b'D' seq ∷ []
    else []

-- The state for the line, with the control lines that are written before it.
unfoldable pub turn : ℕ → DiffState → Run Corrupt (DiffState × List Bytes)
unfolding next_state
turn seq st =
    if is_end st.phase
    then value (st, [])
    else if ltb_ℤ st.lines_left (pos 0)
    then quit assertion
    else if eqb_ℤ st.lines_left (pos 0)
    then (next_state st >>= λ st'. value (
      record st' { lines_left = st'.lines_left -ℤ pos 1 },
      closing st.phase seq ++ opening st'.phase seq,
    ))
    else value (record st { lines_left = st.lines_left -ℤ pos 1 }, [])

-- The line of the output that belongs to a deleted or an inserted line.
abbrev pub expect : Corrupt → ℕ → DiffState → Run Corrupt DiffState
expect fault c st = elim (read_line st) [
  | none ↦ quit unexpected_eof
  | some st' ↦
      if char_at st'.linebuf 0 == c && char_at st'.linebuf 1 == b' ' then value st' else quit fault
]

abbrev pub count_out : DiffState → DiffState
count_out st = record st { out_lineno = st.out_lineno +ℤ pos 1 }

unfoldable pub take_line : DiffState → Run Corrupt DiffState
unfolding read_line
take_line st =
    if is_delete st.phase
    then expect expected_deletion b'<' st
    else if is_insert st.phase
    then (expect expected_insertion b'>' st >>= λ st'. value (count_out st'))
    else value (count_out st)

unfoldable pub process : ℕ → DiffState → Run Corrupt (DiffState × List Bytes)
unfolding turn take_line
process seq st = do
  let counted = (if is_insert st.phase then st else record st { in_lineno = st.in_lineno +ℤ pos 1 })
  turned ← turn seq counted
  taken ← take_line turned.0
  value (taken, turned.1)
