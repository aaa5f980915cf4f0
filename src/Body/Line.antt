-- ===== src/Body/Line.antt =====
-- One line of the body: its type, the number of a control line, and what it asks for.
use cssc.Common.{
  ℕ, ◌+◌, ◌-◌, ◌*◌, [], ◌∷◌, Bool, true, false, ◌||◌, not, Bytes, is_digit, if◌then◌else◌, ltb,
  ◌==◌, get_or, drop,
}
use cssc.SeqState.{Message}
use cssc.SeqState.Blocks.{Kind, insert, delete}

-- The reasons for which the program reports a corrupt file and quits, or gives up.
pub data Failure : Type 0 where
  expected_insert : Failure
  missing_arg : Failure
  invalid_number : Failure
  number_too_big : Failure
  missing_number : Failure
  invalid_serial_number : Failure
  bad_state : Message → Failure
  unexpected_control_line : Failure
  non_terminal_delta : Failure
  unexpected_eof : Failure
  write_failed : Failure

pub data Result (A : Type 0) : Type 0 where
  ok : A → Result A
  fail : Failure → Result A

infixl 5 ◌>>=◌ ◌>>◌
abbrev pub ◌>>=◌ : {A B : Type 0} → Result A → (A → Result B) → Result B
ok a >>= f = f a
fail e >>= f = fail e

abbrev pub ◌>>◌ : {B : Type 0} → Result (Unit {0}) → Result B → Result B
m >> k = m >>= λ _. k

-- The reason for which a test that fails ends the reading.
abbrev pub guard : Bool → Failure → Result (Unit {0})
guard true reason = ok tt
guard false reason = fail reason

abbrev pub char_at : Bytes → ℕ → ℕ
char_at line i = get_or line i 0

-- `read_line`: 0 for a body line, else the letter of a control line.
unfoldable pub line_type : Bytes → ℕ
line_type line = if char_at line 0 == 1 then char_at line 1 else 0

unfoldable pub check_arg : Bytes → Result (Unit {0})
check_arg line = guard (char_at line 2 == b' ') missing_arg

-- The loop of `strict_atous`. `n` never passes 655359, far below the range of a long.
unfoldable pub atous_loop : Bytes → ℕ → Bool → Result ℕ
atous_loop [] n empty = if empty then fail missing_number else ok n
atous_loop (c ∷ s) n empty =
    if not (is_digit c)
    then fail invalid_number
    else if ltb 65535 (n * 10 + (c - b'0'))
    then fail number_too_big
    else atous_loop s (n * 10 + (c - b'0')) false

unfoldable pub strict_atous : Bytes → Result ℕ
unfolding atous_loop
strict_atous s = atous_loop s 0 true

-- What a line of the body is to `get`.
pub data Event : Type 0 where
  text : Bytes → Event
  opened : Kind → ℕ → Event
  closed : ℕ → Event

-- The `switch` on the letter of a control line.
unfoldable pub control : ℕ → ℕ → Result Event
control c seq =
    if c == b'E'
    then ok (closed seq)
    else if c == b'D'
    then ok (opened delete seq)
    else if c == b'I'
    then ok (opened insert seq)
    else fail unexpected_control_line

-- The part of the loop of `get` that does not depend on the state.
unfoldable pub classify : ℕ → Bytes → Result Event
unfolding line_type check_arg strict_atous control
classify highest line = if line_type line == 0 then ok (text line) else do
  check_arg line
  seq ← strict_atous (drop 3 line)
  guard (not (ltb seq 1 || ltb highest seq)) invalid_serial_number
  control (line_type line) seq
