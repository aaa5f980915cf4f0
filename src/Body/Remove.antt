-- ===== src/Body/Remove.antt =====
-- `sccs_file_body_scanner::remove`: copying the body without the blocks of one delta. The result is
-- what is written, line by line.
pub mod Removes
pub mod Versions
pub mod Parts
pub mod Keeps
use cssc.Common.{
  ℕ, List, [], ◌∷◌, ◌++◌, Bool, true, false, Bytes, Option, none, some, if◌then◌else◌, ◌==◌, drop,
}
use cssc.Body.Line.{
  Result, ok, fail, ◌>>=◌, ◌>>◌, non_terminal_delta, unexpected_eof, unexpected_control_line,
  line_type, check_arg, strict_atous,
}

pub data UpdateState : Type 0 where
  copying : UpdateState
  deleting : UpdateState
  inserting : UpdateState

-- `none` where the source returns 0, with the state unchanged.
unfoldable pub next_state : UpdateState → ℕ → Option UpdateState
next_state copying key =
    if key == b'I' then some inserting else if key == b'D' then some deleting else none
next_state deleting key = if key == b'E' then some copying else none
next_state inserting key = if key == b'E' then some copying else none

abbrev pub is_inserting : UpdateState → Bool
is_inserting inserting = true
is_inserting deleting = false
is_inserting copying = false

-- A control line of the delta that is removed is not written.
abbrev pub expected : Option UpdateState → Result (UpdateState × List Bytes)
expected none = fail unexpected_control_line
expected (some s) = ok (s, [])

-- The new state and the lines that are written, for one line.
unfoldable pub remove_line : ℕ → UpdateState → Bytes → Result (UpdateState × List Bytes)
unfolding next_state
remove_line seq s line =
    if line_type line == 0
    then ok (s, if is_inserting s then [] else line ∷ [])
    else (check_arg line
        >> (strict_atous (drop 3 line) >>= λ n.
            if n == seq
            then expected (next_state s (line_type line))
            else if is_inserting s
            then fail non_terminal_delta
            else ok (s, line ∷ [])))

-- The body has to end outside the blocks of the delta.
abbrev pub at_end : UpdateState → Result (List Bytes)
at_end copying = ok []
at_end deleting = fail unexpected_eof
at_end inserting = fail unexpected_eof

unfoldable pub remove_loop : ℕ → UpdateState → List Bytes → Result (List Bytes)
remove_loop seq s [] = at_end s
remove_loop seq s (line ∷ lines) = do
  next ← remove_line seq s line
  rest ← remove_loop seq next.0 lines
  ok (next.1 ++ rest)

unfoldable pub remove : ℕ → List Bytes → Result (List Bytes)
unfolding remove_loop remove_line
remove seq lines = remove_loop seq copying lines
