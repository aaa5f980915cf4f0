-- ===== src/Split.antt =====
-- src/l-split.cc: taking the text of the MRs, of the comments and of a file apart. A text is a C string: the
-- code reads it up to its first NUL, and the lists here stand for that part.
pub mod RoundTrip
use cssc.Common.{ℕ, List, [], ◌∷◌, ◌++◌, Bool, true, false, ◌||◌, not, if◌then◌else◌, Bytes, ◌==◌}

-- A piece that is empty is not added.
abbrev pub push_piece : Bytes → List Bytes → List Bytes
push_piece [] pieces = pieces
push_piece (c ∷ s) pieces = (c ∷ s) ∷ pieces

-- The delimiters that `strtok` is given.
unfoldable pub is_delim : ℕ → Bool
is_delim c = c == b' ' || (c == b'\t' || c == b'\n')

-- The calls of `strtok`: `token` is what is read of the current token.
unfoldable pub mrs_loop : Bytes → Bytes → List Bytes
mrs_loop token [] = push_piece token []
mrs_loop token (c ∷ s) = elim (is_delim c) [
  | true ↦ push_piece token (mrs_loop [] s)
  | false ↦ mrs_loop (token ++ c ∷ []) s
]

unfoldable pub split_mrs : Bytes → List Bytes
split_mrs mrs = mrs_loop [] mrs

-- The calls of `strchr`: `line` is the text from `start` on that is passed over.
unfoldable pub comments_loop : Bytes → Bytes → List Bytes
comments_loop line [] = push_piece line []
comments_loop line (c ∷ s) = elim (c == b'\n') [
  | true ↦ line ∷ comments_loop [] s
  | false ↦ comments_loop (line ++ c ∷ []) s
]

unfoldable pub split_comments : Bytes → List Bytes
split_comments comments = comments_loop [] comments

-- The loop of `read_file_lines` over the characters of the file, with its variables `s` and `empty`.
unfoldable pub file_lines_loop : Bytes → Bool → Bytes → List Bytes
file_lines_loop s empty [] = if not empty then s ∷ [] else []
file_lines_loop s empty (ch ∷ rest) = elim (ch == b'\n') [
  | true ↦ s ∷ file_lines_loop [] true rest
  | false ↦ file_lines_loop (s ++ ch ∷ []) false rest
]

-- `read_file_lines` on a file that can be opened and read.
unfoldable pub read_file_lines : Bytes → List Bytes
read_file_lines content = file_lines_loop [] true content
