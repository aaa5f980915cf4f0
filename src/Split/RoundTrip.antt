-- ===== src/Split/RoundTrip.antt =====
-- Texts that are put together from pieces are taken apart into these pieces.
use cssc.Common.{
  ℕ, ◌≡◌, refl, sym, ap, ◌∙◌, List, [], ◌∷◌, ◌++◌, append_assoc, append-nil, Bool, true, false,
  ◌&&◌, not, Bytes, Bool-cases, inl, inr, ◌==◌, arith,
}
use cssc.Split.{
  push_piece, is_delim, mrs_loop, split_mrs, comments_loop, split_comments, file_lines_loop,
  read_file_lines,
}

-- No character of a text passes a test.
unfoldable pub without_any : (ℕ → Bool) → Bytes → Bool
without_any test [] = true
without_any test (c ∷ s) = not (test c) && without_any test s

unfoldable pub is_newline : ℕ → Bool
is_newline c = c == b'\n'

-- Each piece is followed by the character `d`.
unfoldable pub closed_by : ℕ → List Bytes → Bytes
closed_by d [] = []
closed_by d (piece ∷ pieces) = piece ++ (d ∷ closed_by d pieces)

unfoldable pub all_lines : List Bytes → Bool
all_lines [] = true
all_lines (line ∷ lines) = without_any is_newline line && all_lines lines

-- Tokens are not empty.
unfoldable pub all_tokens : List Bytes → Bool
all_tokens [] = true
all_tokens ([] ∷ tokens) = false
all_tokens ((c ∷ s) ∷ tokens) = without_any is_delim (c ∷ s) && all_tokens tokens

comments_over :
    (line piece tail : Bytes)
    → without_any is_newline piece ≡ true
    → comments_loop line (piece ++ tail) ≡ comments_loop (line ++ piece) tail
unfolding comments_loop without_any is_newline
comments_over line [] tail h = ap (λ l. comments_loop l tail) (sym (append-nil line))
comments_over line (c ∷ s) tail h =
    let no : (c == b'\n') ≡ false = ground arith in
    let later : without_any is_newline s ≡ true = ground arith in
    rw (comments_loop, no)
      (comments_over (line ++ c ∷ []) s tail later
        ∙ ap (λ l. comments_loop l tail) (append_assoc line (c ∷ []) s))

-- Comments that are written as lines are read back as these lines. A last line without a newline is
-- a line too, unless it is empty.
pub split_comments-closed_by :
    (lines : List Bytes) (last : Bytes)
    → all_lines lines ≡ true
    → without_any is_newline last ≡ true
    → split_comments (closed_by b'\n' lines ++ last) ≡ lines ++ push_piece last []
unfolding split_comments comments_loop closed_by all_lines
split_comments-closed_by [] last h hl =
    ap (comments_loop []) (sym (append-nil last)) ∙ comments_over [] last [] hl
split_comments-closed_by (line ∷ lines) last h hl =
    let free : without_any is_newline line ≡ true = ground arith in
    let later : all_lines lines ≡ true = ground arith in
    ap (comments_loop []) (append_assoc line (b'\n' ∷ closed_by b'\n' lines) last)
    ∙ comments_over [] line (b'\n' ∷ (closed_by b'\n' lines ++ last)) free
    ∙ ap (λ rest. line ∷ rest) (split_comments-closed_by lines last later hl)

mrs_over :
    (token piece tail : Bytes)
    → without_any is_delim piece ≡ true
    → mrs_loop token (piece ++ tail) ≡ mrs_loop (token ++ piece) tail
unfolding mrs_loop without_any
mrs_over token [] tail h = ap (λ l. mrs_loop l tail) (sym (append-nil token))
mrs_over token (c ∷ s) tail h =
    let no : is_delim c ≡ false = ground arith in
    let later : without_any is_delim s ≡ true = ground arith in
    rw (mrs_loop, no)
      (mrs_over (token ++ c ∷ []) s tail later
        ∙ ap (λ l. mrs_loop l tail) (append_assoc token (c ∷ []) s))

-- MRs that are separated by a blank, a tab or a newline are read back as they are, when none is
-- empty or holds such a character.
pub split_mrs-closed_by :
    (d : ℕ) (tokens : List Bytes)
    → is_delim d ≡ true
    → all_tokens tokens ≡ true
    → split_mrs (closed_by d tokens) ≡ tokens
unfolding split_mrs mrs_loop closed_by all_tokens
split_mrs-closed_by d [] hd h = refl
split_mrs-closed_by d ([] ∷ tokens) hd h = cc
split_mrs-closed_by d ((c ∷ s) ∷ tokens) hd h =
    let free : without_any is_delim (c ∷ s) ≡ true = ground arith in
    let later : all_tokens tokens ≡ true = ground arith in
    mrs_over [] (c ∷ s) (d ∷ closed_by d tokens) free
    ∙ rw (mrs_loop, hd) (ap (λ rest. (c ∷ s) ∷ rest) (split_mrs-closed_by d tokens hd later))

append_not_empty : (s : Bytes) (c : ℕ) → push_piece (s ++ c ∷ []) [] ≡ (s ++ c ∷ []) ∷ []
append_not_empty [] c = refl
append_not_empty (x ∷ s) c = refl

-- One character further, both loops agree if they agree on the rest.
file_lines_round :
    (s : Bytes) (empty : Bool) (c : ℕ) (rest : Bytes)
    → file_lines_loop [] true rest ≡ comments_loop [] rest
    → file_lines_loop (s ++ c ∷ []) false rest ≡ comments_loop (s ++ c ∷ []) rest
    → file_lines_loop s empty (c ∷ rest) ≡ comments_loop s (c ∷ rest)
unfolding file_lines_loop comments_loop
file_lines_round s empty c rest fresh begun = elim (Bool-cases (c == b'\n')) [
  | inl e ↦ rw (file_lines_loop, comments_loop, e) (ap (λ l. s ∷ l) fresh)
  | inr e ↦ rw (file_lines_loop, comments_loop, e) begun
]

file_lines-comments :
    (rest : Bytes)
    → (file_lines_loop [] true rest ≡ comments_loop [] rest)
      × ((s : Bytes) (c : ℕ)
          → file_lines_loop (s ++ c ∷ []) false rest ≡ comments_loop (s ++ c ∷ []) rest)
unfolding file_lines_loop comments_loop
file_lines-comments [] = (refl, λ s c. sym (append_not_empty s c))
file_lines-comments (x ∷ rest) =
    let (fresh, begun) = file_lines-comments rest in
    (
      file_lines_round [] true x rest fresh (begun [] x),
      λ s c. file_lines_round (s ++ c ∷ []) false x rest fresh (begun (s ++ c ∷ []) x),
    )

-- A file is read into the lines that the same text as a comment is split into: the flag `empty` says
-- of every line whether it is empty.
pub read_file_lines-split_comments :
    (content : Bytes) → read_file_lines content ≡ split_comments content
unfolding read_file_lines split_comments
read_file_lines-split_comments content = (file_lines-comments content).0
