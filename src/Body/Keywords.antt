-- ===== src/Body/Keywords.antt =====
-- src/sf-chkid.cc: looking for an ID keyword, such as %W%, in a line.
pub mod Search
use cssc.Common.{
  ℕ, [], ◌∷◌, Bool, false, ◌&&◌, ◌||◌, not, Bytes, codes, if◌then◌else◌, ltb, ◌==◌, length,
}

unfoldable pub letter_in : ℕ → Bytes → Bool
letter_in c [] = false
letter_in c (x ∷ xs) = x == c || letter_in c xs

-- `strchr` finds the terminating 0 as well.
unfoldable pub is_id_keyword_letter : ℕ → Bool
is_id_keyword_letter ch = ch == 0 || letter_in ch (codes "MIRLBSDHTEGUYFPQCZWA")

-- `memchr`: the line from its first percent sign on, or nothing.
unfoldable pub from_percent : Bytes → Bytes
from_percent [] = []
from_percent (c ∷ s) = if c == b'%' then c ∷ s else from_percent s

abbrev pub keyword_at : ℕ → ℕ → ℕ → Bool
keyword_at a b c = a == b'%' && (not (b == 0) && (c == b'%' && is_id_keyword_letter b))

-- The loop over the positions that have two characters behind them.
unfoldable pub keyword_loop : Bytes → Bool
keyword_loop [] = false
keyword_loop (a ∷ []) = false
keyword_loop (a ∷ b ∷ []) = false
keyword_loop (a ∷ b ∷ c ∷ s) = keyword_at a b c || keyword_loop (b ∷ c ∷ s)

unfoldable pub check_id_keywords : Bytes → Bool
unfolding from_percent keyword_loop
check_id_keywords s =
    if ltb (length s) 3
    then false
    else if ltb (length (from_percent s)) 3
    then false
    else keyword_loop (from_percent s)
