-- ===== src/SidList.antt =====
-- src/sid_list.h and src/sl-merge.h: the template `range_list` at its one use, `sid_list`. The chain of
-- ranges from `head_` is a list; the function `remove` is not modelled.
pub mod Clean
pub mod Text
use cssc.Common.{
  ℕ, suc, ◌+◌, List, [], ◌∷◌, ◌++◌, Bool, true, false, ◌&&◌, ◌||◌, not, Bytes, Option, none, some,
  ltb, if◌then◌else◌, ◌==◌, length,
}
use cssc.Common.Cut.{cut, pieces}
use cssc.Sid.{Sid, parse, is_le, is_lt, is_gt, is_eq, is_ne, increment, decrement}
use cssc.Sid.Text.{print}

pub record Range : Type 0 where
  pub from : Sid
  pub to : Sid

pub record SidList : Type 0 where
  pub head : List Range
  pub valid_flag : Bool

-- The default constructor.
abbrev pub empty_list : SidList
empty_list = record { head = []; valid_flag = true }

abbrev pub is_empty : SidList → Bool
is_empty l = elim l.head [ [] ↦ true | r ∷ rs ↦ false ]

-- The loop of `member`.
unfoldable pub member : Sid → List Range → Bool
member id [] = false
member id (p ∷ ps) = is_le p.from id && is_le id p.to || member id ps

-- `sp` after `dp` is merged into it.
unfoldable pub join : Range → Range → Range
join sp dp = record {
  from = if is_lt dp.from sp.from then dp.from else sp.from;
  to = if is_gt dp.to sp.to then dp.to else sp.to;
}

-- The second inner loop of `clean` and what follows it: the ranges that touch `sp` are merged into it.
unfoldable pub absorb : Range → List Range → List Range
absorb sp [] = sp ∷ []
absorb sp (dp ∷ rest) =
    let merged = absorb (join sp dp) rest in
    if is_le dp.from (increment sp.to) then merged else sp ∷ dp ∷ rest

-- Both inner loops of `clean`: the ranges that end before `sp` are passed.
unfoldable pub insert : Range → List Range → List Range
insert sp [] = sp ∷ []
insert sp (dp ∷ rest) =
    let later = insert sp rest in
    if is_lt dp.to (decrement sp.from) then dp ∷ later else absorb sp (dp ∷ rest)

-- The outer loop of `clean`, with its variable `new_head` and the flag.
unfoldable pub clean_loop : List Range → List Range → Bool → SidList
clean_loop [] new_head flag = record { head = new_head; valid_flag = flag }
clean_loop (sp ∷ sps) new_head flag =
    let ok = is_le sp.from sp.to in
    clean_loop sps (if ok then insert sp new_head else new_head) (if ok then flag else false)

-- `clean`, which returns the negated flag of the list that it leaves.
unfoldable pub clean : SidList → SidList
clean l = if not l.valid_flag then l else clean_loop l.head [] l.valid_flag

-- The ends of a range, from the text cut at its first dash.
unfoldable pub ends : Bytes × Option Bytes → Range
ends (buf, none) = record { from = parse buf; to = parse buf }
ends (buf, some dash) = record { from = parse buf; to = parse dash }

unfoldable pub range_of : Bytes → Range
range_of buf = ends (cut b'-' buf)

-- The ranges of the parts in front of `head`; no result where `ctor_fail` ends the program.
unfoldable pub ranges : List Bytes → List Range → Option (List Range)
ranges [] head = some head
ranges ([] ∷ ps) head = ranges ps head
ranges ((c ∷ s) ∷ ps) head =
    let rest = ranges ps (range_of (c ∷ s) ∷ head) in
    if ltb 64 (length (c ∷ s) + 1) then none else rest

-- What the constructor does with an invalid list.
abbrev pub or_invalid : SidList → SidList
or_invalid l = if l.valid_flag then l else record { head = []; valid_flag = false }

unfoldable pub constructed : Option (List Range) → Option SidList
constructed none = none
constructed (some head) = some (or_invalid (clean (record { head = head; valid_flag = true })))

-- The constructor from a text; an empty text and a null pointer are the same.
unfoldable pub parse_list : Bytes → Option SidList
parse_list text = constructed (ranges (pieces b',' text) [])

unfoldable pub merge : SidList → SidList → SidList
merge l list =
    if not l.valid_flag || not list.valid_flag
    then l
    else if is_empty list
    then l
    else clean (record l { head = l.head ++ list.head })

unfoldable pub range_text : Range → Bytes
range_text p = print p.from ++ (if is_ne p.to p.from then b'-' ∷ print p.to else [])

-- The loop of `print`.
unfoldable pub list_text : List Range → Bytes
list_text [] = []
list_text (p ∷ []) = range_text p
list_text (p ∷ q ∷ ps) = range_text p ++ b',' ∷ list_text (q ∷ ps)

-- `print`, as the text that is written.
unfoldable pub print_list : SidList → Bytes
print_list l = if is_empty l || not l.valid_flag then [] else list_text l.head
