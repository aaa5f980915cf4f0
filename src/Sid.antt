-- ===== src/Sid.antt =====
-- src/sid.h and src/sid.cc: the class `sid`, the identifier of a delta, with four components that
-- are C shorts. A short is the integer that it stands for; `++` and `--` wrap. Assertions are not
-- modelled. Printing is modelled as the text that is printed.
pub mod Trunk
pub mod Text
pub mod Order
pub mod Line
pub mod Chars
use cssc.Common.{
  ℕ, zero, suc, ◌+◌, ◌-◌, ◌*◌, ◌%◌, ◌^◌, List, [], ◌∷◌, Bool, true, false, ◌&&◌, ◌||◌, not, Bytes,
  is_digit, if◌then◌else◌, ◌==◌,
}
use cssc.Common.Int.{ℤ, pos, negsuc, ltb_ℤ, eqb_ℤ, to_short, inc_short, dec_short}

pub record Sid : Type 0 where
  pub rel : ℤ
  pub level : ℤ
  pub branch : ℤ
  pub sequence : ℤ

abbrev pub sid : ℤ → ℤ → ℤ → ℤ → Sid
sid r l b s = record { rel = r; level = l; branch = b; sequence = s }

abbrev pub is_zero : ℤ → Bool
is_zero z = eqb_ℤ z (pos 0)

abbrev pub null_sid : Sid
null_sid = sid (pos 0) (pos 0) (pos 0) (pos 0)

-- The default constructor.
abbrev pub no_sid : Sid
no_sid = sid (negsuc 0) (pos 0) (pos 0) (pos 0)

-- `get_id_comp`: the component, and what is left of the text. The accumulator is an `int`; only its
-- value modulo 2 ^ 32 is kept, as the usual overflow leaves it.
unfoldable pub get_id_comp : Bytes → ℕ → ℤ × Bytes
get_id_comp [] n = (to_short n, [])
get_id_comp (c ∷ s) n =
    if c == b'.'
    then (if n == 0 then (negsuc 0, c ∷ s) else (to_short n, s))
    else if is_digit c
    then get_id_comp s ((n * 10 + (c - b'0')) % 2 ^ 32)
    else (negsuc 0, c ∷ s)

abbrev pub is_empty : Bytes → Bool
is_empty [] = true
is_empty (c ∷ s) = false

-- The constructor from a text.
unfoldable pub parse : Bytes → Sid
unfolding get_id_comp
parse s =
    let (r, s1) = get_id_comp s 0 in
    let (l, s2) = get_id_comp s1 0 in
    let (b, s3) = get_id_comp s2 0 in
    let (q, s4) = get_id_comp s3 0 in
    if not (is_empty s4) || (is_zero r || eqb_ℤ q (negsuc 0))
    then sid (negsuc 0) l b q
    else sid r l b q

unfoldable pub is_null : Sid → Bool
is_null a = not (ltb_ℤ (pos 0) a.rel)

unfoldable pub valid : Sid → Bool
valid a = ltb_ℤ (pos 0) a.rel

unfoldable pub partial_sid : Sid → Bool
partial_sid a = is_zero a.level || (not (is_zero a.branch) && is_zero a.sequence)

unfoldable pub comparable : Sid → Sid → Bool
unfolding valid
comparable a id =
    if not (valid a) || not (valid id)
    then false
    else if not (eqb_ℤ a.branch id.branch)
    then false
    else not (not (is_zero a.branch) && (not (eqb_ℤ a.rel id.rel) && not (eqb_ℤ a.level id.level)))

unfoldable pub gt : Sid → Sid → Bool
gt a id =
    if ltb_ℤ id.rel a.rel
    then true
    else if not (eqb_ℤ a.rel id.rel)
    then false
    else if ltb_ℤ id.level a.level
    then true
    else if not (eqb_ℤ a.level id.level)
    then false
    else ltb_ℤ id.sequence a.sequence

unfoldable pub gte : Sid → Sid → Bool
gte a id =
    if ltb_ℤ id.rel a.rel
    then true
    else if not (eqb_ℤ a.rel id.rel)
    then false
    else if ltb_ℤ id.level a.level
    then true
    else if not (eqb_ℤ a.level id.level)
    then false
    else not (ltb_ℤ a.sequence id.sequence)

-- The operators `>`, `>=`, `<`, `<=`, `==`.
unfoldable pub is_gt : Sid → Sid → Bool
unfolding comparable gt
is_gt a b = comparable a b && gt a b

pub is_ge : Sid → Sid → Bool
unfolding comparable gte
is_ge a b = comparable a b && gte a b

unfoldable pub is_lt : Sid → Sid → Bool
unfolding comparable gte
is_lt a b = comparable a b && not (gte a b)

unfoldable pub is_le : Sid → Sid → Bool
unfolding comparable gt
is_le a b = comparable a b && not (gt a b)

unfoldable pub is_eq : Sid → Sid → Bool
is_eq a b =
    eqb_ℤ a.rel b.rel
    && (eqb_ℤ a.level b.level && (eqb_ℤ a.branch b.branch && eqb_ℤ a.sequence b.sequence))

pub is_ne : Sid → Sid → Bool
is_ne a b =
    not (eqb_ℤ a.rel b.rel)
    || (not (eqb_ℤ a.level b.level)
        || (not (eqb_ℤ a.branch b.branch) || not (eqb_ℤ a.sequence b.sequence)))

unfoldable pub components : Sid → ℕ
unfolding valid
components a =
    if valid a && not (is_zero a.rel)
    then (if not (is_zero a.level)
        then (if not (is_zero a.branch) then (if not (is_zero a.sequence) then 4 else 3) else 2)
        else 1)
    else 0

unfoldable pub on_trunk : Sid → Bool
unfolding components
on_trunk a = 2 == components a

pub partial_match : Sid → Sid → Bool
unfolding comparable
partial_match a id =
    if not (comparable a id)
    then false
    else if is_zero a.rel
    then true
    else if not (eqb_ℤ a.rel id.rel)
    then false
    else if is_zero a.level
    then true
    else if not (eqb_ℤ a.level id.level)
    then false
    else if is_zero a.branch
    then true
    else if not (eqb_ℤ a.branch id.branch)
    then false
    else is_zero a.sequence || eqb_ℤ a.sequence id.rel

pub successor : Sid → Sid
unfolding is_null
successor a =
    if is_null a
    then sid (pos 1) (pos 1) (pos 0) (pos 0)
    else if not (is_zero a.branch)
    then sid a.rel a.level a.branch (inc_short a.sequence)
    else sid a.rel (inc_short a.level) (pos 0) (pos 0)

-- `nfields` is an `int`; it is counted down to 0, and never is 0 again from below.
unfoldable pub matches : Sid → Sid → ℕ → Bool
matches a m zero = true
matches a m (suc zero) = eqb_ℤ a.rel m.rel
matches a m (suc (suc zero)) = eqb_ℤ a.rel m.rel && eqb_ℤ a.level m.level
matches a m (suc (suc (suc zero))) =
    eqb_ℤ a.rel m.rel && (eqb_ℤ a.level m.level && eqb_ℤ a.branch m.branch)
matches a m (suc (suc (suc (suc n)))) =
    eqb_ℤ a.rel m.rel
    && (eqb_ℤ a.level m.level && (eqb_ℤ a.branch m.branch && eqb_ℤ a.sequence m.sequence))

unfoldable pub next_branch : Sid → Sid
next_branch a = record a { branch = inc_short a.branch; sequence = pos 1 }

unfoldable pub next_level : Sid → Sid
next_level a = record a { level = inc_short a.level; branch = pos 0; sequence = pos 0 }

-- `operator++` and `operator--`.
unfoldable pub increment : Sid → Sid
increment a =
    if not (is_zero a.branch)
    then record a { sequence = inc_short a.sequence }
    else if not (is_zero a.level)
    then record a { level = inc_short a.level }
    else record a { rel = inc_short a.rel }

unfoldable pub decrement : Sid → Sid
decrement a =
    if not (is_zero a.branch)
    then record a { sequence = dec_short a.sequence }
    else if not (is_zero a.level)
    then record a { level = dec_short a.level }
    else record a { rel = dec_short a.rel }

pub is_trunk_successor : Sid → Sid → Bool
unfolding is_lt
is_trunk_successor a id = is_zero a.branch && is_lt a id

pub branch_greater_than : Sid → Sid → Bool
branch_greater_than a id =
    eqb_ℤ a.rel id.rel && (eqb_ℤ a.level id.level && ltb_ℤ id.branch a.branch)

unfoldable pub release_only : Sid → Bool
release_only a = not (is_zero a.rel) && is_zero a.level

pub trunk_match : Sid → Sid → Bool
trunk_match a id =
    is_zero a.rel || (eqb_ℤ a.rel id.rel && (is_zero a.level || eqb_ℤ a.level id.level))
