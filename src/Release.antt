-- ===== src/Release.antt =====
-- src/release.h, src/release.cc, src/relvbr.h, src/relvbr.cc, src/rel_list.cc and src/rl-merge.cc:
-- release numbers, triples of release, level and branch, and sets of releases kept as a list. A
-- null pointer is `none`. The constructor of a list from a text, which calls `strtol`, is not
-- modelled.
pub mod Sets
pub mod Triples
use cssc.Common.{
  ℕ, List, [], ◌∷◌, ◌++◌, Bool, true, false, ◌&&◌, ◌||◌, not, Bytes, Option, none, some,
  if◌then◌else◌,
}
use cssc.Common.Int.{ℤ, pos, negsuc, ltb_ℤ, eqb_ℤ, inc_short, dec_short}
use cssc.Sid.{Sid, get_id_comp, is_empty, is_zero}

-- A release is its number.
abbrev pub Release : Type 0
Release = ℤ

pub release_valid : Release → Bool
release_valid r = ltb_ℤ (pos 0) r

pub release_increment : Release → Release
release_increment r = inc_short r

pub release_decrement : Release → Release
release_decrement r = dec_short r

pub release_parse : Option Bytes → Release
release_parse none = pos 0
release_parse (some s) =
    let (r, rest) = get_id_comp s 0 in if not (is_empty rest) || is_zero r then negsuc 0 else r

pub release_of_sid : Sid → Release
release_of_sid s = s.rel

pub record RelVBr : Type 0 where
  pub rel : ℤ
  pub level : ℤ
  pub branch : ℤ

abbrev pub relvbr : ℤ → ℤ → ℤ → RelVBr
relvbr r l b = record { rel = r; level = l; branch = b }

pub relvbr_of_sid : Sid → RelVBr
relvbr_of_sid s = relvbr s.rel s.level s.branch

pub relvbr_parse : Option Bytes → RelVBr
relvbr_parse none = relvbr (pos 0) (pos 0) (pos 0)
relvbr_parse (some s) =
    let (r, s1) = get_id_comp s 0 in
    let (l, s2) = get_id_comp s1 0 in
    let (b, s3) = get_id_comp s2 0 in
    if not (is_empty s3) || is_zero r then relvbr (negsuc 0) (negsuc 0) (negsuc 0) else relvbr r l b

pub relvbr_valid : RelVBr → Bool
relvbr_valid a = ltb_ℤ (pos 0) a.rel && (ltb_ℤ (pos 0) a.level && ltb_ℤ (pos 0) a.branch)

-- The six comparisons, each written out in the source.
pub relvbr_lt : RelVBr → RelVBr → Bool
relvbr_lt a b =
    ltb_ℤ a.rel b.rel
    || (eqb_ℤ a.rel b.rel
        && (ltb_ℤ a.level b.level || (eqb_ℤ a.level b.level && ltb_ℤ a.branch b.branch)))

pub relvbr_gt : RelVBr → RelVBr → Bool
relvbr_gt a b =
    ltb_ℤ b.rel a.rel
    || (eqb_ℤ a.rel b.rel
        && (ltb_ℤ b.level a.level || (eqb_ℤ a.level b.level && ltb_ℤ b.branch a.branch)))

pub relvbr_le : RelVBr → RelVBr → Bool
relvbr_le a b =
    ltb_ℤ a.rel b.rel
    || (eqb_ℤ a.rel b.rel
        && (ltb_ℤ a.level b.level || (eqb_ℤ a.level b.level && not (ltb_ℤ b.branch a.branch))))

pub relvbr_ge : RelVBr → RelVBr → Bool
relvbr_ge a b =
    ltb_ℤ b.rel a.rel
    || (eqb_ℤ a.rel b.rel
        && (ltb_ℤ b.level a.level || (eqb_ℤ a.level b.level && not (ltb_ℤ a.branch b.branch))))

pub relvbr_eq : RelVBr → RelVBr → Bool
relvbr_eq a b = eqb_ℤ a.rel b.rel && (eqb_ℤ a.level b.level && eqb_ℤ a.branch b.branch)

pub relvbr_ne : RelVBr → RelVBr → Bool
relvbr_ne a b =
    not (eqb_ℤ a.rel b.rel) || (not (eqb_ℤ a.level b.level) || not (eqb_ℤ a.branch b.branch))

-- `std::find` over the vector.
pub member : List Release → Release → Bool
member [] r = false
member (x ∷ xs) r = eqb_ℤ x r || member xs r

-- The loop of `merge` over the other list.
pub merge : List Release → List Release → List Release
merge xs [] = xs
merge xs (r ∷ rs) = merge (if not (member xs r) then xs ++ r ∷ [] else xs) rs

-- `remove`, with the new list as an argument of the loop.
pub remove_into : List Release → List Release → List Release → List Release
remove_into newlist [] rm = newlist
remove_into newlist (r ∷ rs) rm =
    remove_into (if not (member rm r) then newlist ++ r ∷ [] else newlist) rs rm

pub remove_all : List Release → List Release → List Release
remove_all xs rm = remove_into [] xs rm
