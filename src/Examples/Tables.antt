-- ===== src/Examples/Tables.antt =====
-- SIDs, tables of deltas and encoded lines.
use cssc.Common.{◌≡◌, refl, List, Bytes, [], ◌∷◌, false, codes, arith}
use cssc.Common.Int.{ℤ, pos, negsuc}
use cssc.Sid.{Sid, sid, parse}
use cssc.Sid.Text.{print, full_sid, parse-print}
use cssc.DeltaTable.{Delta, DeltaList, empty_list, prepend, find, find_any}
use cssc.DeltaTable.Entry.{create_delta}
use cssc.DeltaTable.Find.{Found, IsCurrent, HasId, find-Found}
use cssc.Release.{RelVBr, relvbr}
use cssc.Encoding.{encode_line, decode_line}
use cssc.Encoding.Lines.{decode_line-encode_line}

abbrev branch_delta : Sid
branch_delta = sid (pos 1) (pos 12) (pos 3) (pos 4)

parsed : parse (codes "1.12.3.4") ≡ branch_delta
unfolding parse
parsed = refl

not_parsed : parse (codes "1..2") ≡ sid (negsuc 0) (negsuc 0) (negsuc 0) (negsuc 0)
unfolding parse
not_parsed = refl

parse-print_example : parse (print branch_delta) ≡ branch_delta
parse-print_example = parse-print branch_delta (
    full_sid 1 12 3 4 (omega arith) (omega arith) (omega arith) (omega arith) (omega arith)
      (omega arith) (omega arith) (omega arith))

abbrev trunk_delta : Sid
trunk_delta = sid (pos 1) (pos 12) (pos 0) (pos 0)

abbrev delta_one : Delta
delta_one = record {
  delta_type = b'D';
  id = trunk_delta;
  seq = 1;
  prev_seq = 0;
  included = [];
  excluded = [];
  ignored = [];
  have_includes = false;
  have_excludes = false;
  have_ignores = false;
  mrs = [];
  comments = [];
  inserted = 0;
  deleted = 0;
  unchanged = 0;
}

abbrev delta_two : Delta
delta_two = record delta_one { id = branch_delta; seq = 2; prev_seq = 1 }

abbrev table : DeltaList
table = prepend empty_list delta_one

find-Found_example :
    Found (IsCurrent trunk_delta) table.items (find table trunk_delta)
    × Found (HasId trunk_delta) table.items (find_any table trunk_delta)
find-Found_example = find-Found table trunk_delta

encoded : encode_line (codes "Cat") ≡ codes "#0V%T\n"
unfolding encode_line
encoded = refl

decode_line-encode_line_example : decode_line (encode_line (codes "Catch")) ≡ codes "Catch"
decode_line-encode_line_example =
    decode_line-encode_line (codes "Catch") (omega arith) (omega arith)

abbrev one_two : List ℤ
one_two = pos 1 ∷ pos 2 ∷ []

abbrev two_three : List ℤ
two_three = pos 2 ∷ pos 3 ∷ []

abbrev lower : RelVBr
lower = relvbr (pos 1) (pos 2) (pos 0)

abbrev higher : RelVBr
higher = relvbr (pos 1) (pos 10) (pos 0)

abbrev two_lines : List Bytes
two_lines = codes "fix" ∷ [] ∷ []

abbrev with_include : Delta
with_include = create_delta b'D' trunk_delta 5 4 (2 ∷ []) [] [] (codes "fix" ∷ [])
