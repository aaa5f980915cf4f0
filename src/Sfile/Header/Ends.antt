-- ===== src/Sfile/Header/Ends.antt =====
-- Reading a header ends, whatever the file holds.
use cssc.Common.{
  ℕ, zero, suc, ◌+◌, ◌<◌, ◌≡◌, refl, ap, List, [], ◌∷◌, Bool, Bytes, ◌==◌, ◌||◌, ◌&&◌, not, length,
  arith,
}
use cssc.Common.Runs.{Run, ◌>>=◌}
use cssc.Body.Line.{char_at, line_type}
use cssc.Sfile.{
  Mode, Stop, corrupt, bad_flag_arg, expected_u, expected_t, expected_end_of_text, guard, next_line,
  check_arg, check_noarg, read_delta,
}
use cssc.Sfile.Ends.{
  Ends, ended, refused, Any, Ends-bind, Ends-if, Ends-map, guard-Any, Behind, Behind-trans,
  Behind-length, next_line-Ends, read_delta-Ends,
}
use cssc.Sfile.Header.{read_table, read_users, read_flag, read_flags, read_comments, parse_header}

-- With more rounds than there are lines behind the first one, the loop over the entries ends.
read_table-Ends :
    (fuel : ℕ) (mode : Mode) (is_bk : Bool) (line : Bytes) (lines : List Bytes)
    → length lines < fuel
    → Ends (λ r. Behind lines r.1.1) (read_table fuel mode is_bk line lines)
unfolding read_table
read_table-Ends zero mode is_bk line lines h = elim h [ ]
read_table-Ends (suc fuel) mode is_bk line lines h =
    Ends-if (line_type line == b's')
      (Ends-bind (read_delta mode is_bk line lines) (read_delta-Ends mode is_bk line lines) (λ d b.
        Ends-bind (next_line d.1) (next_line-Ends d.1) (λ next e.
          Ends-bind (read_table fuel mode is_bk next.0 next.1)
            (read_table-Ends fuel mode is_bk next.0 next.1
              (omega (arith, Behind-length lines d.1 b, ap length e)))
            (λ r c. ended (
              Behind-trans lines d.1 r.1.1 b (Behind-trans d.1 next.1 r.1.1 (next.0 ∷ [], e) c))))))
      (ended ([], refl))

-- A loop over lines that takes one more.
one_more :
    {A : Type 0} {rest : A → List Bytes} (next : Bytes) (lines : List Bytes) {r : Run Stop A}
    → Ends (λ a. Behind lines (rest a)) r
    → Ends (λ a. Behind (next ∷ lines) (rest a)) r
one_more {rest = rest} next lines r =
    Ends-map (λ a h. Behind-trans (next ∷ lines) lines (rest a) (next ∷ [], refl) h) r

read_users-Ends :
    (line : Bytes) (lines : List Bytes) → Ends (λ r. Behind lines r.1) (read_users line lines)
unfolding read_users
read_users-Ends line [] =
    Ends-if (line_type line == b'U') (ended ([], refl))
      (Ends-if (line_type line == 0) (refused refl) (refused refl))
read_users-Ends line (next ∷ lines) = Ends-if (line_type line == b'U') (ended ([], refl)) (
    Ends-if (line_type line == 0)
      (Ends-bind (read_users next lines)
        (one_more {rest = λ a. a.1} next lines (read_users-Ends next lines)) (λ r h. ended h))
      (refused refl))

read_flag-Any : (line : Bytes) → Any (read_flag line)
unfolding read_flag
read_flag-Any line = Ends-bind (check_arg line) (guard-Any _ _ refl) (λ _ _.
    Ends-bind
      (guard
        (not (char_at line 3 == 0 || (not (char_at line 4 == 0) && not (char_at line 4 == b' '))))
        (corrupt bad_flag_arg))
      (guard-Any _ _ refl) (λ _ _. ended tt))

read_flags-Ends :
    (line : Bytes) (lines : List Bytes) → Ends (λ r. Behind lines r.1.1) (read_flags line lines)
unfolding read_flags
read_flags-Ends line [] =
    Ends-if (line_type line == b'f')
      (Ends-bind (read_flag line) (read_flag-Any line) (λ _ _. refused refl)) (ended ([], refl))
read_flags-Ends line (next ∷ lines) =
    Ends-if (line_type line == b'f')
      (Ends-bind (read_flag line) (read_flag-Any line) (λ f _.
        Ends-bind (read_flags next lines)
          (one_more {rest = λ a. a.1.1} next lines (read_flags-Ends next lines)) (λ r h. ended h)))
      (ended ([], refl))

read_comments-Ends :
    (line : Bytes) (lines : List Bytes) → Ends (λ r. Behind lines r.1.1) (read_comments line lines)
unfolding read_comments
read_comments-Ends line [] = Ends-if (line_type line == 0) (refused refl) (ended ([], refl))
read_comments-Ends line (next ∷ lines) =
    Ends-if (line_type line == 0)
      (Ends-bind (read_comments next lines)
        (one_more {rest = λ a. a.1.1} next lines (read_comments-Ends next lines)) (λ r h. ended h))
      (ended ([], refl))

-- The next line, and a reader from it on.
from_next :
    {A : Type 0} {rest : A → List Bytes} (lines : List Bytes)
    {read : Bytes → List Bytes → Run Stop A}
    → ((line : Bytes) (later : List Bytes)
        → lines ≡ line ∷ later
        → Ends (λ a. Behind later (rest a)) (read line later))
    → Ends (λ a. Behind lines (rest a)) (next_line lines >>= λ l. read l.0 l.1)
from_next [] k = refused refl
from_next {rest = rest} (line ∷ lines) k = one_more {rest = rest} line lines (k line lines refl)

-- Reading the header of a file ends: on any lines behind the checksum, `parse_header` gives a header and
-- leaves the last ones of the lines for the body, or it stops for another reason than the rounds that
-- its loop over the entries is given, which are enough: a complaint about the file, a feature that is not
-- known, an assertion that fails, or a field that the line does not have, which the program reads unset.
pub parse_header-Ends :
    (mode : Mode) (is_bk : Bool) (lines : List Bytes)
    → Ends (λ r. Behind lines r.1) (parse_header mode is_bk lines)
unfolding parse_header
parse_header-Ends mode is_bk lines =
    Ends-bind (next_line lines >>= λ l. read_table (length lines + 1) mode is_bk l.0 l.1)
      (from_next {rest = λ a. a.1.1} lines (λ line later e.
        read_table-Ends (length lines + 1) mode is_bk line later (omega (arith, ap length e))))
      (λ t h1.
        Ends-bind (guard (line_type t.1.0 == b'u') (corrupt expected_u)) (guard-Any _ _ refl)
          (λ _ _. Ends-bind (check_noarg t.1.0) (guard-Any _ _ refl) (λ _ _.
            Ends-bind (next_line t.1.1 >>= λ l. read_users l.0 l.1)
              (from_next {rest = λ a. a.1} t.1.1 (λ line later e. read_users-Ends line later))
              (λ us h2.
                Ends-bind (next_line us.1 >>= λ l. read_flags l.0 l.1)
                  (from_next {rest = λ a. a.1.1} us.1 (λ line later e. read_flags-Ends line later))
                  (λ fs h3.
                    Ends-bind (guard (line_type fs.1.0 == b't') (corrupt expected_t))
                      (guard-Any _ _ refl)
                      (λ _ _.
                        Ends-bind (next_line fs.1.1 >>= λ l. read_comments l.0 l.1)
                          (from_next {rest = λ a. a.1.1} fs.1.1
                            (λ line later e. read_comments-Ends line later))
                          (λ cs h4.
                            Ends-bind
                              (guard (line_type cs.1.0 == b'T') (corrupt expected_end_of_text))
                              (guard-Any _ _ refl)
                              (λ _ _. ended (
                                Behind-trans lines t.1.1 cs.1.1 h1 (
                                  Behind-trans t.1.1 us.1 cs.1.1 h2
                                    (Behind-trans us.1 fs.1.1 cs.1.1 h3 h4)))))))))))
