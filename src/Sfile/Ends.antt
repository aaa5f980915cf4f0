-- ===== src/Sfile/Ends.antt =====
-- Reading ends: the parts of an entry, which leave the lines behind them.
use cssc.Common.{
  ℕ, ◌≤◌, ◌≡◌, refl, sym, ap, ◌∙◌, List, [], ◌∷◌, ◌++◌, append_assoc, Bool, true, false, ◌&&◌, ◌||◌,
  Bytes, Option, none, some, if◌then◌else◌, ◌==◌, length, length-append, drop, get_elem?, arith,
}
use cssc.Common.Cut.{pieces}
use cssc.Common.Runs.{Run, value, quit, ◌>>=◌}
use cssc.Body.Line.{Result, ok, fail, char_at, line_type, strict_atous}
use cssc.Sid.{parse, valid}
use cssc.Dates.{Assertion, Date, valid_date}
use cssc.DeltaTable.{Delta}
use cssc.DeltaTable.Entry.{set_has_includes, set_has_excludes, set_has_ignores}
use cssc.Dates.Read.{of_file}
use cssc.Pfile.File.{split}
use cssc.Sfile.{
  includes, excludes, ignores, set_args, check_arg, check_noarg, two_slashes, bad_delta_type,
  bad_sid, bad_date, expected_d, expected_e, Mode, for_reading, for_update, fix_checksum, create,
  Stop, out_of_fuel, corrupt, unset_arg, guard, next_line, arg, number, dated, asserted, count_of,
  skip, read_counts, read_description, Listed, set_has, add_number, add_numbers, read_numbers,
  letter_of, read_list, saw_unknown_feature, check_comment, is_bk_comment, read_text, read_texts,
  read_delta,
}

abbrev is_out_of_fuel : Stop → Bool
is_out_of_fuel out_of_fuel = true
is_out_of_fuel _ = false

-- A run that does not stop for want of fuel, and gives a value with `P` where it gives one.
pub data Ends {A : Type 0} (P : A → Type 0) : Run Stop A → Type 0 where
  ended : {a : A} → P a → Ends P (value a)
  refused : {s : Stop} → is_out_of_fuel s ≡ false → Ends P (quit s)

abbrev pub Any : {A : Type 0} → Run Stop A → Type 0
Any {A = A} r = Ends (λ a. Unit {0}) r

pub Ends-bind :
    {A B : Type 0} {P : A → Type 0} {Q : B → Type 0} (r : Run Stop A) {f : A → Run Stop B}
    → Ends P r
    → ((a : A) → P a → Ends Q (f a))
    → Ends Q (r >>= f)
Ends-bind (value a) (ended p) k = k a p
Ends-bind (quit s) (refused o) k = refused o

pub Ends-map :
    {A : Type 0} {P Q : A → Type 0} {r : Run Stop A} → ((a : A) → P a → Q a) → Ends P r → Ends Q r
Ends-map k (ended {a = a} p) = ended (k a p)
Ends-map k (refused o) = refused o

pub Ends-if :
    {A : Type 0} {P : A → Type 0} (c : Bool) {x y : Run Stop A}
    → Ends P x
    → Ends P y
    → Ends P (if c then x else y)
Ends-if true h k = h
Ends-if false h k = k

pub guard-Any : (c : Bool) (s : Stop) → is_out_of_fuel s ≡ false → Any (guard c s)
guard-Any true s o = ended tt
guard-Any false s o = refused o

-- The lines that are left are the last ones.
abbrev pub Behind : List Bytes → List Bytes → Type 0
Behind lines rest = (read : List Bytes) × (lines ≡ read ++ rest)

pub Behind-trans : (a b c : List Bytes) → Behind a b → Behind b c → Behind a c
Behind-trans a b c (l, e) (m, f) = (l ++ m, e ∙ ap (λ x. l ++ x) f ∙ sym (append_assoc l m c))

pub Behind-length : (a b : List Bytes) → Behind a b → length b ≤ length a
Behind-length a b (l, e) = omega (arith, ap length e, length-append l b)

pub next_line-Ends : (lines : List Bytes) → Ends (λ l. lines ≡ l.0 ∷ l.1) (next_line lines)
next_line-Ends [] = refused refl
next_line-Ends (line ∷ lines) = ended refl

arg-Any : (args : List Bytes) (i : ℕ) → Any (arg args i)
arg-Any args i =
    elim (get_elem? args i) as (λ x. Any (elim x [ none ↦ quit unset_arg | some s ↦ value s ])) [
      | none ↦ refused refl
      | some s ↦ ended tt
    ]

number-Any : (r : Result ℕ) → Any (number r)
number-Any (ok n) = ended tt
number-Any (fail e) = refused refl

count_of-Any : (s : Bytes) → Any (count_of s)
unfolding count_of
count_of-Any s =
    Ends-if (char_at (skip (λ c. c == b' ') s) 0 == b'-') (refused refl)
      (Ends-if _ (refused refl) (ended tt))

dated-Any : (r : Run Assertion Date) → Any (dated r)
dated-Any (value d) = ended tt
dated-Any (quit e) = refused refl

asserted-Any : (r : Option Delta) → Any (asserted r)
asserted-Any none = refused refl
asserted-Any (some d) = ended tt

read_counts-Any : (line : Bytes) → Any (read_counts line)
unfolding read_counts
read_counts-Any line = Ends-bind (check_arg line) (guard-Any _ _ refl) (λ _ _.
    Ends-bind (guard (length (args line) == 3) (corrupt two_slashes)) (guard-Any _ _ refl) (λ _ _.
      Ends-bind (counted 0) (counted-Any 0) (λ i _.
        Ends-bind (counted 1) (counted-Any 1)
          (λ d _. Ends-bind (counted 2) (counted-Any 2) (λ u _. ended tt)))))
  where
    args : Bytes → List Bytes
    args line = split 3 b'/' (drop 3 line)

    counted : ℕ → Run Stop ℕ
    counted i = arg (args line) i >>= count_of

    counted-Any : (i : ℕ) → Any (counted i)
    counted-Any i = Ends-bind (arg (args line) i) (arg-Any (args line) i) (λ s _. count_of-Any s)

read_description-Any : (tmp : Delta) (line : Bytes) → Any (read_description tmp line)
unfolding read_description
read_description-Any tmp line = Ends-bind (check_arg line) (guard-Any _ _ refl) (λ _ _.
    Ends-bind (args 0) (arg-Any _ 0) (λ t _.
      Ends-bind
        (guard ((char_at t 0 == b'D' || char_at t 0 == b'R') && char_at t 1 == 0)
          (corrupt bad_delta_type))
        (guard-Any _ _ refl)
        (λ _ _. Ends-bind (args 1) (arg-Any _ 1) (λ id _.
          Ends-bind (guard (valid (parse id)) (corrupt bad_sid)) (guard-Any _ _ refl) (λ _ _.
            Ends-bind (args 2) (arg-Any _ 2) (λ day _. Ends-bind (args 3) (arg-Any _ 3) (λ time _.
              Ends-bind (dated (of_file day time)) (dated-Any (of_file day time)) (λ date _.
                Ends-bind (guard (valid_date date) (corrupt bad_date)) (guard-Any _ _ refl) (λ _ _.
                  Ends-bind (args 4) (arg-Any _ 4) (λ user _.
                    Ends-bind (numbered 5) (numbered-Any 5)
                      (λ seq _. Ends-bind (numbered 6) (numbered-Any 6) (λ _ _. ended tt))))))))))))
  where
    args : ℕ → Run Stop Bytes
    args i = arg (set_args 7 b' ' (drop 3 line)) i

    numbered : ℕ → Run Stop ℕ
    numbered i = args i >>= λ s. number (strict_atous s)

    numbered-Any : (i : ℕ) → Any (numbered i)
    numbered-Any i = Ends-bind (args i) (arg-Any _ i) (λ s _. number-Any (strict_atous s))

set_has-Any : (k : Listed) (d : Delta) → Any (set_has k d)
set_has-Any includes d = asserted-Any (set_has_includes d true)
set_has-Any excludes d = asserted-Any (set_has_excludes d true)
set_has-Any ignores d = asserted-Any (set_has_ignores d true)

add_numbers-Any : (k : Listed) (d : Delta) (ss : List Bytes) → Any (add_numbers k d ss)
unfolding add_numbers
add_numbers-Any k d [] = ended tt
add_numbers-Any k d (s ∷ ss) =
    Ends-bind (number (strict_atous s)) (number-Any (strict_atous s))
      (λ n _. add_numbers-Any k (add_number k d n) ss)

read_numbers-Any : (k : Listed) (d : Delta) (line : Bytes) → Any (read_numbers k d line)
unfolding read_numbers
read_numbers-Any k d line = Ends-bind (set_has k d) (set_has-Any k d) (λ d' _.
    Ends-if (char_at line 2 == b' ') (add_numbers-Any k d' (pieces b' ' (drop 3 line))) (ended tt))

read_list-Ends :
    (k : Listed) (d : Delta) (line : Bytes) (lines : List Bytes)
    → Ends (λ r. Behind lines r.1.1) (read_list k d line lines)
unfolding read_list
read_list-Ends k d line lines =
    Ends-if (line_type line == letter_of k)
      (Ends-bind (read_numbers k d line) (read_numbers-Any k d line) (λ d' _.
        Ends-bind (next_line lines) (next_line-Ends lines) (λ next e. ended (next.0 ∷ [], e))))
      (ended ([], refl))

saw_unknown_feature-Any : (mode : Mode) → Any (saw_unknown_feature mode)
unfolding saw_unknown_feature
saw_unknown_feature-Any for_reading = ended tt
saw_unknown_feature-Any fix_checksum = ended tt
saw_unknown_feature-Any for_update = refused refl
saw_unknown_feature-Any create = refused refl

check_comment-Any : (mode : Mode) (is_bk : Bool) (c : ℕ) → Any (check_comment mode is_bk c)
unfolding check_comment
check_comment-Any mode is_bk c =
    Ends-if is_bk (Ends-if (is_bk_comment c) (ended tt) (saw_unknown_feature-Any mode))
      (Ends-if (c == 0 || c == b' ') (ended tt) (saw_unknown_feature-Any mode))

read_text-Any :
    (mode : Mode) (is_bk : Bool) (d : Delta) (line : Bytes) → Any (read_text mode is_bk d line)
unfolding read_text
read_text-Any mode is_bk d line =
    Ends-if (line_type line == b'm') (Ends-if (char_at line 2 == b' ') (ended tt) (ended tt)) (
      Ends-bind (check_comment mode is_bk (char_at line 2))
        (check_comment-Any mode is_bk (char_at line 2)) (λ _ _. ended tt))

read_texts-Ends :
    (mode : Mode) (is_bk : Bool) (d : Delta) (line : Bytes) (lines : List Bytes)
    → Ends (λ r. Behind lines r.1.1) (read_texts mode is_bk d line lines)
unfolding read_texts
read_texts-Ends mode is_bk d line [] =
    Ends-if (line_type line == b'm' || line_type line == b'c')
      (Ends-bind (read_text mode is_bk d line) (read_text-Any mode is_bk d line)
        (λ _ _. refused refl))
      (ended ([], refl))
read_texts-Ends mode is_bk d line (next ∷ lines) =
    Ends-if (line_type line == b'm' || line_type line == b'c')
      (Ends-bind (read_text mode is_bk d line) (read_text-Any mode is_bk d line) (λ d' _.
        Ends-map (λ r h. Behind-trans (next ∷ lines) lines r.1.1 (next ∷ [], refl) h)
          (read_texts-Ends mode is_bk d' next lines)))
      (ended ([], refl))

-- An entry is read, or refused, and the lines behind it are left.
pub read_delta-Ends :
    (mode : Mode) (is_bk : Bool) (line : Bytes) (lines : List Bytes)
    → Ends (λ r. Behind lines r.1) (read_delta mode is_bk line lines)
unfolding read_delta
read_delta-Ends mode is_bk line lines =
    Ends-bind (read_counts line) (read_counts-Any line) (λ counted _.
      Ends-bind (next_line lines) (next_line-Ends lines) (λ l1 e1.
        Ends-bind (guard (line_type l1.0 == b'd') (corrupt expected_d)) (guard-Any _ _ refl) (λ _ _.
          Ends-bind (read_description counted l1.0) (read_description-Any counted l1.0) (λ e _.
            Ends-bind (next_line l1.1) (next_line-Ends l1.1) (λ l2 e2.
              Ends-bind (read_list includes e.delta l2.0 l2.1)
                (read_list-Ends includes e.delta l2.0 l2.1)
                (λ d1 h1.
                  Ends-bind (read_list excludes d1.0 d1.1.0 d1.1.1)
                    (read_list-Ends excludes d1.0 d1.1.0 d1.1.1)
                    (λ d2 h2.
                      Ends-bind (read_list ignores d2.0 d2.1.0 d2.1.1)
                        (read_list-Ends ignores d2.0 d2.1.0 d2.1.1)
                        (λ d3 h3.
                          Ends-bind (read_texts mode is_bk d3.0 d3.1.0 d3.1.1)
                            (read_texts-Ends mode is_bk d3.0 d3.1.0 d3.1.1)
                            (λ d4 h4.
                              Ends-bind (guard (line_type d4.1.0 == b'e') (corrupt expected_e))
                                (guard-Any _ _ refl)
                                (λ _ _. Ends-bind (check_noarg d4.1.0) (guard-Any _ _ refl) (λ _ _.
                                  ended (
                                    Behind-trans lines l1.1 d4.1.1 (l1.0 ∷ [], e1)
                                      (Behind-trans l1.1 l2.1 d4.1.1 (l2.0 ∷ [], e2)
                                        (Behind-trans l2.1 d1.1.1 d4.1.1 h1 (
                                          Behind-trans d1.1.1 d2.1.1 d4.1.1 h2
                                            (Behind-trans d2.1.1 d3.1.1 d4.1.1 h3 h4))))))))))))))))
