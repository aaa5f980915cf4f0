-- ===== src/Sfile/Header/FlagLines.antt =====
-- The flags that are written are read back, those that are set with the texts of their values.
use cssc.Common.{
  ℕ, ◌≡◌, refl, sym, ap, List, [], ◌∷◌, ◌++◌, Bool, true, false, ◌||◌, if◌then◌else◌, Bytes, Option,
  none, some, ◌==◌, All,
}
use cssc.Common.Runs.{value, ◌>>=◌}
use cssc.Body.Line.{line_type}
use cssc.Release.{release_valid}
use cssc.Sid.{valid}
use cssc.Sid.Text.{print, comp_text}
use cssc.Sfile.{next_line}
use cssc.Sfile.Flags.{
  FileFlags, print_releases, print_letters, set_line, value_line, string_line, is_nonempty,
  write_flags,
}
use cssc.Sfile.Header.{ParsedFlag, read_flag, read_flags, bare}

abbrev pub flag_line : ParsedFlag → Bytes
flag_line f = 1 ∷ b'f' ∷ b' ' ∷ f.letter ∷ flag_value f.value
  where
    flag_value : Option Bytes → Bytes
    flag_value none = []
    flag_value (some s) = b' ' ∷ s

unfoldable pub flag_lines : List ParsedFlag → List Bytes
flag_lines [] = []
flag_lines (f ∷ fs) = flag_line f ∷ flag_lines fs

abbrev pub IsLettered : ParsedFlag → Type 0
IsLettered f = (f.letter == 0) ≡ false

read_flag-flag_line : (f : ParsedFlag) → IsLettered f → read_flag (flag_line f) ≡ value f
unfolding read_flag
read_flag-flag_line f h = by_value f.letter f.value h
  where
    by_value :
        (c : ℕ) (v : Option Bytes)
        → (c == 0) ≡ false
        → read_flag (flag_line (record { letter = c; value = v }))
          ≡ value (record { letter = c; value = v })
    by_value c none h = rw h refl
    by_value c (some s) h = rw h refl

pub read_flags-back :
    (fs : List ParsedFlag) (rest : List Bytes)
    → All IsLettered fs
    → (next_line (flag_lines fs ++ bare b't' ∷ rest) >>= λ l. read_flags l.0 l.1)
      ≡ value (fs, (bare b't', rest))
unfolding read_flags line_type flag_lines
read_flags-back [] [] h = refl
read_flags-back [] (r ∷ rest) h = refl
read_flags-back (f ∷ []) rest h = rw (read_flag-flag_line f h.0, read_flags-back [] rest h.1) refl
read_flags-back (f ∷ g ∷ fs) rest h =
    rw (read_flag-flag_line f h.0, read_flags-back (g ∷ fs) rest h.1) refl

-- The flag with a letter and a value, if it is set.
abbrev pub flagged : Bool → ℕ → Option Bytes → List ParsedFlag
flagged set letter text = if set then (record { letter = letter; value = text }) ∷ [] else []

abbrev pub flagged_string : Option Bytes → ℕ → List ParsedFlag
flagged_string none letter = []
flagged_string (some text) letter = flagged true letter (some text)

-- The flags of a file that are set, with the texts of their values.
unfoldable pub set_flags : FileFlags → List ParsedFlag
set_flags f =
    flagged f.branch b'b' none
    ++ (flagged (release_valid f.ceiling) b'c' (some (comp_text f.ceiling))
        ++ (flagged (valid f.default_sid) b'd' (some (print f.default_sid))
            ++ (flagged (release_valid f.floor) b'f' (some (comp_text f.floor))
                ++ (flagged f.no_id_keywords_is_fatal b'i' none
                    ++ (flagged f.joint_edit b'j' none
                        ++ (flagged (f.all_locked || is_nonempty f.locked) b'l'
                              (some (if f.all_locked then b'a' ∷ [] else print_releases f.locked))
                            ++ (flagged_string f.module_name b'm'
                                ++ (flagged f.null_deltas b'n' none
                                    ++ (flagged_string f.user_def b'q'
                                        ++ (flagged_string f.type_name b't'
                                            ++ (flagged_string f.mr_checker b'v'
                                                ++ (flagged true b'e' (
                                                      some
                                                        ((if f.encoded then b'1' else b'0') ∷ []))
                                                    ++ (flagged f.executable b'x' none
                                                        ++ (flagged
                                                            (is_nonempty f.substituted_letters) b'y'
                                                            (some
                                                            (print_letters f.substituted_letters))
                                                            ++ flagged_string f.reserved
                                                            b'z'))))))))))))))

flag_lines-append :
    (fs gs : List ParsedFlag) → flag_lines (fs ++ gs) ≡ flag_lines fs ++ flag_lines gs
unfolding flag_lines
flag_lines-append [] gs = refl
flag_lines-append (f ∷ fs) gs = ap (λ x. flag_line f ∷ x) (flag_lines-append fs gs)

-- The lines are those of the flags, which all have a letter.
unfoldable pub Lettered : List ParsedFlag → List Bytes → Type 0
Lettered fs lines = (lines ≡ flag_lines fs) × All IsLettered fs

joined_flags :
    (fs gs : List ParsedFlag) (a b : List Bytes)
    → Lettered fs a
    → Lettered gs b
    → Lettered (fs ++ gs) (a ++ b)
unfolding Lettered
joined_flags fs gs a b (e, h) (f, k) = (rw (e, f) (sym (flag_lines-append fs gs)), both fs h)
  where
    both : (fs : List ParsedFlag) → All IsLettered fs → All IsLettered (fs ++ gs)
    both [] h = k
    both (x ∷ fs) h = (h.0, both fs h.1)

set_line-Lettered :
    (set : Bool) (letter : ℕ)
    → (letter == 0) ≡ false
    → Lettered (flagged set letter none) (set_line set letter)
unfolding Lettered flag_lines
set_line-Lettered true letter h = (refl, (h, tt))
set_line-Lettered false letter h = (refl, tt)

value_line-Lettered :
    (set : Bool) (letter : ℕ) (text : Bytes)
    → (letter == 0) ≡ false
    → Lettered (flagged set letter (some text)) (value_line set letter text)
unfolding Lettered flag_lines
value_line-Lettered true letter text h = (refl, (h, tt))
value_line-Lettered false letter text h = (refl, tt)

string_line-Lettered :
    (text : Option Bytes) (letter : ℕ)
    → (letter == 0) ≡ false
    → Lettered (flagged_string text letter) (string_line text letter)
unfolding Lettered flag_lines
string_line-Lettered none letter h = (refl, tt)
string_line-Lettered (some text) letter h = (refl, (h, tt))

locked_line-Lettered :
    (all some_locked : Bool) (text : Bytes)
    → Lettered
        (flagged (all || some_locked) b'l' (some (if all then b'a' ∷ [] else text)))
        (if all then value_line true b'l' (b'a' ∷ []) else value_line some_locked b'l' text)
locked_line-Lettered true some_locked text = value_line-Lettered true b'l' (b'a' ∷ []) refl
locked_line-Lettered false some_locked text = value_line-Lettered some_locked b'l' text refl

pub write_flags-Lettered : (f : FileFlags) → Lettered (set_flags f) (write_flags f)
unfolding write_flags set_flags
write_flags-Lettered f = joined_flags _ _ _ _ (set_line-Lettered f.branch b'b' refl) (
    joined_flags _ _ _ _
      (value_line-Lettered (release_valid f.ceiling) b'c' (comp_text f.ceiling) refl)
      (joined_flags _ _ _ _
        (value_line-Lettered (valid f.default_sid) b'd' (print f.default_sid) refl)
        (joined_flags _ _ _ _
          (value_line-Lettered (release_valid f.floor) b'f' (comp_text f.floor) refl)
          (joined_flags _ _ _ _ (set_line-Lettered f.no_id_keywords_is_fatal b'i' refl) (
            joined_flags _ _ _ _ (set_line-Lettered f.joint_edit b'j' refl) (
              joined_flags _ _ _ _
                (locked_line-Lettered f.all_locked (is_nonempty f.locked) (print_releases f.locked))
                (joined_flags _ _ _ _ (string_line-Lettered f.module_name b'm' refl) (
                  joined_flags _ _ _ _ (set_line-Lettered f.null_deltas b'n' refl) (
                    joined_flags _ _ _ _ (string_line-Lettered f.user_def b'q' refl) (
                      joined_flags _ _ _ _ (string_line-Lettered f.type_name b't' refl) (
                        joined_flags _ _ _ _ (string_line-Lettered f.mr_checker b'v' refl) (
                          joined_flags _ _ _ _
                            (value_line-Lettered true b'e' ((if f.encoded then b'1' else b'0') ∷ [])
                              refl)
                            (joined_flags _ _ _ _ (set_line-Lettered f.executable b'x' refl) (
                              joined_flags _ _ _ _
                                (value_line-Lettered (is_nonempty f.substituted_letters) b'y'
                                  (print_letters f.substituted_letters) refl)
                                (string_line-Lettered f.reserved b'z' refl)))))))))))))))
