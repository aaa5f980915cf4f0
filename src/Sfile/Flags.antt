-- ===== src/Sfile/Flags.antt =====
-- src/sccsfile.h and src/sf-write.cc: the flags of a history file and the lines that `sccs_file::write`
-- makes of them, with `release_list::print` of src/rel_list.cc and `print_subsituted_flags_list` of
-- src/sccsfile.cc. A null pointer is `none`.
use cssc.Common.{
  List, [], ◌∷◌, ◌++◌, Bool, true, false, Bytes, Option, none, some, if◌then◌else◌, ℕ,
}
use cssc.Release.{Release, release_valid}
use cssc.Sid.{Sid, valid}
use cssc.Sid.Text.{print, comp_text}

-- `sccs_file_flags`. An int that is used as a truth value is a Boolean; the set of letters is the list of
-- its members in their order.
pub record FileFlags : Type 0 where
  pub type_name : Option Bytes
  pub mr_checker : Option Bytes
  pub no_id_keywords_is_fatal : Bool
  pub branch : Bool
  pub module_name : Option Bytes
  pub floor : Release
  pub ceiling : Release
  pub default_sid : Sid
  pub null_deltas : Bool
  pub joint_edit : Bool
  pub locked : List Release
  pub all_locked : Bool
  pub user_def : Option Bytes
  pub reserved : Option Bytes
  pub encoded : Bool
  pub executable : Bool
  pub substituted_letters : List ℕ

unfoldable pub print_releases : List Release → Bytes
print_releases [] = []
print_releases (r ∷ []) = comp_text r
print_releases (r ∷ q ∷ rs) = comp_text r ++ b' ' ∷ print_releases (q ∷ rs)

unfoldable pub print_letters : List ℕ → Bytes
print_letters [] = []
print_letters (c ∷ []) = c ∷ []
print_letters (c ∷ d ∷ cs) = c ∷ b' ' ∷ print_letters (d ∷ cs)

-- The line of a flag without a value, if it is set.
abbrev pub set_line : Bool → ℕ → List Bytes
set_line set letter = if set then (1 ∷ b'f' ∷ b' ' ∷ letter ∷ []) ∷ [] else []

-- The line of a flag with a value, if it is set.
abbrev pub value_line : Bool → ℕ → Bytes → List Bytes
value_line set letter text = if set then (1 ∷ b'f' ∷ b' ' ∷ letter ∷ b' ' ∷ text) ∷ [] else []

abbrev pub string_line : Option Bytes → ℕ → List Bytes
string_line none letter = []
string_line (some text) letter = value_line true letter text

abbrev pub is_nonempty : {A : Type 0} → List A → Bool
is_nonempty [] = false
is_nonempty (x ∷ xs) = true

unfoldable pub write_flags : FileFlags → List Bytes
write_flags f =
    set_line f.branch b'b'
    ++ (value_line (release_valid f.ceiling) b'c' (comp_text f.ceiling)
        ++ (value_line (valid f.default_sid) b'd' (print f.default_sid)
            ++ (value_line (release_valid f.floor) b'f' (comp_text f.floor)
                ++ (set_line f.no_id_keywords_is_fatal b'i'
                    ++ (set_line f.joint_edit b'j'
                        ++ ((if f.all_locked
                              then value_line true b'l' (b'a' ∷ [])
                              else value_line (is_nonempty f.locked) b'l' (print_releases f.locked))
                            ++ (string_line f.module_name b'm'
                                ++ (set_line f.null_deltas b'n'
                                    ++ (string_line f.user_def b'q'
                                        ++ (string_line f.type_name b't'
                                            ++ (string_line f.mr_checker b'v'
                                                ++ (value_line true b'e'
                                                      ((if f.encoded then b'1' else b'0') ∷ [])
                                                    ++ (set_line f.executable b'x'
                                                        ++ (value_line
                                                            (is_nonempty f.substituted_letters) b'y'
                                                            (print_letters f.substituted_letters)
                                                            ++ string_line f.reserved
                                                            b'z'))))))))))))))
