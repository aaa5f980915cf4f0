-- ===== src/Examples/Headers.antt =====
-- The header of a history file at a concrete value.
use cssc.Common.{codes, [], ◌∷◌, ◌++◌, true, false, none, some}
use cssc.Common.Int.{pos, negsuc}
use cssc.Sid.{sid, no_sid}
use cssc.Sfile.{Entry, for_reading}
use cssc.Sfile.Flags.{FileFlags}
use cssc.Sfile.Header.{Contents, parse_header, write_header}
use cssc.Sfile.Header.Ends.{parse_header-Ends}
use cssc.Sfile.Ends.{Ends, Behind}
use cssc.Examples.Calendar.{leap_day}

abbrev second : Entry
second = record {
  delta = record {
    delta_type = b'D';
    id = sid (pos 1) (pos 2) (pos 0) (pos 0);
    seq = 2;
    prev_seq = 1;
    included = [];
    excluded = 1 ∷ [];
    ignored = [];
    have_includes = false;
    have_excludes = true;
    have_ignores = false;
    mrs = codes "7" ∷ [];
    comments = codes "a fix" ∷ [] ∷ [];
    inserted = 123456;
    deleted = 0;
    unchanged = 12;
  };
  date = leap_day;
  user = codes "ann";
}

abbrev small_flags : FileFlags
small_flags = record {
  type_name = none;
  mr_checker = none;
  no_id_keywords_is_fatal = false;
  branch = true;
  module_name = some (codes "prog");
  floor = negsuc 0;
  ceiling = pos 4;
  default_sid = no_sid;
  null_deltas = false;
  joint_edit = true;
  locked = pos 2 ∷ pos 3 ∷ [];
  all_locked = false;
  user_def = none;
  reserved = none;
  encoded = false;
  executable = true;
  substituted_letters = b'M' ∷ b'W' ∷ [];
}

abbrev small_header : Contents
small_header = record {
  entries = second ∷ [];
  users = codes "ann" ∷ [];
  flags = small_flags;
  comments = codes "A program." ∷ [];
}

parse_header-Ends_example :
    Ends
      (λ r. Behind (write_header small_header ++ codes "text" ∷ []) r.1)
      (parse_header for_reading false (write_header small_header ++ codes "text" ∷ []))
parse_header-Ends_example =
    parse_header-Ends for_reading false (write_header small_header ++ codes "text" ∷ [])
