-- ===== src/Body.antt =====
-- src/body-scanner.cc: reading the body of an s-file, with the parts of src/base-reader.h and
-- src/base-reader.cc that it calls, and `check_id_keywords` of src/sf-chkid.cc. The body is the list
-- of its lines without their newlines, and a line has no NUL. The character after the end of a
-- line's buffer is the terminating 0, so `char_at` gives 0 there. Failures of `fread`, `fputs`,
-- `fputc` and `fflush` are not modelled; those of the two functions that `get` is given are.
pub mod Keywords
pub mod Line
pub mod Numbers
pub mod Get
pub mod Delta
pub mod Remove
