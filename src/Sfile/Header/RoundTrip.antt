-- ===== src/Sfile/Header/RoundTrip.antt =====
-- A header that is written is read back.
use cssc.Common.{◌≡◌, List, [], ◌∷◌, Bytes, All}
use cssc.Body.Line.{line_type}
use cssc.Sfile.{Entry}
use cssc.Sfile.Entries.{IsRecorded, recorded}
use cssc.Sfile.Header.{Contents}

abbrev pub IsText : Bytes → Type 0
IsText line = line_type line ≡ 0

abbrev pub all_recorded : List Entry → List Entry
all_recorded [] = []
all_recorded (e ∷ es) = recorded e ∷ all_recorded es

-- A header that can be read back: its entries are recorded ones, and the names of users and the lines of
-- the text are no control lines.
pub record IsHeader (h : Contents) : Type 0 where
  pub entries : All IsRecorded h.entries
  pub users : All IsText h.users
  pub comments : All IsText h.comments
