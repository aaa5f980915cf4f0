-- ===== src/Pfile/RoundTrip.antt =====
-- The p-file that is written is read back.
use cssc.Common.{
  ℕ, suc, ◌<◌, ◌≡◌, refl, sym, ap, ◌∙◌, inl, inr, List, [], ◌∷◌, ◌++◌, append_assoc, append-nil,
  Bool, true, false, Bytes, Option, none, some, ltb, if◌then◌else◌, ◌==◌, length, codes, All,
  All-append, arith, Bool-cases,
}
use cssc.Common.Cut.{Lacks}
use cssc.Common.Int.{pos, ◌≤ℤ◌}
use cssc.Common.Runs.{value}
use cssc.Sid.{parse}
use cssc.Sid.Chars.{valid_print}
use cssc.Sid.Line.{Line}
use cssc.Sid.Text.{print, IsPrintable, parse-print}
use cssc.SidList.{SidList, Range, is_empty, print_list}
use cssc.SidList.Clean.{IsSeparated}
use cssc.SidList.Text.{IsPrintableRange, parse_list-print_list}
use cssc.Dates.Order.{◌<ℤ◌}
use cssc.Dates.YearDay.{IsMade}
use cssc.Dates.Print.{as_string, print_with, three, yy}
use cssc.Dates.Text.{of_file-Written, printed}
use cssc.Pfile.{EditLock}
use cssc.Pfile.File.{
  raw_lines, chomp, split, no_options, read_options, bad_options, list_of, date_of_args,
  or_assertion, make_lock, check_lock, read_args, read_locks, lock_text, write_edit_locks,
  read_pfile, update,
}
use cssc.Pfile.Fields.{
  IsField, in_line, split_more, split_end, chomp_newline, raw_lines_cons, print-IsField,
  three-IsField, three_some, list_text-IsField,
}

-- A list that is printed and read back as it is.
abbrev pub IsKept : SidList → Type 1
IsKept l =
    (line : Line) × (l.valid_flag ≡ true) × IsSeparated line l.head × All IsPrintableRange l.head

-- A lock that can be written and read back: its SIDs and lists can be printed, the user's name is one
-- word, and the date is in the years that a date of two digits stands for.
pub record IsWritable (it : EditLock) : Type 1 where
  pub got : IsPrintable it.got
  pub delta : IsPrintable it.delta
  pub user : All IsField it.user
  pub made : IsMade it.date
  pub from : pos 1969 ≤ℤ it.date.year
  pub to : it.date.year <ℤ pos 2069
  pub include : IsKept it.include
  pub exclude : IsKept it.exclude

-- The text of a list that is written, if any is.
abbrev shown : SidList → Option Bytes
shown l = if is_empty l then none else some (print_list l)

abbrev shown_text : Bytes → Option Bytes → Bytes
shown_text mark none = []
shown_text mark (some t) = b' ' ∷ (mark ++ t)

abbrev shown_field : Bytes → Option Bytes → List Bytes
shown_field mark none = []
shown_field mark (some t) = (mark ++ t) ∷ []

abbrev AllField : Option Bytes → Type 0
AllField none = Unit {0}
AllField (some t) = All IsField t

-- The line of the p-file with its parts given.
abbrev line_of : Bytes → Bytes → Bytes → Bytes → Bytes → Option Bytes → Option Bytes → Bytes
line_of a b u d t i x =
    a
    ++ b' '
      ∷ (b
          ++ b' '
            ∷ (u
                ++ b' '
                  ∷ (d ++ b' ' ∷ (t ++ (shown_text (codes "-i") i ++ shown_text (codes "-x") x)))))

abbrev args_of : Bytes → Bytes → Bytes → Bytes → Bytes → Option Bytes → Option Bytes → List Bytes
args_of a b u d t i x =
    a ∷ b ∷ u ∷ d ∷ t ∷ (shown_field (codes "-i") i ++ shown_field (codes "-x") x)

dash : (c : ℕ) (t : Bytes) → IsField c → All IsField t → All IsField (b'-' ∷ c ∷ t)
dash c t h k = ((refl, refl), (h, k))

split_tail :
    (t : Bytes) (i x : Option Bytes)
    → All IsField t
    → 0 < length t
    → AllField i
    → AllField x
    → split 3 b' ' (t ++ (shown_text (codes "-i") i ++ shown_text (codes "-x") x))
      ≡ t ∷ (shown_field (codes "-i") i ++ shown_field (codes "-x") x)
split_tail t none none h p hi hx = rw (append-nil t) (split_end 2 t h p)
split_tail t none (some x) h p hi hx =
    split_more 2 t _ h
    ∙ ap (λ s. t ∷ s) (split_end 1 (codes "-x" ++ x) (dash b'x' x (refl, refl) hx) (omega arith))
split_tail t (some i) none h p hi hx = rw (append-nil i) (
    split_more 2 t _ h
    ∙ ap (λ s. t ∷ s) (split_end 1 (codes "-i" ++ i) (dash b'i' i (refl, refl) hi) (omega arith)))
split_tail t (some i) (some x) h p hi hx =
    split_more 2 t _ h
    ∙ ap (λ s. t ∷ s)
        (split_more 1 (codes "-i" ++ i) (codes "-x" ++ x) (dash b'i' i (refl, refl) hi)
          ∙ ap (λ s. (codes "-i" ++ i) ∷ s)
              (split_end 0 (codes "-x" ++ x) (dash b'x' x (refl, refl) hx) (omega arith)))

module _ (a b u d t : Bytes) (i x : Option Bytes) (ha : All IsField a) (hb : All IsField b)
    (hu : All IsField u) (hd : All IsField d) (ht : All IsField t) (some_time : 0 < length t)
    (hi : AllField i) (hx : AllField x) where
  split_line : split 7 b' ' (line_of a b u d t i x) ≡ args_of a b u d t i x
  split_line =
      split_more 6 a _ ha
      ∙ ap (λ s. a ∷ s)
          (split_more 5 b _ hb
            ∙ ap (λ s. b ∷ s)
                (split_more 4 u _ hu
                  ∙ ap (λ s. u ∷ s)
                      (split_more 3 d _ hd
                        ∙ ap (λ s. d ∷ s) (split_tail t i x ht some_time hi hx))))

  abbrev NoNewline : ℕ → Type 0
  NoNewline c = (c == b'\n') ≡ false

  shown-Lacks :
      (mark : Bytes) (o : Option Bytes)
      → Lacks b'\n' mark
      → AllField o
      → Lacks b'\n' (shown_text mark o)
  shown-Lacks mark none h k = tt
  shown-Lacks mark (some s) h k = (refl, All-append NoNewline mark s h (in_line s k))

  line_of-Lacks : Lacks b'\n' (line_of a b u d t i x)
  line_of-Lacks = All-append NoNewline a _ (in_line a ha) (
    refl,
    All-append NoNewline b _ (in_line b hb) (
      refl,
      All-append NoNewline u _ (in_line u hu) (
        refl,
        All-append NoNewline d _ (in_line d hd) (
          refl,
          All-append NoNewline t _ (in_line t ht) (
              All-append NoNewline (shown_text (codes "-i") i) _
                (shown-Lacks (codes "-i") i (refl, (refl, tt)) hi)
                (shown-Lacks (codes "-x") x (refl, (refl, tt)) hx)),
        ),
      ),
    ),
  )

made_of :
    (a b u d t : Bytes) (i x : Option Bytes) (it : EditLock)
    → date_of_args d t ≡ value it.date
    → list_of i ≡ value it.include
    → list_of x ≡ value it.exclude
    → parse a ≡ it.got
    → parse b ≡ it.delta
    → u ≡ it.user
    → make_lock (args_of a b u d t i x) (record { incl = i; excl = x }) ≡ value it
unfolding make_lock
made_of a b u d t i x it e1 e2 e3 e4 e5 e6 = rw (e1, e2, e3, e4, e5, e6) refl

options_of :
    (i x : Option Bytes)
    → read_options (shown_field (codes "-i") i ++ shown_field (codes "-x") x) no_options
      ≡ record { incl = i; excl = x }
unfolding read_options
options_of none none = refl
options_of none (some x) = refl
options_of (some i) none = refl
options_of (some i) (some x) = refl

count-args_of :
    (a b u d t : Bytes) (i x : Option Bytes)
    → (ltb (length (args_of a b u d t i x)) 5 ≡ false)
      × (bad_options (length (args_of a b u d t i x)) (record { incl = i; excl = x }) ≡ false)
unfolding bad_options
count-args_of a b u d t none none = (refl, refl)
count-args_of a b u d t none (some x) = (refl, refl)
count-args_of a b u d t (some i) none = (refl, refl)
count-args_of a b u d t (some i) (some x) = (refl, refl)

-- The arguments that were written are accepted.
read_args_of :
    (lineno : ℕ) (a b u d t : Bytes) (i x : Option Bytes) (it : EditLock)
    → make_lock (args_of a b u d t i x) (record { incl = i; excl = x }) ≡ value it
    → check_lock lineno it ≡ value it
    → read_args lineno (args_of a b u d t i x) ≡ value it
unfolding read_args
read_args_of lineno a b u d t i x it m c =
    (let (enough, fine) = count-args_of a b u d t i x in rw (options_of i x, enough, fine, m) c)

list_of-shown : (l : SidList) → IsKept l → list_of (shown l) ≡ value l
unfolding list_of
list_of-shown l (line, v, s, h) = by_head l.head l.valid_flag line v s h
  where
    by_head :
        (hs : List Range) (flag : Bool) (line : Line)
        → flag ≡ true
        → IsSeparated line hs
        → All IsPrintableRange hs
        → list_of (shown (record { head = hs; valid_flag = flag }))
          ≡ value (record { head = hs; valid_flag = flag })
    by_head [] flag line v s h = ap (λ f. value (record { head = []; valid_flag = f })) (sym v)
    by_head (r ∷ rs) flag line v s h = rw (v, parse_list-print_list line (r ∷ rs) s h) refl

shown-AllField : (l : SidList) → IsKept l → AllField (shown l)
shown-AllField l (line, v, s, h) = by_head l.head l.valid_flag h
  where
    by_head :
        (hs : List Range) (flag : Bool)
        → All IsPrintableRange hs
        → AllField (shown (record { head = hs; valid_flag = flag }))
    by_head [] flag h = tt
    by_head (r ∷ rs) true h = unfold print_list in list_text-IsField (r ∷ rs) h
    by_head (r ∷ rs) false h = unfold print_list in tt

shown_if :
    (mark : Bytes) (l : SidList)
    → (if is_empty l then [] else b' ' ∷ (mark ++ print_list l)) ≡ shown_text mark (shown l)
shown_if mark l = elim (Bool-cases (is_empty l)) [ inl t ↦ rw t refl | inr f ↦ rw f refl ]

regrouped :
    (a b u d t x y : Bytes)
    → a ++ b' ' ∷ (b ++ b' ' ∷ (u ++ b' ' ∷ ((d ++ b' ' ∷ t) ++ (x ++ (y ++ b'\n' ∷ [])))))
      ≡ (a ++ b' ' ∷ (b ++ b' ' ∷ (u ++ b' ' ∷ (d ++ b' ' ∷ (t ++ (x ++ y)))))) ++ b'\n' ∷ []
regrouped a b u d t x y = simp append_assoc

module _ (it : EditLock) (w : IsWritable it) where
  abbrev day : Bytes
  day = three b'/' (yy it.date.year) it.date.month it.date.month_day

  abbrev time : Bytes
  time = three b':' it.date.hour it.date.minute it.date.second

  abbrev line_text : Bytes
  line_text =
      line_of (print it.got) (print it.delta) it.user day time (shown it.include) (shown it.exclude)

  lock_text-line : lock_text it ≡ line_text ++ b'\n' ∷ []
  unfolding lock_text as_string
  lock_text-line =
      rw (shown_if (codes "-i") it.include, shown_if (codes "-x") it.exclude)
        (regrouped (print it.got) (print it.delta) it.user day time
          (shown_text (codes "-i") (shown it.include)) (shown_text (codes "-x") (shown it.exclude)))

  accepted : (lineno : ℕ) → check_lock lineno it ≡ value it
  unfolding check_lock
  accepted lineno =
      (let (line, v, s, h) = w.include in
        let (line', v', s', h') = w.exclude in
        rw (valid_print it.got w.got, valid_print it.delta w.delta, w.made.0, v, v') refl)

  dated : date_of_args day time ≡ value it.date
  unfolding date_of_args print_with
  dated = ap or_assertion (of_file-Written it.date day time w.made w.from w.to (printed refl) refl)

  day-IsField : All IsField day
  day-IsField = three-IsField b'/' (yy it.date.year) it.date.month it.date.month_day (refl, refl)

  time-IsField : All IsField time
  time-IsField = three-IsField b':' it.date.hour it.date.minute it.date.second (refl, refl)

  line_split :
      split 7 b' ' line_text
      ≡ args_of
          (print it.got)
          (print it.delta)
          it.user
          day
          time
          (shown it.include)
          (shown it.exclude)
  line_split =
      split_line _ _ _ _ _ _ _ (print-IsField it.got w.got) (print-IsField it.delta w.delta) w.user
        day-IsField time-IsField (three_some b':' it.date.hour it.date.minute it.date.second)
        (shown-AllField it.include w.include) (shown-AllField it.exclude w.exclude)

  line_text-Lacks : Lacks b'\n' line_text
  line_text-Lacks =
      line_of-Lacks _ _ _ _ _ _ _ (print-IsField it.got w.got) (print-IsField it.delta w.delta)
        w.user day-IsField time-IsField (three_some b':' it.date.hour it.date.minute it.date.second)
        (shown-AllField it.include w.include) (shown-AllField it.exclude w.exclude)

  read_back :
      (lineno : ℕ) → read_args lineno (split 7 b' ' (chomp (line_text ++ b'\n' ∷ []))) ≡ value it
  read_back lineno =
      rw (chomp_newline line_text, line_split)
        (read_args_of lineno (print it.got) (print it.delta) it.user day time (shown it.include)
          (shown it.exclude) it
          (made_of _ _ _ _ _ _ _ it dated (list_of-shown it.include w.include)
            (list_of-shown it.exclude w.exclude) (parse-print it.got w.got)
            (parse-print it.delta w.delta) refl)
          (accepted lineno))

read_locks-write_edit_locks :
    (lineno : ℕ) (locks : List EditLock)
    → All IsWritable locks
    → read_locks lineno (raw_lines (write_edit_locks locks).0) ≡ value locks
read_locks-write_edit_locks lineno [] w = unfold read_locks raw_lines write_edit_locks in refl
read_locks-write_edit_locks lineno (it ∷ its) w =
    ap (read_locks lineno) (first_line it its w)
    ∙ first_lock (line_text it w.0 ++ b'\n' ∷ []) (raw_lines (write_edit_locks its).0) it its
        (read_back it w.0 (suc lineno)) (read_locks-write_edit_locks (suc lineno) its w.1)
  where
    first_line :
        (it : EditLock) (its : List EditLock) (w : All IsWritable (it ∷ its))
        → raw_lines (write_edit_locks (it ∷ its)).0
          ≡ (line_text it w.0 ++ b'\n' ∷ []) ∷ raw_lines (write_edit_locks its).0
    first_line it its w =
        unfold write_edit_locks in
        rw (lock_text-line it w.0)
          (raw_lines_cons (line_text it w.0) (write_edit_locks its).0 (line_text-Lacks it w.0))

    first_lock :
        (line : Bytes) (lines : List Bytes) (it : EditLock) (its : List EditLock)
        → read_args (suc lineno) (split 7 b' ' (chomp line)) ≡ value it
        → read_locks (suc lineno) lines ≡ value its
        → read_locks lineno (line ∷ lines) ≡ value (it ∷ its)
    first_lock line lines it its e f = unfold read_locks in rw (e, f) refl

-- The p-file that is written is read back: where `update` writes the locks in place of a p-file or where
-- there is none, the next reading of the p-file gives these locks in their order; with no lock left,
-- there is no p-file and no lock. Of each lock it is assumed that in its two SIDs the release
-- is positive, no component is negative or 2^15 or more and none but zeros are behind a zero; that the
-- name of the user has no blank and no newline; that the date is a valid one from 1969 to 2068; and
-- that each of its two lists is valid, with ranges that are separated from each other on a line of SIDs,
-- such as the trunk or one branch, and whose ends are SIDs of that kind too. If there is said to be no
-- p-file, none has a content.
pub read_pfile-update :
    (locks : List EditLock) (already_exists : Bool) (pfile : Option Bytes)
    → All IsWritable locks
    → (already_exists ≡ false → pfile ≡ none)
    → read_pfile (update locks already_exists pfile) ≡ value locks
unfolding read_pfile update
read_pfile-update [] true pfile w h = unfold write_edit_locks in refl
read_pfile-update [] false pfile w h = unfold write_edit_locks in rw (h refl) refl
read_pfile-update (it ∷ its) already_exists pfile w h =
    (let positive : ((write_edit_locks (it ∷ its)).1 == 0) ≡ false =
        unfold write_edit_locks in ground arith in
      rw positive (read_locks-write_edit_locks 0 (it ∷ its) w))
