-- ===== src/Sfile/Entries.antt =====
-- An entry of the delta table that is written is read back.
use cssc.Common.{
  ℕ, suc, ◌≡◌, ◌⊎◌, refl, sym, ap, ◌∙◌, inl, inr, List, [], ◌∷◌, ◌++◌, append_assoc, Bool, true,
  false, ◌||◌, not, Bytes, ◌==◌, All, arith,
}
use cssc.Common.Cut.{cut-none, cut-some}
use cssc.Common.Decimal.{decimal}
use cssc.Common.Int.{pos, ◌≤ℤ◌}
use cssc.Common.Runs.{Run, value, ◌>>=◌}
use cssc.Sid.Text.{print, IsPrintable, parse-print}
use cssc.Sid.Chars.{decimal-IsPlain, valid_print}
use cssc.Dates.Order.{◌<ℤ◌}
use cssc.Dates.YearDay.{IsMade}
use cssc.Dates.Read.{of_file}
use cssc.Dates.Print.{as_string, print_with, three, yy}
use cssc.Dates.Text.{of_file-Written, printed}
use cssc.DeltaTable.{Delta}
use cssc.DeltaTable.Entry.{is_empty_list, blank_delta, set_idu}
use cssc.Pfile.Fields.{IsField, spaceless, plain-IsField, print-IsField, three-IsField}
use cssc.Body.Line.{line_type}
use cssc.Sfile.{
  Entry, Mode, Stop, letter_of, joined, set_args, dated, Listed, includes, excludes, ignores,
  read_counts, read_description, read_list, read_texts, read_delta, control_text, counts_text,
  description_text, cap5, print_seqs, texts_of, rest_lines, write_delta, next_line,
}
use cssc.Sfile.Counts.{read_counts-counts_text}
use cssc.Sfile.Lists.{
  IsSeqNo, IsBlank, number-decimal, listed, with_texts, read_first, read_first-print_seqs, read_all,
  read_all-texts, end_line,
}

set_more :
    (n : ℕ) (f s : Bytes)
    → All IsField f
    → set_args (suc n) b' ' (f ++ b' ' ∷ s) ≡ f ∷ set_args n b' ' s
unfolding set_args
set_more n f s h = rw (cut-some b' ' f s (spaceless f h) refl) refl

set_last : (n : ℕ) (f : Bytes) → All IsField f → set_args (suc n) b' ' f ≡ f ∷ []
unfolding set_args
set_last n f h = rw (cut-none b' ' f (spaceless f h)) refl

-- An entry as the programs make one: of a delta that is there or removed, with a SID that can be printed, a
-- date in the years that a date of two digits stands for, and a user's name of one word. Its numbers are
-- those of a `seq_no`, and a list is flagged exactly if it has a number.
pub record IsRecorded (e : Entry) : Type 0 where
  pub delta_type : (e.delta.delta_type ≡ b'D') ⊎ (e.delta.delta_type ≡ b'R')
  pub id : IsPrintable e.delta.id
  pub made : IsMade e.date
  pub from : pos 1969 ≤ℤ e.date.year
  pub to : e.date.year <ℤ pos 2069
  pub user : All IsField e.user
  pub seq : IsSeqNo e.delta.seq
  pub prev_seq : IsSeqNo e.delta.prev_seq
  pub included : All IsSeqNo e.delta.included
  pub excluded : All IsSeqNo e.delta.excluded
  pub ignored : All IsSeqNo e.delta.ignored
  pub includes_flagged : e.delta.have_includes ≡ not (is_empty_list e.delta.included)
  pub excludes_flagged : e.delta.have_excludes ≡ not (is_empty_list e.delta.excluded)
  pub ignores_flagged : e.delta.have_ignores ≡ not (is_empty_list e.delta.ignored)

module _ (e : Entry) (w : IsRecorded e) where
  abbrev day : Bytes
  day = three b'/' (yy e.date.year) e.date.month e.date.month_day

  abbrev time : Bytes
  time = three b':' e.date.hour e.date.minute e.date.second

  abbrev fields : List Bytes
  fields =
      (e.delta.delta_type ∷ [])
      ∷ print e.delta.id
      ∷ day
      ∷ time
      ∷ e.user
      ∷ decimal e.delta.seq
      ∷ decimal e.delta.prev_seq
      ∷ []

  type-IsField : All IsField (e.delta.delta_type ∷ [])
  type-IsField = elim w.delta_type [
    | inl d ↦ rw d ((refl, refl), tt)
    | inr r ↦ rw r ((refl, refl), tt)
  ]

  description_regrouped :
      description_text e
      ≡ (e.delta.delta_type ∷ [])
        ++ b' '
          ∷ (print e.delta.id
              ++ b' '
                ∷ (day
                    ++ b' '
                      ∷ (time
                          ++ b' '
                            ∷ (e.user
                                ++ b' '
                                  ∷ (decimal e.delta.seq ++ b' ' ∷ decimal e.delta.prev_seq)))))
  unfolding as_string
  description_regrouped = simp append_assoc

  description_args : set_args 7 b' ' (description_text e) ≡ fields
  description_args =
      ap (set_args 7 b' ') description_regrouped
      ∙ (set_more 6 _ _ type-IsField
          ∙ ap (λ x. (e.delta.delta_type ∷ []) ∷ x)
              (set_more 5 _ _ (print-IsField e.delta.id w.id)
                ∙ ap (λ x. print e.delta.id ∷ x)
                    (set_more 4 _ _ (
                        three-IsField b'/' (yy e.date.year) e.date.month e.date.month_day
                          (refl, refl))
                      ∙ ap (λ x. day ∷ x)
                          (set_more 3 _ _ (
                              three-IsField b':' e.date.hour e.date.minute e.date.second
                                (refl, refl))
                            ∙ ap (λ x. time ∷ x)
                                (set_more 2 _ _ w.user
                                  ∙ ap (λ x. e.user ∷ x)
                                      (set_more 1 _ _
                                          (plain-IsField _ (decimal-IsPlain e.delta.seq))
                                        ∙ ap (λ x. decimal e.delta.seq ∷ x)
                                            (set_last 0 _ (
                                              plain-IsField _
                                                (decimal-IsPlain e.delta.prev_seq)))))))))

  entry_dated : dated (of_file day time) ≡ value e.date
  unfolding print_with
  entry_dated = ap dated (of_file-Written e.date day time w.made w.from w.to (printed refl) refl)

  known_type : (e.delta.delta_type == b'D' || e.delta.delta_type == b'R') ≡ true
  known_type = ground arith

  -- What the line of type `d` gives.
  abbrev described : Delta → Entry
  described tmp = record {
    delta = record tmp {
      delta_type = e.delta.delta_type;
      id = e.delta.id;
      seq = e.delta.seq;
      prev_seq = e.delta.prev_seq;
    };
    date = e.date;
    user = e.user;
  }

  read_description-text :
      (tmp : Delta)
      → read_description tmp (control_text b'd' (description_text e)) ≡ value (described tmp)
  unfolding read_description
  read_description-text tmp =
      rw
        (
          description_args,
          known_type,
          parse-print e.delta.id w.id,
          valid_print e.delta.id w.id,
          entry_dated,
          w.made.0,
          number-decimal e.delta.seq w.seq,
          number-decimal e.delta.prev_seq w.prev_seq,
        )
        refl

-- The lines begin with one of a type that is none of some letters.
abbrev Begins : (ℕ → Type 0) → List Bytes → Type 0
Begins P xs = (r : Bytes) × (rs : List Bytes) × (xs ≡ r ∷ rs) × P (line_type r)

seqs-Begins :
    (P : ℕ → Type 0) (k : Listed) (ns : List ℕ) (xs : List Bytes)
    → P (letter_of k)
    → Begins P xs
    → Begins P (print_seqs (letter_of k) ns ++ xs)
unfolding print_seqs line_type
seqs-Begins P k [] xs p h = h
seqs-Begins P k (n ∷ ns) xs p h =
    (control_text (letter_of k) (joined (n ∷ ns)), xs, refl, own P k (joined (n ∷ ns)) p)
  where
    own :
        (P : ℕ → Type 0) (k : Listed) (text : Bytes)
        → P (letter_of k)
        → P (line_type (control_text (letter_of k) text))
    own P includes text p = p
    own P excludes text p = p
    own P ignores text p = p

abbrev NoList : ℕ → Type 0
NoList c = ((c == b'i') ≡ false) × ((c == b'x') ≡ false) × ((c == b'g') ≡ false)

texts-Begins :
    (ms cs more : List Bytes)
    → Begins NoList (texts_of b'm' ms ++ (texts_of b'c' cs ++ end_line ∷ more))
unfolding line_type
texts-Begins (m ∷ ms) cs more = (control_text b'm' m, _, refl, (refl, refl, refl))
texts-Begins [] (c ∷ cs) more = (control_text b'c' c, _, refl, (refl, refl, refl))
texts-Begins [] [] more = (end_line, more, refl, (refl, refl, refl))

-- The steps of `read_delta`, one by one.
steps :
    (mode : Mode) (is_bk : Bool) (first second y : Bytes) (ys : List Bytes) (counted : Delta)
    (e : Entry) (d1 d2 d3 d4 : Delta) (r1 r2 r3 : Bytes) (rs1 rs2 rs3 more : List Bytes)
    → read_counts first ≡ value counted
    → (line_type second == b'd') ≡ true
    → read_description counted second ≡ value e
    → read_list includes e.delta y ys ≡ value (d1, (r1, rs1))
    → read_list excludes d1 r1 rs1 ≡ value (d2, (r2, rs2))
    → read_list ignores d2 r2 rs2 ≡ value (d3, (r3, rs3))
    → read_texts mode is_bk d3 r3 rs3 ≡ value (d4, (end_line, more))
    → read_delta mode is_bk first (second ∷ y ∷ ys) ≡ value (record e { delta = d4 }, more)
unfolding read_delta line_type
steps mode is_bk first second y ys counted e d1 d2 d3 d4 r1 r2 r3 rs1 rs2 rs3 more a b c d f g h =
    rw (a, b, c, d, f, g, h) refl

-- The entry that is read: the numbers of lines are cut to five digits.
abbrev pub recorded : Entry → Entry
recorded e = record e {
  delta = record e.delta {
    inserted = cap5 e.delta.inserted;
    deleted = cap5 e.delta.deleted;
    unchanged = cap5 e.delta.unchanged;
  };
}

-- `read_delta` on the first of some lines.
abbrev pub read_entry : Mode → Bool → List Bytes → Run Stop (Entry × List Bytes)
read_entry mode is_bk lines = next_line lines >>= λ l. read_delta mode is_bk l.0 l.1

stage :
    (k : Listed) (d : Delta) (ns : List ℕ) (r y : Bytes) (rs ys xs : List Bytes)
    → IsBlank k d
    → All IsSeqNo ns
    → (line_type r == letter_of k) ≡ false
    → xs ≡ r ∷ rs
    → print_seqs (letter_of k) ns ++ xs ≡ y ∷ ys
    → read_list k d y ys ≡ value (listed k d ns, (r, rs))
stage k d ns r y rs ys xs b h t e1 e0 =
    ap (read_first k d) (sym e0 ∙ ap (λ x. print_seqs (letter_of k) ns ++ x) e1)
    ∙ read_first-print_seqs k d ns r rs b h t

rest_regrouped :
    (d : Delta) (more : List Bytes)
    → rest_lines d ++ more
      ≡ print_seqs b'i' d.included
        ++ (print_seqs b'x' d.excluded
            ++ (print_seqs b'g' d.ignored
                ++ (texts_of b'm' d.mrs ++ (texts_of b'c' d.comments ++ end_line ∷ more))))
unfolding rest_lines
rest_regrouped d more = simp append_assoc

-- The delta as its first two lines give it.
abbrev base : Entry → Delta
base e =
    record (set_idu blank_delta (cap5 e.delta.inserted) (cap5 e.delta.deleted)
      (cap5 e.delta.unchanged)) {
        delta_type = e.delta.delta_type;
        id = e.delta.id;
        seq = e.delta.seq;
        prev_seq = e.delta.prev_seq;
      }

abbrev with_lists : Entry → Delta
with_lists e =
    listed ignores (listed excludes (listed includes (base e) e.delta.included) e.delta.excluded)
      e.delta.ignored

all_recorded :
    (e : Entry)
    → IsRecorded e
    → record e { delta = with_texts (with_lists e) e.delta.mrs e.delta.comments } ≡ recorded e
unfolding set_idu
all_recorded e w i = record e {
  delta = record e.delta {
    inserted = cap5 e.delta.inserted;
    deleted = cap5 e.delta.deleted;
    unchanged = cap5 e.delta.unchanged;
    have_includes = sym w.includes_flagged i;
    have_excludes = sym w.excludes_flagged i;
    have_ignores = sym w.ignores_flagged i;
  };
}

read_lines :
    (mode : Mode) (is_bk : Bool) (e : Entry) (y : Bytes) (ys more : List Bytes)
    → IsRecorded e
    → rest_lines e.delta ++ more ≡ y ∷ ys
    → read_delta mode is_bk
        (control_text b's' (counts_text e.delta))
        (control_text b'd' (description_text e) ∷ y ∷ ys)
      ≡ value (recorded e, more)
unfolding line_type set_idu
read_lines mode is_bk e y ys more w whole =
    (let ts = texts_of b'm' e.delta.mrs ++ (texts_of b'c' e.delta.comments ++ end_line ∷ more) in
      let gs = print_seqs b'g' e.delta.ignored ++ ts in
      let xs = print_seqs b'x' e.delta.excluded ++ gs in
      let (r3, rs3, e3, n3) = texts-Begins e.delta.mrs e.delta.comments more in
      let (r2, rs2, e2, n2) =
        seqs-Begins (λ c. ((c == b'i') ≡ false) × ((c == b'x') ≡ false)) ignores e.delta.ignored ts
          (refl, refl) (r3, rs3, e3, (n3.0, n3.1)) in
      let (r1, rs1, e1, n1) =
        seqs-Begins (λ c. (c == b'i') ≡ false) excludes e.delta.excluded gs refl
          (r2, rs2, e2, n2.0) in
      let e0 = sym (rest_regrouped e.delta more) ∙ whole in
      steps mode is_bk _ _ y ys _ _ _ _ _ _ r1 r2 r3 rs1 rs2 rs3 more
        (read_counts-counts_text e.delta) refl (read_description-text e w _)
        (stage includes (base e) e.delta.included r1 y rs1 ys xs (refl, refl) w.included n1 e1 e0)
        (stage excludes _ e.delta.excluded r2 r1 rs2 rs1 gs (refl, refl) w.excluded n2.1 e2 e1)
        (stage ignores _ e.delta.ignored r3 r2 rs3 rs2 ts (refl, refl) w.ignored n3.2 e3 e2)
        (ap (read_all mode is_bk (with_lists e)) (sym e3)
          ∙ read_all-texts mode is_bk (with_lists e) e.delta.mrs e.delta.comments more)
      ∙ ap (λ x. value (x, more)) (all_recorded e w))

rest_some :
    (d : Delta) (more : List Bytes)
    → (y : Bytes) × (ys : List Bytes) × (rest_lines d ++ more ≡ y ∷ ys)
rest_some d more =
    (let (r3, rs3, e3, n3) = texts-Begins d.mrs d.comments more in
      let g = seqs-Begins (λ c. Unit {0}) ignores d.ignored _ tt (r3, rs3, e3, tt) in
      let x = seqs-Begins (λ c. Unit {0}) excludes d.excluded _ tt g in
      let (y, ys, e0, n0) = seqs-Begins (λ c. Unit {0}) includes d.included _ tt x in
      (y, ys, rest_regrouped d more ∙ e0))

-- An entry of the delta table that is written is read back, whatever follows: `read_delta` takes the
-- lines of `write_delta` and gives the entry, with the numbers of lines cut to five digits, and the
-- lines behind it.
pub read_delta-write_delta :
    (mode : Mode) (is_bk : Bool) (e : Entry) (more : List Bytes)
    → IsRecorded e
    → read_entry mode is_bk (write_delta e ++ more) ≡ value (recorded e, more)
unfolding write_delta
read_delta-write_delta mode is_bk e more w =
    (let (y, ys, whole) = rest_some e.delta more in
      ap
        (λ x.
          read_delta mode is_bk (control_text b's' (counts_text e.delta))
            (control_text b'd' (description_text e) ∷ x))
        whole
      ∙ read_lines mode is_bk e y ys more w whole)
