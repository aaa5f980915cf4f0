-- ===== src/Sfile/Lists.antt =====
-- The lists of numbers, the MRs and the comments of an entry, written and read back.
use cssc.Common.{
  ℕ, zero, suc, ◌≤◌, ◌<◌, ◌≡◌, refl, sym, ap, ◌∙◌, List, [], ◌∷◌, ◌++◌, append_assoc, append-nil,
  Bool, true, false, ◌||◌, not, Bytes, ◌==◌, length, length-append, All, arith,
}
use cssc.Common.Cut.{Lacks, pieces, pieces_last, pieces_more}
use cssc.Common.Decimal.{decimal}
use cssc.Common.Runs.{Run, value, ◌>>=◌}
use cssc.Sid.Chars.{IsPlain, decimal-IsPlain}
use cssc.DeltaTable.{Delta}
use cssc.DeltaTable.Entry.{
  is_empty_list, set_has_includes, set_has_excludes, set_has_ignores, add_include, add_exclude,
  add_ignore, add_mr, add_comment,
}
use cssc.Body.Line.{line_type, strict_atous, atous_loop}
use cssc.Body.Numbers.{strict_atous-decimal}
use cssc.Sfile.{
  Mode, Stop, number, next_line, Listed, includes, excludes, ignores, letter_of, set_has,
  add_number, add_numbers, read_numbers, read_list, check_comment, is_bk_comment, read_text,
  read_texts, control_text, joined, print_seqs, texts_of,
}

-- Numbers of a `seq_no`.
abbrev pub IsSeqNo : ℕ → Type 0
IsSeqNo n = n ≤ 65535

pub number-decimal : (n : ℕ) → IsSeqNo n → number (strict_atous (decimal n)) ≡ value n
number-decimal zero h = unfold strict_atous atous_loop decimal in refl
number-decimal (suc n) h = ap number (strict_atous-decimal (suc n) (omega arith) h)

plain-Lacks_space : (s : Bytes) → All IsPlain s → Lacks b' ' s
plain-Lacks_space [] h = tt
plain-Lacks_space (c ∷ s) h = (ground arith, plain-Lacks_space s h.1)

abbrev decimals : List ℕ → List Bytes
decimals [] = []
decimals (n ∷ ns) = decimal n ∷ decimals ns

pieces-joined : (n : ℕ) (ns : List ℕ) → pieces b' ' (joined (n ∷ ns)) ≡ decimals (n ∷ ns)
unfolding joined
pieces-joined n [] = pieces_last b' ' (decimal n) (plain-Lacks_space _ (decimal-IsPlain n))
pieces-joined n (m ∷ ns) =
    pieces_more b' ' (decimal n) (joined (m ∷ ns)) (plain-Lacks_space _ (decimal-IsPlain n)) refl
    ∙ ap (λ x. decimal n ∷ x) (pieces-joined m ns)

abbrev pub added_all : Listed → Delta → List ℕ → Delta
added_all k d [] = d
added_all k d (n ∷ ns) = added_all k (add_number k d n) ns

add_numbers-decimals :
    (k : Listed) (d : Delta) (ns : List ℕ)
    → All IsSeqNo ns
    → add_numbers k d (decimals ns) ≡ value (added_all k d ns)
unfolding add_numbers
add_numbers-decimals k d [] h = refl
add_numbers-decimals k d (n ∷ ns) h =
    rw (number-decimal n h.0) (add_numbers-decimals k (add_number k d n) ns h.1)

-- The delta with the numbers of a list, where it has any.
abbrev pub listed : Listed → Delta → List ℕ → Delta
listed includes d ns = record d { included = ns; have_includes = not (is_empty_list ns) }
listed excludes d ns = record d { excluded = ns; have_excludes = not (is_empty_list ns) }
listed ignores d ns = record d { ignored = ns; have_ignores = not (is_empty_list ns) }

-- The list is empty, and its flag is off.
abbrev pub IsBlank : Listed → Delta → Type 0
IsBlank includes d = (d.included ≡ []) × (d.have_includes ≡ false)
IsBlank excludes d = (d.excluded ≡ []) × (d.have_excludes ≡ false)
IsBlank ignores d = (d.ignored ≡ []) × (d.have_ignores ≡ false)

-- The flag of the list is set.
abbrev marked : Listed → Delta → Delta
marked includes d = record d { have_includes = true }
marked excludes d = record d { have_excludes = true }
marked ignores d = record d { have_ignores = true }

abbrev extended : Listed → Delta → List ℕ → Delta
extended includes d ns = record d { included = d.included ++ ns; have_includes = true }
extended excludes d ns = record d { excluded = d.excluded ++ ns; have_excludes = true }
extended ignores d ns = record d { ignored = d.ignored ++ ns; have_ignores = true }

set_has-marked : (k : Listed) (d : Delta) → set_has k d ≡ value (marked k d)
set_has-marked includes d = unfold set_has_includes in refl
set_has-marked excludes d = unfold set_has_excludes in refl
set_has-marked ignores d = unfold set_has_ignores in refl

added_all-extended :
    (k : Listed) (d : Delta) (ns : List ℕ) → added_all k (marked k d) ns ≡ extended k d ns
unfolding add_include add_exclude add_ignore
added_all-extended includes d [] =
    ap (λ x. record d { included = x; have_includes = true }) (sym (append-nil d.included))
added_all-extended includes d (n ∷ ns) =
    added_all-extended includes (record d { included = d.included ++ n ∷ [] }) ns
    ∙ ap (λ x. record d { included = x; have_includes = true })
        (append_assoc d.included (n ∷ []) ns)
added_all-extended excludes d [] =
    ap (λ x. record d { excluded = x; have_excludes = true }) (sym (append-nil d.excluded))
added_all-extended excludes d (n ∷ ns) =
    added_all-extended excludes (record d { excluded = d.excluded ++ n ∷ [] }) ns
    ∙ ap (λ x. record d { excluded = x; have_excludes = true })
        (append_assoc d.excluded (n ∷ []) ns)
added_all-extended ignores d [] =
    ap (λ x. record d { ignored = x; have_ignores = true }) (sym (append-nil d.ignored))
added_all-extended ignores d (n ∷ ns) =
    added_all-extended ignores (record d { ignored = d.ignored ++ n ∷ [] }) ns
    ∙ ap (λ x. record d { ignored = x; have_ignores = true }) (append_assoc d.ignored (n ∷ []) ns)

extended-listed :
    (k : Listed) (d : Delta) (n : ℕ) (ns : List ℕ)
    → IsBlank k d
    → extended k d (n ∷ ns) ≡ listed k d (n ∷ ns)
extended-listed includes d n ns h =
    ap (λ x. record d { included = x ++ n ∷ ns; have_includes = true }) h.0
extended-listed excludes d n ns h =
    ap (λ x. record d { excluded = x ++ n ∷ ns; have_excludes = true }) h.0
extended-listed ignores d n ns h =
    ap (λ x. record d { ignored = x ++ n ∷ ns; have_ignores = true }) h.0

blank-listed : (k : Listed) (d : Delta) → IsBlank k d → d ≡ listed k d []
blank-listed includes d h i = record d { included = h.0 i; have_includes = h.1 i }
blank-listed excludes d h i = record d { excluded = h.0 i; have_excludes = h.1 i }
blank-listed ignores d h i = record d { ignored = h.0 i; have_ignores = h.1 i }

own_type :
    (k : Listed) (text : Bytes)
    → (line_type (control_text (letter_of k) text) == letter_of k) ≡ true
unfolding line_type
own_type includes text = refl
own_type excludes text = refl
own_type ignores text = refl

read_numbers-listed :
    (k : Listed) (d : Delta) (n : ℕ) (ns : List ℕ)
    → IsBlank k d
    → All IsSeqNo (n ∷ ns)
    → read_numbers k d (control_text (letter_of k) (joined (n ∷ ns))) ≡ value (listed k d (n ∷ ns))
unfolding read_numbers
read_numbers-listed k d n ns b h =
    rw
      (
        set_has-marked k d,
        pieces-joined n ns,
        add_numbers-decimals k (marked k d) (n ∷ ns) h,
        added_all-extended k d (n ∷ ns),
        extended-listed k d n ns b,
      )
      refl

-- `read_list` on the first of some lines.
abbrev pub read_first : Listed → Delta → List Bytes → Run Stop (Delta × (Bytes × List Bytes))
read_first k d lines = next_line lines >>= λ l. read_list k d l.0 l.1

pub read_first-print_seqs :
    (k : Listed) (d : Delta) (ns : List ℕ) (r : Bytes) (rs : List Bytes)
    → IsBlank k d
    → All IsSeqNo ns
    → (line_type r == letter_of k) ≡ false
    → read_first k d (print_seqs (letter_of k) ns ++ r ∷ rs) ≡ value (listed k d ns, (r, rs))
unfolding read_list print_seqs
read_first-print_seqs k d [] r rs b h t = rw t (ap (λ x. value (x, (r, rs))) (blank-listed k d b))
read_first-print_seqs k d (n ∷ ns) r rs b h t =
    rw (own_type k (joined (n ∷ ns)), read_numbers-listed k d n ns b h) refl

-- The MRs and comments.
abbrev pub with_texts : Delta → List Bytes → List Bytes → Delta
with_texts d ms cs = record d { mrs = d.mrs ++ ms; comments = d.comments ++ cs }

abbrev pub read_all : Mode → Bool → Delta → List Bytes → Run Stop (Delta × (Bytes × List Bytes))
read_all mode is_bk d lines = next_line lines >>= λ l. read_texts mode is_bk d l.0 l.1

abbrev pub end_line : Bytes
end_line = 1 ∷ b'e' ∷ []

stop_texts :
    (mode : Mode) (is_bk : Bool) (d : Delta) (more : List Bytes)
    → read_texts mode is_bk d end_line more ≡ value (d, (end_line, more))
stop_texts mode is_bk d [] = unfold read_texts line_type in refl
stop_texts mode is_bk d (l ∷ more) = unfold read_texts line_type in refl

go_on :
    (mode : Mode) (is_bk : Bool) (d d' : Delta) (line l : Bytes) (ls : List Bytes)
    → (line_type line == b'm' || line_type line == b'c') ≡ true
    → read_text mode is_bk d line ≡ value d'
    → read_texts mode is_bk d line (l ∷ ls) ≡ read_texts mode is_bk d' l ls
unfolding read_texts
go_on mode is_bk d d' line l ls t e = rw (t, e) refl

with_mr :
    (mode : Mode) (is_bk : Bool) (d : Delta) (m : Bytes)
    → read_text mode is_bk d (control_text b'm' m) ≡ value (add_mr d m)
with_mr mode is_bk d m = unfold read_text line_type in refl

with_comment :
    (mode : Mode) (is_bk : Bool) (d : Delta) (c : Bytes)
    → read_text mode is_bk d (control_text b'c' c) ≡ value (add_comment d c)
with_comment mode true d c = unfold read_text line_type check_comment is_bk_comment in refl
with_comment mode false d c = unfold read_text line_type check_comment in refl

text_type :
    (m : Bytes)
    → (line_type (control_text b'm' m) == b'm' || line_type (control_text b'm' m) == b'c') ≡ true
text_type m = unfold line_type in refl

comment_type :
    (m : Bytes)
    → (line_type (control_text b'c' m) == b'm' || line_type (control_text b'c' m) == b'c') ≡ true
comment_type m = unfold line_type in refl

one_text :
    (mode : Mode) (is_bk : Bool) (d d' : Delta) (line : Bytes) (lines : List Bytes)
    (res : Run Stop (Delta × (Bytes × List Bytes)))
    → (line_type line == b'm' || line_type line == b'c') ≡ true
    → read_text mode is_bk d line ≡ value d'
    → 0 < length lines
    → read_all mode is_bk d' lines ≡ res
    → read_all mode is_bk d (line ∷ lines) ≡ res
one_text mode is_bk d d' line [] res t e p h = elim p [ ]
one_text mode is_bk d d' line (l ∷ ls) res t e p h = go_on mode is_bk d d' line l ls t e ∙ h

some_lines : (a : List Bytes) (r : Bytes) (rs : List Bytes) → 0 < length (a ++ r ∷ rs)
some_lines a r rs = omega (arith, length-append a (r ∷ rs))

read_all-comments :
    (mode : Mode) (is_bk : Bool) (d : Delta) (cs more : List Bytes)
    → read_all mode is_bk d (texts_of b'c' cs ++ end_line ∷ more)
      ≡ value (with_texts d [] cs, (end_line, more))
read_all-comments mode is_bk d [] more =
    stop_texts mode is_bk d more
    ∙ ap (λ x. value (x, (end_line, more)))
        (λ i. record d { mrs = sym (append-nil d.mrs) i; comments = sym (append-nil d.comments) i })
read_all-comments mode is_bk d (c ∷ cs) more =
    one_text mode is_bk d (add_comment d c) (control_text b'c' c)
      (texts_of b'c' cs ++ end_line ∷ more) _ (comment_type c) (with_comment mode is_bk d c)
      (some_lines (texts_of b'c' cs) end_line more)
      (read_all-comments mode is_bk (add_comment d c) cs more
        ∙ (unfold add_comment in
            ap (λ x. value (record d { mrs = d.mrs ++ []; comments = x }, (end_line, more)))
              (append_assoc d.comments (c ∷ []) cs)))

pub read_all-texts :
    (mode : Mode) (is_bk : Bool) (d : Delta) (ms cs more : List Bytes)
    → read_all mode is_bk d (texts_of b'm' ms ++ (texts_of b'c' cs ++ end_line ∷ more))
      ≡ value (with_texts d ms cs, (end_line, more))
read_all-texts mode is_bk d [] cs more = read_all-comments mode is_bk d cs more
read_all-texts mode is_bk d (m ∷ ms) cs more =
    one_text mode is_bk d (add_mr d m) (control_text b'm' m)
      (texts_of b'm' ms ++ (texts_of b'c' cs ++ end_line ∷ more)) _ (text_type m)
      (with_mr mode is_bk d m)
      (omega (
        arith,
        length-append (texts_of b'm' ms) (texts_of b'c' cs ++ end_line ∷ more),
        some_lines (texts_of b'c' cs) end_line more,
      ))
      (read_all-texts mode is_bk (add_mr d m) ms cs more
        ∙ (unfold add_mr in
            ap (λ x. value (record d { mrs = x; comments = d.comments ++ cs }, (end_line, more)))
              (append_assoc d.mrs (m ∷ []) ms)))
