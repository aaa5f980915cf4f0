-- ===== src/Pfile/Fields.antt =====
-- The parts of a line of the p-file, and the lines of the file.
use cssc.Common.{
  ℕ, suc, ◌+◌, ◌<◌, ◌≡◌, refl, ap, inl, inr, List, [], ◌∷◌, ◌++◌, false, Bytes, some, ltb, ◌==◌,
  length, All, All-append, arith, Bool-cases, length-append,
}
use cssc.Common.Cut.{Lacks, cut-none, cut-some}
use cssc.Common.Decimal.{decimal}
use cssc.Common.Int.{ℤ, pos, negsuc}
use cssc.Sid.{Sid, is_ne}
use cssc.Sid.Text.{print, IsPrintable}
use cssc.Sid.Chars.{IsPlain, print-IsPlain, decimal-IsPlain}
use cssc.SidList.{Range, range_text, list_text}
use cssc.SidList.Text.{IsPrintableRange}
use cssc.Dates.Print.{two_places, three}
use cssc.Pfile.File.{raw_lines, chomp, parts, split}

-- No character is a space or ends a line.
abbrev pub IsField : ℕ → Type 0
IsField c = ((c == b' ') ≡ false) × ((c == b'\n') ≡ false)

pub All-map : (P Q : ℕ → Type 0) → ((c : ℕ) → P c → Q c) → (s : Bytes) → All P s → All Q s
All-map P Q f [] h = tt
All-map P Q f (c ∷ s) h = (f c h.0, All-map P Q f s h.1)

pub spaceless : (s : Bytes) → All IsField s → Lacks b' ' s
spaceless s h = All-map IsField (λ c. (c == b' ') ≡ false) (λ c f. f.0) s h

pub in_line : (s : Bytes) → All IsField s → Lacks b'\n' s
in_line s h = All-map IsField (λ c. (c == b'\n') ≡ false) (λ c f. f.1) s h

pub split_more :
    (n : ℕ) (f s : Bytes) → All IsField f → split (suc n) b' ' (f ++ b' ' ∷ s) ≡ f ∷ split n b' ' s
split_more n f s h =
    unfold split parts in rw (cut-some b' ' f s (spaceless f h) refl) (cut_start f s)
  where
    cut_start : (f s : Bytes) → parts (f, some s) (split n b' ') ≡ f ∷ split n b' ' s
    cut_start [] s = unfold parts in refl
    cut_start (c ∷ f) s = unfold parts in refl

pub split_end : (n : ℕ) (f : Bytes) → All IsField f → 0 < length f → split (suc n) b' ' f ≡ f ∷ []
split_end n [] h p = elim p [ ]
split_end n (c ∷ f) h p =
    unfold split parts in rw (cut-none b' ' (c ∷ f) (spaceless (c ∷ f) h)) refl

pub chomp_newline : (s : Bytes) → chomp (s ++ b'\n' ∷ []) ≡ s
unfolding chomp
chomp_newline [] = refl
chomp_newline (c ∷ []) = refl
chomp_newline (c ∷ d ∷ s) = ap (λ x. c ∷ x) (chomp_newline (d ∷ s))

pub raw_lines_cons :
    (l rest : Bytes)
    → Lacks b'\n' l
    → raw_lines ((l ++ b'\n' ∷ []) ++ rest) ≡ (l ++ b'\n' ∷ []) ∷ raw_lines rest
unfolding raw_lines
raw_lines_cons [] rest h = refl
raw_lines_cons (c ∷ l) rest h = rw (h.0, raw_lines_cons l rest h.1) refl

pub plain-IsField : (s : Bytes) → All IsPlain s → All IsField s
plain-IsField s h = All-map IsPlain IsField (λ c p. ground arith) s h

pub print-IsField : (a : Sid) → IsPrintable a → All IsField (print a)
print-IsField a h = plain-IsField (print a) (print-IsPlain a h)

two_places-IsField : (z : ℤ) → All IsField (two_places z)
two_places-IsField (pos n) = elim (Bool-cases (ltb n 10)) [
  | inl t ↦ rw t ((refl, refl), plain-IsField (decimal n) (decimal-IsPlain n))
  | inr f ↦ rw f (plain-IsField (decimal n) (decimal-IsPlain n))
]
two_places-IsField (negsuc n) =
    ((refl, refl), plain-IsField (decimal (n + 1)) (decimal-IsPlain (n + 1)))

pub three-IsField :
    (separator : ℕ) (a b c : ℤ) → IsField separator → All IsField (three separator a b c)
three-IsField separator a b c h =
    All-append IsField (two_places a) _ (two_places-IsField a)
      (h, All-append IsField (two_places b) _ (two_places-IsField b) (h, two_places-IsField c))

pub three_some : (separator : ℕ) (a b c : ℤ) → 0 < length (three separator a b c)
three_some separator a b c =
    omega
      (arith, length-append (two_places a) (separator ∷ (two_places b ++ separator ∷ two_places c)))

range_text-IsField : (r : Range) → IsPrintableRange r → All IsField (range_text r)
unfolding range_text
range_text-IsField r (a, b) = elim (Bool-cases (is_ne r.to r.from)) [
  | inl t ↦ rw t (
      All-append IsField (print r.from) (b'-' ∷ print r.to) (print-IsField r.from a)
        ((refl, refl), print-IsField r.to b))
  | inr f ↦ rw f (All-append IsField (print r.from) [] (print-IsField r.from a) tt)
]

pub list_text-IsField : (rs : List Range) → All IsPrintableRange rs → All IsField (list_text rs)
unfolding list_text
list_text-IsField [] h = tt
list_text-IsField (r ∷ []) h = range_text-IsField r h.0
list_text-IsField (r ∷ q ∷ rs) h =
    All-append IsField (range_text r) (b',' ∷ list_text (q ∷ rs)) (range_text-IsField r h.0)
      ((refl, refl), list_text-IsField (q ∷ rs) h.1)
