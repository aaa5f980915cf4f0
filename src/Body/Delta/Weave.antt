-- ===== src/Body/Delta/Weave.antt =====
-- The body that `delta` writes as a weave of the old body and the blocks of the new delta.
use cssc.Common.{
  ℕ, if◌then◌else◌, ◌≡◌, refl, ◌⊎◌, inl, inr, ◌∙◌, Bool-cases, sym, ap, List, [], ◌∷◌, ◌++◌, true,
  false, Bytes, ◌==◌, ◌&&◌, drop, arith,
}
use cssc.Common.Decimal.{decimal}
use cssc.SeqState.Blocks.{Kind, letter}
use cssc.Diff.{Phase, start, nochange, end, closing, opening}
use cssc.Diff.Balanced.{Wrote, nothing, between}
use cssc.Body.Line.{ok, line_type, check_arg, strict_atous, char_at}
use cssc.Body.Remove.{UpdateState, copying, deleting, inserting, is_inserting}

-- A line with its newline.
abbrev pub with_newline : Bytes → Bytes
with_newline l = l ++ b'\n' ∷ []

abbrev pub written : List Bytes → List Bytes
written [] = []
written (l ∷ ls) = with_newline l ∷ written ls

pub written-append : (a b : List Bytes) → written (a ++ b) ≡ written a ++ written b
written-append [] b = refl
written-append (l ∷ a) b = ap (λ x. with_newline l ∷ x) (written-append a b)

-- The texts among the lines.
abbrev pub text_lines : List Bytes → List Bytes
text_lines [] = []
text_lines (l ∷ ls) = if line_type l == 0 then l ∷ text_lines ls else text_lines ls

pub text_lines-append : (a b : List Bytes) → text_lines (a ++ b) ≡ text_lines a ++ text_lines b
text_lines-append [] b = refl
text_lines-append (l ∷ a) b = elim (Bool-cases (line_type l == 0)) [
  | inl t ↦ rw t (ap (λ x. l ∷ x) (text_lines-append a b))
  | inr t ↦ rw t (text_lines-append a b)
]

abbrev pub block_of : Kind → UpdateState
block_of Kind.insert = inserting
block_of Kind.delete = deleting

abbrev pub control_text : ℕ → ℕ → Bytes
control_text letter seq = 1 ∷ letter ∷ b' ' ∷ decimal seq

-- A line of the old body: a text, or a control line of another delta with a blank behind its letter.
abbrev pub IsOld : ℕ → Bytes → Type 0
IsOld seq line =
    (line_type line ≡ 0)
    ⊎ ((line_type line == 0) ≡ false)
      × (check_arg line ≡ ok tt)
      × (n : ℕ) × (strict_atous (drop 3 line) ≡ ok n)
      × ((n == seq) ≡ false)

-- A new body with the old body in it. The states say in which block of the new delta it begins and
-- ends; in an insertion stands new text only.
pub data Weave (seq : ℕ) : UpdateState → List Bytes → List Bytes → UpdateState → Type 0 where
  stop : {s : UpdateState} → Weave seq s [] [] s
  opens :
      {t : UpdateState} {lines rest : List Bytes} (k : Kind)
      → Weave seq (block_of k) lines rest t
      → Weave seq copying (control_text (letter k) seq ∷ lines) rest t
  closes :
      {s t : UpdateState} {lines rest : List Bytes} (k : Kind)
      → s ≡ block_of k
      → Weave seq copying lines rest t
      → Weave seq s (control_text b'E' seq ∷ lines) rest t
  added :
      {t : UpdateState} {lines rest : List Bytes} (line : Bytes)
      → line_type line ≡ 0
      → Weave seq inserting lines rest t
      → Weave seq inserting (line ∷ lines) rest t
  old :
      {s t : UpdateState} {lines rest : List Bytes} (line : Bytes)
      → is_inserting s ≡ false
      → IsOld seq line
      → Weave seq s lines rest t
      → Weave seq s (line ∷ lines) (line ∷ rest) t

pub text_lines-text :
    (line : Bytes) (lines : List Bytes)
    → line_type line ≡ 0
    → text_lines (line ∷ lines) ≡ line ∷ text_lines lines
text_lines-text line lines h = rw h refl

pub text_lines-control_text :
    (c seq : ℕ) (lines : List Bytes)
    → (c == 0) ≡ false
    → text_lines (control_text c seq ∷ lines) ≡ text_lines lines
unfolding line_type
text_lines-control_text c seq lines h = rw h refl

pub Weave-append :
    {seq : ℕ} {s t u : UpdateState} {a b x y : List Bytes}
    → Weave seq s a x t
    → Weave seq t b y u
    → Weave seq s (a ++ b) (x ++ y) u
Weave-append stop r = r
Weave-append (opens k q) r = opens k (Weave-append q r)
Weave-append (closes k e q) r = closes k e (Weave-append q r)
Weave-append (added line h q) r = added line h (Weave-append q r)
Weave-append (old line h i q) r = old line h i (Weave-append q r)

-- The remover is in a block where the reader of the diff is.
abbrev pub state_of : Phase → UpdateState
state_of start = copying
state_of nochange = copying
state_of Phase.delete = deleting
state_of Phase.insert = inserting
state_of end = copying

module _ (seq : ℕ) where
  abbrev Written : UpdateState → List Bytes → UpdateState → Type 0
  Written s more t =
      (new : List Bytes) × (more ≡ written new) × (text_lines new ≡ []) × Weave seq s new [] t

  closing-Weave : (p : Phase) → Written (state_of p) (closing p seq) copying
  closing-Weave start = ([], refl, refl, stop)
  closing-Weave nochange = ([], refl, refl, stop)
  closing-Weave Phase.delete = (
    control_text b'E' seq ∷ [],
    refl,
    text_lines-control_text b'E' seq [] refl,
    closes Kind.delete refl stop,
  )
  closing-Weave Phase.insert = (
    control_text b'E' seq ∷ [],
    refl,
    text_lines-control_text b'E' seq [] refl,
    closes Kind.insert refl stop,
  )
  closing-Weave end = ([], refl, refl, stop)

  opening-Weave : (p : Phase) → Written copying (opening p seq) (state_of p)
  opening-Weave start = ([], refl, refl, stop)
  opening-Weave nochange = ([], refl, refl, stop)
  opening-Weave Phase.delete = (
    control_text b'D' seq ∷ [],
    refl,
    text_lines-control_text b'D' seq [] refl,
    opens Kind.delete stop,
  )
  opening-Weave Phase.insert = (
    control_text b'I' seq ∷ [],
    refl,
    text_lines-control_text b'I' seq [] refl,
    opens Kind.insert stop,
  )
  opening-Weave end = ([], refl, refl, stop)

  -- What a call of `process` writes.
  pub Wrote-Weave :
      {p p' : Phase} {more : List Bytes}
      → Wrote seq p p' more
      → (new : List Bytes) × (more ≡ written new)
        × (text_lines new ≡ [])
        × Weave seq (state_of p) new [] (state_of p')
  Wrote-Weave nothing = ([], refl, refl, stop)
  Wrote-Weave {p = p} (between p') =
      let (a, e, i, x) = closing-Weave p in
      let (b, f, j, y) = opening-Weave p' in
      (
        a ++ b,
        rw (e, f) (sym (written-append a b)),
        text_lines-append a b ∙ ap (λ x. x ++ text_lines b) i ∙ j,
        Weave-append x y,
      )

-- A line of the output of `diff`, which is no control line behind its mark.
abbrev pub IsDiffLine : Bytes → Type 0
IsDiffLine line = (l : Bytes) × (line ≡ with_newline l) × ((char_at l 2 == 1) ≡ false)

pub marked_text :
    (line : Bytes)
    → IsDiffLine line
    → (char_at line 0 == b'>' && char_at line 1 == b' ') ≡ true
    → (l : Bytes) × (drop 2 line ≡ with_newline l) × (line_type l ≡ 0)
unfolding line_type
marked_text line ([], e, plain) h = let x = rw e at h in cc
marked_text line (c ∷ [], e, plain) h = let x = rw e at h in ground arith
marked_text line (c ∷ c' ∷ l, e, plain) h = (l, rw e refl, rw plain)
