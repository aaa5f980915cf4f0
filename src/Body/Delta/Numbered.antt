-- ===== src/Body/Delta/Numbered.antt =====
-- The numbers of control lines and the highest number that a reader accepts.
use mathlib.Core.Path.{Path, subst}
use cssc.Common.{
  ℕ, ◌<◌, ◌≤◌, ◌≡◌, refl, inl, inr, List, [], ◌∷◌, false, true, Bytes, ◌==◌, ◌||◌, not, ltb, drop,
  arith, All, Bool-cases,
}
use cssc.SeqState.Blocks.{Kind, insert, delete, letter}
use cssc.Body.Line.{
  Result, ok, ◌>>=◌, ◌>>◌, guard, line_type, check_arg, strict_atous, Event, text, opened, closed,
  control, classify, invalid_serial_number,
}
use cssc.Body.Numbers.{strict_atous-decimal}
use cssc.Body.Get.Reads.{events, unbind}
use cssc.Body.Remove.Removes.{Reading, classify-Reading}
use cssc.Body.Delta.Weave.{control_text}
use cssc.Body.Delta.Steps.{IsSpaced}

-- The number of an event is in range.
abbrev pub Reaches : ℕ → Event → Type 0
Reaches highest (text l) = Unit {0}
Reaches highest (opened k n) = (0 < n) × (n ≤ highest)
Reaches highest (closed n) = (0 < n) × (n ≤ highest)

control-Reaches :
    (highest c n : ℕ) (e : Event) → 0 < n → n ≤ highest → control c n ≡ ok e → Reaches highest e
unfolding control
control-Reaches highest c n (text l) p q h = tt
control-Reaches highest c n (opened k m) p q h = ground arith
control-Reaches highest c n (closed m) p q h = ground arith

ranged : ℕ → Bytes → ℕ → Result Event
ranged highest line n =
    guard (not (ltb n 1 || ltb highest n)) invalid_serial_number >> control (line_type line) n

numbered : ℕ → Bytes → Result Event
numbered highest line = strict_atous (drop 3 line) >>= ranged highest line

in_range :
    (highest n : ℕ)
    → guard (not (ltb n 1 || ltb highest n)) invalid_serial_number ≡ ok tt
    → (0 < n) × (n ≤ highest)
in_range highest n g = ground arith

-- A line that is accepted below one number is accepted below a higher one.
pub classify-Reaches :
    (highest seq : ℕ) (line : Bytes) (e : Event)
    → highest ≤ seq
    → classify highest line ≡ ok e
    → (classify seq line ≡ ok e) × Reaches highest e
unfolding classify numbered ranged
classify-Reaches highest seq line e le h = elim (Bool-cases (line_type line == 0)) [
  | inl t ↦ (rw t (rw t at h), subst (Reaches highest) (ok-inj (rw t at h)) tt)
  | inr c ↦
      (let (u, a, h1) = unbind (check_arg line) (λ _. numbered highest line) (rw c at h) in
        let (n, m, h2) = unbind (strict_atous (drop 3 line)) (ranged highest line) h1 in
        let (v, g, h3) =
          unbind (guard (not (ltb n 1 || ltb highest n)) invalid_serial_number)
            (λ _. control (line_type line) n) h2 in
        let (pos, small) = in_range highest n g in
        let wide : not (ltb n 1 || ltb seq n) ≡ true = ground arith in
        (rw (c, a, m, wide) h3, control-Reaches highest (line_type line) n e pos small h3))
]
  where
    ok-inj : {a b : Event} → Path (Result Event) (ok a) (ok b) → a ≡ b
    ok-inj p = cc

pub own_open :
    (seq : ℕ) (k : Kind)
    → 0 < seq
    → seq ≤ 65535
    → classify seq (control_text (letter k) seq) ≡ ok (opened k seq)
unfolding classify line_type check_arg control
own_open seq insert p q =
    (let wide : (ltb seq 1 || ltb seq seq) ≡ false = ground arith in
      rw (strict_atous-decimal seq p q, wide) refl)
own_open seq delete p q =
    (let wide : (ltb seq 1 || ltb seq seq) ≡ false = ground arith in
      rw (strict_atous-decimal seq p q, wide) refl)

pub own_close :
    (seq : ℕ) → 0 < seq → seq ≤ 65535 → classify seq (control_text b'E' seq) ≡ ok (closed seq)
unfolding classify line_type check_arg control
own_close seq p q =
    (let wide : (ltb seq 1 || ltb seq seq) ≡ false = ground arith in
      rw (strict_atous-decimal seq p q, wide) refl)

pub classify-text :
    (seq : ℕ) (line : Bytes) → line_type line ≡ 0 → classify seq line ≡ ok (text line)
unfolding classify
classify-text seq line h = rw h refl

-- What a list of lines with events begins with.
pub events_cons :
    (highest : ℕ) (line : Bytes) (lines : List Bytes) (es : List Event)
    → events highest (line ∷ lines) ≡ ok es
    → (e : Event) × (rest : List Event) × (classify highest line ≡ ok e)
      × (events highest lines ≡ ok rest)
      × (es ≡ e ∷ rest)
unfolding events
events_cons highest line lines es h =
    (let (e, c, h1) =
        unbind (classify highest line) (λ e. events highest lines >>= λ es. ok (e ∷ es)) h in
      let (rest, w, h2) = unbind (events highest lines) (λ es. ok (e ∷ es)) h1 in
      (e, rest, c, w, cc))

Reading-IsSpaced : (line : Bytes) (e : Event) → Reading line e → IsSpaced line
Reading-IsSpaced line (text l) r h = ground arith
Reading-IsSpaced line (opened k n) r h = r.1
Reading-IsSpaced line (closed n) r h = r.1

pub events-IsSpaced :
    (highest : ℕ) (lines : List Bytes) (es : List Event)
    → events highest lines ≡ ok es
    → All IsSpaced lines
events-IsSpaced highest [] es h = tt
events-IsSpaced highest (line ∷ lines) es h =
    (let (e, rest, c, w, shape) = events_cons highest line lines es h in
      (
        Reading-IsSpaced line e (classify-Reading highest line e c),
        events-IsSpaced highest lines rest w,
      ))
