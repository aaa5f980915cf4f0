-- ===== src/Body/Remove/Removes.antt =====
-- What a line that `get` accepts is to `remove`, which reads it by other code.
use cssc.Common.{
  ℕ, ◌≡◌, refl, sym, ap, ◌∙◌, inl, inr, List, [], ◌∷◌, true, false, Bytes, ◌==◌, drop, arith,
  Bool-cases, ltb, not, ◌||◌,
}
use cssc.SeqState.Blocks.{insert, delete, letter}
use cssc.Body.Line.{
  Result, ok, ◌>>=◌, ◌>>◌, line_type, check_arg, strict_atous, Event, text, opened, closed,
  classify, control, guard, invalid_serial_number,
}
use cssc.Body.Get.Reads.{events, unbind}

-- What a well-formed line is to both readers.
abbrev pub Reading : Bytes → Event → Type 0
Reading line (text l) = (l ≡ line) × (line_type line ≡ 0)
Reading line (opened k s) =
    (line_type line ≡ letter k) × (check_arg line ≡ ok tt) × (strict_atous (drop 3 line) ≡ ok s)
Reading line (closed s) =
    (line_type line ≡ b'E') × (check_arg line ≡ ok tt) × (strict_atous (drop 3 line) ≡ ok s)

control-Reading :
    (line : Bytes) (s : ℕ) (e : Event)
    → check_arg line ≡ ok tt
    → strict_atous (drop 3 line) ≡ ok s
    → control (line_type line) s ≡ ok e
    → Reading line e
unfolding control
control-Reading line s (text l) a n h = absurd (ground arith)
control-Reading line s (opened insert m) a n h = (ground arith, a, n ∙ ground arith)
control-Reading line s (opened delete m) a n h = (ground arith, a, n ∙ ground arith)
control-Reading line s (closed m) a n h = (ground arith, a, n ∙ ground arith)

classify-control :
    (highest : ℕ) (line : Bytes) (e : Event)
    → (line_type line == 0) ≡ false
    → classify highest line ≡ ok e
    → Reading line e
unfolding classify
classify-control highest line e c h =
    let (u, a, h1) = unbind (check_arg line) (λ _. numbered) (rw c at h) in
    let (s, n, h2) = unbind (strict_atous (drop 3 line)) ranged h1 in
    let (v, g, h3) =
      unbind (guard (not (ltb s 1 || ltb highest s)) invalid_serial_number)
        (λ _. control (line_type line) s) h2 in
    control-Reading line s e a n h3
  where
    ranged : ℕ → Result Event
    ranged s =
        guard (not (ltb s 1 || ltb highest s)) invalid_serial_number >> control (line_type line) s

    numbered : Result Event
    numbered = strict_atous (drop 3 line) >>= ranged

classify-text :
    (highest : ℕ) (line : Bytes)
    → (line_type line == 0) ≡ true
    → classify highest line ≡ ok (text line)
unfolding classify
classify-text highest line c = rw c

text-Reading :
    (line : Bytes) (e : Event) → (line_type line == 0) ≡ true → text line ≡ e → Reading line e
text-Reading line (text l) c h = (ground arith, ground arith)
text-Reading line (opened k s) c h = cc
text-Reading line (closed s) c h = cc

pub classify-Reading :
    (highest : ℕ) (line : Bytes) (e : Event) → classify highest line ≡ ok e → Reading line e
classify-Reading highest line e h = elim (Bool-cases (line_type line == 0)) [
  | inl t ↦ text-Reading line e t (ok-inj (sym (classify-text highest line t) ∙ h))
  | inr c ↦ classify-control highest line e c h
]
  where
    ok-inj : {a b : Event} → ◌≡◌ {A = Result Event} (ok a) (ok b) → a ≡ b
    ok-inj p = cc

-- What the first line of a well-formed body is.
pub record Cons (highest : ℕ) (lines : List Bytes) (e : Event) (es : List Event) : Type 0 where
  pub line : Bytes
  pub rest : List Bytes
  pub shape : lines ≡ line ∷ rest
  pub reading : Reading line e
  pub classified : classify highest line ≡ ok e
  pub well_formed : events highest rest ≡ ok es

pub cons-inj :
    {a b : Event} {x y : List Event}
    → ◌≡◌ {A = Result (List Event)} (ok (a ∷ x)) (ok (b ∷ y))
    → (a ≡ b) × (x ≡ y)
cons-inj p = (cc, cc)

pub events-Cons :
    (highest : ℕ) (lines : List Bytes) (e : Event) (es : List Event)
    → events highest lines ≡ ok (e ∷ es)
    → Cons highest lines e es
unfolding events
events-Cons highest [] e es h = cc
events-Cons highest (line ∷ lines) e es h =
    let (e1, c, h1) =
      unbind (classify highest line) (λ e. events highest lines >>= λ es. ok (e ∷ es)) h in
    let (es1, w, h2) = unbind (events highest lines) (λ es. ok (e1 ∷ es)) h1 in
    let (p, q) = cons-inj h2 in
    record {
      line = line;
      rest = lines;
      shape = refl;
      reading = classify-Reading highest line e (c ∙ ap ok p);
      classified = c ∙ ap ok p;
      well_formed = w ∙ ap ok q;
    }
