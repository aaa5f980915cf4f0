-- ===== src/Body/Keywords/Search.antt =====
-- `check_id_keywords` looks for a keyword everywhere in the line.
use cssc.Common.{
  ℕ, ◌<◌, ◌≡◌, refl, sym, ap, ◌∙◌, ◌≢◌, inl, inr, [], ◌∷◌, ◌++◌, true, false, arith, Bool-cases,
  Bytes, length,
}
use cssc.Body.Keywords.{
  is_id_keyword_letter, from_percent, keyword_loop, check_id_keywords, keyword_at,
}

-- A percent sign, a keyword letter and a percent sign stand side by side.
pub record Keyword (s : Bytes) : Type 0 where
  pub before : Bytes
  pub ch : ℕ
  pub after : Bytes
  pub shape : s ≡ before ++ b'%' ∷ ch ∷ b'%' ∷ after
  pub is_letter : is_id_keyword_letter ch ≡ true
  pub not_nul : ch ≢ 0

keyword_loop-Keyword : (s : Bytes) → keyword_loop s ≡ true → Keyword s
unfolding keyword_loop
keyword_loop-Keyword [] h = cc
keyword_loop-Keyword (a ∷ []) h = cc
keyword_loop-Keyword (a ∷ b ∷ []) h = cc
keyword_loop-Keyword (a ∷ b ∷ c ∷ s) h = elim (Bool-cases (keyword_at a b c)) [
  | inl here ↦ record {
    before = [];
    ch = b;
    after = s;
    shape = ground arith;
    is_letter = ground arith;
    not_nul = ground arith;
  }
  | inr no_key ↦
      let k = keyword_loop-Keyword (b ∷ c ∷ s) (rw no_key at h) in
      record {
        before = a ∷ k.before;
        ch = k.ch;
        after = k.after;
        shape = λ i. a ∷ k.shape i;
        is_letter = k.is_letter;
        not_nul = k.not_nul;
      }
]

keyword_loop-cons : (a : ℕ) (s : Bytes) → keyword_loop s ≡ true → keyword_loop (a ∷ s) ≡ true
unfolding keyword_loop
keyword_loop-cons a [] h = cc
keyword_loop-cons a (b ∷ []) h = cc
keyword_loop-cons a (b ∷ c ∷ []) h = cc
keyword_loop-cons a (b ∷ c ∷ d ∷ s) h = ground arith

keyword_loop_here :
    (ch : ℕ) (after : Bytes)
    → is_id_keyword_letter ch ≡ true
    → ch ≢ 0
    → keyword_loop (b'%' ∷ ch ∷ b'%' ∷ after) ≡ true
unfolding keyword_loop
keyword_loop_here ch after l n = ground arith

keyword_loop_found :
    (before : Bytes) (ch : ℕ) (after : Bytes)
    → is_id_keyword_letter ch ≡ true
    → ch ≢ 0
    → keyword_loop (before ++ b'%' ∷ ch ∷ b'%' ∷ after) ≡ true
keyword_loop_found [] ch after l n = keyword_loop_here ch after l n
keyword_loop_found (a ∷ before) ch after l n =
    keyword_loop-cons a (before ++ b'%' ∷ ch ∷ b'%' ∷ after)
      (keyword_loop_found before ch after l n)

-- Skipping to the first percent sign loses no keyword.
keyword_loop-from_percent : (s : Bytes) → keyword_loop (from_percent s) ≡ keyword_loop s
unfolding keyword_loop from_percent
keyword_loop-from_percent [] = refl
keyword_loop-from_percent (a ∷ []) = ground arith
keyword_loop-from_percent (a ∷ b ∷ []) = ground arith
keyword_loop-from_percent (a ∷ b ∷ c ∷ s) = ground (arith, keyword_loop-from_percent (b ∷ c ∷ s))

keyword_loop_short : (s : Bytes) → length s < 3 → keyword_loop s ≡ false
unfolding keyword_loop
keyword_loop_short [] h = refl
keyword_loop_short (a ∷ []) h = refl
keyword_loop_short (a ∷ b ∷ []) h = refl
keyword_loop_short (a ∷ b ∷ c ∷ s) h = absurd (omega arith)

check_id_keywords-loop : (s : Bytes) → check_id_keywords s ≡ keyword_loop s
unfolding check_id_keywords
check_id_keywords-loop s =
    ground (
      arith,
      keyword_loop_short s,
      keyword_loop_short (from_percent s),
      keyword_loop-from_percent s,
    )

-- A line is found to hold an ID keyword exactly when it holds one: neither the skip to the first
-- percent sign nor the two tests of the length miss one.
pub check_id_keywords-Keyword :
    (s : Bytes)
    → (check_id_keywords s ≡ true → Keyword s) × (Keyword s → check_id_keywords s ≡ true)
check_id_keywords-Keyword s = (
  λ h. keyword_loop-Keyword s (sym (check_id_keywords-loop s) ∙ h),
  λ k.
      check_id_keywords-loop s
      ∙ ap keyword_loop k.shape
      ∙ keyword_loop_found k.before k.ch k.after k.is_letter k.not_nul,
)
