-- ===== src/Body/Numbers.antt =====
-- The number of a control line, printed and read back by `strict_atous`.
use cssc.Common.{
  ℕ, zero, suc, ◌+◌, ◌/◌, ◌%◌, ◌≤◌, ◌<◌, ◌≡◌, sym, ap, ◌∙◌, inl, inr, [], ◌∷◌, Bool, true, false,
  Bytes, arith, Bool-cases, ◌==◌, ==_iff,
}
use cssc.Common.Decimal.{digits_zero, decimal_pos, digits, decimal}
use cssc.Body.Line.{ok, atous_loop, strict_atous}

atous_digit :
    (n : ℕ) (s : Bytes) (empty : Bool)
    → n ≤ 65535
    → atous_loop ((b'0' + n % 10) ∷ s) (n / 10) empty ≡ atous_loop s n false
unfolding atous_loop
atous_digit n s empty h = ground arith

atous_loop-digits :
    (fuel n : ℕ) (out : Bytes)
    → 0 < n
    → n ≤ fuel
    → n ≤ 65535
    → atous_loop (digits fuel n out) 0 true ≡ atous_loop out n false
unfolding digits
atous_loop-digits zero n out p h small = absurd (omega arith)
atous_loop-digits (suc fuel) n out p h small =
    (let some : (n == 0) ≡ false = ground arith in
      elim (Bool-cases (n / 10 == 0)) [
        | inl z ↦
            (let e = (==_iff (n / 10) 0).0 z in
              rw (some, e, digits_zero fuel ((b'0' + n % 10) ∷ out))
                (ap (λ t. atous_loop ((b'0' + n % 10) ∷ out) t true) (sym e)
                  ∙ atous_digit n out true small))
        | inr q ↦ rw some (
            atous_loop-digits fuel (n / 10) ((b'0' + n % 10) ∷ out) (ground arith) (ground arith)
              (omega arith)
            ∙ atous_digit n out false small)
      ])

pub strict_atous-decimal : (n : ℕ) → 0 < n → n ≤ 65535 → strict_atous (decimal n) ≡ ok n
unfolding strict_atous atous_loop
strict_atous-decimal n p h = rw (decimal_pos n p) (atous_loop-digits n n [] p (omega arith) h)
