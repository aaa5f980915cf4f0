-- ===== src/Encoding/Lines.antt =====
-- Whole lines: `decode_line` undoes `encode_line`.
use cssc.Common.{
  ℕ, suc, ◌+◌, ◌/◌, ◌<◌, ◌≡◌, refl, ap, ◌∙◌, [], ◌∷◌, ◌++◌, append_assoc, arith, Bytes, length, All,
}
use cssc.Encoding.{
  uudec, uuenc, encode, decode_groups, take_bytes, decode_line, encode_groups, encode_line,
}
use cssc.Encoding.Groups.{IsByte, decode-encode, uudec-uuenc}

-- One group is decoded to the bytes that it encodes, before the groups behind it.
first_group :
    (n a b c : ℕ) (rest : Bytes)
    → IsByte a
    → IsByte b
    → IsByte c
    → decode_groups (suc n) (encode a b c ++ rest) ≡ a ∷ b ∷ c ∷ decode_groups n rest
unfolding decode_groups
first_group n a b c rest ha hb hc =
    let (w, x, y, z, e, d) = decode-encode a b c ha hb hc in
    rw e (ap (λ l. l ++ decode_groups n rest) d)

groups :
    (s rest : Bytes) (n : ℕ)
    → All IsByte s
    → n ≡ (length s + 2) / 3
    → take_bytes (length s) (decode_groups n (encode_groups s ++ rest)) ≡ s
unfolding encode_groups take_bytes
groups [] rest n h e = refl
groups (a ∷ []) rest n h e =
    let m : n ≡ 1 = e ∙ omega arith in
    rw (m, first_group 0 a 0 0 rest h.0 (omega arith) (omega arith))
groups (a ∷ b ∷ []) rest n h e =
    let m : n ≡ 1 = e ∙ omega arith in rw (m, first_group 0 a b 0 rest h.0 h.1.0 (omega arith))
groups (a ∷ b ∷ c ∷ s) rest n h e =
    let m : n ≡ suc ((length s + 2) / 3) = e ∙ omega arith in
    rw
      (
        m,
        append_assoc (encode a b c) (encode_groups s) rest,
        first_group ((length s + 2) / 3) a b c (encode_groups s ++ rest) h.0 h.1.0 h.1.1.0,
      )
      (ap (λ t. a ∷ b ∷ c ∷ t) (groups s rest ((length s + 2) / 3) h.1.1.1 refl))

-- A line that encodes at most 63 bytes (`encode_line` asserts at most 60) is decoded to them: the
-- first character gives back their number, and the groups behind it the bytes, whatever pads them.
pub decode_line-encode_line :
    (s : Bytes) → All IsByte s → length s < 64 → decode_line (encode_line s) ≡ s
unfolding decode_line encode_line
decode_line-encode_line s h small =
    let n : uudec (uuenc (length s)) ≡ length s =
      uudec-uuenc (length s) (omega arith) ∙ omega arith in
    rw n (groups s (b'\n' ∷ []) ((length s + 2) / 3) h refl)
