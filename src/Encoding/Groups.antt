-- ===== src/Encoding/Groups.antt =====
-- Three bytes and the four characters that encode them.
use Prim.Native.Nat.{bit_and, bit_or}
use cssc.Common.{
  ℕ, zero, suc, ◌+◌, ◌-◌, ◌*◌, ◌/◌, ◌%◌, ◌≤◌, ◌<◌, ◌≡◌, refl, ap, ◌∙◌, [], ◌∷◌, Bool, true, ◌&&◌,
  arith, ◌==◌, ==_iff,
}
use cssc.Encoding.{uudec, uuenc, encode, decode}

-- A test that holds of all numbers below `n`, run on each of them.
tested : (ℕ → Bool) → ℕ → Bool
tested test zero = true
tested test (suc n) = tested test n && test n

tested_lem : (test : ℕ → Bool) (n : ℕ) {i : ℕ} → i < n → tested test n ≡ true → test i ≡ true
unfolding tested
tested_lem test zero bound run = absurd (omega arith)
tested_lem test (suc n) {i = i} bound run = ground (arith, tested_lem test n {i = i})

-- Two tables, read at the indices in range.
mask_table : tested (λ x. bit_and x 63 == x % 64) 4096 ≡ true
unfolding tested
mask_table = refl

mask : (x : ℕ) → x < 4096 → bit_and x 63 ≡ x % 64
mask x h = (==_iff _ _).0 (tested_lem (λ x. bit_and x 63 == x % 64) 4096 h mask_table)

high2_table : tested (λ x. bit_and (x * 16) 48 == x % 4 * 16) 4096 ≡ true
unfolding tested
high2_table = refl

high2 : (x : ℕ) → x < 4096 → bit_and (x * 16) 48 ≡ x % 4 * 16
high2 x h = (==_iff _ _).0 (tested_lem (λ x. bit_and (x * 16) 48 == x % 4 * 16) 4096 h high2_table)

high4_table : tested (λ x. bit_and (x * 4) 60 == x % 16 * 4) 4096 ≡ true
unfolding tested
high4_table = refl

high4 : (x : ℕ) → x < 4096 → bit_and (x * 4) 60 ≡ x % 16 * 4
high4 x h = (==_iff _ _).0 (tested_lem (λ x. bit_and (x * 4) 60 == x % 16 * 4) 4096 h high4_table)

low4_table : tested (λ x. bit_and x 15 == x % 16) 4096 ≡ true
unfolding tested
low4_table = refl

low4 : (x : ℕ) → x < 4096 → bit_and x 15 ≡ x % 16
low4 x h = (==_iff _ _).0 (tested_lem (λ x. bit_and x 15 == x % 16) 4096 h low4_table)

low2_table : tested (λ x. bit_and x 3 == x % 4) 4096 ≡ true
unfolding tested
low2_table = refl

low2 : (x : ℕ) → x < 4096 → bit_and x 3 ≡ x % 4
low2 x h = (==_iff _ _).0 (tested_lem (λ x. bit_and x 3 == x % 4) 4096 h low2_table)

-- `x` holds the high part and `y` the low part of one number: `x | y` is their sum. A pair is
-- checked as the number `x * k + y`.
join_table :
    (tested (λ n. bit_or (n / 16 * 16) (n % 16) == n) 4096 ≡ true)
    × (tested (λ n. bit_or (n / 4 * 4) (n % 4) == n) 4096 ≡ true)
    × (tested (λ n. bit_or (n / 64 * 64) (n % 64) == n) 4096 ≡ true)
unfolding tested
join_table = (refl, refl, refl)

join16 : (x y : ℕ) → x < 256 → y < 16 → bit_or (x * 16) y ≡ x * 16 + y
join16 x y hx hy =
    let e1 : (x * 16 + y) / 16 * 16 ≡ x * 16 = omega arith in
    let e2 : (x * 16 + y) % 16 ≡ y = omega arith in
    let t : bit_or ((x * 16 + y) / 16 * 16) ((x * 16 + y) % 16) ≡ x * 16 + y = (==_iff _ _).0 (
      tested_lem (λ n. bit_or (n / 16 * 16) (n % 16) == n) 4096 {i = x * 16 + y} (omega arith)
        join_table.0) in
    rw (e1, e2) at t

join4 : (x y : ℕ) → x < 1024 → y < 4 → bit_or (x * 4) y ≡ x * 4 + y
join4 x y hx hy =
    let e1 : (x * 4 + y) / 4 * 4 ≡ x * 4 = omega arith in
    let e2 : (x * 4 + y) % 4 ≡ y = omega arith in
    let t : bit_or ((x * 4 + y) / 4 * 4) ((x * 4 + y) % 4) ≡ x * 4 + y = (==_iff _ _).0 (
      tested_lem (λ n. bit_or (n / 4 * 4) (n % 4) == n) 4096 {i = x * 4 + y} (omega arith)
        join_table.1) in
    rw (e1, e2) at t

join64 : (x y : ℕ) → x < 64 → y < 64 → bit_or (x * 64) y ≡ x * 64 + y
join64 x y hx hy =
    let e1 : (x * 64 + y) / 64 * 64 ≡ x * 64 = omega arith in
    let e2 : (x * 64 + y) % 64 ≡ y = omega arith in
    let t : bit_or ((x * 64 + y) / 64 * 64) ((x * 64 + y) % 64) ≡ x * 64 + y = (==_iff _ _).0 (
      tested_lem (λ n. bit_or (n / 64 * 64) (n % 64) == n) 4096 {i = x * 64 + y} (omega arith)
        join_table.2) in
    rw (e1, e2) at t

pub uudec-uuenc : (x : ℕ) → x < 4096 → uudec (uuenc x) ≡ x % 64
unfolding uudec uuenc
uudec-uuenc x h = rw (mask x h) (
    let e : (x % 64 + 32 + 256 - 32) % 256 ≡ x % 64 = omega arith in
    rw e (mask (x % 64) (omega arith) ∙ omega arith))

abbrev pub IsByte : ℕ → Type 0
IsByte c = c < 256

encode-sextets :
    (a b c : ℕ)
    → IsByte a
    → IsByte b
    → IsByte c
    → encode a b c
      ≡ uuenc (a / 4)
        ∷ uuenc (a % 4 * 16 + b / 16)
        ∷ uuenc (b % 16 * 4 + c / 64)
        ∷ uuenc (c % 64)
        ∷ []
unfolding encode
encode-sextets a b c ha hb hc =
    let p : bit_or (bit_and (a * 16) 48) (bit_and (b / 16) 15) ≡ a % 4 * 16 + b / 16 =
      rw (high2 a (omega arith), low4 (b / 16) (omega arith))
        (join16 (a % 4) (b / 16 % 16) (omega arith) (omega arith) ∙ omega arith) in
    let q : bit_or (bit_and (b * 4) 60) (bit_and (c / 64) 3) ≡ b % 16 * 4 + c / 64 =
      rw (high4 b (omega arith), low2 (c / 64) (omega arith))
        (join4 (b % 16) (c / 64 % 4) (omega arith) (omega arith) ∙ omega arith) in
    rw (p, q, mask c (omega arith))

decode-sextets :
    (x y z w : ℕ)
    → x < 64
    → y < 64
    → z < 64
    → w < 64
    → decode (uuenc x) (uuenc y) (uuenc z) (uuenc w)
      ≡ (x * 4 + y / 16) ∷ ((y * 16 + z / 4) % 256) ∷ ((z * 64 + w) % 256) ∷ []
unfolding decode
decode-sextets x y z w hx hy hz hw =
    let back = λ (n : ℕ) (h : n < 64). uudec-uuenc n (omega arith) ∙ small n h in
    rw
      (
        back x hx,
        back y hy,
        back z hz,
        back w hw,
        join4 x (y / 16) (omega arith) (omega arith),
        join16 y (z / 4) (omega arith) (omega arith),
        join64 z w hz hw,
      )
      (ap (λ n. n ∷ ((y * 16 + z / 4) % 256) ∷ ((z * 64 + w) % 256) ∷ []) (omega arith))
  where
    small : (n : ℕ) → n < 64 → n % 64 ≡ n
    small n h = omega arith

-- Decoding the four characters that encode three bytes gives the bytes back.
pub decode-encode :
    (a b c : ℕ)
    → IsByte a
    → IsByte b
    → IsByte c
    → (w x y z : ℕ) × (encode a b c ≡ w ∷ x ∷ y ∷ z ∷ []) × (decode w x y z ≡ a ∷ b ∷ c ∷ [])
decode-encode a b c ha hb hc = (
  uuenc (a / 4),
  uuenc (a % 4 * 16 + b / 16),
  uuenc (b % 16 * 4 + c / 64),
  uuenc (c % 64),
  encode-sextets a b c ha hb hc,
  decode-sextets (a / 4) (a % 4 * 16 + b / 16) (b % 16 * 4 + c / 64) (c % 64) (omega arith)
        (omega arith) (omega arith) (omega arith)
      ∙ three (omega arith) (omega arith) (omega arith),
)
  where
    three : {x y z : ℕ} → x ≡ a → y ≡ b → z ≡ c → x ∷ y ∷ z ∷ [] ≡ a ∷ b ∷ c ∷ []
    three p q r = λ i. p i ∷ q i ∷ r i ∷ []

pub uuenc_range : (c : ℕ) → c < 4096 → (32 ≤ uuenc c) × (uuenc c < 96)
unfolding uuenc
uuenc_range c h = omega (arith, mask c h)
