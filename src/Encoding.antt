-- ===== src/Encoding.antt =====
-- src/encoding.cc: the uuencoding of binary files. A `char` is its byte, from 0 to 255: the masks
-- drop what a signed `char` would add above. The NUL that `encode_line` puts behind its line is not
-- part of the text, and `encode_stream`, which reads and writes files, is modelled on the list of
-- the bytes that it reads.
pub mod Groups
pub mod Lines
use Prim.Native.Nat.{bit_and, bit_or}
use cssc.Common.{
  ℕ, zero, suc, ◌+◌, ◌-◌, ◌*◌, ◌/◌, ◌%◌, List, [], ◌∷◌, ◌++◌, Bytes, length, drop, if◌then◌else◌,
  ◌==◌,
}
use cssc.Common.{Bool, ltb}

-- UUDEC: `((c) - 040) & 077`, where the difference may be negative.
pub uudec : ℕ → ℕ
uudec c = bit_and ((c + 256 - 32) % 256) 63

-- UUENC: `((c) & 077) + 040`.
unfoldable pub uuenc : ℕ → ℕ
uuenc c = bit_and c 63 + 32

unfoldable pub encode : ℕ → ℕ → ℕ → Bytes
unfolding uuenc
encode in0 in1 in2 =
    uuenc (in0 / 4)
    ∷ uuenc (bit_or (bit_and (in0 * 16) 48) (bit_and (in1 / 16) 15))
    ∷ uuenc (bit_or (bit_and (in1 * 4) 60) (bit_and (in2 / 64) 3))
    ∷ uuenc (bit_and in2 63)
    ∷ []

pub decode : ℕ → ℕ → ℕ → ℕ → Bytes
unfolding uudec
decode in0 in1 in2 in3 =
    (bit_or (uudec in0 * 4) (uudec in1 / 16) % 256)
    ∷ (bit_or (uudec in1 * 16) (uudec in2 / 4) % 256)
    ∷ (bit_or (uudec in2 * 64) (uudec in3) % 256)
    ∷ []

-- The loop of `decode_line`, in groups of four characters; `n` counts up by threes to `len`, so it
-- makes a round for each three bytes left. A line that is too short is read past its end in the
-- source; here the loop stops.
pub decode_groups : ℕ → Bytes → Bytes
decode_groups zero s = []
decode_groups (suc n) (a ∷ b ∷ c ∷ d ∷ s) = decode a b c d ++ decode_groups n s
decode_groups (suc n) _ = []

pub take_bytes : ℕ → Bytes → Bytes
take_bytes zero s = []
take_bytes (suc n) [] = []
take_bytes (suc n) (c ∷ s) = c ∷ take_bytes n s

-- `decode_line`: the result is the first `len` bytes of the buffer, `len` being what it returns.
pub decode_line : Bytes → Bytes
unfolding uudec decode_groups take_bytes decode
decode_line [] = []
decode_line (c ∷ s) = take_bytes (uudec c) (decode_groups ((uudec c + 2) / 3) s)

-- The loop of `encode_line` and the code for the tail of the buffer.
unfoldable pub encode_groups : Bytes → Bytes
encode_groups [] = []
encode_groups (a ∷ []) = encode a 0 0
encode_groups (a ∷ b ∷ []) = encode a b 0
encode_groups (a ∷ b ∷ c ∷ s) = encode a b c ++ encode_groups s

unfoldable pub encode_line : Bytes → Bytes
unfolding uuenc encode_groups encode
encode_line s = uuenc (length s) ∷ (encode_groups s ++ b'\n' ∷ [])
