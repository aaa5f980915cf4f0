-- ===== src/Body/Delta/Undo.antt =====
-- Removing a new delta gives back the body that it was added to.
use cssc.Common.{
  ℕ, ◌<◌, ◌≤◌, ◌≡◌, refl, inl, inr, List, [], ◌∷◌, ◌++◌, false, true, Bytes, ◌==◌, arith, All,
}
use cssc.Common.Runs.{value}
use cssc.Diff.{start, is_delete}
use cssc.SeqState.Blocks.{Kind, insert, delete, letter}
use cssc.Body.Line.{ok, line_type, check_arg}
use cssc.Body.Numbers.{strict_atous-decimal}
use cssc.Body.Remove.{
  UpdateState, copying, deleting, inserting, is_inserting, next_state, expected, remove_line,
  remove_loop, remove, at_end,
}
use cssc.Body.Delta.{Progress, delta}
use cssc.Body.Delta.Weave.{
  written, control_text, block_of, IsOld, Weave, stop, opens, closes, added, old, IsDiffLine,
}
use cssc.Body.Delta.Steps.{IsSpaced}
use cssc.Body.Delta.Woven.{delta-Weave}

module _ (seq : ℕ) (positive : 0 < seq) (small : seq ≤ 65535) where
  own_line :
      (s : UpdateState) (letter : ℕ)
      → (letter == 0) ≡ false
      → remove_line seq s (control_text letter seq) ≡ expected (next_state s letter)
  unfolding remove_line line_type check_arg
  own_line s letter h =
      (let same : (seq == seq) ≡ true = ground arith in
        rw (h, strict_atous-decimal seq positive small, same) refl)

  opening_line :
      (k : Kind) → remove_line seq copying (control_text (letter k) seq) ≡ ok (block_of k, [])
  unfolding next_state
  opening_line insert = own_line copying b'I' refl
  opening_line delete = own_line copying b'D' refl

  closing_line :
      (k : Kind) → remove_line seq (block_of k) (control_text b'E' seq) ≡ ok (copying, [])
  unfolding next_state
  closing_line insert = own_line inserting b'E' refl
  closing_line delete = own_line deleting b'E' refl

  old_line :
      (s : UpdateState) (line : Bytes)
      → is_inserting s ≡ false
      → IsOld seq line
      → remove_line seq s line ≡ ok (s, line ∷ [])
  unfolding remove_line
  old_line s line h (inl e) = rw (e, h)
  old_line s line h (inr (c, a, n, e, f)) = rw (c, a, e, f, h)

  remove_loop-Weave :
      {s t : UpdateState} {lines rest : List Bytes}
      → Weave seq s lines rest t
      → at_end t ≡ ok []
      → remove_loop seq s lines ≡ ok rest
  unfolding remove_loop
  remove_loop-Weave stop h = h
  remove_loop-Weave (opens k w) h = rw (opening_line k, remove_loop-Weave w h) refl
  remove_loop-Weave {s = s} (closes k e w) h = rw (e, closing_line k, remove_loop-Weave w h) refl
  remove_loop-Weave (added line e w) h = rw (text_line line e, remove_loop-Weave w h) refl
    where
      text_line :
          (line : Bytes) → line_type line ≡ 0 → remove_line seq inserting line ≡ ok (inserting, [])
      text_line line e = unfold remove_line in rw e
  remove_loop-Weave {s = s} (old line e i w) h =
      rw (old_line s line e i, remove_loop-Weave w h) refl

-- Removing a new delta gives back the old body, line by line: `delta`, from the start of a diff that it
-- reads to its end, writes a body of which `remove` with the number of the new delta makes the old
-- one. The number is greater than all in the old body, whose control lines have a blank
-- behind the letter, and no text that is inserted looks like a control line.
pub remove-delta :
    (fuel highest seq max : ℕ) (lines : List Bytes) (p r : Progress)
    → highest < seq
    → seq ≤ 65535
    → All IsSpaced lines
    → All IsDiffLine p.dstate.input
    → p.dstate.phase ≡ start
    → delta fuel highest seq max lines p ≡ value r
    → is_delete r.dstate.phase ≡ false
    → (new : List Bytes) × (r.out ≡ p.out ++ written new) × (remove seq new ≡ ok lines)
unfolding remove
remove-delta fuel highest seq max lines p r below small spaced s e h d =
    (let (new, n, w) = delta-Weave fuel highest seq max lines p r below small spaced s e h d in
      (new, n, remove_loop-Weave seq (omega arith) small w refl))
