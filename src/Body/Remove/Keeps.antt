-- ===== src/Body/Remove/Keeps.antt =====
-- Removing a delta does not change a version that does not include it.
use mathlib.Core.Path.{subst, fun_ext}
use mathlib.Core.Bool.{false≢true}
use cssc.Common.{
  ℕ, ◌≡◌, refl, sym, ap, ◌∙◌, inl, inr, List, [], Bool, false, Bytes, Option, none, some, ◌==◌,
  ==_iff, arith, Bool-cases,
}
use cssc.SeqState.Blocks.{Kind, update}
use cssc.Body.Line.{ok, line_type, Event, text, opened, closed}
use cssc.Body.Get.Reads.{Reads, nothing, takes, skips, opens_block, closes_block, events}
use cssc.Body.Remove.{UpdateState, copying, next_state, remove_loop, remove}
use cssc.Body.Remove.Removes.{events-Cons}
use cssc.Body.Remove.Versions.{
  Nests, Tracks, without, without_ne, update_twice, Tracks-kept, Tracks-opened, Tracks-ended,
}
use cssc.Body.Remove.Parts.{
  Removed, Split-loop, after_text, after_kept, after_own, text_line, taken_line, recast, block_line,
  ended, letter-control,
}

module _ (highest seq : ℕ) (inc : ℕ → Bool) (last : ℕ) (left_out : inc seq ≡ false) where
  remove_loop-Removed :
      {op op' : ℕ → Option Kind} {es : List Event} {taken : List (ℕ × Bytes)}
      → Reads inc last op es taken op'
      → (s : UpdateState) (lines lines' : List Bytes) → Tracks s seq op
      → Nests seq op es
      → events highest lines ≡ ok es
      → remove_loop seq s lines ≡ ok lines'
      → Removed highest seq inc last op op' taken lines'
  remove_loop-Removed {op = op} nothing s lines lines' t nests w h = record {
    kept = [];
    well_formed = unfold events in rw (ended highest seq inc last left_out s lines lines' w h);
    reads = nothing;
  }
  remove_loop-Removed {op = op} {op' = op'} (takes {es = es} {taken = taken} i l own r) s lines
        lines' t nests w h =
      let c = events-Cons highest lines (text l) es w in
      let p = Split-loop highest seq inc last left_out s c.line c.rest lines' (rw c.shape at h) in
      let (rest', h1, shape) =
        after_text highest seq inc last left_out s c.line c.rest lines' p c.reading.1 in
      rw shape (
        taken_line highest seq inc last left_out s c.line l i t c.classified own
          (remove_loop-Removed r s c.rest rest' t nests c.well_formed h1))
  remove_loop-Removed {op = op} {op' = op'} {taken = taken} (skips {es = es} l unowned r) s lines
        lines' t nests w h =
      let c = events-Cons highest lines (text l) es w in
      let p = Split-loop highest seq inc last left_out s c.line c.rest lines' (rw c.shape at h) in
      let (rest', h1, shape) =
        after_text highest seq inc last left_out s c.line c.rest lines' p c.reading.1 in
      rw shape (
        text_line highest seq inc last left_out s c.line l t c.classified unowned
          (remove_loop-Removed r s c.rest rest' t nests c.well_formed h1))
  remove_loop-Removed {op = op} {op' = op'} {taken = taken} (opens_block {es = es} k n fits idle r)
        s lines lines' t nests w h =
      let c = events-Cons highest lines (opened k n) es w in
      let (is_letter, arg, number) = c.reading in
      let control_line = letter-control highest seq inc last left_out c.line k is_letter in
      let p = Split-loop highest seq inc last left_out s c.line c.rest lines' (rw c.shape at h) in
      elim (Bool-cases (n == seq)) [
        | inl same ↦
            let e = (==_iff n seq).0 same in
            let idle' : op seq ≡ none = subst (λ x. op x ≡ none) e idle in
            let (s1, next, h1) =
              after_own highest seq inc last left_out s c.line c.rest lines' n p control_line arg
                number e in
            let t1 : Tracks s1 seq (update op n (some k)) =
              subst (λ x. Tracks s1 seq (update op x (some k))) (sym e)
                (Tracks-opened seq op s s1 k idle' (nests.0 e)
                  (ap (next_state s) (sym is_letter) ∙ next) t) in
            recast highest seq inc last left_out
              (subst (λ x. without seq (update op x (some k)) ≡ without seq op) (sym e)
                (update_twice seq op (some k)))
              (remove_loop-Removed r s1 c.rest lines' t1 nests.1 c.well_formed h1)
        | inr apart ↦
            let e = λ (x : n ≡ seq). false≢true (sym apart ∙ (==_iff n seq).1 x) in
            let (rest', off, h1, shape) =
              after_kept highest seq inc last left_out s c.line c.rest lines' n p control_line arg
                number e in
            rw shape (
              block_line highest seq inc last left_out c.line (opened k n) n (some k) c.classified e
                (remove_loop-Removed r s c.rest rest' (Tracks-kept seq op s n (some k) e off t)
                  nests.1 c.well_formed h1)
                (opens_block k n fits (without_ne inc seq left_out op n e ∙ idle)))
      ]
  remove_loop-Removed {op = op} (closes_block {es = es} k n fits now r) s lines lines' t nests w h =
      let c = events-Cons highest lines (closed n) es w in
      let (is_end, arg, number) = c.reading in
      let control_line : (line_type c.line == 0) ≡ false = rw is_end in
      let p = Split-loop highest seq inc last left_out s c.line c.rest lines' (rw c.shape at h) in
      elim (Bool-cases (n == seq)) [
        | inl same ↦
            let e = (==_iff n seq).0 same in
            let now' : op seq ≡ some k = subst (λ x. op x ≡ some k) e now in
            let (s1, next, h1) =
              after_own highest seq inc last left_out s c.line c.rest lines' n p control_line arg
                number e in
            let t1 : Tracks s1 seq (update op n none) =
              subst (λ x. Tracks s1 seq (update op x none)) (sym e)
                (Tracks-ended seq op s s1 k now' (ap (next_state s) (sym is_end) ∙ next) t) in
            recast highest seq inc last left_out
              (subst (λ x. without seq (update op x none) ≡ without seq op) (sym e)
                (update_twice seq op none))
              (remove_loop-Removed r s1 c.rest lines' t1 nests c.well_formed h1)
        | inr apart ↦
            let e = λ (x : n ≡ seq). false≢true (sym apart ∙ (==_iff n seq).1 x) in
            let (rest', off, h1, shape) =
              after_kept highest seq inc last left_out s c.line c.rest lines' n p control_line arg
                number e in
            rw shape (
              block_line highest seq inc last left_out c.line (closed n) n none c.classified e
                (remove_loop-Removed r s c.rest rest' (Tracks-kept seq op s n none e off t) nests
                  c.well_formed h1)
                (closes_block k n fits (without_ne inc seq left_out op n e ∙ now)))
      ]

-- Removing the blocks of a delta from a well-formed body leaves a well-formed body, and every version
-- that does not include the delta reads the same lines with the same owners from it. The insertion
-- of the delta has to stand in no later delta's.
pub remove-Reads :
    (highest seq last : ℕ) (inc : ℕ → Bool) (lines lines' : List Bytes) (es : List Event)
    (taken : List (ℕ × Bytes)) (op' : ℕ → Option Kind)
    → inc seq ≡ false
    → Nests seq (λ _. none) es
    → events highest lines ≡ ok es
    → Reads inc last (λ _. none) es taken op'
    → remove seq lines ≡ ok lines'
    → (kept : List Event) × (events highest lines' ≡ ok kept)
      × Reads inc last (λ _. none) kept taken (without seq op')
unfolding remove
remove-Reads highest seq last inc lines lines' es taken op' left_out nests w r h =
    let d =
      remove_loop-Removed highest seq inc last left_out r copying lines lines' refl nests w h in
    (
      d.kept,
      d.well_formed,
      subst (λ x. Reads inc last x d.kept taken (without seq op')) (nothing_open seq) d.reads,
    )
  where
    nothing_open : (seq : ℕ) → without seq (λ _. none) ≡ (λ _. none)
    nothing_open seq = fun_ext λ n. ground arith
