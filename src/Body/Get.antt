-- ===== src/Body/Get.antt =====
-- `sccs_file_body_scanner::get`: writing the lines of one version. The functions and flags that it
-- is given are the fields of `Output`; `sid_text` prints the SID of a delta by its number, and
-- `write_subst` gives its text with whether it found a keyword, which it notes in `found_id`.
pub mod Reads
pub mod Complete
use cssc.Common.{
  ℕ, ◌+◌, List, [], ◌∷◌, ◌++◌, Bool, true, false, ◌&&◌, ◌||◌, not, Bytes, Option, none, some,
  if◌then◌else◌, ◌==◌, drop,
}
use cssc.SeqState.{SeqState, Outcome, done, failed, start, end, include_line}
use cssc.SeqState.Blocks.{letter}
use cssc.Body.Keywords.{check_id_keywords}
use cssc.Body.Line.{
  Failure, expected_insert, bad_state, write_failed, Result, ok, fail, ◌>>=◌, ◌>>◌, guard,
  line_type, check_arg, strict_atous, Event, text, opened, closed, classify,
}

-- The members of `subst_parms` that `get` changes, `out` being what is written so far.
pub record Parms : Type 0 where
  pub out : Bytes
  pub out_lineno : ℕ
  pub found_id : Bool

pub record Output : Type 0 where
  pub write_subst : ℕ → Bytes → Option (Bytes × Bool)
  pub outputfn : Bytes → Option Bytes
  pub encoded : Bool
  pub do_kw_subst : Bool
  pub show_module : Bool
  pub show_sid : Bool
  pub module_name : Bytes
  pub sid_text : ℕ → Bytes

abbrev pub add_text : Parms → Bytes → Parms
add_text p s = record p { out = p.out ++ s }

unfoldable pub prefix : Output → ℕ → Bytes
prefix o active =
    (if o.show_module then o.module_name ++ b'\t' ∷ [] else [])
    ++ (if o.show_sid then o.sid_text active ++ b'\t' ∷ [] else [])

-- A line of text that is taken: the delta `active` has put it in.
unfoldable pub emit_line : Output → ℕ → Bytes → Parms → Result Parms
unfolding prefix
emit_line o active line p =
    let numbered = record p { out_lineno = p.out_lineno + 1; out = p.out ++ prefix o active } in
    if o.do_kw_subst && not o.encoded
    then elim (o.write_subst numbered.out_lineno line) [
      | none ↦ fail write_failed
      | some (s, found) ↦
          ok (record (add_text numbered (s ++ b'\n' ∷ [])) { found_id = p.found_id || found })
    ]
    else let marked = record numbered {
      found_id = if not o.do_kw_subst then p.found_id || check_id_keywords line else p.found_id;
    } in
      elim (o.outputfn line) [ none ↦ fail write_failed | some s ↦ ok (add_text marked s) ]

abbrev pub checked : Parms → Outcome SeqState → Result (SeqState × Parms)
checked p (done st) = ok (st, p)
checked p (failed m) = fail (bad_state m)

-- One round of the loop, once the line is classified.
unfoldable pub step : Output → Event → SeqState → Parms → Result (SeqState × Parms)
step o (text line) st p =
    if include_line st then (emit_line o st.active_seq line p >>= λ p'. ok (st, p')) else ok (st, p)
step o (opened k seq) st p = checked p (start st seq (letter k))
step o (closed seq) st p = checked p (end st seq)

unfoldable pub get_loop : Output → ℕ → List Bytes → SeqState → Parms → Result (SeqState × Parms)
unfolding step
get_loop o highest [] st p = ok (st, p)
get_loop o highest (line ∷ lines) st p = do
  e ← classify highest line
  next ← step o e st p
  get_loop o highest lines next.0 next.1

-- The outcome of the first `start` is not looked at.
abbrev pub or_same : SeqState → Outcome SeqState → SeqState
or_same st (done st') = st'
or_same st (failed m) = st

unfoldable pub get : Output → ℕ → List Bytes → SeqState → Parms → Result (SeqState × Parms)
unfolding get_loop
get o highest [] st p = fail expected_insert
get o highest (line ∷ lines) st p = do
  guard (line_type line == b'I') expected_insert
  check_arg line
  first_delta ← strict_atous (drop 3 line)
  get_loop o highest lines (or_same st (start st first_delta b'I')) p
