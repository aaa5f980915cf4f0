-- ===== src/Body/Delta/Followed.antt =====
-- A control line of the old body that `delta` follows.
use mathlib.Core.Path.{subst}
use cssc.Common.{
  ℕ, ◌≤◌, ◌≡◌, ◌≢◌, refl, sym, ap, ◌∙◌, inl, inr, List, ◌∷◌, Bool, false, Bytes, Option, none, some,
  ◌==◌, ◌||◌, ltb, drop, arith, Bool-cases,
}
use cssc.Common.Runs.{value, value-injective, bind_value}
use cssc.SeqState.{SeqState, Outcome, done, failed, start, end}
use cssc.SeqState.Blocks.{Kind, letter, opens, IsSettled, update}
use cssc.SeqState.Steps.{Changed, start-Changed, start_inversion, end-Changed, end_inversion}
use cssc.Body.Line.{
  Result, ok, fail, line_type, check_arg, strict_atous, Event, text, opened, closed, classify,
  control,
}
use cssc.Body.Get.Reads.{Reads, opens_block, closes_block}
use cssc.Body.Delta.{of_body, of_state, obey, follow}
use cssc.Body.Delta.Numbered.{Reaches}

no_text : (c n : ℕ) (l : Bytes) → control c n ≢ ok (text l)
unfolding control
no_text c n l h = ground arith

-- A control line that is followed.
pub follow_inversion :
    (highest : ℕ) (line : Bytes) (st st' : SeqState)
    → (line_type line == 0) ≡ false
    → check_arg line ≡ ok tt
    → follow highest line st ≡ value st'
    → (e : Event) × (classify highest line ≡ ok e)
      × (obey e st ≡ value st')
      × ((l : Bytes) → e ≢ text l)
unfolding follow classify
follow_inversion highest line st st' c a h =
    (let (n, (m, f)) = bind_value (of_body (strict_atous (drop 3 line))) _ st' h in
      elim (Bool-cases (ltb n 1 || ltb highest n)) [
        | inl t ↦ (let x = rw t at f in cc)
        | inr t ↦
            (let (e, (k, g)) =
                bind_value (of_body (control (line_type line) n)) (λ e. obey e st) st'
                  (rw t at f) in
              let controlled = of_body-ok (control (line_type line) n) e k in
              (
                e,
                rw (c, a, of_body-ok (strict_atous (drop 3 line)) n m, t) controlled,
                g,
                λ l same. no_text (line_type line) n l (controlled ∙ ap ok same),
              ))
      ])
  where
    of_body-ok : {A : Type 0} (x : Result A) (a : A) → of_body x ≡ value a → x ≡ ok a
    of_body-ok (ok b) a e = ap ok (value-injective e)
    of_body-ok (fail f) a e = cc

of_state-done : (x : Outcome SeqState) (st : SeqState) → of_state x ≡ value st → x ≡ done st
of_state-done (done s) st e = ap done (value-injective e)
of_state-done (failed m) st e = cc

-- What a control line that is obeyed does to the open blocks, in any version.
pub record Moved (highest : ℕ) (e : Event) (st st1 : SeqState) : Type 0 where
  pub number : ℕ
  pub block : Option Kind
  pub change : Changed st number block st1
  pub reached : number ≤ highest
  pub reading :
      (inc : ℕ → Bool) (max : ℕ) (op op' : ℕ → Option Kind) (es : List Event)
      (taken : List (ℕ × Bytes))
      → number ≤ max
      → op number ≡ opens st.states number
      → Reads inc max (update op number block) es taken op'
      → Reads inc max op (e ∷ es) taken op'

pub obey-Moved :
    (highest : ℕ) (e : Event) (st st1 : SeqState)
    → IsSettled st
    → Reaches highest e
    → ((l : Bytes) → e ≢ text l)
    → obey e st ≡ value st1
    → Moved highest e st st1
obey-Moved highest (text l) st st1 s r n h = absurd (n l refl)
obey-Moved highest (opened k n) st st1 s (positive, reach) _ h =
    (let (_, _, fits, idle) =
        start_inversion st n (letter k) (of_state-done (start st n (letter k)) st1 h) in
      let (st2, started, c) = start-Changed st n k s fits idle in
      let same : st2 ≡ st1 = value-injective (ap of_state (sym started) ∙ h) in
      record {
        number = n;
        block = some k;
        change = subst (Changed st n (some k)) same c;
        reached = reach;
        reading = λ inc max op op' es taken le e r. opens_block k n le (e ∙ idle) r;
      })
obey-Moved highest (closed n) st st1 s (positive, reach) _ h =
    (let (k, fits, now) = end_inversion st n (of_state-done (end st n) st1 h) in
      let (st2, ended, c) = end-Changed st n k s fits now in
      let same : st2 ≡ st1 = value-injective (ap of_state (sym ended) ∙ h) in
      record {
        number = n;
        block = none;
        change = subst (Changed st n none) same c;
        reached = reach;
        reading = λ inc max op op' es taken le e r. closes_block k n le (e ∙ now) r;
      })
