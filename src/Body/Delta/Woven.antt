-- ===== src/Body/Delta/Woven.antt =====
-- What `delta` writes is a weave of the old body.
use mathlib.Core.Path.{subst}
use cssc.Common.{ℕ, ◌≤◌, ◌<◌, ◌≡◌, refl, ap, inl, List, ◌++◌, false, Bytes, All}
use cssc.Common.Runs.{value}
use cssc.Diff.{start, is_insert, is_delete}
use cssc.Body.Remove.{copying}
use cssc.Body.Delta.{Progress, delta}
use cssc.Body.Delta.Weave.{written, Weave, stop, old, state_of, IsDiffLine}
use cssc.Body.Delta.Steps.{IsSpaced, follow-IsOld, outside_blocks}
use cssc.Body.Delta.Scan.{Scan, finished}
use cssc.Body.Delta.Scans.{delta-Scanned}
use cssc.SeqState.{SeqState}
use cssc.Body.Remove.{UpdateState}

-- A scan, without what the state says of the lines.
scan-Weave :
    {seq highest d u : ℕ} {s t : UpdateState} {st st' : SeqState} {new old i : List Bytes}
    → highest < seq
    → Scan seq highest s st new old i d u t st'
    → Weave seq s new old t
scan-Weave below finished = stop
scan-Weave below (Scan.opens k x) = Weave.opens k (scan-Weave below x)
scan-Weave below (Scan.closes k e x) = Weave.closes k e (scan-Weave below x)
scan-Weave below (Scan.added line c x) = Weave.added line c (scan-Weave below x)
scan-Weave {seq = seq} {highest = highest} {st = st} below
      (Scan.follows {st1 = st1} line o c a f x) =
    old line o (follow-IsOld seq highest line st st1 below c a f) (scan-Weave below x)
scan-Weave below (Scan.unread line o c off x) = old line o (inl c) (scan-Weave below x)
scan-Weave below (Scan.kept line c on x) = old line refl (inl c) (scan-Weave below x)
scan-Weave below (Scan.dropped line c on x) = old line refl (inl c) (scan-Weave below x)

-- The new body is a weave of the old one.
pub delta-Weave :
    (fuel highest seq max : ℕ) (lines : List Bytes) (p r : Progress)
    → highest < seq
    → seq ≤ 65535
    → All IsSpaced lines
    → All IsDiffLine p.dstate.input
    → p.dstate.phase ≡ start
    → delta fuel highest seq max lines p ≡ value r
    → is_delete r.dstate.phase ≡ false
    → (new : List Bytes) × (r.out ≡ p.out ++ written new) × Weave seq copying new lines copying
delta-Weave fuel highest seq max lines p r below small spaced s e h d =
    (let x = delta-Scanned seq highest fuel max lines p r s (ap is_insert e) spaced h in
      (
        x.new,
        x.wrote,
        subst (λ m. Weave seq copying x.new lines m) (outside_blocks r.dstate.phase x.left d)
            (subst (λ m. Weave seq m x.new lines (state_of r.dstate.phase)) (ap state_of e)
              (scan-Weave below x.course)),
      ))
