-- ===== src/Body/Delta/Owners.antt =====
-- Who owns the lines of the new body in the version that has the new delta.
use mathlib.Core.Path.{subst, fun_ext}
use cssc.Common.{
  ℕ, ◌≤◌, ◌<◌, ◌≡◌, ◌≢◌, ◌↔◌, sym, ◌∙◌, Bool, true, false, Option, none, some, arith, if◌then◌else◌,
  ◌==◌, Bool-cases, inl, inr,
}
use cssc.SeqState.Blocks.{Kind, insert, delete, Owner, update}
use cssc.Body.Remove.{UpdateState, copying, deleting, inserting}

-- The deltas of the predecessor and the new one.
abbrev pub with_delta : ℕ → (ℕ → Bool) → ℕ → Bool
with_delta seq inc n = if seq == n then true else inc n

-- The block of the new delta that is open.
abbrev pub block_in : UpdateState → Option Kind
block_in copying = none
block_in deleting = some delete
block_in inserting = some insert

abbrev pub within : ℕ → UpdateState → (ℕ → Option Kind) → ℕ → Option Kind
within seq s op = update op seq (block_in s)

module _ (seq highest : ℕ) (inc : ℕ → Bool) (below : highest < seq) (op : ℕ → Option Kind)
    (low : (n : ℕ) (k : Kind) → op n ≡ some k → n ≤ highest) where
  -- No other open block reaches the new number.
  other_open :
      (s : UpdateState) (n : ℕ) (k : Kind) → n ≢ seq → within seq s op n ≡ some k → op n ≡ some k
  other_open s n k h e = ground arith

  beneath : (n : ℕ) (k : Kind) → op n ≡ some k → n < seq
  beneath n k e = omega (arith, low n k e, below)

  here : (s : UpdateState) → within seq s op seq ≡ block_in s
  here s = ground arith

  not_new : (n : ℕ) → n ≢ seq → with_delta seq inc n ≡ inc n
  not_new n h = ground arith

  -- An inserted line belongs to the new delta.
  pub inserting-Owner : Owner (with_delta seq inc) (within seq inserting op) seq
  inserting-Owner = record {
    positive = omega (arith, below);
    inserted = here inserting;
    included = ground arith;
    latest = λ j p q. elim (Bool-cases (seq == j)) [
      | inl e ↦ ground arith
      | inr e ↦ omega (arith, beneath j insert (other_open inserting j insert (ne j e) p))
    ];
    undeleted = λ j p q. elim (Bool-cases (seq == j)) [
      | inl e ↦ absurd (ground arith)
      | inr e ↦ beneath j delete (other_open inserting j delete (ne j e) p)
    ];
    unhidden = λ j p q. elim (Bool-cases (seq == j)) [
      | inl e ↦ absurd (ground arith)
      | inr e ↦ beneath j insert (other_open inserting j insert (ne j e) p)
    ];
  }
    where
      ne : (j : ℕ) → (seq == j) ≡ false → j ≢ seq
      ne j e = ground arith

  -- In a deletion by the new delta no line has an owner.
  pub deleting-unowned : (i : ℕ) → ¬ Owner (with_delta seq inc) (within seq deleting op) i
  deleting-unowned i o =
      (let over : seq < i = o.undeleted seq (here deleting) (ground arith) in
        let under : i < seq =
          beneath i insert (other_open deleting i insert (omega (arith, over)) o.inserted) in
        omega (arith, over, under))

  -- Outside its blocks a line has the owner that it had.
  pub copying-Owner :
      op seq ≡ none
      → (i : ℕ) → Owner (with_delta seq inc) (within seq copying op) i ↔ Owner inc op i
  copying-Owner idle i = (
    λ o. subst (λ f. Owner inc f i) same (forget o),
    λ o. recall (subst (λ f. Owner inc f i) (sym same) o),
  )
    where
      same : within seq copying op ≡ op
      same = fun_ext λ n. ground arith

      old : (n : ℕ) (k : Kind) → within seq copying op n ≡ some k → n ≢ seq
      old n k e = ground arith

      forget :
          Owner (with_delta seq inc) (within seq copying op) i → Owner inc (within seq copying op) i
      forget o = record {
        positive = o.positive;
        inserted = o.inserted;
        included = sym (not_new i (old i insert o.inserted)) ∙ o.included;
        latest = λ j p q. o.latest j p (not_new j (old j insert p) ∙ q);
        undeleted = λ j p q. o.undeleted j p (not_new j (old j delete p) ∙ q);
        unhidden = λ j p q. o.unhidden j p (not_new j (old j insert p) ∙ q);
      }

      recall :
          Owner inc (within seq copying op) i → Owner (with_delta seq inc) (within seq copying op) i
      recall o = record {
        positive = o.positive;
        inserted = o.inserted;
        included = not_new i (old i insert o.inserted) ∙ o.included;
        latest = λ j p q. o.latest j p (sym (not_new j (old j insert p)) ∙ q);
        undeleted = λ j p q. o.undeleted j p (sym (not_new j (old j delete p)) ∙ q);
        unhidden = λ j p q. o.unhidden j p (sym (not_new j (old j insert p)) ∙ q);
      }

-- The open blocks of the new delta, and those of the others.
pub within_opened :
    (seq : ℕ) (s t : UpdateState) (op : ℕ → Option Kind)
    → update (within seq s op) seq (block_in t) ≡ within seq t op
within_opened seq s t op = fun_ext λ n. ground arith

pub within_other :
    (seq n : ℕ) (s : UpdateState) (op : ℕ → Option Kind) (v : Option Kind)
    → n ≢ seq
    → within seq s (update op n v) ≡ update (within seq s op) n v
within_other seq n s op v h = fun_ext λ m. ground arith
