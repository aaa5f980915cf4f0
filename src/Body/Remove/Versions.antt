-- ===== src/Body/Remove/Versions.antt =====
-- The remover and the open blocks: what it tracks, and the lines that it keeps.
use mathlib.Core.Path.{subst, fun_ext}
use mathlib.Core.Option.{some-injective}
use cssc.Common.{
  ℕ, ◌<◌, ◌≤◌, ◌≡◌, ◌≢◌, refl, ap, ◌∙◌, inl, inr, ◌↔◌, List, [], ◌∷◌, Bool, true, false, Bytes,
  Option, none, some, if◌then◌else◌, ◌==◌, ==_iff, drop, arith, Bool-cases,
}
use cssc.SeqState.Blocks.{Kind, insert, delete, letter, Owner, update}
use cssc.Body.Line.{
  non_terminal_delta, ok, fail, line_type, check_arg, strict_atous, Event, text, opened, closed,
}
use cssc.Body.Remove.{
  UpdateState, copying, deleting, inserting, next_state, is_inserting, expected, remove_line,
}

-- When the insertion of delta `seq` opens, no later delta has an insertion open. So it is in a body
-- that `delta` has written: the text that a delta inserts holds no earlier delta's block.
abbrev pub Nests : ℕ → (ℕ → Option Kind) → List Event → Type 0
Nests seq op [] = Unit
Nests seq op (text l ∷ es) = Nests seq op es
Nests seq op (opened k s ∷ es) =
    (s ≡ seq → k ≡ insert → (j : ℕ) → op j ≡ some insert → j ≤ seq)
    × Nests seq (update op s (some k)) es
Nests seq op (closed s ∷ es) = Nests seq (update op s none) es

-- The state of the remover, read off the open blocks.
abbrev pub Tracks : UpdateState → ℕ → (ℕ → Option Kind) → Type 0
Tracks copying seq op = op seq ≡ none
Tracks deleting seq op = op seq ≡ some delete
Tracks inserting seq op = (op seq ≡ some insert) × ((j : ℕ) → op j ≡ some insert → j ≤ seq)

-- The blocks that are open in the text that is kept.
abbrev pub without : ℕ → (ℕ → Option Kind) → ℕ → Option Kind
without seq op = update op seq none

module _ (inc : ℕ → Bool) (seq : ℕ) (left_out : inc seq ≡ false) (op : ℕ → Option Kind) where
  pub without_ne : (n : ℕ) → n ≢ seq → without seq op n ≡ op n
  without_ne n h = ground arith

  without-some : (n : ℕ) (k : Kind) → without seq op n ≡ some k → op n ≡ some k
  without-some n k h = ground arith

  other : (n : ℕ) → inc n ≡ true → n ≢ seq
  other n h e = let f = ap inc e in cc

  -- Delta `seq` has no insertion open, and is not included: its open block plays no part.
  pub Owner-without : (i : ℕ) → op seq ≢ some insert → Owner inc op i ↔ Owner inc (without seq op) i
  Owner-without i h = (there, back)
    where
      there : Owner inc op i → Owner inc (without seq op) i
      there o = record {
        positive = o.positive;
        inserted = without_ne i (other i o.included) ∙ o.inserted;
        included = o.included;
        latest = λ j p q. o.latest j (without-some j insert p) q;
        undeleted = λ d p q. o.undeleted d (without-some d delete p) q;
        unhidden = λ d p q. o.unhidden d (without-some d insert p) q;
      }

      back : Owner inc (without seq op) i → Owner inc op i
      back o = record {
        positive = o.positive;
        inserted = without-some i insert o.inserted;
        included = o.included;
        latest = λ j p q. o.latest j (without_ne j (other j q) ∙ p) q;
        undeleted = λ d p q. o.undeleted d (without_ne d (other d q) ∙ p) q;
        unhidden = λ d p q.
            o.unhidden d (without_ne d (λ e. h (subst (λ x. op x ≡ some insert) e p)) ∙ p) q;
      }

  -- Inside its insertion no line has an owner.
  pub inserting-unowned : (i : ℕ) → Tracks inserting seq op → ¬ Owner inc op i
  inserting-unowned i t o =
      let over : seq < i = o.unhidden seq t.0 left_out in
      let under : i ≤ seq = t.1 i o.inserted in omega arith

pub not-== : (a b : ℕ) → a ≢ b → (a == b) ≡ false
not-== a b h = ground arith

-- How the remover treats each kind of line.
module _ (seq : ℕ) (s : UpdateState) (line : Bytes) where
  pub removed_text :
      line_type line ≡ 0 → remove_line seq s line ≡ ok (s, if is_inserting s then [] else line ∷ [])
  unfolding remove_line
  removed_text t = rw t

  -- A control line of another delta is kept, and is refused inside the insertion.
  pub kept_control :
      (n : ℕ)
      → (line_type line == 0) ≡ false
      → check_arg line ≡ ok tt
      → strict_atous (drop 3 line) ≡ ok n
      → n ≢ seq
      → remove_line seq s line
        ≡ (if is_inserting s then fail non_terminal_delta else ok (s, line ∷ []))
  unfolding remove_line
  kept_control n t a e h = rw (t, a, e, not-== n seq h)

  pub own_control :
      (n : ℕ)
      → (line_type line == 0) ≡ false
      → check_arg line ≡ ok tt
      → strict_atous (drop 3 line) ≡ ok n
      → n ≡ seq
      → remove_line seq s line ≡ expected (next_state s (line_type line))
  unfolding remove_line
  own_control n t a e h = rw (t, a, e, (==_iff n seq).1 h)

pub update_twice :
    (seq : ℕ) (op : ℕ → Option Kind) (v : Option Kind)
    → without seq (update op seq v) ≡ without seq op
update_twice seq op v = fun_ext λ n. ground arith

pub update_swap :
    (seq m : ℕ) (op : ℕ → Option Kind) (v : Option Kind)
    → m ≢ seq
    → without seq (update op m v) ≡ update (without seq op) m v
update_swap seq m op v h = fun_ext λ n. ground arith

-- The state of the remover stays in step with the open blocks.
module _ (seq : ℕ) (op : ℕ → Option Kind) where
  pub Tracks-kept :
      (s : UpdateState) (m : ℕ) (v : Option Kind)
      → m ≢ seq
      → is_inserting s ≡ false
      → Tracks s seq op
      → Tracks s seq (update op m v)
  Tracks-kept copying m v h i t = ground arith
  Tracks-kept deleting m v h i t = ground arith
  Tracks-kept inserting m v h i t = cc

  pub Tracks-closed :
      (s : UpdateState) → is_inserting s ≡ false → Tracks s seq op → op seq ≢ some insert
  Tracks-closed copying i t = λ e. cc
  Tracks-closed deleting i t = λ e. cc
  Tracks-closed inserting i t = cc

  pub Tracks-opened :
      (s s1 : UpdateState) (k : Kind)
      → op seq ≡ none
      → (k ≡ insert → (j : ℕ) → op j ≡ some insert → j ≤ seq)
      → next_state s (letter k) ≡ some s1
      → Tracks s seq op
      → Tracks s1 seq (update op seq (some k))
  unfolding next_state
  Tracks-opened copying s1 insert idle nests n t =
      subst (λ x. Tracks x seq (update op seq (some insert))) (some-injective _ _ n)
        (
          ground arith,
          λ j h. elim (Bool-cases (seq == j)) [
            | inl e ↦ ground arith
            | inr e ↦ nests refl j (rw e at h)
          ],
        )
  Tracks-opened copying s1 delete idle nests n t =
      subst (λ x. Tracks x seq (update op seq (some delete))) (some-injective _ _ n) (ground arith)
  Tracks-opened deleting s1 k idle nests n t = cc
  Tracks-opened inserting s1 k idle nests n t = cc t.0

  pub Tracks-ended :
      (s s1 : UpdateState) (k : Kind)
      → op seq ≡ some k
      → next_state s b'E' ≡ some s1
      → Tracks s seq op
      → Tracks s1 seq (update op seq none)
  unfolding next_state
  Tracks-ended copying s1 k now n t = cc
  Tracks-ended deleting s1 k now n t =
      subst (λ x. Tracks x seq (update op seq none)) (some-injective _ _ n) (ground arith)
  Tracks-ended inserting s1 k now n t =
      subst (λ x. Tracks x seq (update op seq none)) (some-injective _ _ n) (ground arith)
