-- ===== src/Select/Requested.antt =====
-- What `find_requested_sid` finds.
use mathlib.Core.Path.{subst}
use mathlib.Core.Option.{some-injective}
use cssc.Common.{
  ◌≡◌, refl, sym, ◌∙◌, ◌⊎◌, inl, inr, List, [], ◌∷◌, Bool, true, false, ◌&&◌, not, Option, none,
  some, if◌then◌else◌, In, arith, Bool-cases, Option-cases,
}
use cssc.Common.Int.{ℤ, ltb_ℤ, eqb_ℤ, eqb_ℤ_iff}
use cssc.Sid.{Sid, gte}
use cssc.DeltaTable.{Delta, DeltaList, removed}
use cssc.Select.{Flags, sid_matches, default_request, improves, best_loop, find_requested_sid}

gte_refl : (a : Sid) → gte a a ≡ true
unfolding gte
gte_refl a = ground arith

gte_total : (a b : Sid) → gte a b ≡ false → gte b a ≡ true
unfolding gte
gte_total a b h = ground arith

-- One component of the comparison, with the outcome `t` of the components behind it.
lex : ℤ → ℤ → Bool → Bool
lex x y t = if ltb_ℤ y x then true else if not (eqb_ℤ x y) then false else t

lex-cases : (x y : ℤ) (t : Bool) → lex x y t ≡ true → (ltb_ℤ y x ≡ true) ⊎ ((x ≡ y) × (t ≡ true))
unfolding lex
lex-cases x y t h = elim (Bool-cases (ltb_ℤ y x)) [
  | inl above ↦ inl above
  | inr not_above ↦ elim (Bool-cases (eqb_ℤ x y)) [
    | inl same ↦ inr ((eqb_ℤ_iff x y).0 same, rw (not_above, same) at h)
    | inr other ↦ absurd (cc (sym (rw (not_above, other) at h)))
  ]
]

lex_above : (x y : ℤ) (t : Bool) → ltb_ℤ y x ≡ true → lex x y t ≡ true
unfolding lex
lex_above x y t h = rw h

lex_same : (x y : ℤ) (t : Bool) → x ≡ y → t ≡ true → lex x y t ≡ true
unfolding lex
lex_same x y t e h = rw (e, h) (ground arith)

ltb_ℤ_trans : (x y z : ℤ) → ltb_ℤ x y ≡ true → ltb_ℤ y z ≡ true → ltb_ℤ x z ≡ true
ltb_ℤ_trans x y z p q = ground arith

lex_trans :
    (x y z : ℤ) (t u v : Bool)
    → (t ≡ true → u ≡ true → v ≡ true)
    → lex x y t ≡ true
    → lex y z u ≡ true
    → lex x z v ≡ true
lex_trans x y z t u v next p q = elim (lex-cases x y t p) [
  | inl xy ↦ elim (lex-cases y z u q) [
    | inl yz ↦ lex_above x z v (ltb_ℤ_trans z y x yz xy)
    | inr (e, _) ↦ lex_above x z v (subst (λ k. ltb_ℤ k x ≡ true) e xy)
  ]
  | inr (e, t_on) ↦ elim (lex-cases y z u q) [
    | inl yz ↦ lex_above x z v (subst (λ k. ltb_ℤ z k ≡ true) (sym e) yz)
    | inr (e', u_on) ↦ lex_same x z v (e ∙ e') (next t_on u_on)
  ]
]

gte-lex :
    (a b : Sid)
    → gte a b ≡ lex a.rel b.rel (lex a.level b.level (not (ltb_ℤ a.sequence b.sequence)))
unfolding gte lex
gte-lex a b = refl

le_ℤ_trans : (x y z : ℤ) → not (ltb_ℤ x y) ≡ true → not (ltb_ℤ y z) ≡ true → not (ltb_ℤ x z) ≡ true
le_ℤ_trans x y z p q = ground arith

gte_trans : (a b c : Sid) → gte a b ≡ true → gte b c ≡ true → gte a c ≡ true
gte_trans a b c p q =
    gte-lex a c
    ∙ lex_trans a.rel b.rel c.rel _ _ _
        (lex_trans a.level b.level c.level _ _ _ (le_ℤ_trans a.sequence b.sequence c.sequence))
        (sym (gte-lex a b) ∙ p) (sym (gte-lex b c) ∙ q)

-- The SID in `o` is at least `x`.
abbrev Covers : Option Sid → Sid → Type 0
Covers o x = (s : Sid) × (o ≡ some s) × (gte s x ≡ true)

-- A current delta that matches the request.
abbrev pub Fitting : Sid → Delta → Type 0
Fitting r d = (removed d ≡ false) × (sid_matches r d.id false ≡ true)

improved :
    (x : Sid) (b : Option Sid)
    → Covers (if improves x b then some x else b) x
      × ((s : Sid) → b ≡ some s → Covers (if improves x b then some x else b) s)
improved x none = ((x, refl, gte_refl x), λ s e. cc)
improved x (some s0) = elim (Bool-cases (gte x s0)) [
  | inl above ↦ rw above (
    (x, refl, gte_refl x),
    λ s e. (x, refl, subst (λ k. gte x k ≡ true) (some-injective _ _ e) above),
  )
  | inr below ↦ rw below (
    (s0, refl, gte_total x s0 below),
    λ s e. (s0, refl, subst (λ k. gte s0 k ≡ true) (some-injective _ _ e) (gte_refl s0)),
  )
]

abbrev fit : Sid → Delta → Bool
fit r d = not (removed d) && sid_matches r d.id false

of_fit : (r : Sid) (d : Delta) → fit r d ≡ true → Fitting r d
of_fit r d h = (ground arith, ground arith)

not_here : {A : Type 0} (r : Sid) (d x : Delta) → fit r d ≡ false → x ≡ d → Fitting r x → A
not_here r d x off e f =
    let (kept, m) = subst (Fitting r) e f in
    let on : fit r d ≡ true = rw (kept, m) in absurd (cc (sym off ∙ on))

best_round :
    (r : Sid) (d : Delta) (ds : List Delta) (b : Option Sid)
    → best_loop r false (d ∷ ds) b
      ≡ best_loop r false ds (if fit r d && improves d.id b then some d.id else b)
unfolding best_loop
best_round r d ds b = ground arith

-- What the loop makes of the best SID so far.
record Walked (r : Sid) (ds : List Delta) (b o : Option Sid) : Type 0 where
  covered : (d : Delta) → In d ds → Fitting r d → Covers o d.id
  kept : (s : Sid) → b ≡ some s → Covers o s
  source : (o ≡ b) ⊎ ((d : Delta) × In d ds × Fitting r d × (o ≡ some d.id))

Covers-trans : (o : Option Sid) (s x : Sid) → Covers o s → gte s x ≡ true → Covers o x
Covers-trans o s x (t, e, p) q = (t, e, gte_trans t s x p q)

walk : (r : Sid) (ds : List Delta) (b : Option Sid) → Walked r ds b (best_loop r false ds b)
unfolding best_loop
walk r [] b = record {
  covered = λ d h f. elim h [ ];
  kept = λ s e. (s, e, gte_refl s);
  source = inl refl;
}
walk r (d ∷ ds) b =
    subst (Walked r (d ∷ ds) b) (sym (best_round r d ds b)) (elim (Bool-cases (fit r d)) [
      | inl on ↦
          let (self, old) = improved d.id b in
          let b' = if improves d.id b then some d.id else b in
          let w = walk r ds b' in
          rw on (record {
            covered = λ x h f. elim h [
              | inl e ↦
                  let (s, is, p) = self in
                  subst (λ k. Covers (best_loop r false ds b') k.id) (sym e)
                    (Covers-trans _ s d.id (w.kept s is) p)
              | inr h ↦ w.covered x h f
            ];
            kept = λ s e. let (t, is, p) = old s e in Covers-trans _ t s (w.kept t is) p;
            source = elim w.source [
              | inr (x, h, f, e) ↦ inr (x, inr h, f, e)
              | inl e ↦ elim (Bool-cases (improves d.id b)) [
                | inl up ↦ inr (d, inl refl, of_fit r d on, e ∙ rw up)
                | inr down ↦ inl (e ∙ rw down)
              ]
            ];
          })
      | inr off ↦
          let w = walk r ds b in
          rw off (record {
            covered = λ x h f. elim h [ inl e ↦ not_here r d x off e f | inr h ↦ w.covered x h f ];
            kept = w.kept;
            source = elim w.source [ inl e ↦ inl e | inr (x, h, f, e) ↦ inr (x, inr h, f, e) ];
          })
    ])

-- What a search without the top-delta option finds: nothing that fits, or the SID of a delta that fits
-- and is at least every SID that fits.
pub data Best (r : Sid) (ds : List Delta) : Option Sid → Type 0 where
  nothing : ((d : Delta) → In d ds → ¬ Fitting r d) → Best r ds none
  highest :
      (d : Delta)
      → In d ds
      → Fitting r d
      → ((x : Delta) → In x ds → Fitting r x → gte d.id x.id ≡ true)
      → Best r ds (some d.id)

loop-Best : (r : Sid) (ds : List Delta) → Best r ds (best_loop r false ds none)
loop-Best r ds = elim w.source [
  | inl e ↦ subst (Best r ds) (sym e) (nothing (λ d h f. let (s, is, _) = w.covered d h f in cc))
  | inr (d, h, f, e) ↦ subst (Best r ds) (sym e) (
      highest d h f (λ x hx fx.
        let (s, is, p) = w.covered x hx fx in
        subst (λ k. gte k x.id ≡ true) (some-injective _ _ (sym is ∙ e)) p))
]
  where
    w : Walked r ds none (best_loop r false ds none)
    w = walk r ds none

-- Without the top-delta option `find_requested_sid` answers with the highest SID of a current delta that
-- matches the request, or the default that stands for it, and with nothing only if none matches or the
-- file has no release.
pub find_requested_sid-Best :
    (flags : Flags) (l : DeltaList) (requested : Sid)
    → ((default_request flags l requested false ≡ none)
        × (find_requested_sid flags l requested false ≡ none))
      ⊎ ((r : Sid) × (default_request flags l requested false ≡ some r)
          × Best r l.items (find_requested_sid flags l requested false))
unfolding find_requested_sid
find_requested_sid-Best flags l requested =
    elim (Option-cases (default_request flags l requested false)) [
      | inl absent ↦ inl (absent, rw (absent, find_requested_sid))
      | inr (r, is) ↦ inr (r, is, rw (is, find_requested_sid) (loop-Best r l.items))
    ]
