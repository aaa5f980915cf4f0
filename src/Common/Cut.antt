-- ===== src/Common/Cut.antt =====
-- Texts cut at the first place where a character stands, as with `strchr`.
use mathlib.Core.Path.{◌≡◌, refl}
use mathlib.Core.Bool.{true, false}
use mathlib.Core.List.{List, [], ◌∷◌, ◌++◌}
use mathlib.Core.Option.{Option, none, some}
use Prim.Native.Nat.{ℕ}
use cssc.Common.Tests.{◌==◌, if◌then◌else◌}
use cssc.Common.Lists.{All}

-- What stands before the first `d`, and behind it where there is one.
unfoldable pub cut : ℕ → List ℕ → List ℕ × Option (List ℕ)
cut d [] = ([], none)
cut d (c ∷ s) = let rest = cut d s in if c == d then ([], some s) else (c ∷ rest.0, rest.1)

-- No character of the text is `d`.
abbrev pub Lacks : ℕ → List ℕ → Type 0
Lacks d s = All (λ c. (c == d) ≡ false) s

pub cut-none : (d : ℕ) (s : List ℕ) → Lacks d s → cut d s ≡ (s, none)
unfolding cut
cut-none d [] h = refl
cut-none d (c ∷ s) h = rw (h.0, cut-none d s h.1) refl

pub cut-some :
    (d : ℕ) (s t : List ℕ) → Lacks d s → (d == d) ≡ true → cut d (s ++ d ∷ t) ≡ (s, some t)
unfolding cut
cut-some d [] t h e = rw e refl
cut-some d (c ∷ s) t h e = rw (h.0, cut-some d s t h.1 e) refl

-- A character put in front of the first text.
abbrev pub onto_first : ℕ → List (List ℕ) → List (List ℕ)
onto_first c [] = (c ∷ []) ∷ []
onto_first c (p ∷ ps) = (c ∷ p) ∷ ps

-- The parts of a text between the places where `d` stands.
unfoldable pub pieces : ℕ → List ℕ → List (List ℕ)
pieces d [] = [] ∷ []
pieces d (c ∷ s) = let rest = pieces d s in if c == d then [] ∷ rest else onto_first c rest

pub pieces_last : (d : ℕ) (s : List ℕ) → Lacks d s → pieces d s ≡ s ∷ []
unfolding pieces
pieces_last d [] h = refl
pieces_last d (c ∷ s) h = rw (h.0, pieces_last d s h.1) refl

pub pieces_more :
    (d : ℕ) (s t : List ℕ) → Lacks d s → (d == d) ≡ true → pieces d (s ++ d ∷ t) ≡ s ∷ pieces d t
unfolding pieces
pieces_more d [] t h e = rw e refl
pieces_more d (c ∷ s) t h e = rw (h.0, pieces_more d s t h.1 e) refl
