-- ===== src/Common/Runs.antt =====
-- What a part of the program gives back: a value, or the reason for which it quits.
use mathlib.Core.Path.{Path, ◌≡◌, refl, ap}

pub data Run (E A : Type 0) : Type 0 where
  value : A → Run E A
  quit : E → Run E A

infixl 5 ◌>>=◌
abbrev pub ◌>>=◌ : {E A B : Type 0} → Run E A → (A → Run E B) → Run E B
value a >>= later = later a
quit e >>= later = quit e

abbrev pub value_or : {E A : Type 0} → A → Run E A → A
value_or a (value b) = b
value_or a (quit e) = a

pub value-injective : {E A : Type 0} {a b : A} → Path (Run E A) (value a) (value b) → a ≡ b
value-injective {a = a} e = ap (value_or a) e

pub bind_value :
    {E A B : Type 0} (r : Run E A) (f : A → Run E B) (b : B)
    → (r >>= f) ≡ value b
    → (a : A) × ((r ≡ value a) × (f a ≡ value b))
bind_value (value a) f b h = (a, (refl, h))
bind_value (quit e) f b h = cc
