-- ===== src/DeltaTable/Find.antt =====
-- What `find` and `find_any` find.
use cssc.Common.{
  ◌≡◌, refl, inl, inr, List, [], ◌∷◌, ◌++◌, true, false, ◌&&◌, Option, none, some, arith,
  Bool-cases, All,
}
use cssc.Sid.{Sid, is_eq}
use cssc.Sid.Order.{is_eq-is_ne}
use cssc.DeltaTable.{
  Delta, DeltaList, Selector, current, all, removed, selects, find_from, find, find_any,
}

abbrev Fits : Selector → Sid → Delta → Type 0
Fits sel id d = (selects sel d ≡ true) × (d.id ≡ id)

-- The answer of a search: no delta of the list fits, or the first that fits.
pub data Found (P : Delta → Type 0) : List Delta → Option Delta → Type 0 where
  nowhere : {ds : List Delta} → All (λ d. ¬ P d) ds → Found P ds none
  first :
      (before after : List Delta) (d : Delta) {ds : List Delta}
      → ds ≡ before ++ d ∷ after
      → All (λ x. ¬ P x) before
      → P d
      → Found P ds (some d)

test-Fits :
    (sel : Selector) (id : Sid) (d : Delta)
    → (selects sel d && is_eq d.id id) ≡ true
    → Fits sel id d
test-Fits sel id d h = (ground arith, (is_eq-is_ne d.id id).0.0 (ground arith))

not-Fits :
    (sel : Selector) (id : Sid) (d : Delta)
    → (selects sel d && is_eq d.id id) ≡ false
    → ¬ Fits sel id d
not-Fits sel id d h f = let e = (is_eq-is_ne d.id id).0.1 f.1 in let s = f.0 in ground arith

one_more :
    {P : Delta → Type 0} (d : Delta) (ds : List Delta) (o : Option Delta)
    → ¬ P d
    → Found P ds o
    → Found P (d ∷ ds) o
one_more d ds _ no_fit (nowhere h) = nowhere (no_fit, h)
one_more d ds _ no_fit (first before after x e h p) =
    first (d ∷ before) after x (λ i. d ∷ e i) (no_fit, h) p

find_from-Found :
    (sel : Selector) (ds : List Delta) (id : Sid) → Found (Fits sel id) ds (find_from sel ds id)
unfolding find_from
find_from-Found sel [] id = nowhere tt
find_from-Found sel (d ∷ ds) id = elim (Bool-cases (selects sel d && is_eq d.id id)) [
  | inl t ↦ rw t (first [] ds d refl tt (test-Fits sel id d t))
  | inr f ↦
      rw f (one_more d ds (find_from sel ds id) (not-Fits sel id d f) (find_from-Found sel ds id))
]

abbrev pub IsCurrent : Sid → Delta → Type 0
IsCurrent id d = (removed d ≡ false) × (d.id ≡ id)

abbrev pub HasId : Sid → Delta → Type 0
HasId id d = d.id ≡ id

weaken :
    {P Q : Delta → Type 0} {ds : List Delta} {o : Option Delta}
    → ((d : Delta) → P d → Q d)
    → ((d : Delta) → Q d → P d)
    → Found P ds o
    → Found Q ds o
weaken {P} {Q} to from (nowhere {ds = ds} h) = nowhere (spread ds h)
  where
    spread : (ds : List Delta) → All (λ d. ¬ P d) ds → All (λ d. ¬ Q d) ds
    spread [] h = tt
    spread (d ∷ ds) h = (λ q. h.0 (from d q), spread ds h.1)
weaken {P} {Q} to from (first before after d e h p) =
    first before after d e (spread before h) (to d p)
  where
    spread : (ds : List Delta) → All (λ d. ¬ P d) ds → All (λ d. ¬ Q d) ds
    spread [] h = tt
    spread (d ∷ ds) h = (λ q. h.0 (from d q), spread ds h.1)

to_current : (d : Delta) → selects current d ≡ true → removed d ≡ false
unfolding selects
to_current d h = ground arith

from_current : (d : Delta) → removed d ≡ false → selects current d ≡ true
unfolding selects
from_current d h = rw h

from_all : (d : Delta) → selects all d ≡ true
unfolding selects
from_all d = refl

-- `find` answers with the first delta of the file that has the SID and is not removed, and with
-- nothing only if there is none; `find_any` does the same without regard to removal.
pub find-Found :
    (l : DeltaList) (id : Sid)
    → Found (IsCurrent id) l.items (find l id) × Found (HasId id) l.items (find_any l id)
unfolding find find_any
find-Found l id = (
  weaken (λ d f. (to_current d f.0, f.1)) (λ d f. (from_current d f.0, f.1))
      (find_from-Found current l.items id),
  weaken (λ d f. f.1) (λ d f. (from_all d, f)) (find_from-Found all l.items id),
)
