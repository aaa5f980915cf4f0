-- ===== src/DeltaTable/Entry.antt =====
-- src/delta.h: the constructors of a delta, and the methods that change one. An unsigned long has 64
-- bits. An assertion that fails ends the program: `none`.
use mathlib.Core.Path.{subst}
use cssc.Common.{
  ℕ, ◌+◌, ◌%◌, ◌^◌, ◌≡◌, refl, List, [], ◌∷◌, ◌++◌, Bool, true, false, ◌||◌, not, Bytes, Option,
  none, some, if◌then◌else◌,
}
use cssc.Sid.{Sid, no_sid}
use cssc.DeltaTable.{Delta}

abbrev pub is_empty_list : {A : Type 0} → List A → Bool
is_empty_list [] = true
is_empty_list (x ∷ xs) = false

-- The constructor with sets of included and excluded numbers, given as their elements in order.
unfoldable pub create_delta : ℕ → Sid → ℕ → ℕ → List ℕ → List ℕ → List Bytes → List Bytes → Delta
create_delta t i s p incl excl mrs cs = record {
  delta_type = t;
  id = i;
  seq = s;
  prev_seq = p;
  included = incl;
  excluded = excl;
  ignored = [];
  have_includes = not (is_empty_list incl);
  have_excludes = not (is_empty_list excl);
  have_ignores = false;
  mrs = mrs;
  comments = cs;
  inserted = 0;
  deleted = 0;
  unchanged = 0;
}

-- The constructor without arguments.
abbrev pub blank_delta : Delta
blank_delta = record {
  delta_type = b'D';
  id = no_sid;
  seq = 0;
  prev_seq = 0;
  included = [];
  excluded = [];
  ignored = [];
  have_includes = false;
  have_excludes = false;
  have_ignores = false;
  mrs = [];
  comments = [];
  inserted = 0;
  deleted = 0;
  unchanged = 0;
}

unfoldable pub set_idu : Delta → ℕ → ℕ → ℕ → Delta
set_idu d i x u = record d { inserted = i; deleted = x; unchanged = u }

unfoldable pub increment_inserted : Delta → Delta
increment_inserted d = record d { inserted = (d.inserted + 1) % 2 ^ 64 }

unfoldable pub increment_deleted : Delta → Delta
increment_deleted d = record d { deleted = (d.deleted + 1) % 2 ^ 64 }

unfoldable pub increment_unchanged : Delta → Delta
increment_unchanged d = record d { unchanged = (d.unchanged + 1) % 2 ^ 64 }

unfoldable pub set_has_includes : Delta → Bool → Option Delta
set_has_includes d val =
    if val || is_empty_list d.included then some (record d { have_includes = val }) else none

unfoldable pub add_include : Delta → ℕ → Delta
add_include d s = record d { included = d.included ++ s ∷ []; have_includes = true }

unfoldable pub set_has_excludes : Delta → Bool → Option Delta
set_has_excludes d val =
    if val || is_empty_list d.excluded then some (record d { have_excludes = val }) else none

unfoldable pub add_exclude : Delta → ℕ → Delta
add_exclude d s = record d { excluded = d.excluded ++ s ∷ []; have_excludes = true }

unfoldable pub set_has_ignores : Delta → Bool → Option Delta
set_has_ignores d val =
    if val || is_empty_list d.ignored then some (record d { have_ignores = val }) else none

unfoldable pub add_ignore : Delta → ℕ → Delta
add_ignore d s = record d { ignored = d.ignored ++ s ∷ []; have_ignores = true }

unfoldable pub set_mrs : Delta → List Bytes → Delta
set_mrs d updated = record d { mrs = updated }

unfoldable pub add_mr : Delta → Bytes → Delta
add_mr d s = record d { mrs = d.mrs ++ s ∷ [] }

unfoldable pub set_comments : Delta → List Bytes → Delta
set_comments d updated = record d { comments = updated }

unfoldable pub prepend_comments : Delta → List Bytes → Delta
prepend_comments d front = record d { comments = front ++ d.comments }

unfoldable pub add_comment : Delta → Bytes → Delta
add_comment d s = record d { comments = d.comments ++ s ∷ [] }

-- A flag that is off belongs to an empty list.
pub record IsFlagged (d : Delta) : Type 0 where
  pub includes_flagged : d.have_includes ≡ false → d.included ≡ []
  pub excludes_flagged : d.have_excludes ≡ false → d.excluded ≡ []
  pub ignores_flagged : d.have_ignores ≡ false → d.ignored ≡ []

no_elements : {A : Type 0} (xs : List A) → not (is_empty_list xs) ≡ false → xs ≡ []
no_elements [] h = refl
no_elements (x ∷ xs) h = cc

empty_elements : {A : Type 0} (xs : List A) → is_empty_list xs ≡ true → xs ≡ []
empty_elements [] h = refl
empty_elements (x ∷ xs) h = cc

-- A new delta has its flags as its lists are.
pub create_delta-IsFlagged :
    (t : ℕ) (i : Sid) (s p : ℕ) (incl excl : List ℕ) (mrs cs : List Bytes)
    → IsFlagged (create_delta t i s p incl excl mrs cs)
unfolding create_delta
create_delta-IsFlagged t i s p incl excl mrs cs = record {
  includes_flagged = no_elements incl;
  excludes_flagged = no_elements excl;
  ignores_flagged = λ h. refl;
}

-- What a method that sets a flag asserts.
asserted :
    {A : Type 0} (val : Bool) (xs : List A) {before after : Delta}
    → (if val || is_empty_list xs then some before else none) ≡ some after
    → (before ≡ after) × (val ≡ false → xs ≡ [])
asserted true xs h = (cc, λ e. cc)
asserted false [] h = (cc, λ e. refl)
asserted false (x ∷ xs) h = cc

-- Each method that adds a number keeps the flags right.
pub add_include-IsFlagged :
    (d : Delta) (s : ℕ)
    → IsFlagged d
    → IsFlagged (add_include d s) × IsFlagged (add_exclude d s) × IsFlagged (add_ignore d s)
unfolding add_include add_exclude add_ignore
add_include-IsFlagged d s w = (
  record {
    includes_flagged = λ h. cc;
    excludes_flagged = w.excludes_flagged;
    ignores_flagged = w.ignores_flagged;
  },
  record {
    includes_flagged = w.includes_flagged;
    excludes_flagged = λ h. cc;
    ignores_flagged = w.ignores_flagged;
  },
  record {
    includes_flagged = w.includes_flagged;
    excludes_flagged = w.excludes_flagged;
    ignores_flagged = λ h. cc;
  },
)

-- The methods that set a flag keep the flags right when their assertions hold.
pub set_has_includes-IsFlagged :
    (d x y z : Delta) (val : Bool)
    → IsFlagged d
    → set_has_includes d val ≡ some x
    → set_has_excludes d val ≡ some y
    → set_has_ignores d val ≡ some z
    → IsFlagged x × IsFlagged y × IsFlagged z
unfolding set_has_includes set_has_excludes set_has_ignores
set_has_includes-IsFlagged d x y z val w hx hy hz = (
  let (same, empty) = asserted val d.included {before = record d { have_includes = val }} hx in
      subst IsFlagged same (record {
        includes_flagged = empty;
        excludes_flagged = w.excludes_flagged;
        ignores_flagged = w.ignores_flagged;
      }),
  let (same, empty) = asserted val d.excluded {before = record d { have_excludes = val }} hy in
      subst IsFlagged same (record {
        includes_flagged = w.includes_flagged;
        excludes_flagged = empty;
        ignores_flagged = w.ignores_flagged;
      }),
  let (same, empty) = asserted val d.ignored {before = record d { have_ignores = val }} hz in
      subst IsFlagged same (record {
        includes_flagged = w.includes_flagged;
        excludes_flagged = w.excludes_flagged;
        ignores_flagged = empty;
      }),
)
