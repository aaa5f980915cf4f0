-- ===== src/Pfile.antt =====
-- src/pfile.h, src/pfile.cc, src/pf-add.cc and src/pf-del.cc: the edit locks of a history file, in the
-- order of the p-file. The user's name and the present date are parameters. An iterator is a position.
-- Pfile/File is the p-file read and written.
pub mod Search
pub mod File
pub mod Fields
pub mod RoundTrip
use cssc.Common.{
  ℕ, zero, suc, ◌+◌, List, [], ◌∷◌, ◌++◌, Bool, true, false, ◌&&◌, ◌||◌, Bytes, Option, none, some,
  if◌then◌else◌, ◌==◌, length,
}
use cssc.Sid.{Sid, is_null, is_eq}
use cssc.SidList.{SidList}
use cssc.Dates.{Date}

pub record EditLock : Type 0 where
  pub got : Sid
  pub delta : Sid
  pub user : Bytes
  pub date : Date
  pub include : SidList
  pub exclude : SidList

-- `strcmp` of two texts gives 0.
unfoldable pub same_text : Bytes → Bytes → Bool
same_text [] [] = true
same_text [] (c ∷ t) = false
same_text (c ∷ s) [] = false
same_text (c ∷ s) (c' ∷ t) = c == c' && same_text s t

unfoldable pub find_locked : List EditLock → Sid → Option EditLock
find_locked [] id = none
find_locked (it ∷ its) id = if is_eq it.got id then some it else find_locked its id

unfoldable pub find_to_be_created : List EditLock → Sid → Option EditLock
find_to_be_created [] id = none
find_to_be_created (it ∷ its) id = if is_eq it.delta id then some it else find_to_be_created its id

abbrev pub is_some {ℓ} : {A : Type ℓ} → Option A → Bool
is_some none = false
is_some (some a) = true

unfoldable pub is_locked : List EditLock → Sid → Bool
is_locked its id = is_some (find_locked its id)

unfoldable pub is_to_be_created : List EditLock → Sid → Bool
is_to_be_created its id = is_some (find_to_be_created its id)

-- `add_lock`, before the file is written: the new list, and whether there was a p-file.
unfoldable pub add_lock :
    List EditLock → Sid → Sid → Bytes → Date → SidList → SidList → List EditLock × Bool
add_lock locks got delta user now included excluded = (
  locks
      ++ (record {
        got = got;
        delta = delta;
        user = user;
        date = now;
        include = included;
        exclude = excluded;
      })
        ∷ [],
  elim locks [ [] ↦ false | it ∷ its ↦ true ],
)

pub data FindStatus : Type 0 where
  found : ℕ → FindStatus
  not_found : FindStatus
  ambiguous : FindStatus

-- The test of `find_sid` on one lock.
unfoldable pub fits : Bytes → Sid → EditLock → Bool
fits username id it =
    same_text username it.user && (is_null id || (is_eq id it.got || is_eq id it.delta))

-- The loop of `find_sid` from position `i` on, with the position found so far.
unfoldable pub find_loop : Bytes → Sid → List EditLock → ℕ → Option ℕ → FindStatus
find_loop username id [] i none = not_found
find_loop username id [] i (some p) = found p
find_loop username id (it ∷ its) i none =
    find_loop username id its (suc i) (if fits username id it then some i else none)
find_loop username id (it ∷ its) i (some p) =
    if fits username id it then ambiguous else find_loop username id its (suc i) (some p)

unfoldable pub find_sid : Bytes → List EditLock → Sid → FindStatus
find_sid username locks id = find_loop username id locks 0 none

-- `erase` of the element at a position.
unfoldable pub delete_lock : ℕ → List EditLock → List EditLock
delete_lock i [] = []
delete_lock zero (it ∷ its) = its
delete_lock (suc i) (it ∷ its) = it ∷ delete_lock i its
