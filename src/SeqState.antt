-- ===== src/SeqState.antt =====
-- src/seqstate.h and src/seqstate.cc: the class `seq_state`, which decides while the body of an
-- s-file is read whether the current line belongs to the wanted version. A `char` command is its
-- code, 0 when no block is open. A vector index past the end is undefined behaviour in the source:
-- here a read gives a delta in its initial condition and a write changes nothing, and the theorems
-- suppose indices up to `last`.
pub mod Disposition
pub mod Blocks
pub mod Steps
pub mod Failures
pub mod Create
use mathlib.Core.Option
use cssc.Common.{
  ℕ, zero, suc, ◌+◌, ◌%◌, ◌^◌, List, [], ◌∷◌, ◌++◌, Bool, true, false, not, ◌&&◌, Option, none,
  some, if◌then◌else◌, ltb, leb, ◌==◌, get_or, set,
}

pub record OneState : Type 0 where
  pub included : Bool
  pub excluded : Bool
  pub ignored : Bool
  pub non_recursive : Bool
  pub is_explicit : Bool
  pub active : Bool
  pub command : ℕ

pub record SeqState : Type 0 where
  pub states : List OneState
  pub last : ℕ
  pub active_seq : ℕ
  pub inserting : Bool

-- The error messages of `start` and `end`.
pub data Message : Type 0 where
  invalid_command_letter : Message
  invalid_sequence_number : Message
  insert_already_active : Message
  delete_already_active : Message
  unmatched_end : Message

-- A pair of a success flag and a message.
pub data Outcome (A : Type 0) : Type 0 where
  done : A → Outcome A
  failed : Message → Outcome A

abbrev pub initial_condition : OneState
initial_condition = record {
  included = false;
  excluded = false;
  ignored = false;
  non_recursive = false;
  is_explicit = false;
  active = false;
  command = 0;
}

abbrev pub state_at : List OneState → ℕ → OneState
state_at xs n = get_or xs n initial_condition

-- The three results of the loop of `decide_disposition`.
pub record Highest : Type 0 where
  pub our_insert : ℕ
  pub our_delete : ℕ
  pub owner : ℕ

abbrev pub raise : ℕ → ℕ → ℕ
raise h s = if ltb h s then s else h

-- One round of the loop, for the delta `current` with number `s`.
unfoldable pub note : OneState → ℕ → Highest → Highest
note current s h =
    if not current.active
    then h
    else if b'I' == current.command
    then (if current.included
        then record h { our_insert = raise h.our_insert s }
        else record h { owner = raise h.owner s })
    else if current.included
    then record h { our_delete = raise h.our_delete s }
    else h

-- The loop from number `s` on: `states_` has an entry for each number from 0 to `last_`.
unfoldable pub scan : List OneState → ℕ → Highest → Highest
scan [] s h = h
scan (c ∷ cs) s h = scan cs (s + 1) (note c s h)

abbrev pub nothing_open : Highest
nothing_open = record { our_insert = 0; our_delete = 0; owner = 0 }

-- The decision after the loop.
unfoldable pub settle : Highest → SeqState → SeqState
settle h st =
    if ltb h.our_insert h.our_delete
    then record st { inserting = false }
    else if ltb h.owner h.our_insert
    then record st {
      active_seq = h.our_insert;
      inserting = not (state_at st.states h.our_insert).ignored;
    }
    else record st { inserting = false }

unfoldable pub decide_disposition : SeqState → SeqState
decide_disposition st = settle (scan st.states 0 nothing_open) st

unfoldable pub is_included : SeqState → ℕ → Bool
is_included st n = (state_at st.states n).included

unfoldable pub is_excluded : SeqState → ℕ → Bool
is_excluded st n = (state_at st.states n).excluded

pub is_ignored : SeqState → ℕ → Bool
is_ignored st n = (state_at st.states n).ignored

unfoldable pub is_explicitly_tagged : SeqState → ℕ → Bool
is_explicitly_tagged st n = (state_at st.states n).is_explicit

pub is_nonrecursive : SeqState → ℕ → Bool
is_nonrecursive st n = (state_at st.states n).non_recursive

pub is_recursive : SeqState → ℕ → Bool
is_recursive st n = not (state_at st.states n).non_recursive

-- Writes to the entry of one delta. None of them calls `decide_disposition`.
abbrev pub write : SeqState → ℕ → OneState → SeqState
write st n s = record st { states = set st.states n s }

unfoldable pub set_included : SeqState → ℕ → Bool → SeqState
set_included st n non_recursive = write st n (record (state_at st.states n) {
  included = true;
  ignored = false;
  excluded = false;
  non_recursive = non_recursive;
})

unfoldable pub set_ignored : SeqState → ℕ → SeqState
set_ignored st n = write st n (record (state_at st.states n) {
  ignored = true;
  included = false;
  excluded = false;
  non_recursive = true;
})

unfoldable pub set_excluded : SeqState → ℕ → SeqState
set_excluded st n =
    write st n
      (record (state_at st.states n) { excluded = true; included = false; ignored = false })

abbrev pub mark_explicit : SeqState → ℕ → SeqState
mark_explicit st n =
    write st n (record (state_at st.states n) { is_explicit = true; non_recursive = true })

unfoldable pub set_explicitly_included : SeqState → ℕ → SeqState
unfolding set_included
set_explicitly_included st n =
    if not (state_at st.states n).included then mark_explicit (set_included st n false) n else st

unfoldable pub set_explicitly_excluded : SeqState → ℕ → SeqState
unfolding set_excluded
set_explicitly_excluded st n = mark_explicit (set_excluded st n) n

-- `start`, on ^AI and ^AD.
unfoldable pub start : SeqState → ℕ → ℕ → Outcome SeqState
start st seq command_letter =
    if not (command_letter == b'I') && not (command_letter == b'D')
    then failed invalid_command_letter
    else if ltb st.last seq
    then failed invalid_sequence_number
    else if (state_at st.states seq).active
    then (if (state_at st.states seq).command == b'I'
        then failed insert_already_active
        else failed delete_already_active)
    else done (
        decide_disposition (
          write st seq
            (record (state_at st.states seq) { active = true; command = command_letter })))

-- `end`, on ^AE.
unfoldable pub end : SeqState → ℕ → Outcome SeqState
end st seq =
    if ltb st.last seq
    then failed invalid_sequence_number
    else if (state_at st.states seq).active
    then done (
        decide_disposition
          (write st seq (record (state_at st.states seq) { active = false; command = 0 })))
    else failed unmatched_end

unfoldable pub include_line : SeqState → Bool
include_line st = st.inserting

-- `for (decltype(last_) i = 0; i <= last_; ++i) push_back(initial_condition)`, whose counter is an
-- unsigned short. `none`: the fuel ran out.
unfoldable pub fill : ℕ → ℕ → ℕ → List OneState → Option (List OneState)
fill zero last i states = none
fill (suc fuel) last i states =
    let later = fill fuel last ((i + 1) % 2 ^ 16) (states ++ initial_condition ∷ []) in
    if leb i last then later else some states

-- The state that the constructors hand to `decide_disposition`.
abbrev pub fresh : ℕ → List OneState → SeqState
fresh l states = record { states = states; last = l; active_seq = 0; inserting = false }

unfoldable pub create : ℕ → ℕ → Option SeqState
unfolding fill
create fuel l = Option.map (λ xs. decide_disposition (fresh l xs)) (fill fuel l 0 [])

-- The copy constructor.
pub copy : SeqState → SeqState
copy s = decide_disposition (record s { inserting = false })
