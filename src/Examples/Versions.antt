-- ===== src/Examples/Versions.antt =====
-- Versions that are prepared and retrieved.
use mathlib.Core.Path.{subst}
use cssc.Common.{
  ℕ, zero, suc, ◌≤◌, ◌<◌, ◌≡◌, refl, List, [], ◌∷◌, ◌++◌, Bool, true, false, Bytes, Option, none,
  some, arith, codes, ◌==◌, replicate,
}
use cssc.Common.Int.{pos}
use cssc.Common.Runs.{value, quit}
use cssc.Sid.{Sid, sid, is_eq}
use cssc.DeltaTable.{
  Delta, DeltaList, position, delta_at_seq, delta_at_seq_exists, find, find_from, selects, removed,
}
use cssc.DeltaTable.Entry.{create_delta}
use cssc.SeqState.{
  SeqState, set_included, set_excluded, set_ignored, create, fresh, fill, initial_condition,
  is_included, is_excluded, decide_disposition, scan, note, settle,
}
use cssc.Prepare.History.{
  IsSound, IsHistory, IsPrepared, Wants, ancestor, parent, self, prepare_seqstate_1-IsPrepared,
}
use cssc.SeqState.Blocks.{Kind, insert, Owner, update, includes}
use cssc.Body.Line.{text, opened, closed, classify}
use cssc.Body.Get.{Parms, Output, emit_line}
use cssc.Body.Get.Reads.{events, emit_all, Reads, nothing, takes, opens_block, closes_block}
use cssc.Retrieve.{Status, null_delta, get_version}
use cssc.Retrieve.Removed.{get_version_null}
use cssc.Retrieve.Lines.{get_version_complete}
use cssc.Prepare.{
  prepare_seqstate_1, prepare_seqstate_2, prepare_seqstate, descend, checked_delta, predecessor,
  down, up, visit, each, own_predecessor,
}
use cssc.Prepare.Broken.{further, own, prepare_seqstate_1-Broken}
use cssc.Prepare.CommandLine.{prepare_seqstate_2-chosen}
use cssc.Prepare.Marks.{IsMarking, names}
use cssc.Prepare.Passes.{Ended, listed}
use cssc.Retrieve.Version.{nothing_named}
use cssc.SeqState.Create.{IsReady}

abbrev release_1 : ℕ → Sid
release_1 level = sid (pos 1) (pos level) (pos 0) (pos 0)

-- 1.1, then 1.2, then 1.3, which excludes 1.2.
abbrev first_delta : Delta
first_delta = create_delta b'D' (release_1 1) 1 0 [] [] [] []

abbrev second_delta : Delta
second_delta = create_delta b'D' (release_1 2) 2 1 [] [] [] []

abbrev third_delta : Delta
third_delta = create_delta b'D' (release_1 3) 3 2 [] (2 ∷ []) [] []

abbrev history : DeltaList
history = record {
  high_seqno = 3;
  high_release = release_1 3;
  items = third_delta ∷ second_delta ∷ first_delta ∷ [];
  seq_table = (1, 2) ∷ (2, 1) ∷ (3, 0) ∷ [];
}

history-IsHistory : (n : ℕ) → n ≤ 3 → IsHistory history n
unfolding delta_at_seq delta_at_seq_exists position create_delta
history-IsHistory n small = record { high = small; deltas = at }
  where
    at : (y : ℕ) → 0 < y → y ≤ n → (d : Delta) × IsSound history y d
    at zero p q = absurd (omega arith)
    at (suc zero) p q = (
      first_delta,
      record {
        found = refl;
        exists = refl;
        earlier = omega arith;
        includes = tt;
        excludes = tt;
        ignores = tt;
      },
    )
    at (suc (suc zero)) p q = (
      second_delta,
      record {
        found = refl;
        exists = refl;
        earlier = omega arith;
        includes = tt;
        excludes = tt;
        ignores = tt;
      },
    )
    at (suc (suc (suc zero))) p q = (
      third_delta,
      record {
        found = refl;
        exists = refl;
        earlier = omega arith;
        includes = tt;
        excludes = (omega arith, tt);
        ignores = tt;
      },
    )
    at (suc (suc (suc (suc y)))) p q = absurd (omega arith)

abbrev new_state : SeqState
new_state = fresh 3 (replicate 4 initial_condition)

new_state-IsReady : IsReady new_state
new_state-IsReady = record {
  sized = refl;
  exclusive = (
    (λ h. (refl, refl), λ h. refl),
    (
      (λ h. (refl, refl), λ h. refl),
      ((λ h. (refl, refl), λ h. refl), ((λ h. (refl, refl), λ h. refl), tt)),
    ),
  );
  idle = (refl, (refl, (refl, (refl, tt))));
  not_inserting = refl;
}

none_included : (n : ℕ) → is_included new_state n ≡ false
unfolding is_included
none_included zero = refl
none_included (suc zero) = refl
none_included (suc (suc zero)) = refl
none_included (suc (suc (suc zero))) = refl
none_included (suc (suc (suc (suc n)))) = refl

prepare_seqstate_1-IsPrepared_example :
    Ended 3 (IsPrepared history 3) (prepare_seqstate_1 9 history 3 new_state)
prepare_seqstate_1-IsPrepared_example =
    prepare_seqstate_1-IsPrepared 9 history 3 new_state (history-IsHistory 3 (omega arith))
      (omega arith) (omega arith) (omega arith) (omega arith)
      (record { ready = new_state-IsReady; last_is = refl }) none_included

-- 1.1 and 1.3 are included, 1.2 is not.
abbrev prepared_state : SeqState
prepared_state = elim (prepare_seqstate_1 9 history 3 new_state) [
  | value st ↦ st
  | quit f ↦ new_state
]

prepared_flags :
    (is_included prepared_state 1 ≡ true)
    × (is_included prepared_state 2 ≡ false)
    × (is_included prepared_state 3 ≡ true)
unfolding prepare_seqstate_1 descend checked_delta predecessor down up visit each is_included
    set_included set_excluded set_ignored delta_at_seq delta_at_seq_exists position create_delta
prepared_flags = (refl, refl, refl)

abbrev looped : DeltaList
looped = record {
  high_seqno = 2;
  high_release = release_1 2;
  items =
      create_delta b'D' (release_1 2) 2 1 [] [] [] []
      ∷ create_delta b'D' (release_1 1) 1 1 [] [] [] []
      ∷ [];
  seq_table = (1, 1) ∷ (2, 0) ∷ [];
}

prepare_seqstate_1-Broken_example : prepare_seqstate_1 9 looped 2 new_state ≡ quit own_predecessor
unfolding delta_at_seq delta_at_seq_exists position create_delta
prepare_seqstate_1-Broken_example =
    prepare_seqstate_1-Broken 9 looped 2 new_state
      (further (create_delta b'D' (release_1 2) 2 1 [] [] [] []) (omega arith) (omega arith) refl
        refl (omega arith)
        (own (create_delta b'D' (release_1 1) 1 1 [] [] [] []) (omega arith) (omega arith) refl refl
          refl))
      (omega arith)

abbrev wants_second : Sid → Bool
wants_second id = is_eq id (release_1 2)

prepare_seqstate_2-chosen_example :
    IsMarking 3 (prepare_seqstate_2 wants_second nothing_named nothing_named history new_state)
    × (is_included (prepare_seqstate_2 wants_second nothing_named nothing_named history new_state) 2
        ≡ true)
unfolding removed create_delta is_eq
prepare_seqstate_2-chosen_example =
    prepare_seqstate_2-chosen wants_second nothing_named nothing_named history new_state
      (third_delta ∷ []) (first_delta ∷ []) second_delta
      (record { ready = new_state-IsReady; last_is = refl }) refl (omega arith) (omega arith)
      (omega arith) (omega arith) (omega arith) refl

abbrev plain : Delta → Output
plain d = record {
  write_subst = λ n s. some (s, false);
  outputfn = λ s. some (s ++ b'\n' ∷ []);
  encoded = false;
  do_kw_subst = false;
  show_module = false;
  show_sid = false;
  module_name = [];
  sid_text = λ n. [];
}

abbrev blank : Parms
blank = record { out = []; out_lineno = 0; found_id = true }

abbrev one_line : Parms
one_line = record { out = codes "one\n"; out_lineno = 1; found_id = true }

abbrev open_one : Bytes
open_one = 1 ∷ codes "I 1"

abbrev body : List Bytes
body = codes "one" ∷ (1 ∷ codes "E 1") ∷ []

abbrev none_open : ℕ → Option Kind
none_open n = none

abbrev one_open : ℕ → Option Kind
one_open = update none_open 1 (some insert)

-- The first delta owns its lines in every version that includes it.
first-Owner : (inc : ℕ → Bool) → inc 1 ≡ true → Owner inc one_open 1
first-Owner inc on = record {
  positive = omega arith;
  inserted = refl;
  included = on;
  latest = λ j p q. ground arith;
  undeleted = λ d p q. ground arith;
  unhidden = λ o p q.
      let at : o ≡ 1 = ground arith in let off = subst (λ k. inc k ≡ false) at q in ground arith;
}

first_wanted : Wants history 3 1
unfolding delta_at_seq position create_delta
first_wanted =
    ancestor
      (parent third_delta refl (omega arith) (parent second_delta refl (omega arith) (self refl)))

first_included : (st : SeqState) → IsPrepared history 3 st → is_included st 1 ≡ true
unfolding listed names delta_at_seq position create_delta
first_included st w = (w.decided 1 (omega arith)).1 (first_wanted, free, quiet)
  where
    free :
        (z : ℕ) → 0 < z → z ≤ 3 → Wants history 3 z → listed (λ d. d.excluded) history z 1 ≡ false
    free zero p q x = refl
    free (suc zero) p q x = refl
    free (suc (suc zero)) p q x = refl
    free (suc (suc (suc zero))) p q x = refl
    free (suc (suc (suc (suc z)))) p q x = absurd (omega arith)

    quiet :
        (z : ℕ)
        → 0 < z
        → z ≤ 3
        → is_included st z ≡ true
        → listed (λ d. d.ignored) history z 1 ≡ false
    quiet zero p q x = refl
    quiet (suc zero) p q x = refl
    quiet (suc (suc zero)) p q x = refl
    quiet (suc (suc (suc zero))) p q x = refl
    quiet (suc (suc (suc (suc z)))) p q x = absurd (omega arith)

body-Reads :
    (st : SeqState)
    → IsPrepared history 3 st
    → Reads
        (includes st.states)
        3
        none_open
        (opened insert 1 ∷ text (codes "one") ∷ closed 1 ∷ [])
        ((1, codes "one") ∷ [])
        (update one_open 1 none)
unfolding is_included
body-Reads st w = opens_block insert 1 (omega arith) refl (
    takes 1 (codes "one") (first-Owner (includes st.states) (first_included st w))
      (closes_block insert 1 (omega arith) refl nothing))

retrieved :
    (status : Status) × (get_version 9 plain true nothing_named nothing_named nothing_named history
        (release_1 3)
        (open_one ∷ body)
        blank
      ≡ value (status, one_line))
    × (status.lines ≡ 1)
unfolding find find_from selects removed is_eq delta_at_seq position create_delta events classify
    emit_all emit_line
retrieved =
    get_version_complete 9 plain history (release_1 3) third_delta open_one body blank
      (history-IsHistory 3 (omega arith)) (omega arith) (omega arith) refl refl (omega arith)
      (omega arith) one_line 1 (text (codes "one") ∷ closed 1 ∷ []) ((1, codes "one") ∷ [])
      (update one_open 1 none) refl refl refl refl body-Reads refl

get_version_complete_example :
    (status : Status) × (get_version 9 plain true nothing_named nothing_named nothing_named history
        (release_1 3)
        (open_one ∷ body)
        blank
      ≡ value (status, one_line))
    × (status.lines ≡ 1)
unfolding find find_from selects removed is_eq delta_at_seq position create_delta events classify
    emit_all emit_line
get_version_complete_example =
    get_version_complete 9 plain history (release_1 3) third_delta open_one body blank
      (history-IsHistory 3 (omega arith)) (omega arith) (omega arith) refl refl (omega arith)
      (omega arith) one_line 1 (text (codes "one") ∷ closed 1 ∷ []) ((1, codes "one") ∷ [])
      (update one_open 1 none) refl refl refl refl body-Reads refl

-- 1.2 is removed, and 2.1 is newer than the cutoff date.
abbrev late_delta : Delta
late_delta = create_delta b'D' (sid (pos 2) (pos 1) (pos 0) (pos 0)) 3 1 [] [] [] []

abbrev removed_delta : Delta
removed_delta = create_delta b'R' (release_1 2) 2 1 [] [] [] []

abbrev pruned : DeltaList
pruned = record {
  high_seqno = 3;
  high_release = late_delta.id;
  items = late_delta ∷ removed_delta ∷ first_delta ∷ [];
  seq_table = (1, 2) ∷ (2, 1) ∷ (3, 0) ∷ [];
}

abbrev is_late : Delta → Bool
is_late d = d.seq == 3

abbrev cut_state : SeqState
cut_state = elim (prepare_seqstate 9 nothing_named nothing_named is_late pruned 3 new_state) [
  | value st ↦ st
  | quit f ↦ new_state
]

late_excluded : (t : ℕ) → 2 < t → t ≤ 3 → is_excluded cut_state t ≡ true
unfolding prepare_seqstate descend checked_delta predecessor down up visit each is_included
    is_excluded set_included set_excluded set_ignored delta_at_seq delta_at_seq_exists position
    create_delta removed
late_excluded zero p q = absurd (omega arith)
late_excluded (suc zero) p q = absurd (omega arith)
late_excluded (suc (suc zero)) p q = absurd (omega arith)
late_excluded (suc (suc (suc zero))) p q = refl
late_excluded (suc (suc (suc (suc t)))) p q = absurd (omega arith)

get_version_null_example :
    get_version 9 plain true nothing_named nothing_named is_late pruned late_delta.id body blank
    ≡ quit null_delta
unfolding prepare_seqstate descend checked_delta predecessor down up visit each is_included
    is_excluded set_included set_excluded set_ignored delta_at_seq delta_at_seq_exists position
    create_delta removed find find_from selects is_eq create fill decide_disposition scan note
    settle
get_version_null_example =
    get_version_null 9 plain nothing_named nothing_named is_late pruned late_delta.id body blank
      new_state cut_state late_delta removed_delta 2 refl refl refl (omega arith) (omega arith)
      late_excluded refl refl refl refl
