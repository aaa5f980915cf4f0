-- ===== src/Examples/Locks.antt =====
-- Lists of SIDs and edit locks at concrete values.
use cssc.Common.{ℕ, ◌<◌, ◌^◌, ◌≡◌, refl, codes, List, [], ◌∷◌, true, false, none, arith, All}
use cssc.Common.Int.{pos}
use cssc.Common.Runs.{value}
use cssc.Sid.{Sid, sid, is_le, is_lt, is_gt, increment, decrement, comparable, gt, gte, valid}
use cssc.Sid.Line.{trunk, IsTrunk}
use cssc.Sid.Text.{IsPrintable, level_sid}
use cssc.SidList.{Range, SidList, empty_list, member, clean, clean_loop, insert, absorb, join}
use cssc.SidList.Clean.{IsSeparated, all_ordered, clean-member}
use cssc.Pfile.{EditLock}
use cssc.Pfile.File.{update, read_pfile}
use cssc.Pfile.RoundTrip.{read_pfile-update}
use cssc.Examples.Calendar.{leap_day, leap_day-IsMade}
use cssc.Dates.{update_yearday}

abbrev level : ℕ → Sid
level l = sid (pos 1) (pos l) (pos 0) (pos 0)

three_on : IsTrunk (level 3)
three_on = (1, 3, omega arith, omega arith, omega arith, omega arith, refl)

four_on : IsTrunk (level 4)
four_on = (1, 4, omega arith, omega arith, omega arith, omega arith, refl)

six_on : IsTrunk (level 6)
six_on = (1, 6, omega arith, omega arith, omega arith, omega arith, refl)

nine_on : IsTrunk (level 9)
nine_on = (1, 9, omega arith, omega arith, omega arith, omega arith, refl)

abbrev range : ℕ → ℕ → Range
range a b = record { from = level a; to = level b }

-- The second range touches the first one, the third one is inside it.
abbrev touching : SidList
touching = record { head = range 3 4 ∷ range 4 9 ∷ range 6 6 ∷ []; valid_flag = true }

clean-member_example :
    IsSeparated trunk (clean touching).head
    × ((clean touching).valid_flag ≡ all_ordered touching.head)
    × ((id : Sid) → IsTrunk id → member id (clean touching).head ≡ member id touching.head)
clean-member_example =
    clean-member trunk touching refl
      ((three_on, four_on), ((four_on, nine_on), ((six_on, six_on), tt)))

abbrev low : SidList
low = record { head = range 3 4 ∷ []; valid_flag = true }

abbrev high : SidList
high = record { head = range 6 9 ∷ []; valid_flag = true }

abbrev gapped : List Range
gapped = range 3 4 ∷ range 6 9 ∷ []

gapped-IsSeparated : IsSeparated trunk gapped
gapped-IsSeparated =
    ((three_on, four_on, omega arith), (omega arith, tt), ((six_on, nine_on, omega arith), tt, tt))

printable : (l : ℕ) → 0 < l → l < 2 ^ 15 → IsPrintable (level l)
printable l p q = level_sid 1 l (omega arith) (omega arith) p q

gapped_printable : All (λ r. IsPrintable r.from × IsPrintable r.to) gapped
gapped_printable = (
  (printable 3 (omega arith) (omega arith), printable 4 (omega arith) (omega arith)),
  ((printable 6 (omega arith) (omega arith), printable 9 (omega arith) (omega arith)), tt),
)

abbrev ann : EditLock
ann = record {
  got = level 3;
  delta = level 4;
  user = codes "ann";
  date = leap_day;
  include = record { head = gapped; valid_flag = true };
  exclude = empty_list;
}

read_pfile-update_example : read_pfile (update (ann ∷ []) false none) ≡ value (ann ∷ [])
unfolding update_yearday
read_pfile-update_example =
    read_pfile-update (ann ∷ []) false none
      (
        record {
          got = printable 3 (omega arith) (omega arith);
          delta = printable 4 (omega arith) (omega arith);
          user = ((refl, refl), ((refl, refl), ((refl, refl), tt)));
          made = leap_day-IsMade;
          from = omega arith;
          to = omega arith;
          include = (trunk, refl, gapped-IsSeparated, gapped_printable);
          exclude = (trunk, refl, tt, tt);
        },
        tt,
      )
      (λ h. refl)

abbrev on_branch : ℕ → ℕ → Sid
on_branch r l = sid (pos r) (pos l) (pos 1) (pos 1)

abbrev two_branches : List Range
two_branches =
    record { from = on_branch 3 2; to = on_branch 3 2 }
    ∷ record { from = on_branch 1 3; to = on_branch 3 3 }
    ∷ []

-- Over several releases a SID of a branch can get lost.
branch_lost :
    (member (on_branch 3 2) two_branches ≡ true)
    × (member (on_branch 3 2) (clean (record { head = two_branches; valid_flag = true })).head
        ≡ false)
unfolding member clean clean_loop insert absorb join is_le is_lt is_gt increment decrement
    comparable gt gte valid
branch_lost = (refl, refl)
