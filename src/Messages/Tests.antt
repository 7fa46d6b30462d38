-- ===== src/Messages/Tests.antt =====
-- The list of messages at concrete events (web/src/features/terminal/MessageList.tsx).
use mobilecoding.Base.{◌≡◌, refl, false, suc, eqb, List, [], ◌∷◌, if◌then◌else◌}
use mobilecoding.Messages.{
  ListEvent, scrolls, counts, presses, on_scroll, follow, scroll_to_bottom, mount_list, step_list,
  run_list,
}
use mobilecoding.Messages.Follows.{run_list-jumps}

-- The reader goes up, a message comes.
abbrev reading : List ListEvent
reading = scrolls 1000 100 300 ∷ counts 3 ∷ []

-- The end is left alone while the reader is above it, and taken again with the button.
reads_test :
    ((run_list reading (mount_list 2)).jumps ≡ 1)
    × ((run_list (counts 4 ∷ []) (step_list presses (run_list reading (mount_list 2)))).jumps ≡ 3)
unfolding run_list step_list on_scroll follow scroll_to_bottom mount_list
reads_test = (refl, refl)

-- The same reader of a list that was empty at first is taken to its end.
deaf_test : (run_list (counts 2 ∷ scrolls 1000 100 300 ∷ counts 3 ∷ []) (mount_list 0)).jumps ≡ 2
unfolding run_list step_list on_scroll follow mount_list
deaf_test = refl

-- A full list gets another message: the number stays, and the reader at its end is left behind.
full_test : (run_list (counts 500 ∷ []) (mount_list 500)).jumps ≡ 1
unfolding run_list step_list on_scroll follow mount_list
full_test = refl

run_list-jumps_example :
    ((step_list (counts 4) (run_list reading (mount_list 2))).jumps ≡ (
      if eqb 4 (run_list reading (mount_list 2)).count
      then (run_list reading (mount_list 2)).jumps
      else if (run_list reading (mount_list 2)).show_scroll_btn
      then (run_list reading (mount_list 2)).jumps
      else suc (run_list reading (mount_list 2)).jumps))
    × ((run_list reading (mount_list 0)).show_scroll_btn ≡ false)
unfolding run_list step_list on_scroll follow mount_list
run_list-jumps_example = run_list-jumps 2 4 reading refl
