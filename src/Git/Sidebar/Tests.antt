-- ===== src/Git/Sidebar/Tests.antt =====
-- The theorems on the side bar at concrete inputs (web/src/features/files/GitFilesSidebar.tsx).
use mathlib.Core.List.{Perm}
use mobilecoding.Base.{
  ◌≡◌, refl, String, true, false, Option, none, some, List, [], ◌∷◌, ◌++◌, concat,
}
use mobilecoding.Git.{GitFileStatus, Reply, answer, not_ok, remove_at}
use mobilecoding.Git.Sidebar.{
  Page, Event, refreshes, selects, status_reply, diff_reply, load_git_status, load_diff,
  step_sidebar, run_sidebar, open_sidebar, diff_replied, shown_diff, new_sidebar, staged_files,
  unstaged_files, untracked_files,
}
use mobilecoding.Git.Sidebar.Groups.{groups-Perm}
use mobilecoding.Git.Sidebar.Selected.{run_sidebar-selected, selects-crossed}

abbrev plain : String → String
plain s = s

abbrev token : Option String
token = some "t"

-- Two files that are staged and changed, and one that git does not know.
abbrev changed : List GitFileStatus
changed =
    record { path = "a"; status = "M"; staged = true }
    ∷ record { path = "b"; status = "??"; staged = false }
    ∷ record { path = "c"; status = "D"; staged = false }
    ∷ []

abbrev use_of : List Event
use_of =
    status_reply 0 (answer (some changed))
    ∷ selects "a"
    ∷ diff_reply 0 (not_ok "500")
    ∷ refreshes
    ∷ []

groups_test :
    Perm (staged_files changed ++ (unstaged_files changed ++ untracked_files changed)) changed
groups_test = groups-Perm changed (refl, (refl, (refl, tt)))

abbrev served : String → Reply String
served path = answer (concat "diff of " path)

abbrev calm : List Event
calm =
    selects "a"
    ∷ diff_reply 0 (answer "diff of a")
    ∷ selects "b"
    ∷ refreshes
    ∷ diff_reply 0 (answer "diff of b")
    ∷ []

run_sidebar-selected_example :
    (run_sidebar plain token calm (open_sidebar plain token none)).view.diff
    ≡ shown_diff (served "b")
unfolding run_sidebar step_sidebar open_sidebar load_git_status load_diff diff_replied remove_at
run_sidebar-selected_example =
    run_sidebar-selected plain token served none calm (refl, (refl, (refl, (refl, tt)))) "b" refl
      refl

abbrev quiet : Page
quiet = record { cwd = none; view = new_sidebar; statuses = []; diffs = [] }

-- Two files whose answers arrive in the other order.
crossed_test :
    (run_sidebar plain token
      (selects "a" ∷ selects "b" ∷ diff_reply 1 (served "b") ∷ diff_reply 0 (served "a") ∷ [])
      quiet).view
    ≡ record quiet.view {
      selected_file = some "b";
      diff = shown_diff (served "a");
      loading_diff = false;
    }
crossed_test = selects-crossed plain token served quiet "a" "b" refl
