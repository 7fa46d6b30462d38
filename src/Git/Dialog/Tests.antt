-- ===== src/Git/Dialog/Tests.antt =====
-- The theorems on the dialog at concrete inputs (mobile/src/components/terminal/GitDiffModal.tsx).
use mobilecoding.Base.{◌≡◌, refl, String, true, some, List, [], ◌∷◌}
use mobilecoding.Json.{obj, arr, field, end, nil, str, cons}
use mobilecoding.Diff.{Reading, nothing_read}
use mobilecoding.Git.{answer, remove_at}
use mobilecoding.Git.Dialog.{
  new_screen, DialogEvent, shows, closes, version_reply, status_reply, selects, step_dialog,
  run_dialog, show, version_replied, status_replied, array_or_none, load_ends, load_diff,
}
use mobilecoding.Git.Dialog.Hidden.{KeepsList, run_dialog-closes}

abbrev plain : String → String
plain s = s

-- The dialog is closed while its load awaits the list, which arrives after that.
abbrev opened : List DialogEvent
opened = shows ∷ version_reply 0 (answer (some "/home")) ∷ selects "a" ∷ []

abbrev late : List DialogEvent
late = status_reply 0 (answer (arr (cons (str "a") nil))) ∷ []

run_dialog-closes_example :
    KeepsList
      (step_dialog plain "http://h:1" "t" closes
        (run_dialog plain "http://h:1" "t" opened new_screen))
      (run_dialog plain "http://h:1" "t" late (
        step_dialog plain "http://h:1" "t" closes
          (run_dialog plain "http://h:1" "t" opened new_screen)))
run_dialog-closes_example = run_dialog-closes plain "http://h:1" "t" opened late (tt, tt)

-- Not closed, the dialog takes the list over.
taken_test :
    (run_dialog plain "http://h:1" "t" late
      (run_dialog plain "http://h:1" "t" opened new_screen)).view.files
    ≡ cons (str "a") nil
unfolding load_diff run_dialog step_dialog show version_replied status_replied load_ends
    array_or_none remove_at
taken_test = refl

abbrev listed : List DialogEvent
listed =
    shows
    ∷ version_reply 0 (answer (some "/home"))
    ∷ status_reply 0 (answer (obj (field "files" (arr (cons (str "a") nil)) end)))
    ∷ []

-- The object that the server sends shows no file.
no_files_test : (run_dialog plain "http://h:1" "t" listed new_screen).view.files ≡ nil
unfolding load_diff run_dialog step_dialog show version_replied status_replied load_ends
    array_or_none remove_at
no_files_test = refl

abbrev in_hunk : Reading
in_hunk = record nothing_read { in_hunk = true }
