-- ===== src/Git/Sidebar/Busy.antt =====
-- That the side bar shows a load only while one is under way
-- (web/src/features/files/GitFilesSidebar.tsx).
use mobilecoding.Base.{
  ◌<◌, ◌++◌, ◌≡◌, refl, inl, inr, Bool-cases, truthy, String, true, false, Option, none, some, List,
  [], ◌∷◌, length, length-append, arith,
}
use mobilecoding.Git.{thrown, not_ok, answer, Reply, GitFileStatus}
use mobilecoding.Git.Sidebar.{
  Page, Sidebar, Event, changes_cwd, refreshes, selects, closes_diff, status_reply, diff_reply,
  load_git_status, load_diff, step_sidebar, run_sidebar, open_sidebar, status_replied, diff_replied,
}

pub record IsBusy (p : Page) : Type 0 where
  pub status_under_way : p.view.loading ≡ true → 0 < length p.statuses
  pub diff_under_way : p.view.loading_diff ≡ true → 0 < length p.diffs

-- A request that was just sent is in flight.
sent_lem {ℓ} : {A : Type ℓ} (xs : List A) (x : A) → 0 < length (xs ++ x ∷ [])
sent_lem xs x = omega (arith, length-append xs (x ∷ []))

status_replied_lem :
    (r : Reply (Option (List GitFileStatus))) (v : Sidebar)
    → ((status_replied r v).loading ≡ false) × ((status_replied r v).loading_diff ≡ v.loading_diff)
unfolding status_replied
status_replied_lem (answer none) v = (refl, refl)
status_replied_lem (answer (some fs)) v = (refl, refl)
status_replied_lem (not_ok txt) v = (refl, refl)
status_replied_lem (thrown msg) v = (refl, refl)

module _ (encode : String → String) (token : Option String) where
  load_git_status-IsBusy :
      (p : Page)
      → (p.view.loading_diff ≡ true → 0 < length p.diffs)
      → IsBusy (load_git_status encode token p)
  unfolding load_git_status
  load_git_status-IsBusy p b = elim (Bool-cases (truthy token)) [
    | inl e ↦ rw e (record { status_under_way = λ h. sent_lem _ _; diff_under_way = b })
    | inr e ↦ rw e (record { status_under_way = λ h. cc; diff_under_way = b })
  ]

  step_sidebar-IsBusy : (e : Event) (p : Page) → IsBusy p → IsBusy (step_sidebar encode token e p)
  unfolding step_sidebar load_diff diff_replied
  step_sidebar-IsBusy (changes_cwd cwd) p b = load_git_status-IsBusy _ b.diff_under_way
  step_sidebar-IsBusy refreshes p b = load_git_status-IsBusy p b.diff_under_way
  step_sidebar-IsBusy (selects path) p b = record {
    status_under_way = b.status_under_way;
    diff_under_way = λ h. sent_lem _ _;
  }
  step_sidebar-IsBusy closes_diff p b = record {
    status_under_way = b.status_under_way;
    diff_under_way = b.diff_under_way;
  }
  step_sidebar-IsBusy (status_reply n r) p b = ground (arith, status_replied_lem r p.view)
  step_sidebar-IsBusy (diff_reply n r) p b = ground arith

  run_sidebar-IsBusy :
      (es : List Event) (p : Page) → IsBusy p → IsBusy (run_sidebar encode token es p)
  unfolding run_sidebar
  run_sidebar-IsBusy [] p b = b
  run_sidebar-IsBusy (e ∷ es) p b = run_sidebar-IsBusy es _ (step_sidebar-IsBusy e p b)

  -- Whatever happens to a side bar from its appearance on, it shows that it loads the list only while
  -- a request for the list is in flight, and that it loads a diff only while one for a diff is.
  run_sidebar-open_sidebar-IsBusy :
      (cwd : Option String) (es : List Event)
      → IsBusy (run_sidebar encode token es (open_sidebar encode token cwd))
  unfolding open_sidebar
  run_sidebar-open_sidebar-IsBusy cwd es =
      run_sidebar-IsBusy es _ (load_git_status-IsBusy _ (λ h. cc))
