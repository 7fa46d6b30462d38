-- ===== src/Git/Sidebar/Selected.antt =====
-- Whose diff the side bar shows (web/src/features/files/GitFilesSidebar.tsx).
use mobilecoding.Base.{
  ℕ, zero, suc, ◌∙◌, ap, sym, Option-cases, ◌≡◌, ◌⊎◌, inl, inr, refl, String, true, false, Option,
  none, some, List, [], ◌∷◌, ◌++◌, get_elem?, truthy, Bool-cases, arith,
}
use mobilecoding.Git.{thrown, not_ok, answer, Asked, Reply, remove_at, GitFileStatus}
use mobilecoding.Git.Sidebar.{
  Page, Event, changes_cwd, refreshes, selects, closes_diff, status_reply, diff_reply,
  load_git_status, load_diff, diff_request, step_sidebar, run_sidebar, open_sidebar, status_replied,
  diff_replied, shown_diff,
}

-- The reply is what the server has for the file that was asked for.
abbrev Answers : (String → Reply String) → Option (Asked String) → Reply String → Type 0
Answers serve none r = Unit {0}
Answers serve (some q) r = r ≡ serve q.about

-- What the page knows of the diffs in flight and of the diff on display.
record Follows (serve : String → Reply String) (p : Page) : Type 0 where
  alone :
      (p.diffs ≡ [])
      ⊎ ((q : Asked String) × (p.diffs ≡ q ∷ [])
          × (p.view.loading_diff ≡ true)
          × ((path : String) → p.view.selected_file ≡ some path → path ≡ q.about))
  right :
      p.view.loading_diff ≡ false
      → (path : String) → p.view.selected_file ≡ some path
      → p.view.diff ≡ shown_diff (serve path)

only_lem : {A : Type 0} (n : ℕ) (q : A) (xs : List A) → xs ≡ [] → get_elem? xs n ≡ some q → ⊥
only_lem n q [] d e = cc
only_lem n q (x ∷ xs) d e = cc

single_lem :
    {A : Type 0} (n : ℕ) (q x : A) (xs : List A)
    → xs ≡ x ∷ []
    → get_elem? xs n ≡ some q
    → (remove_at n xs ≡ []) × (x ≡ q)
unfolding remove_at
single_lem n q x [] d e = cc
single_lem zero q x (y ∷ xs) d e = (cc, cc)
single_lem (suc n) q x (y ∷ []) d e = cc
single_lem (suc n) q x (y ∷ z ∷ xs) d e = cc

some_injective : {a b : String} → some a ≡ some b → b ≡ a
some_injective h = cc

module _ (encode : String → String) (token : Option String) (serve : String → Reply String) where
  -- A file is selected only while no diff is in flight, and the server's diffs do not change.
  abbrev IsCalm : List Event → Page → Type 0
  IsCalm [] p = Unit {0}
  IsCalm (selects path ∷ es) p =
      (p.diffs ≡ []) × IsCalm es (step_sidebar encode token (selects path) p)
  IsCalm (diff_reply n r ∷ es) p =
      Answers serve (get_elem? p.diffs n) r
      × IsCalm es (step_sidebar encode token (diff_reply n r) p)
  IsCalm (changes_cwd c ∷ es) p = IsCalm es (step_sidebar encode token (changes_cwd c) p)
  IsCalm (refreshes ∷ es) p = IsCalm es (step_sidebar encode token refreshes p)
  IsCalm (closes_diff ∷ es) p = IsCalm es (step_sidebar encode token closes_diff p)
  IsCalm (status_reply n r ∷ es) p = IsCalm es (step_sidebar encode token (status_reply n r) p)

  load_git_status-Follows :
      (p : Page) → Follows serve p → Follows serve (load_git_status encode token p)
  unfolding load_git_status
  load_git_status-Follows p f = elim (Bool-cases (truthy token)) [
    | inl e ↦ rw e (record { alone = f.alone; right = f.right })
    | inr e ↦ rw e (record { alone = f.alone; right = f.right })
  ]

  status_replied-Follows :
      (r : Reply (Option (List GitFileStatus))) (p : Page) (qs : List (Asked (Option String)))
      → Follows serve p
      → Follows serve (record p { view = status_replied r p.view; statuses = qs })
  unfolding status_replied
  status_replied-Follows (answer none) p qs f = record { alone = f.alone; right = f.right }
  status_replied-Follows (answer (some fs)) p qs f = record { alone = f.alone; right = f.right }
  status_replied-Follows (not_ok txt) p qs f = record { alone = f.alone; right = f.right }
  status_replied-Follows (thrown msg) p qs f = record { alone = f.alone; right = f.right }

  status_reply-Follows :
      (n : ℕ) (r : Reply (Option (List GitFileStatus))) (p : Page)
      → Follows serve p
      → Follows serve (step_sidebar encode token (status_reply n r) p)
  unfolding step_sidebar
  status_reply-Follows n r p f = elim (Option-cases (get_elem? p.statuses n)) [
    | inl e ↦ rw (e, step_sidebar) f
    | inr (q, e) ↦ rw (e, step_sidebar) (status_replied-Follows r p _ f)
  ]

  -- Of the only request in flight: nothing is left, and it is about the selected file.
  answered_lem :
      (n : ℕ) (q : Asked String) (p : Page)
      → Follows serve p
      → get_elem? p.diffs n ≡ some q
      → (remove_at n p.diffs ≡ [])
        × ((path : String) → p.view.selected_file ≡ some path → path ≡ q.about)
  unfolding remove_at
  answered_lem n q p f e = elim f.alone [
    | inl d ↦ absurd (only_lem n q p.diffs d e)
    | inr (q', d, l, mine) ↦
        let (g, same) = single_lem n q q' p.diffs d e in
        (g, λ path s. mine path s ∙ ap (λ (a : Asked String). a.about) same)
  ]

  diff_reply-Follows :
      (n : ℕ) (r : Reply String) (p : Page)
      → Answers serve (get_elem? p.diffs n) r
      → Follows serve p
      → Follows serve (step_sidebar encode token (diff_reply n r) p)
  unfolding step_sidebar diff_replied remove_at
  diff_reply-Follows n r p a f = elim (Option-cases (get_elem? p.diffs n)) [
    | inl e ↦ rw (e, step_sidebar) f
    | inr (q, e) ↦
        let (gone, mine) = answered_lem n q p f e in
        let same : r ≡ serve q.about = rw e at a in
        rw (e, step_sidebar)
          (record {
            alone = inl gone;
            right =
                λ h path s. rw same (ap (λ (t : String). shown_diff (serve t)) (sym (mine path s)));
          })
  ]

  load_diff-Follows :
      (path : String) (p : Page) → p.diffs ≡ [] → Follows serve (load_diff encode token path p)
  unfolding load_diff
  load_diff-Follows path p none_left = record {
    alone = inr (
      diff_request encode token path p,
      ap (λ (l : List (Asked String)). l ++ diff_request encode token path p ∷ []) none_left,
      refl,
      λ t s. some_injective s,
    );
    right = λ h. cc;
  }

  step_sidebar-Follows :
      (e : Event) (es : List Event) (p : Page)
      → IsCalm (e ∷ es) p
      → Follows serve p
      → Follows serve (step_sidebar encode token e p) × IsCalm es (step_sidebar encode token e p)
  unfolding step_sidebar
  step_sidebar-Follows (changes_cwd c) es p c' f = (
    load_git_status-Follows (record p { cwd = c }) (record { alone = f.alone; right = f.right }),
    c',
  )
  step_sidebar-Follows refreshes es p c f = (load_git_status-Follows p f, c)
  step_sidebar-Follows (selects path) es p c f = (load_diff-Follows path p c.0, c.1)
  step_sidebar-Follows closes_diff es p c f = (
    record {
      alone = elim f.alone [ inl e ↦ inl e | inr (q, e, l, s) ↦ inr (q, e, l, λ t h. cc) ];
      right = λ h t k. cc;
    },
    c,
  )
  step_sidebar-Follows (status_reply n r) es p c f = (status_reply-Follows n r p f, c)
  step_sidebar-Follows (diff_reply n r) es p c f = (diff_reply-Follows n r p c.0 f, c.1)

  run_sidebar-Follows :
      (es : List Event) (p : Page)
      → IsCalm es p
      → Follows serve p
      → Follows serve (run_sidebar encode token es p)
  unfolding run_sidebar
  run_sidebar-Follows [] p c f = f
  run_sidebar-Follows (e ∷ es) p c f =
      let (f', c') = step_sidebar-Follows e es p c f in run_sidebar-Follows es _ c' f'

  -- Where a file is selected only while no diff is in flight, and the server has one diff for each file, a
  -- side bar that is not loading a diff shows that of the selected file.
  pub run_sidebar-selected :
      (cwd : Option String) (es : List Event)
      → IsCalm es (open_sidebar encode token cwd)
      → (path : String)
      → (run_sidebar encode token es (open_sidebar encode token cwd)).view.loading_diff ≡ false
      → (run_sidebar encode token es (open_sidebar encode token cwd)).view.selected_file ≡ some path
      → (run_sidebar encode token es (open_sidebar encode token cwd)).view.diff
        ≡ shown_diff (serve path)
  unfolding open_sidebar
  run_sidebar-selected cwd es c path l s =
      let start : Follows serve (open_sidebar encode token cwd) =
        load_git_status-Follows _ (record { alone = inl refl; right = λ h t k. cc }) in
      (run_sidebar-Follows es _ c start).right l path s

  -- Two files that are selected one after the other: if the server answers the second before the
  -- first, the side bar shows the diff of the first one under the name of the second.
  pub selects-crossed :
      (p : Page) (first second : String)
      → p.diffs ≡ []
      → (run_sidebar encode token
          (selects first
            ∷ selects second
            ∷ diff_reply 1 (serve second)
            ∷ diff_reply 0 (serve first)
            ∷ [])
          p).view
        ≡ record p.view {
          selected_file = some second;
          diff = shown_diff (serve first);
          loading_diff = false;
        }
  unfolding run_sidebar step_sidebar load_diff diff_replied remove_at
  selects-crossed p first second e = ground (arith, e)
