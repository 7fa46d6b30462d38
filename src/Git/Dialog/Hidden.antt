-- ===== src/Git/Dialog/Hidden.antt =====
-- That a load of the dialog ends with the dialog (mobile/src/components/terminal/GitDiffModal.tsx).
use mobilecoding.Base.{
  ℕ, ◌≡◌, refl, sym, subst, String, Bool, true, false, Option, List, [], ◌∷◌, ◌∙◌, get_elem?, All,
  All-get_elem?, Option-cases, inl, inr, if_intro,
}
use mobilecoding.Json.{Json}
use mobilecoding.Git.{Reply, answer, not_ok, thrown, remove_at, All-remove_at}
use mobilecoding.Git.Dialog.{
  Dialog, Load, asks_version, asks_status, Screen, new_screen, DialogEvent, shows, closes,
  version_reply, status_reply, selects, diff_reply, hide, handle_close, load_fails, load_ends,
  version_replied, status_replied, load_diff, diff_replied, step_dialog, run_dialog, version_at,
  status_at,
}
use mobilecoding.Git.Dialog.Current.{
  AreCurrent, cancel-IsCancelled, visible_absurd, hidden_lem, run_dialog-AreCurrent,
}

abbrev IsCancelled : Load → Type 0
IsCancelled l = l.cancelled ≡ true

record IsHidden (s : Screen) : Type 0 where
  hidden : s.view.visible ≡ false
  ended : All IsCancelled s.loads

-- The list of files, the directory and the indicator of the load are as before.
pub record KeepsList (s t : Screen) : Type 0 where
  pub files_kept : t.view.files ≡ s.view.files
  pub cwd_kept : t.view.cwd ≡ s.view.cwd
  pub loading_kept : t.view.loading ≡ s.view.loading

abbrev kept : {s : Screen} → KeepsList s s
kept = record { files_kept = refl; cwd_kept = refl; loading_kept = refl }

abbrev pub IsNoShow : DialogEvent → Type 0
IsNoShow shows = ⊥
IsNoShow _ = Unit {0}

-- What a step leaves of a hidden dialog.
abbrev Stays : Screen → Screen → Type 0
Stays s t = IsHidden t × KeepsList s t

load_fails_cancelled : (c : Bool) (v : Dialog) → c ≡ true → load_fails c v ≡ v
unfolding load_fails
load_fails_cancelled c v e = rw (e, load_fails) refl

load_ends_cancelled : (c : Bool) (j : Json) (v : Dialog) → c ≡ true → load_ends c j v ≡ v
unfolding load_ends
load_ends_cancelled c j v e = rw (e, load_ends) refl

-- The load at a place is over.
over_lem :
    (n : ℕ) (s : Screen) (v : Dialog)
    → v ≡ s.view
    → IsHidden s
    → Stays s (record s { view = v; loads = remove_at n s.loads })
over_lem n s v e h =
    subst (λ (w : Dialog). Stays s (record s { view = w; loads = remove_at n s.loads })) (sym e)
      (
        record { hidden = h.hidden; ended = All-remove_at IsCancelled n s.loads h.ended },
        record { files_kept = refl; cwd_kept = refl; loading_kept = refl },
      )

module _ (encode : String → String) (base_url token : String) where
  version_replied-Stays :
      (n : ℕ) (l : Load) (r : Reply (Option String)) (s : Screen)
      → IsCancelled l
      → IsHidden s
      → Stays s (version_replied encode base_url token n l r s)
  unfolding version_replied
  version_replied-Stays n l (answer c) s p h =
      if_intro (Stays s) l.cancelled _ _ (λ e. over_lem n s s.view refl h)
        (λ e. absurd (visible_absurd p e))
  version_replied-Stays n l (not_ok m) s p h = over_lem n s _ (load_fails_cancelled _ s.view p) h
  version_replied-Stays n l (thrown m) s p h = over_lem n s _ (load_fails_cancelled _ s.view p) h

  status_replied-Stays :
      (n : ℕ) (l : Load) (r : Reply Json) (s : Screen)
      → IsCancelled l
      → IsHidden s
      → Stays s (status_replied encode base_url token n l r s)
  unfolding status_replied
  status_replied-Stays n l (answer j) s p h = over_lem n s _ (load_ends_cancelled _ j s.view p) h
  status_replied-Stays n l (not_ok m) s p h = over_lem n s _ (load_fails_cancelled _ s.view p) h
  status_replied-Stays n l (thrown m) s p h = over_lem n s _ (load_fails_cancelled _ s.view p) h

  version_at-Stays :
      (n : ℕ) (r : Reply (Option String)) (s : Screen)
      → IsHidden s
      → Stays s (version_at encode base_url token n r (get_elem? s.loads n) s)
  version_at-Stays n r s h = elim (Option-cases (get_elem? s.loads n)) [
    | inl e ↦ rw e (h, kept)
    | inr (l, e) ↦
        let p = All-get_elem? IsCancelled n l s.loads h.ended e in
        rw e
          (elim l.stage
            as (λ st. Stays s (elim st [
              | asks_version ↦ version_replied encode base_url token n l r s
              | asks_status ↦ s
            ])) [ asks_version ↦ version_replied-Stays n l r s p h | asks_status ↦ (h, kept) ])
  ]

  status_at-Stays :
      (n : ℕ) (r : Reply Json) (s : Screen)
      → IsHidden s
      → Stays s (status_at encode base_url token n r (get_elem? s.loads n) s)
  status_at-Stays n r s h = elim (Option-cases (get_elem? s.loads n)) [
    | inl e ↦ rw e (h, kept)
    | inr (l, e) ↦
        let p = All-get_elem? IsCancelled n l s.loads h.ended e in
        rw e
          (elim l.stage
            as (λ st. Stays s (elim st [
              | asks_version ↦ s
              | asks_status ↦ status_replied encode base_url token n l r s
            ])) [ asks_version ↦ (h, kept) | asks_status ↦ status_replied-Stays n l r s p h ])
  ]

  step_dialog-Stays :
      (e : DialogEvent) (s : Screen)
      → IsNoShow e
      → IsHidden s
      → Stays s (step_dialog encode base_url token e s)
  unfolding step_dialog handle_close hide load_diff diff_replied
  step_dialog-Stays shows s n h = absurd n
  step_dialog-Stays closes s n h =
      if_intro (Stays s) s.view.visible _ _ (λ e. absurd (visible_absurd e h.hidden))
        (λ e. (
          record { hidden = h.hidden; ended = h.ended },
          record { files_kept = refl; cwd_kept = refl; loading_kept = refl },
        ))
  step_dialog-Stays (version_reply m r) s n h = version_at-Stays m r s h
  step_dialog-Stays (status_reply m r) s n h = status_at-Stays m r s h
  step_dialog-Stays (selects path) s n h = (
    record { hidden = h.hidden; ended = h.ended },
    record { files_kept = refl; cwd_kept = refl; loading_kept = refl },
  )
  step_dialog-Stays (diff_reply m r) s n h = elim (Option-cases (get_elem? s.diffs m)) [
    | inl e ↦ rw (e, step_dialog) (h, kept)
    | inr (q, e) ↦
        rw (e, step_dialog)
          (
            record { hidden = h.hidden; ended = h.ended },
            record { files_kept = refl; cwd_kept = refl; loading_kept = refl },
          )
  ]

  run_dialog-Stays :
      (es : List DialogEvent) (s : Screen)
      → All IsNoShow es
      → IsHidden s
      → KeepsList s (run_dialog encode base_url token es s)
  unfolding run_dialog
  run_dialog-Stays [] s n h = kept
  run_dialog-Stays (e ∷ es) s n h =
      let (h', k) = step_dialog-Stays e s n.0 h in
      let k' = run_dialog-Stays es _ n.1 h' in
      record {
        files_kept = k'.files_kept ∙ k.files_kept;
        cwd_kept = k'.cwd_kept ∙ k.cwd_kept;
        loading_kept = k'.loading_kept ∙ k.loading_kept;
      }

  closes-IsHidden :
      (s : Screen) → AreCurrent s → IsHidden (step_dialog encode base_url token closes s)
  unfolding step_dialog handle_close hide
  closes-IsHidden s h =
      if_intro IsHidden s.view.visible _ _
        (λ e. record { hidden = refl; ended = cancel-IsCancelled _ s.openings s.loads h })
        (λ e. record { hidden = e; ended = hidden_lem s h e })

  -- After any use of the dialog, once it is closed and until it is shown again, nothing that arrives
  -- changes its list of files, its directory or its indicator: not even the answers of a load that was
  -- under way.
  pub run_dialog-closes :
      (es later : List DialogEvent)
      → All IsNoShow later
      → KeepsList
          (step_dialog encode base_url token closes
            (run_dialog encode base_url token es new_screen))
          (run_dialog encode base_url token later (
            step_dialog encode base_url token closes
              (run_dialog encode base_url token es new_screen)))
  run_dialog-closes es later n =
      run_dialog-Stays later _ n
        (closes-IsHidden _ (run_dialog-AreCurrent encode base_url token es new_screen tt))
