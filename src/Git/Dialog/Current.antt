-- ===== src/Git/Dialog/Current.antt =====
-- Which of the dialog's loads is current (mobile/src/components/terminal/GitDiffModal.tsx).
use mobilecoding.Base.{
  ℕ, zero, suc, text_of, ◌≡◌, refl, subst, All-mono, String, Bool, true, false, Option, List, [],
  ◌∷◌, get_elem?, set, All, All-append, All-get_elem?, Option-cases, inl, inr, arith, if_intro,
}
use mobilecoding.Json.{Json}
use mobilecoding.Git.{Reply, answer, not_ok, thrown, remove_at, All-remove_at}
use mobilecoding.Git.Dialog.{
  Dialog, Load, asks_version, asks_status, Screen, DialogEvent, shows, closes, version_reply,
  status_reply, selects, diff_reply, cancel, hide, handle_close, load_fails, load_ends, show,
  version_replied, status_replied, load_diff, diff_replied, step_dialog, run_dialog, asks_list,
  version_at, status_at,
}

-- A load that is not cancelled is that of the opening that the dialog shows.
abbrev pub IsCurrent : Bool → ℕ → Load → Type 0
IsCurrent shown n l = l.cancelled ≡ false → (shown ≡ true) × (l.opening ≡ n)

abbrev pub AreCurrent : Screen → Type 0
AreCurrent s = All (IsCurrent s.view.visible s.openings) s.loads

All-set {ℓ} :
    {A : Type 0} (P : A → Type ℓ) (n : ℕ) (v : A) (xs : List A)
    → P v
    → All P xs
    → All P (set xs n v)
All-set P n v [] p h = tt
All-set P zero v (x ∷ xs) p h = (p, h.1)
All-set P (suc n) v (x ∷ xs) p h = (h.0, All-set P n v xs p h.1)

-- Once cancelled, none of the loads is current.
pub cancel-IsCancelled :
    (b : Bool) (n : ℕ) (ls : List Load)
    → All (IsCurrent b n) ls
    → All (λ (l : Load). l.cancelled ≡ true) (cancel n ls)
unfolding cancel
cancel-IsCancelled b n [] h = tt
cancel-IsCancelled b n (l ∷ ls) (p, h) = (ground (arith, p), cancel-IsCancelled b n ls h)

-- What a load writes while it runs: nothing if it is cancelled, and never whether the dialog shows.
load_fails-visible : (c : Bool) (v : Dialog) → v.visible ≡ (load_fails c v).visible
unfolding load_fails
load_fails-visible true v = refl
load_fails-visible false v = refl

load_ends-visible : (c : Bool) (j : Json) (v : Dialog) → v.visible ≡ (load_ends c j v).visible
unfolding load_ends
load_ends-visible true j v = refl
load_ends-visible false j v = refl

pub visible_absurd : {b : Bool} → b ≡ true → b ≡ false → ⊥
visible_absurd p q = cc

load_fails-AreCurrent :
    (n : ℕ) (l : Load) (s : Screen)
    → AreCurrent s
    → AreCurrent (record s { view = load_fails l.cancelled s.view; loads = remove_at n s.loads })
load_fails-AreCurrent n l s h =
    subst (λ (b : Bool). All (IsCurrent b s.openings) (remove_at n s.loads))
      (load_fails-visible l.cancelled s.view) (All-remove_at _ n s.loads h)

-- A hidden dialog has no load that is current.
pub hidden_lem :
    (s : Screen)
    → AreCurrent s
    → s.view.visible ≡ false
    → All (λ (l : Load). l.cancelled ≡ true) s.loads
hidden_lem s h e =
    All-mono (IsCurrent s.view.visible s.openings) (λ (l : Load). l.cancelled ≡ true) s.loads
      (λ l p. ground (arith, p, e)) h

hide-AreCurrent : (s : Screen) → AreCurrent s → AreCurrent (hide s)
unfolding hide
hide-AreCurrent s h =
    if_intro AreCurrent s.view.visible _ _
      (λ e.
        All-mono (λ (l : Load). l.cancelled ≡ true) (IsCurrent false s.openings)
          (cancel s.openings s.loads) (λ l p c. absurd (visible_absurd p c))
          (cancel-IsCancelled _ s.openings s.loads h))
      (λ e. h)

module _ (encode : String → String) (base_url token : String) where
  show-AreCurrent : (s : Screen) → AreCurrent s → AreCurrent (show encode base_url token s)
  unfolding show
  show-AreCurrent s h =
      if_intro AreCurrent s.view.visible _ _ (λ e. h)
        (λ e.
          All-append (IsCurrent true (suc s.openings)) s.loads _
            (All-mono (IsCurrent s.view.visible s.openings) (IsCurrent true (suc s.openings))
              s.loads (λ l p c. absurd (visible_absurd (p c).0 e)) h)
            (λ c. (refl, refl), tt))

  version_replied-AreCurrent :
      (n : ℕ) (l : Load) (r : Reply (Option String)) (s : Screen)
      → IsCurrent s.view.visible s.openings l
      → AreCurrent s
      → AreCurrent (version_replied encode base_url token n l r s)
  unfolding version_replied
  version_replied-AreCurrent n l (answer c) s p h =
      if_intro AreCurrent l.cancelled _ _ (λ e. All-remove_at _ n s.loads h)
        (λ e.
          All-set (IsCurrent s.view.visible s.openings) n
            (asks_list encode base_url token l (text_of c)) s.loads p h)
  version_replied-AreCurrent n l (not_ok m) s p h = load_fails-AreCurrent n l s h
  version_replied-AreCurrent n l (thrown m) s p h = load_fails-AreCurrent n l s h

  status_replied-AreCurrent :
      (n : ℕ) (l : Load) (r : Reply Json) (s : Screen)
      → AreCurrent s
      → AreCurrent (status_replied encode base_url token n l r s)
  unfolding status_replied
  status_replied-AreCurrent n l (answer j) s h =
      subst (λ (b : Bool). All (IsCurrent b s.openings) (remove_at n s.loads))
        (load_ends-visible l.cancelled j s.view) (All-remove_at _ n s.loads h)
  status_replied-AreCurrent n l (not_ok m) s h = load_fails-AreCurrent n l s h
  status_replied-AreCurrent n l (thrown m) s h = load_fails-AreCurrent n l s h

  version_at-AreCurrent :
      (n : ℕ) (r : Reply (Option String)) (s : Screen)
      → AreCurrent s
      → AreCurrent (version_at encode base_url token n r (get_elem? s.loads n) s)
  version_at-AreCurrent n r s h = elim (Option-cases (get_elem? s.loads n)) [
    | inl e ↦ rw e h
    | inr (l, e) ↦
        let p = All-get_elem? (IsCurrent s.view.visible s.openings) n l s.loads h e in
        rw e
          (elim l.stage
            as (λ st. AreCurrent (elim st [
              | asks_version ↦ version_replied encode base_url token n l r s
              | asks_status ↦ s
            ])) [ asks_version ↦ version_replied-AreCurrent n l r s p h | asks_status ↦ h ])
  ]

  status_at-AreCurrent :
      (n : ℕ) (r : Reply Json) (s : Screen)
      → AreCurrent s
      → AreCurrent (status_at encode base_url token n r (get_elem? s.loads n) s)
  status_at-AreCurrent n r s h = elim (Option-cases (get_elem? s.loads n)) [
    | inl e ↦ rw e h
    | inr (l, e) ↦
        rw e
          (elim l.stage
            as (λ st. AreCurrent (elim st [
              | asks_version ↦ s
              | asks_status ↦ status_replied encode base_url token n l r s
            ])) [ asks_version ↦ h | asks_status ↦ status_replied-AreCurrent n l r s h ])
  ]

  step_dialog-AreCurrent :
      (e : DialogEvent) (s : Screen)
      → AreCurrent s
      → AreCurrent (step_dialog encode base_url token e s)
  unfolding step_dialog handle_close load_diff diff_replied
  step_dialog-AreCurrent shows s h = show-AreCurrent s h
  step_dialog-AreCurrent closes s h = hide-AreCurrent _ h
  step_dialog-AreCurrent (version_reply n r) s h = version_at-AreCurrent n r s h
  step_dialog-AreCurrent (status_reply n r) s h = status_at-AreCurrent n r s h
  step_dialog-AreCurrent (selects path) s h = h
  step_dialog-AreCurrent (diff_reply n r) s h = elim (Option-cases (get_elem? s.diffs n)) [
    | inl e ↦ rw (e, step_dialog) h
    | inr (q, e) ↦ rw (e, step_dialog) h
  ]

  pub run_dialog-AreCurrent :
      (es : List DialogEvent) (s : Screen)
      → AreCurrent s
      → AreCurrent (run_dialog encode base_url token es s)
  unfolding run_dialog
  run_dialog-AreCurrent [] s h = h
  run_dialog-AreCurrent (e ∷ es) s h = run_dialog-AreCurrent es _ (step_dialog-AreCurrent e s h)
