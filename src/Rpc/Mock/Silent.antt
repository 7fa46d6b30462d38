-- ===== src/Rpc/Mock/Silent.antt =====
-- What the mock client does after it is disconnected (mobile/src/screens/TerminalScreen.tsx).
use mathlib.Core.List.{append-nil}
use mobilecoding.Base.{ℕ, suc, zero, ◌≡◌, refl, ◌∙◌, Bool, true, false, List, [], ◌∷◌, All}
use mobilecoding.Rpc.Mock.{
  MockClient, MockEvent, MockInput, dials, dial_timer, hangs_up, sends_mock, replies, connect_mock,
  dialled, disconnect_mock, reply_fires, hear, step_mock, run_mock,
}

abbrev pub is_send : MockInput → Bool
is_send (sends_mock m s t) = true
is_send _ = false

-- No reply is on its way, and these were heard.
abbrev IsSilent : List MockEvent → MockClient → Type 0
IsSilent h c = (c.waiting ≡ []) × (c.heard ≡ h)

dialled-IsSilent :
    (h : List MockEvent) (n : ℕ) (c : MockClient) → IsSilent h c → IsSilent h (dialled n c)
dialled-IsSilent h zero c s = s
dialled-IsSilent h (suc n) c s = s

step_mock-IsSilent :
    (h : List MockEvent) (i : MockInput) (c : MockClient)
    → is_send i ≡ false
    → IsSilent h c
    → IsSilent h (step_mock i c)
unfolding step_mock connect_mock disconnect_mock reply_fires hear
step_mock-IsSilent h dials c e s = s
step_mock-IsSilent h dial_timer c e s = dialled-IsSilent h c.dialling c s
step_mock-IsSilent h hangs_up c e (w, k) = (refl, k)
step_mock-IsSilent h (sends_mock m x t) c e s = absurd cc
step_mock-IsSilent h (replies now n) c e (w, k) = rw w (refl, append-nil c.heard ∙ k)

silent_lem :
    (is : List MockInput) (c : MockClient) (h : List MockEvent)
    → All (λ i. is_send i ≡ false) is
    → IsSilent h c
    → IsSilent h (run_mock is c)
unfolding run_mock
silent_lem [] c h a s = s
silent_lem (i ∷ is) c h (e, a) s = silent_lem is (step_mock i c) h a (step_mock-IsSilent h i c e s)

-- After it is disconnected the client reports no event until something is sent, whatever timers end:
-- the replies on their way are dropped.
pub run_mock-disconnect_mock :
    (is : List MockInput) (c : MockClient)
    → All (λ i. is_send i ≡ false) is
    → (run_mock is (disconnect_mock c)).heard ≡ c.heard
unfolding disconnect_mock
run_mock-disconnect_mock is c a = (silent_lem is (disconnect_mock c) c.heard a (refl, refl)).1
