-- ===== src/Rpc/Mock/Tests.antt =====
-- The mock client at concrete inputs (mobile/src/screens/TerminalScreen.tsx).
use mobilecoding.Base.{◌≡◌, refl, true, none, some, [], ◌∷◌}
use mobilecoding.Rpc.Mock.{
  new_mock, dials, dial_timer, hangs_up, sends_mock, replies, mock_text, mock_turn_end,
  connect_mock, disconnect_mock, send_mock, hear, reply_fires, step_mock, run_mock,
}

reply_test :
    (run_mock
      (dials ∷ dial_timer ∷ sends_mock "session.input" none (some "hi") ∷ replies 7 0 ∷ [])
      new_mock).heard
    ≡ mock_text "default-session" "好的，已收到：hi（Mock 回复）" 7 ∷ mock_turn_end "default-session" 8 ∷ []
unfolding run_mock step_mock connect_mock send_mock reply_fires hear
reply_test = refl

-- A client that is disconnected while it dials is connected once the timer ends.
late_test : (run_mock (dials ∷ hangs_up ∷ dial_timer ∷ []) new_mock).connected ≡ true
unfolding run_mock step_mock connect_mock disconnect_mock
late_test = refl
