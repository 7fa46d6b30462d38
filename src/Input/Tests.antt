-- ===== src/Input/Tests.antt =====
-- The theorems on the input bar at concrete inputs (web/src/features/terminal/InputBar.tsx).
use mobilecoding.Base.{
  ◌≡◌, refl, zero, suc, true, false, none, some, List, [], ◌∷◌, includes, strip_prefix, arith,
}
use mobilecoding.Controls.{is_remote_cli_not_ready}
use mobilecoding.Chat.State.{ChatState}
use mobilecoding.Input.{
  InputBar, Direction, save_draft, load_draft, handle_send, save_history, remember,
}
use mobilecoding.Chat.Detect.{trim}
use mobilecoding.Chat.Sample.{fresh}
use mobilecoding.Input.Keys.{
  on_key_down, press_arrow, button, is_abort, enter, is_disabled, is_active,
}
use mobilecoding.Input.Drafts.{
  Desk, DeskEvent, types, sends, send_ends, switches, IsCalmRun, start_sending, give_back,
  send_ended, switch_to, run_desk, step_desk, put_text, run_desk-back,
}
use mobilecoding.Input.Browse.{HasLines, presses, at_entry, restored, presses-round}

abbrev bar : InputBar
bar = record {
  text = "draft";
  sending = false;
  history = "b" ∷ "a" ∷ [];
  history_cursor = none;
  saved_draft = "";
  stored_history = none;
  stored_draft = none;
}

bar-HasLines : HasLines 1 bar
unfolding includes strip_prefix
bar-HasLines zero p = refl
bar-HasLines (suc zero) p = refl
bar-HasLines (suc (suc i)) p = refl

presses-round_example :
    (presses fresh Direction.up 2 bar ≡ at_entry 1 bar)
    × (presses fresh Direction.down 2 (presses fresh Direction.up 2 bar) ≡ restored bar)
unfolding includes strip_prefix
presses-round_example = presses-round fresh 1 bar refl (omega arith) refl bar-HasLines

-- On a text of several lines the key leaves the bar.
lines_test :
    press_arrow fresh Direction.up (record bar { text = "a\nb" }) ≡ record bar { text = "a\nb" }
unfolding press_arrow on_key_down includes strip_prefix
lines_test = refl

-- While a stop is under way the button is dead, and the enter key still aborts the turn.
stopping_test :
    let s : ChatState = record fresh { stopping = true; turn_active = true } in
    (is_abort (on_key_down s "" (enter false)) ≡ true) × (is_abort (button s bar) ≡ false)
unfolding on_key_down button is_active is_disabled is_remote_cli_not_ready
stopping_test = (refl, refl)

abbrev desk : Desk
desk = record {
  session = "a";
  bar = record bar { text = "" };
  others = λ k. none;
  in_flight = none;
}

-- An input is sent and given back, and then another session is opened.
abbrev failing : List DeskEvent
failing = types "mine" ∷ sends ∷ send_ends false ∷ []

failing-IsCalmRun : IsCalmRun failing desk
unfolding step_desk put_text save_draft start_sending handle_send save_history remember trim
failing-IsCalmRun = (tt, (tt, ((λ id txt e. cc), tt)))

run_desk-back_example :
    (run_desk (switches "b" ∷ types "other" ∷ switches "a" ∷ []) (run_desk failing desk)).bar.text
    ≡ "mine"
unfolding run_desk step_desk put_text save_draft load_draft start_sending handle_send save_history
    remember trim send_ended give_back
run_desk-back_example = run_desk-back failing desk "b" "other" refl failing-IsCalmRun refl

-- The send fails after another session was opened: its text is shown there, and is not what is stored
-- there; typed on, it would become that session's draft.
crossed_test :
    let d = run_desk (types "mine" ∷ sends ∷ switches "b" ∷ send_ends false ∷ []) desk in
    (d.bar.text ≡ "mine") × (d.bar.stored_draft ≡ none) × (d.others "a" ≡ some "mine")
unfolding run_desk step_desk put_text save_draft load_draft start_sending handle_send save_history
    remember trim send_ended give_back switch_to
crossed_test = (refl, refl, refl)
