-- ===== src/Status/Tests.antt =====
-- The theorem on the two bars at a concrete history (web/src/features/terminal/AgentStatusBar.tsx).
use mobilecoding.Base.{◌≡◌, ◌&&◌, not, false, none, []}
use mobilecoding.Chat.Reducer.{run, initial_state}
use mobilecoding.Chat.Sample.{history, blank}
use mobilecoding.Input.{InputBar}
use mobilecoding.Input.Keys.{is_disabled, on_key_down, button, is_abort, enter}
use mobilecoding.Status.{shows_active}
use mobilecoding.Status.Agrees.{run-shows_active}

abbrev bar : InputBar
bar = record {
  text = "draft";
  sending = false;
  history = [];
  history_cursor = none;
  saved_draft = "";
  stored_history = none;
  stored_draft = none;
}

run-shows_active_example :
    let s = (run history (initial_state 5 blank, blank)).0 in
    (is_abort (on_key_down s "draft" (enter false)) ≡ shows_active s)
    × (is_abort (button s bar) ≡ (not (is_disabled s) && (not s.stopping && shows_active s)))
run-shows_active_example = run-shows_active history 5 blank bar
