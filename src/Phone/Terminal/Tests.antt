-- ===== src/Phone/Terminal/Tests.antt =====
-- The phone's screen at concrete inputs (mobile/src/screens/TerminalScreen.tsx).
use mobilecoding.Base.{
  ◌≡◌, refl, true, false, Option, none, some, List, [], ◌∷◌, All, String, strip_prefix, includes,
}
use mobilecoding.Json.{ℤ, Json}
use mobilecoding.Event.{AppEvent, Payload, is_permission}
use mobilecoding.Phone.Terminal.{
  kept_args, local, Route, Screen, new_screen, Request, apply_model_switch, settings_argument,
  select_slash_command, filtered_commands, handle_input_change,
}
use mobilecoding.Phone.Terminal.Handlers.{handle_connect, handle_send, change}
use mobilecoding.Phone.Terminal.Commands.{slash_commands, handle_send-slash_commands, IsRouted}
use mobilecoding.Phone.Terminal.Answer.{ScreenAction, step, screen_after, step-answers}
use mobilecoding.Phone.Store.{act, handle_event, handle_other, show_event, prompt_event}
use mobilecoding.Controls.{settings_from_args}

abbrev no_number : Json → Option ℤ
no_number j = none

abbrev no_event : String → Option AppEvent
no_event t = none

abbrev route : Route
route = record {
  host = "10.0.2.2";
  port = "8445";
  path = "/api/v1/ws";
  use_wss = false;
  model = "";
}

-- A screen that is connected, with a runtime.
abbrev ready : Screen
ready = record new_screen {
  connected = true;
  has_client = true;
  runtime_args = "--settings" ∷ "a.json" ∷ "--model" ∷ "opus" ∷ [];
  selected_model = "haiku";
}

switch_test :
    (apply_model_switch true ready).1
    ≡ Request.starts ("--settings" ∷ "a.json" ∷ "--model" ∷ "haiku" ∷ []) true ∷ []
unfolding apply_model_switch kept_args
switch_test = refl

-- The form with an equals sign is read by the web client only.
settings_test :
    (settings_argument ("--settings=a.json" ∷ "-v" ∷ []) ≡ none)
    × (settings_from_args ("--settings=a.json" ∷ "-v" ∷ []) ≡ "a.json")
unfolding settings_argument settings_from_args strip_prefix
settings_test = (refl, refl)

-- The picker, for what is typed so far.
filtered_commands_test :
    filtered_commands (λ t. t) slash_commands (handle_input_change "/mo" new_screen)
    ≡ record { cmd = "/model"; desc = "切换模型"; mode = local } ∷ []
unfolding filtered_commands handle_input_change includes strip_prefix
filtered_commands_test = refl

handle_send-slash_commands_example :
    All
      (λ c. IsRouted c.mode c.cmd (handle_send no_number "t" (select_slash_command c.cmd ready)).1)
      slash_commands
handle_send-slash_commands_example = handle_send-slash_commands no_number "t" ready refl refl

abbrev question : AppEvent
question = record {
  base = record { session_id = "s"; time = "t"; seq = some 1; message_id = some "q" };
  payload = Payload.permission_request (record {
    tool_name = "Bash";
    message = "ls";
    tool_input = none;
    request_id = none;
    resolved = none;
  });
}

abbrev asked : List ScreenAction
asked = ScreenAction.connects_again ∷ ScreenAction.receives question ∷ []

step-answers_example :
    let t =
      step no_number no_event route
        (ScreenAction.answers true)
        (screen_after no_number no_event route asked new_screen) in
    (t.1 ≡ Request.responds (some "q") true ∷ [])
    × (is_permission question.payload ≡ true)
    × (t.0.store.permission_prompt ≡ none)
unfolding screen_after step change act handle_event handle_other show_event prompt_event
    handle_connect
step-answers_example = step-answers no_number no_event route asked question true refl refl
