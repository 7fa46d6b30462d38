-- ===== src/Banner/Tests.antt =====
-- The banner at concrete prompts (web/src/features/terminal/PermissionBanner.tsx).
use mobilecoding.Base.{◌≡◌, refl, true, ◌&&◌, none, some, [], ◌∷◌, is_some, text_length}
use mobilecoding.Json.{str, obj, field, end}
use mobilecoding.Event.{Permission}
use mobilecoding.Chat.State.{ChatState, Action}
use mobilecoding.Chat.Reducer.{reducer}
use mobilecoding.Chat.Io.{ok}
use mobilecoding.Chat.Provider.Answer.{auto_answer}
use mobilecoding.Chat.Sample.{fresh, here, blank, request}
use mobilecoding.Banner.{
  offers_buttons, prompt_of, prompt_in, auto_allowed, handle_answer, format_tool_input, field_lines,
  shown_value, value_text,
}
use mobilecoding.Banner.Answers.{is_silent, offers_buttons-auto_answer, allow_tool-handle_answer}

-- A chat that asks whether a file may be edited.
abbrev asked : ChatState
asked = record fresh { permission_prompt = some request; permission_request_id = some "r1" }

abbrev edit : Permission
edit = record {
  tool_name = "Edit";
  message = "Edit a.ts";
  tool_input = none;
  request_id = none;
  resolved = none;
}

offers_test : offers_buttons asked ≡ true
unfolding offers_buttons prompt_in auto_allowed
offers_test = refl

offers_buttons-auto_answer_example :
    offers_buttons asked
    ≡ (is_some (prompt_of asked) && is_silent (auto_answer asked true (ok tt)).effects)
offers_buttons-auto_answer_example = offers_buttons-auto_answer true (ok tt) asked

allow_tool-handle_answer_example :
    (auto_answer (reducer here (Action.perm_allow_tool "Edit") asked blank).0 true (ok tt)
      ≡ handle_answer true request asked true (ok tt))
    × (auto_answer (reducer here Action.perm_allow_all_turn asked blank).0 true (ok tt)
        ≡ handle_answer true request asked true (ok tt))
allow_tool-handle_answer_example =
    allow_tool-handle_answer true (ok tt) here asked blank request edit refl refl

-- The lines of an object.
lines_test :
    format_tool_input
      (λ j. "json")
      (λ n. "0")
      (some (obj (field "path" (str "a.ts") (field "all" (obj end) end))))
    ≡ "path: a.ts" ∷ "all: json" ∷ []
unfolding format_tool_input field_lines shown_value text_length value_text
lines_test = refl
