-- ===== src/Phone/Tests.antt =====
-- The theorems on what the phone shows at concrete inputs
-- (mobile/src/stores/useMessageStore.ts, mobile/src/components/terminal/groupMessages.ts).
use mobilecoding.Base.{◌≡◌, Option, none, some, List, [], ◌∷◌, String}
use mobilecoding.Json.{ℤ, Json}
use mobilecoding.Event.{AppEvent, Payload, DisplayMessage, event, user}
use mobilecoding.Phone.Groups.{group_messages, ungroup, ungroup-group_messages}

abbrev with_payload : String → Payload → AppEvent
with_payload id p = record {
  base = record { session_id = "s"; time = "t"; seq = some 1; message_id = some id };
  payload = p;
}

abbrev question : AppEvent
question = with_payload "q" (
    Payload.permission_request (record {
      tool_name = "Bash";
      message = "ls";
      tool_input = none;
      request_id = none;
      resolved = none;
    }))

abbrev shown : List DisplayMessage
shown =
    event (with_payload "a" (Payload.text "a" none))
    ∷ user (record { session_id = "s"; time = "t"; text = "hi" })
    ∷ event (with_payload "b" (Payload.text "b" none))
    ∷ event question
    ∷ []

ungroup-group_messages_example : ungroup (group_messages shown) ≡ shown
ungroup-group_messages_example = ungroup-group_messages shown

abbrev no_number : Json → Option ℤ
no_number j = none
