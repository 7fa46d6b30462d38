-- ===== src/Phone/Cards.antt =====
-- How the phone shows what the assistant did in one group of messages:
-- mobile/src/components/terminal/AssistantGroupCard.tsx and
-- mobile/src/components/terminal/toolTone.ts. `stringify` is `JSON.stringify`, `pretty` the same with an
-- indent. Lengths count code points. A fold that is open or closed, and the styles, are left out.
pub mod Copied
mod Tests
use mobilecoding.Base.{
  zero, String, Bool, true, false, not, ◌||◌, Option, none, some, List, [], ◌∷◌, concat, is_empty,
  or_text, truthy, text_of, text_take, join, filter, if◌then◌else◌,
}
use mobilecoding.Json.{ℤ, pos, Json, null, bool, num, str, arr, obj, Fields, member}
use mobilecoding.Event.{
  Payload, Permission, text, text_delta, lifecycle, tool_use, tool_result, permission_request,
  permission_ask, plan_mode, context_window, session, thinking_start, thinking_end, tool_start,
  tool_output, tool_end, bash_start, bash_output, bash_end, agent_state, turn_end,
}
use mobilecoding.Chat.Agent.{starts_folded}
use mobilecoding.Chat.Detect.{trim}

-- Whether a value counts as true.
abbrev pub truthy_json : Option Json → Bool
truthy_json none = false
truthy_json (some null) = false
truthy_json (some (bool b)) = b
truthy_json (some (num (pos zero))) = false
truthy_json (some (num n)) = true
truthy_json (some (str s)) = not (is_empty s)
truthy_json (some (arr xs)) = true
truthy_json (some (obj fs)) = true

-- `m.type` of the events that have no block of their own.
abbrev pub type_of : Payload → String
type_of (lifecycle m) = "lifecycle"
type_of (permission_request p) = "permission_request"
type_of (permission_ask p) = "permission_ask"
type_of (plan_mode i) = "plan_mode"
type_of (context_window i) = "context_window"
type_of (session i) = "session"
type_of thinking_start = "thinking_start"
type_of thinking_end = "thinking_end"
type_of (agent_state s) = "agent_state"
type_of (turn_end t m) = "turn_end"
type_of _ = ""

-- The fields that the cards read of a message of any type.
abbrev pub tool_name_of : Payload → String
tool_name_of (tool_use name input) = name
tool_name_of (tool_result name result) = name
tool_name_of (tool_start id name input) = name
tool_name_of (tool_end id name) = name
tool_name_of (bash_start id name input) = name
tool_name_of (bash_end id name) = name
tool_name_of _ = ""

abbrev pub tool_input_of : Payload → Option Json
tool_input_of (tool_use name input) = some input
tool_input_of (tool_start id name input) = some input
tool_input_of (bash_start id name input) = some (str input)
tool_input_of _ = none

abbrev pub tool_output_of : Payload → Option String
tool_output_of (tool_output id out) = some out
tool_output_of (bash_output id out) = some out
tool_output_of _ = none

abbrev pub tool_result_of : Payload → Option Json
tool_result_of (tool_result name result) = some result
tool_result_of _ = none

abbrev pub marks_error : Option Json → Bool
marks_error (some (obj fs)) =
    truthy_json (member "is_error" fs) || truthy_json (member "isError" fs)
marks_error _ = false

-- `/^(error|fatal|…)/i.test(s)`
unfoldable pub reads_as_error : String → Bool
reads_as_error s =
    starts_folded "error" s
    || (starts_folded "fatal" s
        || (starts_folded "traceback" s
            || (starts_folded "command not found" s
                || (starts_folded "no such file" s || starts_folded "permission denied" s))))

unfoldable pub is_tool_error : Payload → Bool
is_tool_error p =
    marks_error (tool_result_of p) || reads_as_error (trim (text_of (tool_output_of p)))

pub data Tone : Type 0 where
  failed succeeded under_way : Tone

unfoldable pub tool_tone : Payload → Tone
tool_tone p =
    if is_tool_error p
    then failed
    else if truthy (tool_output_of p) || truthy_json (tool_result_of p)
    then succeeded
    else under_way

-- One block of the card: a text, or a folded block with its label, its detail and what it holds.
pub data Block : Type 0 where
  markdown : String → Block
  tool_block : String → String → String → Option String → Tone → Block
  other_block : String → Block

abbrev pub with_block : Option Block → List Block → List Block
with_block none bs = bs
with_block (some b) bs = b ∷ bs

module _ (stringify pretty : Json → String) where
  -- `typeof v === 'string' ? v : JSON.stringify(v)`, of a value that counts as true.
  unfoldable pub json_text : (Json → String) → Option Json → String
  json_text f none = ""
  json_text f (some (str s)) = s
  json_text f (some j) = if truthy_json (some j) then f j else ""

  unfoldable pub input_block : Payload → Block
  input_block p =
      tool_block "🔧" (or_text (tool_name_of p) "工具")
        (text_take 50 (json_text stringify (tool_input_of p)))
        (if truthy_json (tool_input_of p) then some (json_text pretty (tool_input_of p)) else none)
        (tool_tone p)

  unfoldable pub content_of : Payload → String
  content_of p = or_text (text_of (tool_output_of p)) (json_text stringify (tool_result_of p))

  unfoldable pub output_block : Payload → Option Block
  output_block p =
      if is_empty (content_of p)
      then none
      else some (
          tool_block "📋" (or_text (tool_name_of p) "结果") (text_take 50 (content_of p))
            (some (content_of p)) (tool_tone p))

  abbrev pub text_block : String → Option Block
  text_block t = if is_empty t then none else some (markdown t)

  unfoldable pub render_block : Payload → Option Block
  render_block (text t th) = text_block t
  render_block (text_delta t th n) = text_block t
  render_block (tool_use name input) = some (input_block (tool_use name input))
  render_block (tool_start id name input) = some (input_block (tool_start id name input))
  render_block (tool_result name result) = output_block (tool_result name result)
  render_block (tool_output id out) = output_block (tool_output id out)
  render_block (tool_end id name) = output_block (tool_end id name)
  render_block (bash_start id name input) = some (
      tool_block "💻" "Bash" (text_take 50 input) (some (concat "$ " input))
        (tool_tone (bash_start id name input)))
  render_block (bash_output id out) =
      if is_empty out
      then none
      else some (tool_block "📤" "输出" (text_take 50 out) (some out) (tool_tone (bash_output id out)))
  render_block (bash_end id name) = none
  render_block p = some (other_block (type_of p))

  -- `items.map(renderBlock)`, without the blocks that are `null`.
  unfoldable pub render_blocks : List Payload → List Block
  render_blocks [] = []
  render_blocks (p ∷ ps) = with_block (render_block p) (render_blocks ps)

abbrev pub text_field : Payload → Option String
text_field (text t th) = some t
text_field (text_delta t th n) = some t
text_field _ = none

abbrev pub texts_of : List Payload → List String
texts_of [] = []
texts_of (p ∷ ps) =
    if truthy (text_field p) then text_of (text_field p) ∷ texts_of ps else texts_of ps

-- `extractText`
unfoldable pub extract_text : List Payload → String
extract_text items = join "\n\n" (texts_of items)

abbrev pub thinking_field : Payload → Option String
thinking_field (text t th) = th
thinking_field (text_delta t th n) = th
thinking_field _ = none

abbrev pub thoughts_of : List Payload → List String
thoughts_of [] = []
thoughts_of (p ∷ ps) =
    if truthy (thinking_field p)
    then text_of (thinking_field p) ∷ thoughts_of ps
    else thoughts_of ps

unfoldable pub thinking_text : List Payload → String
thinking_text items = join "\n" (thoughts_of items)

unfoldable pub has_thinking : List Payload → Bool
has_thinking items = not (is_empty (trim (thinking_text items)))

-- What a long press leads to: a notice, or the text to copy.
pub data Pressed : Type 0 where
  nothing_to_copy : Pressed
  offers_copy : String → Pressed

unfoldable pub on_long_press : List Payload → Pressed
on_long_press items =
    if is_empty (extract_text items) then nothing_to_copy else offers_copy (extract_text items)
