-- ===== src/Banner.antt =====
-- The banner that asks for a permission: web/src/features/terminal/PermissionBanner.tsx. `stringify` is
-- `JSON.stringify` of a value, and `show` the text of an index. Lengths count code points.
pub mod Answers
pub mod Details
mod Tests
use Prim.Native.String
use mobilecoding.Base.{
  ℕ, zero, suc, ◌+◌, String, Bool, true, false, not, ◌&&◌, ◌||◌, Option, none, some, List, [], ◌∷◌,
  concat, take, ltb, is_empty, or_text, or_truthy, or_null, is_some, text_length, text_take,
  if◌then◌else◌,
}
use mobilecoding.Json.{
  ℤ, pos, negsuc, Json, null, bool, num, str, arr, obj, Items, nil, cons, Fields, end, field,
}
use mobilecoding.Diff.{split_lines}
use mobilecoding.Event.{AppEvent, Permission, permission?}
use mobilecoding.Chat.State.{ChatState}
use mobilecoding.Chat.Reducer.{member_of}
use mobilecoding.Chat.Io.{Result, Io}
use mobilecoding.Chat.Provider.{nothing}
use mobilecoding.Chat.Provider.Answer.{answer_permission}

-- The prompt on display with the fields of a permission request.
unfoldable pub prompt_in : Option AppEvent → Option (AppEvent × Permission)
prompt_in none = none
prompt_in (some ev) = elim (permission? ev.payload) [ none ↦ none | some p ↦ some (ev, p) ]

abbrev pub prompt_of : ChatState → Option (AppEvent × Permission)
prompt_of s = prompt_in s.permission_prompt

unfoldable pub request_id : ChatState → AppEvent → Option String
request_id s ev = or_truthy s.permission_request_id (or_null ev.message_id)

-- `handleAllow` and `handleDeny`, with whether there is a relay client and how the request ends.
unfoldable pub handle_answer :
    Bool → AppEvent → ChatState → Bool → Result (Unit {0}) → Io (Unit {0})
handle_answer allow ev s relaying ends = answer_permission allow (request_id s ev) s relaying ends

unfoldable pub auto_allowed : ChatState → Permission → Bool
auto_allowed s p = s.perm_allow_all_turn || member_of p.tool_name s.perm_allowlist

-- Whether the banner offers its buttons.
abbrev pub offers_for : ChatState → Option (AppEvent × Permission) → Bool
offers_for s none = false
offers_for s (some (ev, p)) = not (auto_allowed s p)

unfoldable pub offers_buttons : ChatState → Bool
offers_buttons s = offers_for s (prompt_of s)

unfoldable pub summary : Permission → String
summary p = or_text p.message (concat "请求执行 " p.tool_name)

abbrev pub max_lines : ℕ
max_lines = 30

abbrev pub max_value : ℕ
max_value = 500

-- A value that is cut where it is too long.
unfoldable pub shown_value : String → String
shown_value val =
    if ltb max_value (text_length val) then concat (text_take max_value val) "…" else val

abbrev pub line_of : String → String → String
line_of k val = concat k (concat ": " (shown_value val))

module _ (stringify : Json → String) (show : ℕ → String) where
  unfoldable pub value_text : Json → String
  value_text (str s) = s
  value_text j = stringify j

  unfoldable pub field_lines : Fields → List String
  field_lines end = []
  field_lines (field k v fs) = line_of k (value_text v) ∷ field_lines fs

  -- The entries of an array have their places for keys.
  unfoldable pub item_lines : ℕ → Items → List String
  item_lines n nil = []
  item_lines n (cons v xs) = line_of (show n) (value_text v) ∷ item_lines (suc n) xs

  unfoldable pub format_tool_input : Option Json → List String
  format_tool_input none = []
  format_tool_input (some (str s)) = if is_empty s then [] else take max_lines (split_lines s)
  format_tool_input (some (obj fs)) = take max_lines (field_lines fs)
  format_tool_input (some (arr xs)) = take max_lines (item_lines 0 xs)
  format_tool_input (some _) = []
