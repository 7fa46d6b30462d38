-- ===== src/Phone/Store.antt =====
-- The store of messages: mobile/src/stores/useMessageStore.ts. The events are those of the web client
-- (mobile/src/protocol/types.ts names fewer of their fields). `Number`, on what is no number, is a
-- parameter; where its result is `NaN` or 0 it gives `none`.
use mobilecoding.Base.{
  ℕ, String, Bool, true, false, not, ◌||◌, ◌&&◌, Option, none, some, List, [], ◌∷◌, ◌++◌, init,
  last?, eqb, ltb, if◌then◌else◌, ◌==◌, or_truthy, or_null, concat, is_some,
}
use mobilecoding.Json.{ℤ, Json, num, arr, obj, Fields, member}
use mobilecoding.Event.{
  AppEvent, Payload, DisplayMessage, event, user, UserMessage, permission?, text, text_delta,
  lifecycle, turn_end, thinking_start, thinking_end, agent_state, context_window, plan_mode,
  session, permission_request, permission_ask,
}
use mobilecoding.Chat.Merge.{delta?}

pub record ContextWindowInfo : Type 0 where
  pub used : Option ℤ
  pub total : Option ℤ
  pub raw : Json

pub record MessageState : Type 0 where
  pub messages : List DisplayMessage
  pub permission_prompt : Option AppEvent
  pub permission_request_id : Option String
  pub thinking : Bool
  pub turn_active : Bool
  pub last_seq : ℕ
  pub context_window : Option ContextWindowInfo

-- `resetMessages`, and the state that a store starts in.
abbrev pub no_messages : MessageState
no_messages = record {
  messages = [];
  permission_prompt = none;
  permission_request_id = none;
  thinking = false;
  turn_active = false;
  last_seq = 0;
  context_window = none;
}

-- The events of the protocol, which change the state and are not shown.
abbrev pub is_protocol : Payload → Bool
is_protocol thinking_start = true
is_protocol thinking_end = true
is_protocol (turn_end t m) = true
is_protocol (lifecycle m) = true
is_protocol (agent_state s) = true
is_protocol _ = false

abbrev pub next_thinking : Payload → Bool → Bool
next_thinking thinking_start b = true
next_thinking (turn_end t m) b = false
next_thinking _ b = b

abbrev pub next_turn_active : Payload → Bool
next_turn_active (turn_end t m) = false
next_turn_active _ = true

-- `event.seq && event.seq > state.lastSeq ? event.seq : state.lastSeq`
unfoldable pub next_seq : Option ℕ → ℕ → ℕ
next_seq none last = last
next_seq (some n) last = if not (eqb n 0) && ltb last n then n else last

abbrev pub push : List DisplayMessage → AppEvent → List DisplayMessage
push msgs ev = msgs ++ event ev ∷ []

abbrev pub replace_end : List DisplayMessage → AppEvent → List DisplayMessage
replace_end msgs ev = init msgs ++ event ev ∷ []

-- The tool of a message that is a permission request.
abbrev pub asked_tool : Option DisplayMessage → Option String
asked_tool none = none
asked_tool (some (user u)) = none
asked_tool (some (event e)) = elim (permission? e.payload) [
  | none ↦ none
  | some p ↦ some p.tool_name
]

abbrev pub same_asked : Option String → String → Bool
same_asked none t = false
same_asked (some u) t = u == t

-- What an event that is shown makes of the messages.
unfoldable pub add_event : AppEvent → Payload → List DisplayMessage → List DisplayMessage
add_event ev (text_delta t th block) msgs = elim (delta? (last? msgs)) [
  | none ↦ push msgs ev
  | some d ↦
      if eqb d.3 block
      then replace_end msgs
          (record { base = d.0.base; payload = text_delta (concat d.1 t) (or_truthy d.2 th) block })
      else push msgs ev
]
add_event ev (text t th) msgs = elim (delta? (last? msgs)) [
  | none ↦ push msgs ev
  | some d ↦ replace_end msgs (record { base = ev.base; payload = text t (or_truthy th d.2) })
]
add_event ev (permission_request p) msgs =
    if same_asked (asked_tool (last? msgs)) p.tool_name then replace_end msgs ev else push msgs ev
add_event ev (permission_ask p) msgs =
    if same_asked (asked_tool (last? msgs)) p.tool_name then replace_end msgs ev else push msgs ev
add_event ev _ msgs = push msgs ev

-- The prompt that a permission request opens.
unfoldable pub prompt_event : AppEvent → Payload → MessageState → MessageState
prompt_event ev (permission_request p) s = record s {
  permission_prompt = some ev;
  permission_request_id = or_null ev.message_id;
}
prompt_event ev (permission_ask p) s = record s {
  permission_prompt = some ev;
  permission_request_id = or_null ev.message_id;
}
prompt_event ev _ s = s

abbrev pub first_of : Option Json → Option Json → Option Json
first_of none b = b
first_of (some a) b = some a

unfoldable pub used_field : Fields → Option Json
used_field o = first_of (member "used_tokens" o) (
    first_of (member "usedTokens" o)
      (first_of (member "tokens_used" o) (first_of (member "used" o) (member "context_used" o))))

unfoldable pub total_field : Fields → Option Json
total_field o = first_of (member "total_tokens" o) (
    first_of (member "totalTokens" o)
      (first_of (member "tokens_total" o) (first_of (member "total" o) (member "context_total" o))))

pub data StoreAction : Type 0 where
  handles : AppEvent → StoreAction
  adds_user_message : UserMessage → StoreAction
  clears_permission answers_permission resets_messages : StoreAction

module _ (to_number : Json → Option ℤ) where
  abbrev pub as_number : Option Json → Option ℤ
  as_number none = none
  as_number (some (num n)) = some n
  as_number (some j) = to_number j

  unfoldable pub parse_context_window : Json → Option ContextWindowInfo
  parse_context_window (obj o) = some (
      if is_some (used_field o) || is_some (total_field o)
      then record {
        used = as_number (used_field o);
        total = as_number (total_field o);
        raw = obj o;
      }
      else record { used = none; total = none; raw = obj o })
  parse_context_window (arr xs) = some (record { used = none; total = none; raw = arr xs })
  parse_context_window _ = none

  -- The state after an event that is shown.
  unfoldable pub show_event : AppEvent → MessageState → MessageState
  show_event ev s =
      let shown = prompt_event ev ev.payload s in
      record shown {
        messages = add_event ev ev.payload s.messages;
        last_seq = next_seq ev.seq s.last_seq;
        thinking = next_thinking ev.payload s.thinking;
        turn_active = next_turn_active ev.payload;
      }

  unfoldable pub protocol_event : AppEvent → MessageState → MessageState
  protocol_event ev s = record s {
    thinking = next_thinking ev.payload s.thinking;
    turn_active = next_turn_active ev.payload;
    last_seq = next_seq ev.seq s.last_seq;
  }

  unfoldable pub handle_other : AppEvent → Payload → MessageState → MessageState
  handle_other ev (context_window info) s = record s { context_window = parse_context_window info }
  handle_other ev (plan_mode info) s = s
  handle_other ev (session info) s = s
  handle_other ev _ s = show_event ev s

  unfoldable pub handle_event : AppEvent → MessageState → MessageState
  handle_event ev s =
      if is_protocol ev.payload then protocol_event ev s else handle_other ev ev.payload s

  unfoldable pub act : StoreAction → MessageState → MessageState
  act (handles ev) s = handle_event ev s
  act (adds_user_message m) s = record s {
    messages = s.messages ++ user m ∷ [];
    thinking = true;
    turn_active = true;
  }
  act clears_permission s = record s { permission_prompt = none; permission_request_id = none }
  act answers_permission s = record s { permission_prompt = none; permission_request_id = none }
  act resets_messages s = no_messages

  unfoldable pub act_all : List StoreAction → MessageState → MessageState
  act_all [] s = s
  act_all (a ∷ r) s = act_all r (act a s)
