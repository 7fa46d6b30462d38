-- ===== src/Chat/Reducer.antt =====
-- The reducer of the chat state, with what it writes to `localStorage`, and the initial state
-- (web/src/core/state/ChatContext.tsx).
use mobilecoding.Base.{
  ℕ, String, Bool, true, false, not, ◌&&◌, Option, none, some, List, [], ◌∷◌, ◌++◌, any, last?,
  if◌then◌else◌, ◌==◌, or_text, or_truthy,
}
use mathlib.Core.List.{reverse}
use mobilecoding.Event.{
  ConnectionStatus, idle, connecting, connected, reconnecting, closed, Payload, permission_request,
  permission_ask, Permission, Resolution, allowed, denied, DisplayMessage, event, user,
}
use mobilecoding.Chat.State.{
  ChatState, Action, RuntimeConfig, AgentStateInfo, AgentStatus, LaunchMode, ConnectionMode,
  status_changed, runtime_loaded, session_started, active_session_detected, session_stopped,
  event_received, user_message_sent, permission_answered, abort_turn, stopping, error,
  set_selected_command, set_connection_mode, queue_input, clear_pending, perm_allow_tool,
  perm_allow_all_turn, perm_clear_allowlist,
}
use mobilecoding.Chat.Storage.{
  Storage, Env, save_messages, load_messages, load_last_seq, load_perm_allowlist,
  save_perm_allowlist, switch_session, forget_session,
}
use mobilecoding.Chat.Merge.{cap_messages}
use mobilecoding.Chat.Receive.{receive, same_text}

abbrev pub idle_since : ℕ → AgentStateInfo
idle_since now = record { status = AgentStatus.idle; tool_name = none; since = now }

-- A connection that is lost ends the turn.
unfoldable pub change_status : ConnectionStatus → ChatState → ChatState
change_status closed s = record s {
  status = closed;
  turn_active = false;
  thinking = false;
  stopping = false;
}
change_status reconnecting s = record s {
  status = reconnecting;
  turn_active = false;
  thinking = false;
  stopping = false;
}
change_status idle s = record s { status = idle; last_error = none }
change_status connecting s = record s { status = connecting; last_error = none }
change_status connected s = record s { status = connected; last_error = none }

unfoldable pub start_session : Env → String → ChatState → ChatState
start_session env id s = record s {
  session_id = some id;
  stopped_session_id = none;
  messages = [];
  last_seq = 0;
  last_error = none;
  thinking = false;
  turn_active = false;
  stopping = false;
  permission_prompt = none;
  permission_request_id = none;
  agent_state = idle_since env.now;
  context_window = none;
}

unfoldable pub is_new_session : ChatState → String → Bool
is_new_session s id = elim s.session_id [ none ↦ false | some old ↦ not (old == id) ]

unfoldable pub detect_session : Env → String → ChatState → Storage → ChatState × Storage
detect_session env id s st =
    if is_new_session s id
    then (
      record s {
        session_id = some id;
        stopped_session_id = none;
        last_error = none;
        messages = [];
        last_seq = 0;
        thinking = false;
        turn_active = false;
        permission_prompt = none;
        permission_request_id = none;
        agent_state = idle_since env.now;
        context_window = none;
      },
      switch_session env id st,
    )
    else (record s { session_id = some id; stopped_session_id = none; last_error = none }, st)

unfoldable pub stop_session : Env → ChatState → ChatState
stop_session env s = record s {
  session_id = none;
  stopped_session_id = or_truthy s.session_id s.stopped_session_id;
  permission_prompt = none;
  permission_request_id = none;
  thinking = false;
  turn_active = false;
  stopping = false;
  agent_state = idle_since env.now;
  context_window = none;
}

unfoldable pub load_runtime : RuntimeConfig → ChatState → ChatState
load_runtime r s = record s {
  runtime = r;
  selected_command = or_text s.selected_command r.default_command;
}

unfoldable pub send_user_message : Env → String → String → ChatState → Storage → ChatState × Storage
send_user_message env txt id s st =
    let msg = user (record { session_id = id; time = env.iso; text = txt }) in
    let msgs = cap_messages (s.messages ++ msg ∷ []) in
    (record s { messages = msgs; thinking = true; turn_active = true }, save_messages env msgs st)

abbrev pub resolve : Resolution → Permission → Permission
resolve r p = record p { resolved = some r }

-- The message with the mark, if it is a permission event.
abbrev pub resolve_payload : Resolution → Payload → Option Payload
resolve_payload r (permission_request p) = some (permission_request (resolve r p))
resolve_payload r (permission_ask p) = some (permission_ask (resolve r p))
resolve_payload r _ = none

abbrev pub resolve_message : Resolution → DisplayMessage → Option DisplayMessage
resolve_message r (user u) = none
resolve_message r (event e) = elim (resolve_payload r e.payload) [
  | none ↦ none
  | some p ↦ some (event (record e { payload = p }))
]

-- The loop over the messages from the last one down; it stops at the first permission event.
unfoldable pub mark_first : Resolution → List DisplayMessage → List DisplayMessage
mark_first r [] = []
mark_first r (m ∷ ms) = elim (resolve_message r m) [
  | none ↦ m ∷ mark_first r ms
  | some m' ↦ m' ∷ ms
]

unfoldable pub mark_latest : Resolution → List DisplayMessage → List DisplayMessage
mark_latest r ms = reverse (mark_first r (reverse ms))

unfoldable pub answer_permission : Bool → ChatState → ChatState
answer_permission allow s = record s {
  messages = mark_latest (if allow then allowed else denied) s.messages;
  permission_prompt = none;
  permission_request_id = none;
}

-- An input that repeats the one queued last is dropped.
unfoldable pub enqueue : String → List String → List String
enqueue txt queue = if same_text (last? queue) (some txt) then queue else queue ++ txt ∷ []

abbrev pub member_of : String → List String → Bool
member_of x xs = any (λ y. y == x) xs

unfoldable pub allow_tool : Env → String → ChatState → Storage → ChatState × Storage
allow_tool env tool s st = if member_of tool s.perm_allowlist then (s, st) else (
  record s { perm_allowlist = s.perm_allowlist ++ tool ∷ [] },
  save_perm_allowlist env (s.perm_allowlist ++ tool ∷ []) st,
)

abbrev pub is_nil : List String → Bool
is_nil [] = true
is_nil (x ∷ xs) = false

unfoldable pub clear_allowlist : Env → ChatState → Storage → ChatState × Storage
clear_allowlist env s st =
    if is_nil s.perm_allowlist && not s.perm_allow_all_turn then (s, st) else (
      record s { perm_allowlist = []; perm_allow_all_turn = false },
      save_perm_allowlist env [] st,
    )

unfoldable pub reducer : Env → Action → ChatState → Storage → ChatState × Storage
reducer env (status_changed c) s st = (change_status c s, st)
reducer env (session_started id) s st = (start_session env id s, switch_session env id st)
reducer env (active_session_detected id) s st = detect_session env id s st
reducer env session_stopped s st = (stop_session env s, forget_session env st)
reducer env (runtime_loaded r) s st = (load_runtime r s, st)
reducer env (set_selected_command c) s st = (record s { selected_command = c }, st)
reducer env (set_connection_mode m) s st = (record s { connection_mode = m }, st)
reducer env (event_received ev sid) s st = receive env ev sid s st
reducer env (user_message_sent txt id) s st = send_user_message env txt id s st
reducer env (permission_answered allow) s st = (answer_permission allow s, st)
reducer env abort_turn s st =
    (record s { thinking = false; turn_active = false; perm_allow_all_turn = false }, st)
reducer env stopping s st =
    (record s { stopping = true; thinking = false; turn_active = false }, st)
reducer env (queue_input txt) s st = (record s { pending_queue = enqueue txt s.pending_queue }, st)
reducer env clear_pending s st = (record s { pending_queue = [] }, st)
reducer env (perm_allow_tool tool) s st = allow_tool env tool s st
reducer env perm_allow_all_turn s st = (record s { perm_allow_all_turn = true }, st)
reducer env perm_clear_allowlist s st = clear_allowlist env s st
reducer env (error msg) s st = (record s { last_error = some msg }, st)

-- The state that a page starts in, from what the storage holds.
unfoldable pub initial_state : ℕ → Storage → ChatState
initial_state now st = record {
  status = idle;
  session_id = st.session_id;
  stopped_session_id = none;
  messages = load_messages st;
  last_seq = load_last_seq st;
  permission_prompt = none;
  permission_request_id = none;
  last_error = none;
  runtime = record {
    default_command = "";
    default_args = [];
    launch_mode = some LaunchMode.managed;
    cwd = some "";
  };
  selected_command = "";
  connection_mode = ConnectionMode.direct;
  thinking = false;
  turn_active = false;
  stopping = false;
  agent_state = idle_since now;
  context_window = none;
  pending_queue = [];
  perm_allowlist = load_perm_allowlist st;
  perm_allow_all_turn = false;
}

-- A run of the reducer over a history of actions, each with what it reads from outside.
unfoldable pub run : List (Env × Action) → ChatState × Storage → ChatState × Storage
run [] w = w
run ((env, a) ∷ h) (s, st) = run h (reducer env a s st)
