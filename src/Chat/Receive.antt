-- ===== src/Chat/Receive.antt =====
-- The case `EVENT_RECEIVED` of the reducer (web/src/core/state/ChatContext.tsx), step by step: what is
-- ignored, how the messages change, and what the other fields of the next state become.
use mobilecoding.Base.{
  ℕ, String, Bool, true, false, not, ◌&&◌, ◌||◌, Option, none, some, ltb, if◌then◌else◌, ◌==◌,
  truthy, text_of, or_truthy, or_null, has_prefix, strip_prefix, is_some,
}
use mobilecoding.Json.{is_pos}
use mobilecoding.Event.{
  AppEvent, Payload, lifecycle, tool_result, permission_request, permission_ask, context_window,
  turn_end,
}
use mobilecoding.Chat.State.{ChatState, AgentStatus}
use mobilecoding.Chat.Storage.{Storage, Env, save_messages, save_last_seq}
use mobilecoding.Chat.Merge.{is_duplicate, merge_event, cap_messages}
use mobilecoding.Chat.Detect.{denied_request, prompt_text, result_text}
use mobilecoding.Chat.Agent.{agent_state_from_event, patch_agent, extract_context_tokens}

-- `a === b` on optional texts.
abbrev pub same_text : Option String → Option String → Bool
same_text none none = true
same_text none (some b) = false
same_text (some a) none = false
same_text (some a) (some b) = a == b

-- An event that comes for the session that was stopped.
unfoldable pub is_for_stopped : Option String → Option String → Bool
is_for_stopped sid stopped = truthy sid && same_text sid stopped

unfoldable pub is_ignored : ChatState → AppEvent → Option String → Bool
is_ignored s ev sid = is_for_stopped sid s.stopped_session_id || is_duplicate s.messages ev

-- `state.sessionId || (!state.stopping ? action.sessionId || null : null)`
unfoldable pub adopt_session : ChatState → Option String → Option String
adopt_session s sid = or_truthy s.session_id (if s.stopping then none else or_null sid)

-- `ev.seq && ev.seq > state.lastSeq`
unfoldable pub is_newer : ℕ → Option ℕ → Bool
is_newer last none = false
is_newer last (some n) = ltb 0 n && ltb last n

abbrev pub seq_of : Option ℕ → ℕ
seq_of none = 0
seq_of (some n) = n

unfoldable pub track_seq : AppEvent → ChatState → ChatState
track_seq ev s = if is_newer s.last_seq ev.seq then record s { last_seq = seq_of ev.seq } else s

abbrev ask : Option String → AppEvent → ChatState → ChatState
ask id ev s = record s {
  permission_prompt = some ev;
  permission_request_id = id;
  turn_active = s.turn_active || not s.stopping;
}

-- A permission event opens the prompt; only `permission_ask` carries an id to answer by.
unfoldable pub track_permission : AppEvent → Payload → ChatState → ChatState
track_permission ev (permission_ask p) s = ask (or_null ev.message_id) ev s
track_permission ev (permission_request p) s = ask none ev s
track_permission ev _ s = s

-- The prompt made up for a request that was denied already.
abbrev pub denied_prompt : AppEvent → Option String → String × String → AppEvent
denied_prompt ev sid (name, target) = record {
  base = record {
    session_id = if truthy (some ev.session_id) then ev.session_id else text_of sid;
    time = ev.time;
    seq = none;
    message_id = ev.message_id;
  };
  payload = permission_request (record {
    tool_name = name;
    message = prompt_text name target;
    tool_input = none;
    request_id = none;
    resolved = none;
  });
}

abbrev pub show_denied : Option String → AppEvent → ChatState → Option (String × String) → ChatState
show_denied sid ev s none = s
show_denied sid ev s (some r) = record s { permission_prompt = some (denied_prompt ev sid r) }

-- `sid` is the session before the event.
unfoldable pub detect_permission : Option String → AppEvent → Payload → ChatState → ChatState
detect_permission sid ev (tool_result name result) s =
    if is_some s.permission_prompt
    then s
    else show_denied sid ev s (denied_request (result_text result))
detect_permission sid ev _ s = s

abbrev pub is_idle : AgentStatus → Bool
is_idle AgentStatus.idle = true
is_idle _ = false

unfoldable pub track_turn : Payload → ChatState → ChatState
unfolding strip_prefix
track_turn (turn_end t m) s = record s {
  turn_active = false;
  thinking = false;
  perm_allow_all_turn = false;
}
track_turn (lifecycle m) s =
    if has_prefix "turn_end" m
      && not s.thinking
      && not s.turn_active
      && is_idle s.agent_state.status
    then record s { turn_active = false; thinking = false }
    else s
track_turn _ s = s

unfoldable pub track_context : Payload → ChatState → ChatState
track_context (context_window input) s =
    let ctx = extract_context_tokens input in
    if is_pos ctx.max then record s { context_window = some ctx } else s
track_context _ s = s

unfoldable pub track_agent : ℕ → Payload → ChatState → ChatState
track_agent now p s = record s {
  agent_state = patch_agent s.agent_state (agent_state_from_event now p);
}

-- The next state, in the order of the source's assignments to `next`.
unfoldable pub next_state : Env → ChatState → AppEvent → Option String → ChatState
next_state env s ev sid =
    let s1 = record s {
      messages = cap_messages (merge_event s.messages ev);
      session_id = adopt_session s sid;
    } in
    let s2 = track_seq ev s1 in
    let s3 = track_permission ev ev.payload s2 in
    let s4 = detect_permission s.session_id ev ev.payload s3 in
    let s5 = track_turn ev.payload s4 in
    let s6 = track_context ev.payload s5 in track_agent env.now ev.payload s6

unfoldable pub next_storage : Env → ChatState → AppEvent → Storage → Storage
next_storage env s ev st =
    let st1 = save_messages env (cap_messages (merge_event s.messages ev)) st in
    if is_newer s.last_seq ev.seq then save_last_seq env (seq_of ev.seq) st1 else st1

unfoldable pub receive : Env → AppEvent → Option String → ChatState → Storage → ChatState × Storage
receive env ev sid s st =
    if is_ignored s ev sid then (s, st) else (next_state env s ev sid, next_storage env s ev st)
