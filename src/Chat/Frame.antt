-- ===== src/Chat/Frame.antt =====
-- Which fields of the state the steps of `EVENT_RECEIVED` leave alone
-- (web/src/core/state/ChatContext.tsx).
use mobilecoding.Base.{ℕ, ◌≡◌, String, Option, arith, ◌∙◌}
use mobilecoding.Event.{
  AppEvent, Payload, permission_ask, tool_result, turn_end, lifecycle, context_window,
}
use mobilecoding.Chat.State.{ChatState}
use mobilecoding.Chat.Storage.{Env}
use mobilecoding.Chat.Merge.{cap_messages, merge_event}
use mobilecoding.Chat.Receive.{
  adopt_session, track_seq, track_permission, detect_permission, track_turn, track_context,
  track_agent, next_state,
}

pub record Keeps (s t : ChatState) : Type 0 where
  pub messages : t.messages ≡ s.messages
  pub session_id : t.session_id ≡ s.session_id
  pub stopped_session_id : t.stopped_session_id ≡ s.stopped_session_id
  pub last_seq : t.last_seq ≡ s.last_seq
  pub pending_queue : t.pending_queue ≡ s.pending_queue
  pub perm_allowlist : t.perm_allowlist ≡ s.perm_allowlist
  pub stopping : t.stopping ≡ s.stopping
  pub status : t.status ≡ s.status

Keeps-trans : {s t u : ChatState} → Keeps s t → Keeps t u → Keeps s u
Keeps-trans h k = record {
  messages = k.messages ∙ h.messages;
  session_id = k.session_id ∙ h.session_id;
  stopped_session_id = k.stopped_session_id ∙ h.stopped_session_id;
  last_seq = k.last_seq ∙ h.last_seq;
  pending_queue = k.pending_queue ∙ h.pending_queue;
  perm_allowlist = k.perm_allowlist ∙ h.perm_allowlist;
  stopping = k.stopping ∙ h.stopping;
  status = k.status ∙ h.status;
}

track_permission-Keeps :
    (ev : AppEvent) (p : Payload) (s : ChatState) → Keeps s (track_permission ev p s)
unfolding track_permission
track_permission-Keeps ev (permission_ask p) s = ground arith
track_permission-Keeps ev _ s = ground arith

detect_permission-Keeps :
    (sid : Option String) (ev : AppEvent) (p : Payload) (s : ChatState)
    → Keeps s (detect_permission sid ev p s)
unfolding detect_permission
detect_permission-Keeps sid ev (tool_result name result) s = ground arith
detect_permission-Keeps sid ev _ s = ground arith

track_turn-Keeps : (p : Payload) (s : ChatState) → Keeps s (track_turn p s)
unfolding track_turn
track_turn-Keeps (turn_end t m) s = ground arith
track_turn-Keeps (lifecycle m) s = ground arith
track_turn-Keeps _ s = ground arith

track_context-Keeps : (p : Payload) (s : ChatState) → Keeps s (track_context p s)
unfolding track_context
track_context-Keeps (context_window input) s = ground arith
track_context-Keeps _ s = ground arith

track_agent-Keeps : (now : ℕ) (p : Payload) (s : ChatState) → Keeps s (track_agent now p s)
unfolding track_agent
track_agent-Keeps now p s = ground arith

-- The state after the messages, the session and the sequence number have been set.
abbrev pub core_state : ChatState → AppEvent → Option String → ChatState
core_state s ev sid = track_seq ev (record s {
  messages = cap_messages (merge_event s.messages ev);
  session_id = adopt_session s sid;
})

pub next_state-Keeps :
    (env : Env) (s : ChatState) (ev : AppEvent) (sid : Option String)
    → Keeps (core_state s ev sid) (next_state env s ev sid)
unfolding next_state
next_state-Keeps env s ev sid = Keeps-trans (track_permission-Keeps ev ev.payload _) (
    Keeps-trans (detect_permission-Keeps s.session_id ev ev.payload _) (
      Keeps-trans (track_turn-Keeps ev.payload _)
        (Keeps-trans (track_context-Keeps ev.payload _) (track_agent-Keeps env.now ev.payload _))))
