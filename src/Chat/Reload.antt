-- ===== src/Chat/Reload.antt =====
-- The storage beside the state over the actions, and what a reload of the page reads
-- (web/src/core/state/ChatContext.tsx).
use mobilecoding.Base.{
  ℕ, ◌≡◌, refl, sym, ap, ◌∙◌, String, Option, some, List, [], ◌∷◌, arith, take_last, not, ◌&&◌, All,
  Bool-cases, inl, inr,
}
use mobilecoding.Event.{AppEvent, ConnectionStatus, closed}
use mobilecoding.Chat.State.{
  ChatState, Action, status_changed, runtime_loaded, session_started, active_session_detected,
  session_stopped, event_received, user_message_sent, permission_answered, perm_allow_tool,
  perm_clear_allowlist,
}
use mobilecoding.Chat.Storage.{
  Storage, Env, session_id_key, messages_key, last_seq_key, allowlist_key, max_stored_messages,
  save_last_seq, load_last_seq, save_messages, load_messages, load_perm_allowlist,
  save_perm_allowlist, switch_session, forget_session,
}
use mobilecoding.Chat.Receive.{receive, is_ignored, track_seq, next_storage}
use mobilecoding.Chat.Frame.{next_state-Keeps, core_state}
use mobilecoding.Chat.Sync.{
  IsOpen, IsSynced, after_reload, load-saved, after_reload-load_messages, after_reload-mark_latest,
}
use mobilecoding.Chat.Reducer.{
  change_status, start_session, detect_session, stop_session, load_runtime, send_user_message,
  answer_permission, allow_tool, clear_allowlist, member_of, is_nil, is_new_session, reducer,
  initial_state, run,
}

-- The three stored values are those of the state.
IsSynced-of :
    (s : ChatState) (st : Storage)
    → load_last_seq st ≡ s.last_seq
    → load_perm_allowlist st ≡ s.perm_allowlist
    → st.messages ≡ some (take_last max_stored_messages s.messages)
    → IsSynced s st
IsSynced-of s st p q r = record { seq = p; tools = q; messages = load-saved st s.messages r }

-- Neither the state's part nor the stored values change.
IsSynced-eq :
    (s t : ChatState) (st : Storage)
    → t.last_seq ≡ s.last_seq
    → t.perm_allowlist ≡ s.perm_allowlist
    → after_reload t.messages ≡ after_reload s.messages
    → IsSynced s st
    → IsSynced t st
IsSynced-eq s t st p q r h = record {
  seq = h.seq ∙ sym p;
  tools = h.tools ∙ sym q;
  messages = h.messages ∙ sym r;
}

core_state-IsSynced :
    (env : Env) (ev : AppEvent) (sid : Option String) (s : ChatState) (st : Storage)
    → IsOpen env
    → IsSynced s st
    → IsSynced (core_state s ev sid) (next_storage env s ev st)
unfolding next_storage track_seq
core_state-IsSynced env ev sid s st o h = IsSynced-of _ _ seq tools msgs
  where
    seq : load_last_seq (next_storage env s ev st) ≡ (core_state s ev sid).last_seq
    seq =
        unfold save_messages save_last_seq load_last_seq in
        ground (arith, o.can_set messages_key, o.can_set last_seq_key, h.seq)

    tools : load_perm_allowlist (next_storage env s ev st) ≡ (core_state s ev sid).perm_allowlist
    tools =
        unfold save_messages save_last_seq load_perm_allowlist in
        ground (arith, o.can_set messages_key, o.can_set last_seq_key, h.tools)

    msgs :
        (next_storage env s ev st).messages
        ≡ some (take_last max_stored_messages (core_state s ev sid).messages)
    msgs =
        unfold save_messages save_last_seq in
        ground (arith, o.can_set messages_key, o.can_set last_seq_key)

receive-IsSynced :
    (env : Env) (ev : AppEvent) (sid : Option String) (s : ChatState) (st : Storage)
    → IsOpen env
    → IsSynced s st
    → IsSynced (receive env ev sid s st).0 (receive env ev sid s st).1
unfolding receive
receive-IsSynced env ev sid s st o h = elim (Bool-cases (is_ignored s ev sid)) [
  | inl e ↦ rw e h
  | inr e ↦
      let k = next_state-Keeps env s ev sid in
      rw e (
        IsSynced-eq (core_state s ev sid) _ _ k.last_seq k.perm_allowlist
          (ap after_reload k.messages) (core_state-IsSynced env ev sid s st o h))
]

-- A session that begins leaves nothing to reload but the tools.
fresh-IsSynced :
    (env : Env) (id : String) (s t : ChatState) (st : Storage)
    → IsOpen env
    → IsSynced s st
    → t.messages ≡ []
    → t.last_seq ≡ 0
    → t.perm_allowlist ≡ s.perm_allowlist
    → IsSynced t (switch_session env id st)
unfolding switch_session load_last_seq load_perm_allowlist load_messages take_last
fresh-IsSynced env id s t st o h p q r = record {
  seq = ground (arith, o.can_set session_id_key, o.can_set last_seq_key, o.can_remove);
  tools = ground (arith, o.can_set session_id_key, o.can_set last_seq_key, o.can_remove, h.tools);
  messages = rw (o.can_set session_id_key, o.can_set last_seq_key, o.can_remove, p) refl;
}

allowlist-IsSynced :
    (env : Env) (s t : ChatState) (st : Storage)
    → IsOpen env
    → IsSynced s st
    → t.messages ≡ s.messages
    → t.last_seq ≡ s.last_seq
    → IsSynced t (save_perm_allowlist env t.perm_allowlist st)
unfolding save_perm_allowlist load_last_seq load_perm_allowlist load_messages
allowlist-IsSynced env s t st o h p q = record {
  seq = ground (arith, o.can_set allowlist_key, h.seq);
  tools = ground (arith, o.can_set allowlist_key);
  messages = rw (o.can_set allowlist_key) (h.messages ∙ sym (ap after_reload p));
}

allow_tool-IsSynced :
    (env : Env) (t : String) (s : ChatState) (st : Storage)
    → IsOpen env
    → IsSynced s st
    → IsSynced (allow_tool env t s st).0 (allow_tool env t s st).1
unfolding allow_tool
allow_tool-IsSynced env t s st o h = elim (Bool-cases (member_of t s.perm_allowlist)) [
  | inl e ↦ rw e h
  | inr e ↦ rw e (allowlist-IsSynced env s _ st o h refl refl)
]

clear_allowlist-IsSynced :
    (env : Env) (s : ChatState) (st : Storage)
    → IsOpen env
    → IsSynced s st
    → IsSynced (clear_allowlist env s st).0 (clear_allowlist env s st).1
unfolding clear_allowlist
clear_allowlist-IsSynced env s st o h =
    elim (Bool-cases (is_nil s.perm_allowlist && not s.perm_allow_all_turn)) [
      | inl e ↦ rw e h
      | inr e ↦ rw e (allowlist-IsSynced env s _ st o h refl refl)
    ]

detect_session-IsSynced :
    (env : Env) (id : String) (s : ChatState) (st : Storage)
    → IsOpen env
    → IsSynced s st
    → IsSynced (detect_session env id s st).0 (detect_session env id s st).1
unfolding detect_session
detect_session-IsSynced env id s st o h = elim (Bool-cases (is_new_session s id)) [
  | inl e ↦ rw e (fresh-IsSynced env id s _ st o h refl refl refl)
  | inr e ↦ rw e (IsSynced-eq s _ st refl refl refl h)
]

send_user_message-IsSynced :
    (env : Env) (txt id : String) (s : ChatState) (st : Storage)
    → IsOpen env
    → IsSynced s st
    → IsSynced (send_user_message env txt id s st).0 (send_user_message env txt id s st).1
unfolding send_user_message save_messages load_last_seq load_perm_allowlist
send_user_message-IsSynced env txt id s st o h =
    IsSynced-of _ _ (ground (arith, o.can_set messages_key, h.seq))
      (ground (arith, o.can_set messages_key, h.tools)) (rw (o.can_set messages_key) refl)

change_status-same :
    (c : ConnectionStatus) (s : ChatState) (st : Storage)
    → IsSynced s st
    → IsSynced (change_status c s) st
unfolding change_status
change_status-same closed s st h = IsSynced-eq s _ st refl refl refl h
change_status-same _ s st h = IsSynced-eq s _ st refl refl refl h

forget_session-IsSynced :
    (env : Env) (s t : ChatState) (st : Storage)
    → IsOpen env
    → t.last_seq ≡ s.last_seq
    → t.perm_allowlist ≡ s.perm_allowlist
    → t.messages ≡ s.messages
    → IsSynced s st
    → IsSynced t (forget_session env st)
unfolding forget_session load_last_seq load_perm_allowlist load_messages
forget_session-IsSynced env s t st o p q r h = rw o.can_remove (record {
  seq = h.seq ∙ sym p;
  tools = h.tools ∙ sym q;
  messages = h.messages ∙ sym (ap after_reload r);
})

reducer-IsSynced :
    (env : Env) (a : Action) (s : ChatState) (st : Storage)
    → IsOpen env
    → IsSynced s st
    → IsSynced (reducer env a s st).0 (reducer env a s st).1
unfolding reducer
reducer-IsSynced env (event_received ev sid) s st o h = receive-IsSynced env ev sid s st o h
reducer-IsSynced env (status_changed c) s st o h = change_status-same c s st h
reducer-IsSynced env (session_started id) s st o h =
    unfold start_session in fresh-IsSynced env id s _ st o h refl refl refl
reducer-IsSynced env (active_session_detected id) s st o h = detect_session-IsSynced env id s st o h
reducer-IsSynced env (user_message_sent txt id) s st o h =
    send_user_message-IsSynced env txt id s st o h
reducer-IsSynced env (permission_answered b) s st o h =
    unfold answer_permission in
    IsSynced-eq s _ st refl refl (after_reload-mark_latest _ s.messages) h
reducer-IsSynced env (perm_allow_tool t) s st o h = allow_tool-IsSynced env t s st o h
reducer-IsSynced env perm_clear_allowlist s st o h = clear_allowlist-IsSynced env s st o h
reducer-IsSynced env session_stopped s st o h =
    unfold stop_session in forget_session-IsSynced env s _ st o refl refl refl h
reducer-IsSynced env (runtime_loaded r) s st o h =
    unfold load_runtime in IsSynced-eq s _ st refl refl refl h
reducer-IsSynced env _ s st o h = IsSynced-eq s _ st refl refl refl h

run-IsSynced :
    (h : List (Env × Action)) (s : ChatState) (st : Storage)
    → All (λ p. IsOpen p.0) h
    → IsSynced s st
    → IsSynced (run h (s, st)).0 (run h (s, st)).1
unfolding run
run-IsSynced [] s st o p = p
run-IsSynced ((env, a) ∷ h) s st (o, os) p = run-IsSynced h _ _ os (reducer-IsSynced env a s st o p)

-- Where no access of the storage fails, a page that is loaded anew after any history starts with the
-- chat of the page before it: the number of the latest message, the allowed tools, and the last 200
-- messages without the permission requests.
pub reload-run :
    (now now' : ℕ) (st : Storage) (h : List (Env × Action))
    → All (λ p. IsOpen p.0) h
    → let w = run h (initial_state now st, st) in
      let t = initial_state now' w.1 in
      (t.last_seq ≡ w.0.last_seq)
      × (t.perm_allowlist ≡ w.0.perm_allowlist)
      × (t.messages ≡ after_reload w.0.messages)
unfolding initial_state
reload-run now now' st h o =
    let synced =
      run-IsSynced h (initial_state now st) st o
        (record { seq = refl; tools = refl; messages = after_reload-load_messages st }) in
    (synced.seq, synced.tools, synced.messages)
