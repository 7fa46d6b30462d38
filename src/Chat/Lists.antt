-- ===== src/Chat/Lists.antt =====
-- The queue of inputs, the list of allowed tools and the number of the latest message
-- (web/src/core/state/ChatContext.tsx).
use mobilecoding.Base.{
  ◌≡◌, refl, sym, ap, subst, ◌∙◌, ◌≢◌, inl, inr, String, true, false, ◌||◌, Option, some, List, [],
  ◌∷◌, ◌++◌, arith, last?, if◌then◌else◌, ◌==◌, eq_iff, eq_refl, Bool-cases, max,
}
use mobilecoding.Event.{AppEvent}
use mobilecoding.Chat.State.{
  ChatState, Action, status_changed, runtime_loaded, session_started, active_session_detected,
  session_stopped, event_received, user_message_sent, permission_answered, queue_input,
  clear_pending, perm_allow_tool, perm_clear_allowlist,
}
use mobilecoding.Chat.Storage.{Storage, Env}
use mobilecoding.Chat.Receive.{receive, is_ignored, is_newer, seq_of, track_seq, same_text}
use mobilecoding.Chat.Frame.{next_state-Keeps}
use mobilecoding.Chat.Reducer.{
  change_status, start_session, detect_session, stop_session, load_runtime, send_user_message,
  answer_permission, allow_tool, clear_allowlist, enqueue, member_of, reducer, run,
}

-- No two neighbours are equal.
abbrev pub NoRepeat : List String → Type 0
NoRepeat [] = Unit {0}
NoRepeat (x ∷ []) = Unit {0}
NoRepeat (x ∷ y ∷ r) = (x ≢ y) × NoRepeat (y ∷ r)

same_text_self : (x : String) → same_text (some x) (some x) ≡ true
same_text_self x = eq_refl x

NoRepeat-snoc :
    (xs : List String) (x : String)
    → NoRepeat xs
    → same_text (last? xs) (some x) ≡ false
    → NoRepeat (xs ++ x ∷ [])
NoRepeat-snoc [] x h e = tt
NoRepeat-snoc (y ∷ []) x h e = (λ p. cc (ap (λ z. z == x) p ∙ eq_refl x, e), tt)
NoRepeat-snoc (y ∷ z ∷ r) x h e = (h.0, NoRepeat-snoc (z ∷ r) x h.1 e)

-- Queueing an input keeps neighbours different, whether it is added or dropped.
pub enqueue-NoRepeat : (x : String) (q : List String) → NoRepeat q → NoRepeat (enqueue x q)
unfolding enqueue
enqueue-NoRepeat x q h = elim (Bool-cases (same_text (last? q) (some x))) [
  | inl e ↦ rw e h
  | inr e ↦ rw e (NoRepeat-snoc q x h e)
]

-- No tool is listed twice.
abbrev pub IsNodup : List String → Type 0
IsNodup [] = Unit {0}
IsNodup (x ∷ xs) = (member_of x xs ≡ false) × IsNodup xs

member_of-snoc :
    (u x : String) (xs : List String) → member_of u (xs ++ x ∷ []) ≡ (member_of u xs || x == u)
member_of-snoc u x [] = ground arith
member_of-snoc u x (y ∷ xs) = ground (arith, member_of-snoc u x xs)

IsNodup-snoc :
    (xs : List String) (x : String) → IsNodup xs → member_of x xs ≡ false → IsNodup (xs ++ x ∷ [])
IsNodup-snoc [] x h e = (refl, tt)
IsNodup-snoc (y ∷ xs) x h e = (
  ground (arith, member_of-snoc y x xs, eq_iff x y, eq_iff y x),
  IsNodup-snoc xs x h.1 (ground arith),
)

member_of-known :
    (t u : String) (xs : List String)
    → member_of t xs ≡ true
    → member_of u xs ≡ (member_of u xs || t == u)
member_of-known t u xs h = elim (Bool-cases (t == u)) [
  | inl e ↦
      let found : member_of u xs ≡ true = subst (λ v. member_of v xs ≡ true) ((eq_iff t u).0 e) h in
      rw found
  | inr e ↦ rw e (ground arith)
]

-- Allowing a tool adds that one alone: it is on the list afterwards, and any other is exactly if it
-- was before.
allow_tool-member_of :
    (env : Env) (t u : String) (s : ChatState) (st : Storage)
    → member_of u (reducer env (perm_allow_tool t) s st).0.perm_allowlist
      ≡ (member_of u s.perm_allowlist || t == u)
unfolding reducer allow_tool
allow_tool-member_of env t u s st = elim (Bool-cases (member_of t s.perm_allowlist)) [
  | inl e ↦ rw e (member_of-known t u s.perm_allowlist e)
  | inr e ↦ rw e (member_of-snoc u t s.perm_allowlist)
]

pub record IsTidy (s : ChatState) : Type 0 where
  pub queue : NoRepeat s.pending_queue
  pub tools : IsNodup s.perm_allowlist

IsTidy-of_eq :
    (s t : ChatState)
    → t.pending_queue ≡ s.pending_queue
    → t.perm_allowlist ≡ s.perm_allowlist
    → IsTidy s
    → IsTidy t
IsTidy-of_eq s t p q h = record {
  queue = subst NoRepeat (sym p) h.queue;
  tools = subst IsNodup (sym q) h.tools;
}

receive-lists :
    (env : Env) (ev : AppEvent) (sid : Option String) (s : ChatState) (st : Storage)
    → ((receive env ev sid s st).0.pending_queue ≡ s.pending_queue)
      × ((receive env ev sid s st).0.perm_allowlist ≡ s.perm_allowlist)
unfolding receive track_seq
receive-lists env ev sid s st = ground (arith, next_state-Keeps env s ev sid)

allow_tool-IsNodup :
    (env : Env) (t : String) (s : ChatState) (st : Storage)
    → IsNodup s.perm_allowlist
    → IsNodup (allow_tool env t s st).0.perm_allowlist
unfolding allow_tool
allow_tool-IsNodup env t s st h = elim (Bool-cases (member_of t s.perm_allowlist)) [
  | inl e ↦ rw e h
  | inr e ↦ rw e (IsNodup-snoc s.perm_allowlist t h e)
]

allow_tool-queue :
    (env : Env) (t : String) (s : ChatState) (st : Storage)
    → (allow_tool env t s st).0.pending_queue ≡ s.pending_queue
unfolding allow_tool
allow_tool-queue env t s st = ground arith

reducer-IsTidy :
    (env : Env) (a : Action) (s : ChatState) (st : Storage)
    → IsTidy s
    → IsTidy (reducer env a s st).0
unfolding reducer
reducer-IsTidy env (event_received ev sid) s st h =
    let (p, q) = receive-lists env ev sid s st in IsTidy-of_eq s _ p q h
reducer-IsTidy env (queue_input x) s st h = record {
  queue = enqueue-NoRepeat x s.pending_queue h.queue;
  tools = h.tools;
}
reducer-IsTidy env clear_pending s st h = record { queue = tt; tools = h.tools }
reducer-IsTidy env (perm_allow_tool t) s st h = record {
  queue = rw (allow_tool-queue env t s st) h.queue;
  tools = allow_tool-IsNodup env t s st h.tools;
}
reducer-IsTidy env perm_clear_allowlist s st h = unfold clear_allowlist in ground arith
reducer-IsTidy env (status_changed c) s st h = unfold change_status in ground arith
reducer-IsTidy env (active_session_detected id) s st h = unfold detect_session in ground arith
reducer-IsTidy env (session_started id) s st h = unfold start_session in ground arith
reducer-IsTidy env (user_message_sent txt id) s st h = unfold send_user_message in ground arith
reducer-IsTidy env (permission_answered b) s st h = unfold answer_permission in ground arith
reducer-IsTidy env session_stopped s st h = unfold stop_session in ground arith
reducer-IsTidy env (runtime_loaded r) s st h = unfold load_runtime in ground arith
reducer-IsTidy env _ s st h = ground arith

-- Over any history of actions, no two neighbours of the queued inputs are equal and no tool is on the
-- list of allowed tools twice, if that holds at its start.
run-IsTidy :
    (h : List (Env × Action)) (s : ChatState) (st : Storage) → IsTidy s → IsTidy (run h (s, st)).0
unfolding run
run-IsTidy [] s st p = p
run-IsTidy ((env, a) ∷ h) s st p = run-IsTidy h _ _ (reducer-IsTidy env a s st p)

-- The number of the latest message becomes the greater of its own and the event's, or stays where the
-- event is ignored; an event with no number counts as 0.
receive-last_seq :
    (env : Env) (ev : AppEvent) (sid : Option String) (s : ChatState) (st : Storage)
    → (receive env ev sid s st).0.last_seq
      ≡ (if is_ignored s ev sid then s.last_seq else max s.last_seq (seq_of ev.seq))
unfolding receive track_seq is_newer
receive-last_seq env ev sid s st = ground (arith, next_state-Keeps env s ev sid)
