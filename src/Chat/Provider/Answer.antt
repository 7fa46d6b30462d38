-- ===== src/Chat/Provider/Answer.antt =====
-- `answerPermission`, and the effect that answers a prompt by itself
-- (web/src/core/state/ChatContext.tsx).
use mobilecoding.Base.{
  ℕ, ◌≡◌, refl, ◌∙◌, String, Bool, true, false, ◌&&◌, ◌||◌, Option, none, some, List, or_null,
  is_empty, All, or_truthy, if◌then◌else◌, Bool-cases, inl, inr,
}
use mobilecoding.Event.{AppEvent, permission?}
use mobilecoding.Chat.State.{ChatState, Action}
use mobilecoding.Chat.Storage.{Storage, Env}
use mobilecoding.Chat.Reducer.{member_of, run, initial_state}
use mobilecoding.Chat.Permission.{Answers, run-initial_state-IsPaired}
use mobilecoding.Chat.Io.{
  Effect, responds, relays_response, Result, ok, thrown, Io, ◌>>◌, ◌>>=◌, bind_result, dispatch,
  call,
}
use mobilecoding.Chat.Provider.{nothing, is_relay, relay_send}

-- The answer to a request that can be answered.
unfoldable pub respond : Bool → String → Result (Unit {0}) → Bool → Io (Unit {0})
respond true id ends allow = relay_send (relays_response id allow) ends
respond false id ends allow = call (responds id allow) ends

abbrev pub through_relay : ChatState → Bool → Bool
through_relay s relaying = is_relay s.connection_mode && relaying

unfoldable pub answer_permission :
    Bool → Option String → ChatState → Bool → Result (Unit {0}) → Io (Unit {0})
answer_permission allow none s relaying ends = dispatch (Action.permission_answered allow)
answer_permission allow (some id) s relaying ends =
    if is_empty id
    then dispatch (Action.permission_answered allow)
    else dispatch (Action.permission_answered allow)
      >> respond (through_relay s relaying) id ends allow

-- `state.permAllowAllTurn || state.permAllowlist.includes(prompt.toolName)`
unfoldable pub allows : ChatState → AppEvent → Bool
allows s ev = s.perm_allow_all_turn || (elim (permission? ev.payload) [
  | none ↦ false
  | some p ↦ member_of p.tool_name s.perm_allowlist
])

unfoldable pub answer_prompt :
    ChatState → Option AppEvent → Bool → Result (Unit {0}) → Io (Unit {0})
answer_prompt s none relaying ends = nothing
answer_prompt s (some ev) relaying ends =
    if allows s ev
    then answer_permission true (or_truthy s.permission_request_id (or_null ev.message_id)) s
        relaying ends
    else nothing

unfoldable pub auto_answer : ChatState → Bool → Result (Unit {0}) → Io (Unit {0})
auto_answer s relaying ends = answer_prompt s s.permission_prompt relaying ends

-- An answer that the state allows: to the prompt on display, by its own `messageId`.
abbrev pub IsLicensed : ChatState → String → Bool → Type 0
IsLicensed s id allow =
    (ev : AppEvent) × (s.permission_prompt ≡ some ev)
    × (ev.message_id ≡ some id)
    × (allows s ev ≡ true)
    × (allow ≡ true)

-- Every answer among the effects is licensed.
abbrev pub IsCautious : ChatState → Effect → Type 0
IsCautious s (responds id allow) = IsLicensed s id allow
IsCautious s (relays_response id allow) = IsLicensed s id allow
IsCautious s _ = Unit {0}

respond-IsCautious :
    (s : ChatState) (id : String) (over : Bool) (ends : Result (Unit {0}))
    → IsLicensed s id true
    → All (IsCautious s) (respond over id ends true).effects
unfolding respond
respond-IsCautious s id true (ok u) h = (h, tt)
respond-IsCautious s id true (thrown e) h = tt
respond-IsCautious s id false ends h = (h, tt)

answer_permission-IsCautious :
    (s : ChatState) (id : Option String) (relaying : Bool) (ends : Result (Unit {0}))
    → ((x : String) → id ≡ some x → is_empty x ≡ false → IsLicensed s x true)
    → All (IsCautious s) (answer_permission true id s relaying ends).effects
unfolding answer_permission ◌>>=◌ bind_result
answer_permission-IsCautious s none relaying ends h = (tt, tt)
answer_permission-IsCautious s (some id) relaying ends h = elim (Bool-cases (is_empty id)) [
  | inl e ↦ rw e (tt, tt)
  | inr e ↦ rw e (tt, respond-IsCautious s id (through_relay s relaying) ends (h id refl e))
]

or_null-some : (m : Option String) (x : String) → or_null m ≡ some x → m ≡ some x
or_null-some none x e = cc
or_null-some (some String.[]) x e = cc
or_null-some (some (String.◌∷◌ c s)) x e = e

-- The id that is answered by is the prompt's own.
answered-own :
    (ev : AppEvent) (id : Option String) (x : String)
    → Answers (some ev) id
    → or_truthy id (or_null ev.message_id) ≡ some x
    → ev.message_id ≡ some x
answered-own ev none x h e = or_null-some ev.message_id x e
answered-own ev (some String.[]) x h e = or_null-some ev.message_id x e
answered-own ev (some (String.◌∷◌ c s)) x h e = h ∙ e

answer_prompt-IsCautious :
    (s : ChatState) (q : Option AppEvent) (relaying : Bool) (ends : Result (Unit {0}))
    → s.permission_prompt ≡ q
    → Answers q s.permission_request_id
    → All (IsCautious s) (answer_prompt s q relaying ends).effects
unfolding answer_prompt
answer_prompt-IsCautious s none relaying ends p h = tt
answer_prompt-IsCautious s (some ev) relaying ends p h = elim (Bool-cases (allows s ev)) [
  | inl a ↦ rw a (
      answer_permission-IsCautious s _ relaying ends
        λ x e n. (ev, p, answered-own ev s.permission_request_id x h e, a, refl))
  | inr a ↦ rw a tt
]

-- After any history from the start of a page, what the page answers by itself is an answer to the
-- prompt on display, by that prompt's own `messageId`; it allows, and only where the tool is on the
-- list of allowed tools or everything is allowed for the turn.
pub auto_answer-IsCautious :
    (now : ℕ) (st : Storage) (h : List (Env × Action)) (relaying : Bool) (ends : Result (Unit {0}))
    → let s = (run h (initial_state now st, st)).0 in
      All (IsCautious s) (auto_answer s relaying ends).effects
unfolding auto_answer
auto_answer-IsCautious now st h relaying ends =
    answer_prompt-IsCautious _ _ relaying ends refl (run-initial_state-IsPaired now st h)
