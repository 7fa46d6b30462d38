-- ===== src/Chat/Merge.antt =====
-- How an event joins the message list: the deduplication and merging of `EVENT_RECEIVED`
-- (web/src/core/state/ChatContext.tsx).
use mobilecoding.Base.{
  ℕ, ◌-◌, String, Bool, false, not, ◌&&◌, Option, none, some, List, [], ◌∷◌, ◌++◌, length, drop,
  init, last?, any, eqb, ltb, if◌then◌else◌, ◌==◌, concat, truthy, text_of, or_truthy, or_null,
}
use mobilecoding.Event.{
  AppEvent, Payload, text, text_delta, permission_request, permission_ask, Permission,
  DisplayMessage, event, user, is_permission, permission?, has_id,
}

abbrev pub max_messages : ℕ
max_messages = 500

-- An event whose `messageId` is on display already; permission requests are never dropped.
unfoldable pub is_duplicate : List DisplayMessage → AppEvent → Bool
is_duplicate msgs ev = elim ev.message_id [
  | none ↦ false
  | some id ↦ truthy (some id) && not (is_permission ev.payload) && any (has_id id) msgs
]

-- The thinking of a merged delta: both parts with a blank line between, or the one that is there.
unfoldable pub join_thinking : Option String → Option String → Option String
join_thinking a b =
    if truthy a && truthy b
    then some (concat (concat (text_of a) "\n\n") (text_of b))
    else or_null (or_truthy a b)

-- A delta's event, text, thinking and block.
abbrev pub Delta : Type 0
Delta = AppEvent × String × Option String × ℕ

abbrev pub delta_of : AppEvent → Payload → Option Delta
delta_of e (text_delta t th b) = some (e, t, th, b)
delta_of e _ = none

-- The last message, if it is a delta.
abbrev pub delta? : Option DisplayMessage → Option Delta
delta? none = none
delta? (some (user u)) = none
delta? (some (event e)) = delta_of e e.payload

-- A permission request follows one for the same tool.
abbrev pub same_tool : Permission → Option DisplayMessage → Bool
same_tool p none = false
same_tool p (some (user u)) = false
same_tool p (some (event e)) = elim (permission? e.payload) [
  | none ↦ false
  | some q ↦ q.tool_name == p.tool_name
]

abbrev pub append_message : List DisplayMessage → DisplayMessage → List DisplayMessage
append_message msgs m = msgs ++ m ∷ []

-- `[...messages.slice(0, -1), m]`
abbrev pub replace_last : List DisplayMessage → DisplayMessage → List DisplayMessage
replace_last msgs m = init msgs ++ m ∷ []

unfoldable pub merge_permission : Permission → List DisplayMessage → AppEvent → List DisplayMessage
merge_permission p msgs ev =
    if same_tool p (last? msgs)
    then replace_last msgs (event ev)
    else append_message msgs (event ev)

-- The delta on display, with the text and the thinking of the new one added.
abbrev pub extend_delta : Delta → String → Option String → DisplayMessage
extend_delta (e, t, th, b) more thinking =
    event (record e { payload = text_delta (concat t more) (join_thinking th thinking) b })

unfoldable pub merge_delta :
    String → Option String → ℕ → List DisplayMessage → AppEvent → List DisplayMessage
merge_delta t th block msgs ev = elim (delta? (last? msgs)) [
  | none ↦ append_message msgs (event ev)
  | some d ↦
      if eqb d.3 block
      then replace_last msgs (extend_delta d t th)
      else append_message msgs (event ev)
]

-- A complete text takes the place of the delta before it, and keeps that one's thinking if it has
-- none of its own.
unfoldable pub merge_text :
    String → Option String → List DisplayMessage → AppEvent → List DisplayMessage
merge_text t th msgs ev = elim (delta? (last? msgs)) [
  | none ↦ append_message msgs (event ev)
  | some d ↦
      replace_last msgs
        (event (record ev { payload = text t (if truthy d.2 && not (truthy th) then d.2 else th) }))
]

unfoldable pub merge_by : Payload → List DisplayMessage → AppEvent → List DisplayMessage
merge_by (permission_request p) msgs ev = merge_permission p msgs ev
merge_by (permission_ask p) msgs ev = merge_permission p msgs ev
merge_by (text_delta t th b) msgs ev = merge_delta t th b msgs ev
merge_by (text t th) msgs ev = merge_text t th msgs ev
merge_by _ msgs ev = append_message msgs (event ev)

unfoldable pub merge_event : List DisplayMessage → AppEvent → List DisplayMessage
merge_event msgs ev = merge_by ev.payload msgs ev

-- `messages.splice(0, messages.length - MAX_MESSAGES)` when there are more.
unfoldable pub cap_messages : List DisplayMessage → List DisplayMessage
cap_messages msgs =
    if ltb max_messages (length msgs) then drop (length msgs - max_messages) msgs else msgs
