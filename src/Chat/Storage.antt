-- ===== src/Chat/Storage.antt =====
-- What the reducer keeps in `localStorage`, and the functions that save and load it
-- (web/src/core/state/ChatContext.tsx). A stored value stands for its JSON text: `JSON.stringify`
-- and `JSON.parse` are taken to be inverse on what the reducer stores.
use mobilecoding.Base.{
  ℕ, String, Bool, not, Option, none, some, List, [], filter, take_last, if◌then◌else◌,
}
use mobilecoding.Event.{DisplayMessage, is_permission_message}

pub data Key : Type 0 where
  session_id_key messages_key last_seq_key allowlist_key : Key

pub record Storage : Type 0 where
  pub session_id : Option String
  pub messages : Option (List DisplayMessage)
  pub last_seq : Option ℕ
  pub allowlist : Option (List String)

-- What one call of the reducer reads from outside: the clock, and which accesses of the storage
-- succeed. One that fails throws, and the reducer catches it.
pub record Env : Type 0 where
  -- `Date.now()`, and `new Date().toISOString()`
  pub now : ℕ
  pub iso : String
  pub can_set : Key → Bool
  pub can_remove : Bool

abbrev pub max_stored_messages : ℕ
max_stored_messages = 200

unfoldable pub save_last_seq : Env → ℕ → Storage → Storage
save_last_seq env seq st =
    if env.can_set last_seq_key then record st { last_seq = some seq } else st

unfoldable pub load_last_seq : Storage → ℕ
load_last_seq st = elim st.last_seq [ none ↦ 0 | some n ↦ n ]

unfoldable pub save_messages : Env → List DisplayMessage → Storage → Storage
save_messages env msgs st =
    if env.can_set messages_key
    then record st { messages = some (take_last max_stored_messages msgs) }
    else st

abbrev pub parsed_messages : Option (List DisplayMessage) → List DisplayMessage
parsed_messages none = []
parsed_messages (some msgs) = msgs

-- Permission requests are dropped: after a reload they are not shown again.
unfoldable pub load_messages : Storage → List DisplayMessage
load_messages st =
    take_last max_stored_messages
      (filter (λ m. not (is_permission_message m)) (parsed_messages st.messages))

unfoldable pub load_perm_allowlist : Storage → List String
load_perm_allowlist st = elim st.allowlist [ none ↦ [] | some items ↦ items ]

unfoldable pub save_perm_allowlist : Env → List String → Storage → Storage
save_perm_allowlist env items st =
    if env.can_set allowlist_key then record st { allowlist = some items } else st

-- The `try` block of a new session: the id is set, then the messages go; `saveLastSeq(0)` follows.
unfoldable pub switch_session : Env → String → Storage → Storage
unfolding save_last_seq
switch_session env id st = save_last_seq env 0 (
    if env.can_set session_id_key
    then (if env.can_remove
        then record st { session_id = some id; messages = none }
        else record st { session_id = some id })
    else st)

unfoldable pub forget_session : Env → Storage → Storage
forget_session env st = if env.can_remove then record st { session_id = none } else st
