-- ===== src/Chat/Provider.antt =====
-- The functions of the chat's provider: what they ask the server and the relay for, and how a session
-- starts and ends (web/src/core/state/ChatContext.tsx, lines 505 to 864). What is answered is an
-- argument, and `ChatState` is the one that the function closed over; its status is the socket's,
-- which an effect copies. `relaying` says whether there is a relay client; what the listeners of that
-- client dispatch is not among the effects. A reply that cannot be fetched or parsed is `unreachable`,
-- one with an error code `refused`.
pub mod Input
pub mod Account
pub mod Stop
pub mod Answer
pub mod CatchUp
mod Tests
use mobilecoding.Base.{
  ℕ, String, Bool, true, false, not, ◌&&◌, ◌||◌, Option, none, some, List, [], text_of, truthy,
  is_empty, or_text, if◌then◌else◌,
}
use mobilecoding.Event.{ConnectionStatus, AppEvent, connected}
use mobilecoding.Chat.State.{
  ChatState, Action, RuntimeConfig, LaunchMode, ConnectionMode, managed, direct, relay,
}
use mobilecoding.Chat.Io.{
  StartParams, RelayConfig, Effect, stores_session_id, sets_runtime, starts_session, relays_start,
  closes_relay, connects_relay, Result, ok, thrown, Io, ◌>>=◌, ◌>>◌, give, throw, emit, dispatch,
  call,
}
use mobilecoding.Controls.{is_remote_control}

pub data Reply {ℓ} (A : Type ℓ) : Type ℓ where
  unreachable refused : Reply A
  body : A → Reply A

abbrev pub is_connected : ConnectionStatus → Bool
is_connected connected = true
is_connected _ = false

abbrev pub is_relay : ConnectionMode → Bool
is_relay relay = true
is_relay direct = false

abbrev pub nothing : Io (Unit {0})
nothing = give tt

-- An id that was found; `can_set` says whether `localStorage` can be written.
unfoldable pub detect_active : String → Bool → Io (Option String)
detect_active id true = do
  emit (stores_session_id id)
  dispatch (Action.active_session_detected id)
  give (some id)
detect_active id false = give none

unfoldable pub refresh_active_session_id : Bool → Reply (Option String) → Bool → Io (Option String)
refresh_active_session_id clear_when_missing unreachable can_set = give none
refresh_active_session_id clear_when_missing refused can_set = give none
refresh_active_session_id clear_when_missing (body id) can_set =
    if truthy id
    then detect_active (text_of id) can_set
    else if clear_when_missing
    then dispatch Action.session_stopped >> give none
    else give none

-- `current` is what `runtimeRef` holds.
unfoldable pub refresh_runtime_config :
    RuntimeConfig → Reply (Option RuntimeConfig) → Io RuntimeConfig
refresh_runtime_config current unreachable = give current
refresh_runtime_config current refused = give current
refresh_runtime_config current (body none) = give current
refresh_runtime_config current (body (some runtime)) = do
  emit (sets_runtime runtime)
  dispatch (Action.runtime_loaded runtime)
  give runtime

-- `runtime.launchMode || 'managed'`
abbrev pub launch_mode_of : RuntimeConfig → LaunchMode
launch_mode_of r = elim r.launch_mode [ none ↦ managed | some m ↦ m ]

-- The effect that asks for the runtime and the session on connection.
unfoldable pub refresh_direct_state :
    ChatState
    → RuntimeConfig
    → Reply (Option RuntimeConfig)
    → Reply (Option String)
    → Bool
    → Io (Unit {0})
refresh_direct_state s current version session can_set =
    if not (is_connected s.status) || is_relay s.connection_mode then nothing else (do
      runtime ← refresh_runtime_config current version
      id ← refresh_active_session_id (is_remote_control (launch_mode_of runtime)) session can_set
      nothing)

-- The payload that goes over the relay: the defaults are written out, and the last two are left out.
abbrev pub relay_params : StartParams → StartParams
relay_params p = record {
  command = p.command;
  args = some (elim p.args [ none ↦ [] | some l ↦ l ]);
  cwd = some (text_of p.cwd);
  restart = false;
  resume_session_id = none;
}

abbrev pub started : StartParams → String → Action
started params id =
    if params.restart then Action.active_session_detected id else Action.session_started id

-- A send over the relay throws before anything goes out.
abbrev pub relay_send : Effect → Result (Unit {0}) → Io (Unit {0})
relay_send e (ok u) = emit e
relay_send e (thrown msg) = throw msg

-- `relayed` is how the send over the relay ends, `answer` the session id that the server answers.
unfoldable pub send_start :
    StartParams → ChatState → Bool → Result (Unit {0}) → Result (Option String) → Io (Option String)
send_start params s relaying relayed answer =
    if is_relay s.connection_mode && relaying
    then (do
      relay_send (relays_start (relay_params params)) relayed
      dispatch (Action.session_started "relay_session")
      give (some "relay_session"))
    else (do
      id ← call (starts_session params) answer
      if truthy id then dispatch (started params (text_of id)) else nothing
      give id)

unfoldable pub disconnect_relay : Bool → Io (Unit {0})
disconnect_relay relaying = do
  if relaying then emit closes_relay else nothing
  dispatch Action.session_stopped
  dispatch (Action.set_connection_mode direct)

unfoldable pub connect_relay : RelayConfig → Bool → Io (Unit {0})
connect_relay config relaying = do
  if relaying then emit closes_relay else nothing
  dispatch (Action.set_connection_mode relay)
  emit (connects_relay config)
