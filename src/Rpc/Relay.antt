-- ===== src/Rpc/Relay.antt =====
-- `RelayClient`: web/src/core/ws/relay-client.ts. The sockets and timers are part of the state, as in
-- the web client; `notified`, `delivered` and `sent` record what the listeners are called with and
-- what goes out, on which socket. How a payload is read as an event is a parameter; the version, the
-- message id and the device name of a frame are left out.
pub mod Tidy
pub mod Live
pub mod Close
mod Tests
use mobilecoding.Base.{
  ℕ, ◌+◌, String, Bool, true, false, ◌||◌, Option, none, some, List, [], ◌∷◌, ◌++◌, length,
  get_elem?, set, eqb, any, truthy, if◌then◌else◌,
}
use mobilecoding.Event.{ConnectionStatus, AppEvent}
use mobilecoding.Chat.Io.{RelayConfig}
use mobilecoding.Rpc.Reconnect.{reconnect_delay}
use mobilecoding.Rpc.Web.{
  ReadyState, connecting, opened, closing, gone, Retry, rank, disarm, is_opened,
}
use mobilecoding.Rpc.Web.Steps.{is_connecting, is_alive}

-- What is forwarded, and the reason that may come with an answer.
pub data RelayPayload : Type 0 where
  text : String → RelayPayload
  control_response : String → Bool → RelayPayload
  permission_answer : Bool → String → RelayPayload
  permission_respond : String → Bool → Option String → RelayPayload

pub data RelayFrame : Type 0 where
  pair : RelayConfig → RelayFrame
  -- the session, the client and the payload
  forward : Option String → String → RelayPayload → RelayFrame

-- A frame of the relay, as `handleFrame` tells the cases apart; a `relay.forward` says whether it
-- comes from the agent.
pub data Incoming : Type 0 where
  paired : String → Incoming
  forwarded : Bool → String → String → Incoming
  relay_error : String → Incoming
  unknown_frame : Incoming

pub record RelayClient : Type 0 where
  pub ws : Option ℕ
  pub status : ConnectionStatus
  pub reconnect_attempt : ℕ
  pub reconnect_timer : Option ℕ
  pub closed : Bool
  pub config : Option RelayConfig
  pub client_id : String
  pub sockets : List ReadyState
  pub retries : List Retry
  pub retries_made : ℕ
  pub notified : List ConnectionStatus
  pub delivered : List (AppEvent × String)
  pub sent : List (ℕ × RelayFrame)

abbrev pub new_relay_client : RelayClient
new_relay_client = record {
  ws = none;
  status = ConnectionStatus.idle;
  reconnect_attempt = 0;
  reconnect_timer = none;
  closed = false;
  config = none;
  client_id = "";
  sockets = [];
  retries = [];
  retries_made = 0;
  notified = [];
  delivered = [];
  sent = [];
}

-- `setStatus`
abbrev pub change_to : ConnectionStatus → RelayClient → RelayClient
change_to s c =
    let same = eqb (rank c.status) (rank s) in
    record c {
      status = if same then c.status else s;
      notified = if same then c.notified else c.notified ++ s ∷ [];
    }

abbrev pub has_config : Option RelayConfig → Bool
has_config none = false
has_config (some k) = true

-- `doConnect`, where it is not held back.
unfoldable pub make_socket : RelayClient → RelayClient
make_socket c =
    let c1 = change_to ConnectionStatus.connecting c in
    record c1 { ws = some (length c1.sockets); sockets = c1.sockets ++ connecting ∷ [] }

unfoldable pub do_connect_relay : RelayClient → RelayClient
do_connect_relay c = if c.closed then c else if has_config c.config then make_socket c else c

unfoldable pub connect_to : RelayConfig → RelayClient → RelayClient
connect_to k c =
    do_connect_relay (record c { config = some k; closed = false; reconnect_attempt = 0 })

abbrev pub retries_without : Option ℕ → List Retry → List Retry
retries_without none rs = rs
retries_without (some h) rs = disarm h rs

abbrev pub sockets_without : Option ℕ → List ReadyState → List ReadyState
sockets_without none sockets = sockets
sockets_without (some i) sockets = set sockets i closing

unfoldable pub close_relay : RelayClient → RelayClient
close_relay c = change_to ConnectionStatus.closed (record c {
  closed = true;
  retries = retries_without c.reconnect_timer c.retries;
  reconnect_timer = none;
  sockets = sockets_without c.ws c.sockets;
  ws = none;
})

-- The socket that is current and open.
unfoldable pub open_socket : RelayClient → Option ℕ
open_socket c = elim c.ws [
  | none ↦ none
  | some i ↦ if is_opened (get_elem? c.sockets i) then some i else none
]

abbrev pub session_of : Option RelayConfig → Option String
session_of none = none
session_of (some k) = some k.session_id

-- A frame goes out on a socket; without one there is an error, and nothing goes out.
abbrev pub put_frame : Option ℕ → RelayFrame → RelayClient → RelayClient
put_frame none f c = c
put_frame (some i) f c = record c { sent = c.sent ++ (i, f) ∷ [] }

unfoldable pub send_forward : RelayPayload → RelayClient → RelayClient
send_forward p c = put_frame (open_socket c) (forward (session_of c.config) c.client_id p) c

unfoldable pub answer_payload : Bool → String → Option String → RelayPayload
answer_payload allow tool none = permission_answer allow tool
answer_payload allow tool (some id) =
    if truthy (some id) then control_response id allow else permission_answer allow tool

-- What is sent: `sendText`, `sendPermissionAnswer` and `sendRespondPermission`.
pub data Sending : Type 0 where
  sends_text : String → Sending
  sends_answer : Bool → String → Option String → Sending
  sends_respond : String → Bool → Option String → Sending

abbrev pub payload_of : Sending → RelayPayload
payload_of (sends_text t) = text t
payload_of (sends_answer allow tool id) = answer_payload allow tool id
payload_of (sends_respond id allow reason) = permission_respond id allow reason

-- The pairing frame, where there are a configuration and an open socket.
abbrev pub pair_with : Option RelayConfig → RelayClient → RelayClient
pair_with none c = c
pair_with (some k) c = put_frame (open_socket c) (pair k) c

unfoldable pub open_relay : RelayClient → RelayClient
open_relay c = pair_with c.config (record c { reconnect_attempt = 0 })

unfoldable pub schedule_relay : RelayClient → RelayClient
schedule_relay c =
    let c1 =
      change_to ConnectionStatus.reconnecting
        (record c { reconnect_attempt = c.reconnect_attempt + 1 }) in
    let r : Retry = record {
      handle = c.retries_made;
      delay = reconnect_delay c.reconnect_attempt;
    } in
    record c1 {
      retries = c1.retries ++ r ∷ [];
      retries_made = c1.retries_made + 1;
      reconnect_timer = some c.retries_made;
    }

unfoldable pub on_close_relay : ℕ → RelayClient → RelayClient
on_close_relay code c =
    if eqb code 1000 || c.closed then change_to ConnectionStatus.closed c else schedule_relay c

pub data RelayInput : Type 0 where
  connects : RelayConfig → RelayInput
  closes : RelayInput
  sends : Sending → RelayInput
  socket_opens : ℕ → RelayInput
  socket_gets : ℕ → Incoming → RelayInput
  socket_closes : ℕ → ℕ → RelayInput
  retry_timer : ℕ → RelayInput

module _ (read : String → String → Option AppEvent) where
  abbrev pub deliver_to : Option AppEvent → String → RelayClient → RelayClient
  deliver_to none sid c = c
  deliver_to (some ev) sid c = record c { delivered = c.delivered ++ (ev, sid) ∷ [] }

  unfoldable pub handle_frame : Incoming → RelayClient → RelayClient
  handle_frame (paired id) c = change_to ConnectionStatus.connected (record c { client_id = id })
  handle_frame (forwarded true sid payload) c = deliver_to (read sid payload) sid c
  handle_frame (forwarded false sid payload) c = c
  handle_frame (relay_error code) c = c
  handle_frame unknown_frame c = c

  -- What the browser cannot do changes nothing: a message comes only on an open socket.
  unfoldable pub step_relay : RelayInput → RelayClient → RelayClient
  step_relay (connects k) c = connect_to k c
  step_relay closes c = close_relay c
  step_relay (sends p) c = send_forward (payload_of p) c
  step_relay (socket_opens i) c =
      if is_connecting (get_elem? c.sockets i)
      then open_relay (record c { sockets = set c.sockets i opened })
      else c
  step_relay (socket_gets i f) c = if is_opened (get_elem? c.sockets i) then handle_frame f c else c
  step_relay (socket_closes i code) c =
      if is_alive (get_elem? c.sockets i)
      then on_close_relay code (record c { sockets = set c.sockets i gone })
      else c
  step_relay (retry_timer h) c =
      if any (λ r. eqb r.handle h) c.retries
      then do_connect_relay (record c { retries = disarm h c.retries })
      else c

  unfoldable pub run_relay : List RelayInput → RelayClient → RelayClient
  run_relay [] c = c
  run_relay (i ∷ is) c = run_relay is (step_relay i c)
