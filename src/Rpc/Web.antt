-- ===== src/Rpc/Web.antt =====
-- `WSClient` of the web client: web/src/core/ws/ws-client.ts. The browser's sockets and timers are
-- part of the state: a socket is its place in `sockets`, a step may be an event of the browser.
-- The URL of a socket and the sets of listeners are left out: `notified` and `delivered` record what
-- each listener is called with.
pub mod Steps
pub mod Ledger
pub mod Ended
pub mod Close
use mobilecoding.Base.{
  ℕ, zero, suc, ◌+◌, String, Bool, true, false, ◌||◌, Option, none, some, List, [], ◌∷◌, ◌++◌, eqb,
  length, get_elem?, set, if◌then◌else◌, or_text, concat,
}
use mobilecoding.Json.{Json}
use mobilecoding.Event.{ConnectionStatus, AppEvent}
use mobilecoding.Rpc.Calls.{
  Calls, no_calls, Outcome, resolved, rejected, send, flush, respond, time_out, reject_all,
  reject_queue,
}
use mobilecoding.Rpc.Reconnect.{reconnect_delay}

pub data ReadyState : Type 0 where
  connecting opened closing gone : ReadyState

-- A timer that will connect again: its handle and its delay.
pub record Retry : Type 0 where
  pub handle : ℕ
  pub delay : ℕ

pub record WsClient : Type 0 where
  pub ws : Option ℕ
  pub token : String
  pub status : ConnectionStatus
  pub reconnect_attempt : ℕ
  pub reconnect_timer : Option ℕ
  pub closed : Bool
  pub calls : Calls
  pub sockets : List ReadyState
  pub retries : List Retry
  pub retries_made : ℕ
  pub notified : List ConnectionStatus
  pub delivered : List (AppEvent × Option String)

abbrev pub new_client : WsClient
new_client = record {
  ws = none;
  token = "";
  status = ConnectionStatus.idle;
  reconnect_attempt = 0;
  reconnect_timer = none;
  closed = false;
  calls = no_calls;
  sockets = [];
  retries = [];
  retries_made = 0;
  notified = [];
  delivered = [];
}

-- `Envelope`, as `handleEnvelope` tells the cases apart.
pub data Envelope : Type 0 where
  req : String → String → Option Json → Envelope
  resp_ok : String → Option Json → Envelope
  resp_err : String → String → Envelope
  resp_bare : String → Envelope
  evt : Option String → AppEvent → Envelope

abbrev pub rank : ConnectionStatus → ℕ
rank ConnectionStatus.idle = 0
rank ConnectionStatus.connecting = 1
rank ConnectionStatus.connected = 2
rank ConnectionStatus.reconnecting = 3
rank ConnectionStatus.closed = 4

unfoldable pub set_status : ConnectionStatus → WsClient → WsClient
set_status s c =
    if eqb (rank c.status) (rank s)
    then c
    else record c { status = s; notified = c.notified ++ s ∷ [] }

abbrev pub is_opened : Option ReadyState → Bool
is_opened none = false
is_opened (some opened) = true
is_opened (some _) = false

-- `this.ws?.readyState === WebSocket.OPEN`
unfoldable pub is_open : WsClient → Bool
is_open c = elim c.ws [ none ↦ false | some i ↦ is_opened (get_elem? c.sockets i) ]

unfoldable pub do_connect : WsClient → WsClient
do_connect c =
    if c.closed
    then c
    else let c1 = set_status ConnectionStatus.connecting c in
      record c1 { ws = some (length c1.sockets); sockets = c1.sockets ++ connecting ∷ [] }

unfoldable pub connect : String → WsClient → WsClient
connect token c =
    if is_open c
    then c
    else do_connect (record c { token = token; closed = false; reconnect_attempt = 0 })

abbrev pub disarm : ℕ → List Retry → List Retry
disarm h [] = []
disarm h (r ∷ rs) = if eqb r.handle h then rs else r ∷ disarm h rs

unfoldable pub clear_reconnect : WsClient → WsClient
clear_reconnect c = elim c.reconnect_timer [
  | none ↦ c
  | some h ↦ record c { retries = disarm h c.retries; reconnect_timer = none }
]

-- `this.ws?.close(1000); this.ws = null`
unfoldable pub drop_socket : WsClient → WsClient
drop_socket c = elim c.ws [
  | none ↦ record c { ws = none }
  | some i ↦ record c { sockets = set c.sockets i closing; ws = none }
]

-- What `close` does before it rejects the pending requests.
unfoldable pub shut : WsClient → WsClient
shut c =
    set_status ConnectionStatus.closed
      (drop_socket (clear_reconnect (clear_reconnect (record c { closed = true }))))

unfoldable pub close : WsClient → WsClient
close c = let c1 = shut c in record c1 { calls = reject_all "connection closed" c1.calls }

unfoldable pub schedule_reconnect : WsClient → WsClient
schedule_reconnect c =
    if c.closed
    then c
    else let c1 =
        set_status ConnectionStatus.reconnecting
          (record c { reconnect_attempt = c.reconnect_attempt + 1 }) in
      let r : Retry = record {
        handle = c.retries_made;
        delay = reconnect_delay c.reconnect_attempt;
      } in
      record c1 {
        retries = c1.retries ++ r ∷ [];
        retries_made = c1.retries_made + 1;
        reconnect_timer = some c.retries_made;
      }

-- `request ${method} timed out after ${REQUEST_TIMEOUT}ms`
abbrev pub timeout_error : String → String
timeout_error method = concat (concat "request " method) " timed out after 30000ms"

module _ (random_uuid : ℕ → String) where
  unfoldable pub send_request : String → Option Json → WsClient → WsClient
  send_request method params c = record c {
    calls = send random_uuid (is_open c) method params c.calls;
  }

  -- Each queued request is sent, or rejected where the socket is not open.
  unfoldable pub flush_queue : WsClient → WsClient
  flush_queue c = record c {
    calls = if is_open c then flush random_uuid c.calls else reject_queue "not connected" c.calls;
  }

  unfoldable pub on_open : WsClient → WsClient
  on_open c =
      flush_queue (set_status ConnectionStatus.connected (record c { reconnect_attempt = 0 }))

  unfoldable pub handle_envelope : Envelope → WsClient → WsClient
  handle_envelope (resp_ok id result) c = record c {
    calls = respond random_uuid id (resolved result) c.calls;
  }
  handle_envelope (resp_err id message) c = record c {
    calls = respond random_uuid id (rejected (or_text message "rpc error")) c.calls;
  }
  handle_envelope (resp_bare id) c = record c {
    calls = respond random_uuid id (rejected "rpc error") c.calls;
  }
  handle_envelope (evt sid ev) c = record c { delivered = c.delivered ++ (ev, sid) ∷ [] }
  handle_envelope (req id method params) c = c

unfoldable pub on_close : ℕ → WsClient → WsClient
on_close code c =
    if eqb code 1000 || c.closed then set_status ConnectionStatus.closed c else schedule_reconnect c
