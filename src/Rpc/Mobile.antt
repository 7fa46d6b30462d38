-- ===== src/Rpc/Mobile.antt =====
-- `WSClient` of the phone's services (mobile/src/services/network/WSClient.ts). The sockets and timers
-- are part of the state, as in the web client; the URL and the token are left out, `notified` and
-- `delivered` record what each listener is called with.
pub mod Spec
pub mod Sockets
pub mod Refines
mod Tests
use mobilecoding.Base.{
  ℕ, ◌+◌, String, Bool, true, false, Option, none, some, List, [], ◌∷◌, ◌++◌, length, get_elem?,
  set, eqb, any, if◌then◌else◌,
}
use mobilecoding.Json.{Json}
use mobilecoding.Event.{ConnectionStatus, AppEvent}
use mobilecoding.Rpc.Calls.{
  Request, Calls, no_calls, resolved, rejected, do_send, send, respond, time_out,
}
use mobilecoding.Rpc.Reconnect.{reconnect_delay}
use mobilecoding.Rpc.Web.{
  ReadyState, connecting, opened, closing, gone, Retry, Envelope, is_opened, disarm, rank,
  timeout_error,
}
use mobilecoding.Rpc.Web.Envelope.{req, resp_ok, resp_err, resp_bare, evt}
use mobilecoding.Rpc.Web.Steps.{
  Input, connects, closes, sends, socket_opens, socket_gets, socket_closes, request_timer,
  retry_timer, is_connecting, is_alive,
}

pub record MobileClient : Type 0 where
  pub ws : Option ℕ
  pub status : ConnectionStatus
  pub reconnect_attempt : ℕ
  pub reconnect_timer : Option ℕ
  pub calls : Calls
  pub sockets : List ReadyState
  pub retries : List Retry
  pub retries_made : ℕ
  pub notified : List ConnectionStatus
  pub delivered : List (AppEvent × Option String)

abbrev pub new_mobile_client : MobileClient
new_mobile_client = record {
  ws = none;
  status = ConnectionStatus.idle;
  reconnect_attempt = 0;
  reconnect_timer = none;
  calls = no_calls;
  sockets = [];
  retries = [];
  retries_made = 0;
  notified = [];
  delivered = [];
}

-- `setStatus`: the listeners are called even where the status stays.
abbrev pub put_status : ConnectionStatus → MobileClient → MobileClient
put_status s c = record c { status = s; notified = c.notified ++ s ∷ [] }

unfoldable pub connect_mobile : MobileClient → MobileClient
connect_mobile c =
    let c1 = put_status ConnectionStatus.connecting c in
    record c1 { ws = some (length c1.sockets); sockets = c1.sockets ++ connecting ∷ [] }

-- `this.ws && this.ws.readyState === 1`
unfoldable pub is_ready : MobileClient → Bool
is_ready c = elim c.ws [ none ↦ false | some i ↦ is_opened (get_elem? c.sockets i) ]

-- `this.ws?.close()`
abbrev pub close_at : Option ℕ → List ReadyState → List ReadyState
close_at none sockets = sockets
close_at (some i) sockets = set sockets i closing

unfoldable pub disconnect_mobile : MobileClient → MobileClient
disconnect_mobile c =
    let c1 : MobileClient = elim c.reconnect_timer [
      | none ↦ c
      | some h ↦ record c { retries = disarm h c.retries; reconnect_timer = none }
    ] in
    put_status ConnectionStatus.closed
      (record c1 { sockets = close_at c1.ws c1.sockets; ws = none })

abbrev pub is_closed : ConnectionStatus → Bool
is_closed s = eqb (rank s) (rank ConnectionStatus.closed)

unfoldable pub schedule_again : MobileClient → MobileClient
schedule_again c =
    if is_closed c.status
    then c
    else let c1 =
        put_status ConnectionStatus.reconnecting
          (record c { reconnect_attempt = c.reconnect_attempt + 1 }) in
      let r : Retry = record {
        handle = c.retries_made;
        delay = reconnect_delay c.reconnect_attempt;
      } in
      record c1 {
        retries = c1.retries ++ r ∷ [];
        retries_made = c1.retries_made + 1;
        reconnect_timer = some c.retries_made;
      }

-- What becomes of a frame: it goes out on an open socket, is dropped on one that is closing or where
-- there is none, and throws on one that is not open yet.
pub data Wire : Type 0 where
  carries drops throws : Wire

abbrev pub wire_at : Option ReadyState → Wire
wire_at (some opened) = carries
wire_at (some connecting) = throws
wire_at _ = drops

unfoldable pub wire_of : MobileClient → Wire
wire_of c = elim c.ws [ none ↦ drops | some i ↦ wire_at (get_elem? c.sockets i) ]

module _ (id_of : ℕ → String) where
  -- `doSend`, up to where it may throw: the entry and its timer stand already.
  unfoldable pub post : Wire → Request → Calls → Calls
  post carries r c = do_send id_of r.method r.params r.ticket c
  post drops r c = record (do_send id_of r.method r.params r.ticket c) { sent = c.sent }
  post throws r c = record (do_send id_of r.method r.params r.ticket c) { sent = c.sent }

  -- The loop of `handleOpen`; an error leaves it, and with it what is left of the queue.
  unfoldable pub post_all : Wire → List Request → Calls → Calls
  post_all w [] c = c
  post_all throws (r ∷ rs) c = post throws r c
  post_all carries (r ∷ rs) c = post_all carries rs (post carries r c)
  post_all drops (r ∷ rs) c = post_all drops rs (post drops r c)

  unfoldable pub handle_open : MobileClient → MobileClient
  handle_open c =
      let c1 = put_status ConnectionStatus.connected (record c { reconnect_attempt = 0 }) in
      record c1 { calls = post_all (wire_of c1) c1.calls.queue (record c1.calls { queue = [] }) }

  unfoldable pub send_mobile : String → Option Json → MobileClient → MobileClient
  send_mobile method params c = record c { calls = send id_of (is_ready c) method params c.calls }

  unfoldable pub handle_message : Envelope → MobileClient → MobileClient
  handle_message (resp_ok id result) c = record c {
    calls = respond id_of id (resolved result) c.calls;
  }
  handle_message (resp_err id message) c = record c {
    calls = respond id_of id (rejected message) c.calls;
  }
  handle_message (resp_bare id) c = record c {
    calls = respond id_of id (rejected "unknown error") c.calls;
  }
  handle_message (evt sid ev) c = record c { delivered = c.delivered ++ (ev, sid) ∷ [] }
  handle_message (req id method params) c = c

  -- The inputs are those of the web client; the token and the code of a close are not read.
  unfoldable pub step_mobile : Input → MobileClient → MobileClient
  step_mobile (connects token) c = connect_mobile c
  step_mobile closes c = disconnect_mobile c
  step_mobile (sends method params) c = send_mobile method params c
  step_mobile (socket_opens i) c =
      if is_connecting (get_elem? c.sockets i)
      then handle_open (record c { sockets = set c.sockets i opened })
      else c
  step_mobile (socket_gets env) c = handle_message env c
  step_mobile (socket_closes i code) c =
      if is_alive (get_elem? c.sockets i)
      then schedule_again (record c { sockets = set c.sockets i gone })
      else c
  step_mobile (request_timer n) c = record c { calls = time_out id_of timeout_error n c.calls }
  step_mobile (retry_timer h) c =
      if any (λ r. eqb r.handle h) c.retries
      then connect_mobile (record c { retries = disarm h c.retries })
      else c

  unfoldable pub run_mobile : List Input → MobileClient → MobileClient
  run_mobile [] c = c
  run_mobile (i ∷ is) c = run_mobile is (step_mobile i c)
