-- ===== src/Rpc/Terminal.antt =====
-- `RealMobilecodingClient` of the phone's terminal screen: mobile/src/screens/TerminalScreen.tsx.
-- The sockets are part of the state, as in the web client; the URL, the token and the logging are
-- left out. `WebSocket.send` throws on a socket that is not open yet, with an error whose message is
-- a parameter.
pub mod Disconnect
use mobilecoding.Base.{
  ℕ, ◌+◌, String, Bool, true, false, Option, none, some, List, [], ◌∷◌, ◌++◌, length, get_elem?,
  set, if◌then◌else◌, concat, eqb,
}
use mobilecoding.Json.{Json}
use mobilecoding.Event.{ConnectionStatus, AppEvent}
use mobilecoding.Rpc.Calls.{
  Request, Calls, no_calls, Outcome, resolved, rejected, enqueue, has_id, has_call, remove_first,
  settle, do_send, respond, time_out, reject_all, reject_queue,
}
use mobilecoding.Rpc.Web.{ReadyState, connecting, opened, closing, gone, Envelope}
use mobilecoding.Rpc.Web.Envelope.{req, resp_ok, resp_err, resp_bare, evt}
use mobilecoding.Rpc.Web.Steps.{is_connecting, is_alive}

pub record RealClient : Type 0 where
  pub ws : Option ℕ
  pub connected : Bool
  pub calls : Calls
  pub sockets : List ReadyState
  pub notified : List ConnectionStatus
  pub delivered : List (AppEvent × Option String)

abbrev pub new_real_client : RealClient
new_real_client = record {
  ws = none;
  connected = false;
  calls = no_calls;
  sockets = [];
  notified = [];
  delivered = [];
}

abbrev pub notify : ConnectionStatus → RealClient → RealClient
notify s c = record c { notified = c.notified ++ s ∷ [] }

-- `setStatus('connecting')` and `doConnect`, with whether the socket can be made.
unfoldable pub connect_real : Bool → RealClient → RealClient
connect_real can_make c =
    let c1 = notify ConnectionStatus.connecting c in
    if can_make
    then record c1 { ws = some (length c1.sockets); sockets = c1.sockets ++ connecting ∷ [] }
    else notify ConnectionStatus.closed c1

-- `this.ws!.send` throws: there is no socket, or it is not open yet.
unfoldable pub send_throws : RealClient → Bool
send_throws c = elim c.ws [ none ↦ true | some i ↦ is_connecting (get_elem? c.sockets i) ]

-- `请求超时: ${method}`
abbrev pub expired : String → String
expired method = concat "请求超时: " method

unfoldable pub disconnect_real : RealClient → RealClient
disconnect_real c =
    let sockets : List ReadyState = elim c.ws [
      | none ↦ c.sockets
      | some i ↦ set c.sockets i closing
    ] in
    let c1 =
      notify ConnectionStatus.closed
        (record c { connected = false; sockets = sockets; ws = none }) in
    record c1 { calls = reject_queue "连接已断开" (reject_all "连接已断开" c1.calls) }

pub data RealInput : Type 0 where
  connects : Bool → RealInput
  sends : String → Option Json → RealInput
  disconnects : RealInput
  socket_opens : ℕ → RealInput
  socket_gets : Envelope → RealInput
  socket_closes : ℕ → RealInput
  request_timer : ℕ → RealInput

module _ (id_of : ℕ → String) (thrown : String) where
  -- `doSend`: where sending throws, the timer and the entry go again and the promise is rejected.
  unfoldable pub try_send : Bool → String → Option Json → ℕ → Calls → Calls
  try_send fails method params ticket c =
      let d = do_send id_of method params ticket c in
      if fails
      then settle ticket (rejected thrown) (record d {
        pending = remove_first (has_id id_of (id_of c.made)) d.pending;
        timers = remove_first (has_call c.made) d.timers;
        sent = c.sent;
      })
      else d

  unfoldable pub send_real : String → Option Json → RealClient → RealClient
  send_real method params c =
      let t = c.calls.issued in
      let calls : Calls = record c.calls { issued = t + 1 } in
      record c {
        calls =
            if c.connected
            then try_send (send_throws c) method params t calls
            else enqueue (record { method = method; params = params; ticket = t }) calls;
      }

  -- The loop of `flushQueue`: the first request is taken off the queue, then sent.
  unfoldable pub flush_each : Bool → List Request → Calls → Calls
  flush_each fails [] c = record c { queue = [] }
  flush_each fails (r ∷ rs) c =
      flush_each fails rs (try_send fails r.method r.params r.ticket (record c { queue = rs }))

  unfoldable pub open_real : RealClient → RealClient
  open_real c =
      let c1 = notify ConnectionStatus.connected (record c { connected = true }) in
      record c1 { calls = flush_each (send_throws c1) c1.calls.queue c1.calls }

  unfoldable pub handle_real : Envelope → RealClient → RealClient
  handle_real (resp_ok id result) c = record c {
    calls = respond id_of id (resolved result) c.calls;
  }
  handle_real (resp_err id message) c = record c {
    calls = respond id_of id (rejected message) c.calls;
  }
  handle_real (resp_bare id) c = record c { calls = respond id_of id (rejected "RPC 错误") c.calls }
  handle_real (evt sid ev) c = record c { delivered = c.delivered ++ (ev, sid) ∷ [] }
  handle_real (req id method params) c = c

  -- What a socket cannot do (open twice, fire a cleared timer) changes nothing.
  unfoldable pub step_real : RealInput → RealClient → RealClient
  step_real (connects can_make) c = connect_real can_make c
  step_real (sends method params) c = send_real method params c
  step_real disconnects c = disconnect_real c
  step_real (socket_opens i) c =
      if is_connecting (get_elem? c.sockets i)
      then open_real (record c { sockets = set c.sockets i opened })
      else c
  step_real (socket_gets env) c = handle_real env c
  step_real (socket_closes i) c =
      if is_alive (get_elem? c.sockets i)
      then notify ConnectionStatus.closed
          (record c { sockets = set c.sockets i gone; connected = false })
      else c
  step_real (request_timer n) c = record c { calls = time_out id_of expired n c.calls }

  unfoldable pub run_real : List RealInput → RealClient → RealClient
  run_real [] c = c
  run_real (i ∷ is) c = run_real is (step_real i c)
