-- ===== src/Rpc/Web/Steps.antt =====
-- The steps of a web client: calls of its methods, and events of the browser's sockets and timers.
use mobilecoding.Base.{
  ℕ, String, Bool, true, false, Option, none, some, List, [], ◌∷◌, eqb, get_elem?, set,
  if◌then◌else◌, any,
}
use mobilecoding.Json.{Json}
use mobilecoding.Rpc.Calls.{time_out}
use mobilecoding.Rpc.Web.{
  ReadyState, connecting, opened, gone, WsClient, Envelope, connect, close, disarm, do_connect,
  send_request, on_open, handle_envelope, on_close, timeout_error,
}

pub data Input : Type 0 where
  connects : String → Input
  closes : Input
  sends : String → Option Json → Input
  -- the socket opens; a message that parses comes in; the socket closes with a code
  socket_opens : ℕ → Input
  socket_gets : Envelope → Input
  socket_closes : ℕ → ℕ → Input
  -- the timer of a request, and one that connects again
  request_timer : ℕ → Input
  retry_timer : ℕ → Input

abbrev pub is_connecting : Option ReadyState → Bool
is_connecting none = false
is_connecting (some connecting) = true
is_connecting (some _) = false

abbrev pub is_alive : Option ReadyState → Bool
is_alive none = false
is_alive (some gone) = false
is_alive (some _) = true

module _ (random_uuid : ℕ → String) where
  -- What the browser cannot do (open a socket twice, fire a cleared timer) changes nothing.
  unfoldable pub step : Input → WsClient → WsClient
  step (connects token) c = connect token c
  step closes c = close c
  step (sends method params) c = send_request random_uuid method params c
  step (socket_opens i) c =
      if is_connecting (get_elem? c.sockets i)
      then on_open random_uuid (record c { sockets = set c.sockets i opened })
      else c
  step (socket_gets env) c = handle_envelope random_uuid env c
  step (socket_closes i code) c =
      if is_alive (get_elem? c.sockets i)
      then on_close code (record c { sockets = set c.sockets i gone })
      else c
  step (request_timer n) c = record c { calls = time_out random_uuid timeout_error n c.calls }
  step (retry_timer h) c =
      if any (λ r. eqb r.handle h) c.retries
      then do_connect (record c { retries = disarm h c.retries })
      else c

  unfoldable pub run : List Input → WsClient → WsClient
  run [] c = c
  run (i ∷ is) c = run is (step i c)
