-- ===== src/Rpc/Web/Close.antt =====
-- What a closed web client does until it is connected again:
-- web/src/core/ws/ws-client.ts.
use mobilecoding.Base.{
  ℕ, ◌≡◌, refl, ap, ◌∙◌, String, Bool, true, false, List, [], ◌∷◌, arith, eqb, get_elem?, set, any,
  Option-cases, Bool-cases, inl, inr, length, length-set, All,
}
use mobilecoding.Event.{ConnectionStatus}
use mobilecoding.Rpc.Calls.{
  Frame, Calls, Outcome, find_first, has_call, has_id, enqueue, send, respond, time_out,
}
use mobilecoding.Rpc.Rejection.{reject_queue_lem}
use mobilecoding.Rpc.Web.{
  WsClient, Envelope, set_status, close, send_request, flush_queue, on_open, handle_envelope,
  timeout_error, ReadyState,
}
use mobilecoding.Rpc.Web.Envelope.{req, resp_ok, resp_err, resp_bare, evt}
use mobilecoding.Rpc.Web.Steps.{
  Input, step, run, is_connecting, is_alive, connects, closes, sends, socket_opens, socket_gets,
  socket_closes, request_timer, retry_timer,
}
use mobilecoding.Rpc.Web.Ended.{
  Ended, close-Ended, close-from, do_connect-Ended, no_socket-is_open, on_close-Ended,
  set_status-Ended,
}

-- Other calls than `connects`.
abbrev pub no_connect : Input → Bool
no_connect (connects token) = false
no_connect _ = true

module _ (random_uuid : ℕ → String) where
  respond-sent :
      (id : String) (o : Outcome) (c : Calls) → (respond random_uuid id o c).sent ≡ c.sent
  unfolding respond
  respond-sent id o c = elim (Option-cases (find_first (has_id random_uuid id) c.pending)) [
    | inl e ↦ rw (e, respond) refl
    | inr (x, e) ↦ rw (e, respond) refl
  ]

  time_out-sent :
      (msg : String → String) (n : ℕ) (c : Calls) → (time_out random_uuid msg n c).sent ≡ c.sent
  unfolding time_out
  time_out-sent msg n c = elim (Option-cases (find_first (has_call n) c.timers)) [
    | inl e ↦ rw (e, time_out) refl
    | inr (x, e) ↦ rw (e, time_out) refl
  ]

  new_calls :
      (n : ℕ) (f : List Frame) (c : WsClient) (k : Calls)
      → Ended n f c
      → k.sent ≡ c.calls.sent
      → Ended n f (record c { calls = k })
  new_calls n f c k v h = record {
    shut_off = v.shut_off;
    no_socket = v.no_socket;
    made = v.made;
    said = h ∙ v.said;
  }

  handle_envelope-Ended :
      (n : ℕ) (f : List Frame) (env : Envelope) (c : WsClient)
      → Ended n f c
      → Ended n f (handle_envelope random_uuid env c)
  unfolding handle_envelope
  handle_envelope-Ended n f (req id m p) c v = v
  handle_envelope-Ended n f (resp_ok id r) c v = new_calls n f c _ v (respond-sent id _ c.calls)
  handle_envelope-Ended n f (resp_err id m) c v = new_calls n f c _ v (respond-sent id _ c.calls)
  handle_envelope-Ended n f (resp_bare id) c v = new_calls n f c _ v (respond-sent id _ c.calls)
  handle_envelope-Ended n f (evt sid ev) c v = record {
    shut_off = v.shut_off;
    no_socket = v.no_socket;
    made = v.made;
    said = v.said;
  }

  -- The sockets change, not their number.
  new_sockets :
      (n : ℕ) (f : List Frame) (c : WsClient) (i : ℕ) (s : ReadyState)
      → Ended n f c
      → Ended n f (record c { sockets = set c.sockets i s })
  new_sockets n f c i s v = record {
    shut_off = v.shut_off;
    no_socket = v.no_socket;
    made = length-set c.sockets i s ∙ v.made;
    said = v.said;
  }

  on_open-Ended :
      (n : ℕ) (f : List Frame) (c : WsClient) → Ended n f c → Ended n f (on_open random_uuid c)
  unfolding on_open flush_queue
  on_open-Ended n f c v =
      let d : WsClient =
        set_status ConnectionStatus.connected (record c { reconnect_attempt = 0 }) in
      let w : Ended n f d =
        set_status-Ended n f ConnectionStatus.connected _ (record {
          shut_off = v.shut_off;
          no_socket = v.no_socket;
          made = v.made;
          said = v.said;
        }) in
      rw (no_socket-is_open d w.no_socket) (
        new_calls n f d _ w (ap (λ (e : Calls). e.sent) (reject_queue_lem "not connected" d.calls)))

  step-Ended :
      (n : ℕ) (f : List Frame) (i : Input) (c : WsClient)
      → no_connect i ≡ true
      → Ended n f c
      → Ended n f (step random_uuid i c)
  unfolding step send_request send enqueue
  step-Ended n f (connects token) c h v = absurd (ground (arith, h))
  step-Ended n f closes c h v = close-Ended n f c v
  step-Ended n f (sends method params) c h v =
      rw (no_socket-is_open c v.no_socket) (new_calls n f c _ v refl)
  step-Ended n f (socket_opens i) c h v =
      elim (Bool-cases (is_connecting (get_elem? c.sockets i))) [
        | inl e ↦ rw e (on_open-Ended n f _ (new_sockets n f c i ReadyState.opened v))
        | inr e ↦ rw e v
      ]
  step-Ended n f (socket_gets env) c h v = handle_envelope-Ended n f env c v
  step-Ended n f (socket_closes i code) c h v =
      elim (Bool-cases (is_alive (get_elem? c.sockets i))) [
        | inl e ↦ rw e (on_close-Ended n f code _ (new_sockets n f c i ReadyState.gone v))
        | inr e ↦ rw e v
      ]
  step-Ended n f (request_timer k) c h v =
      new_calls n f c _ v (time_out-sent timeout_error k c.calls)
  step-Ended n f (retry_timer k) c h v = elim (Bool-cases (any (λ r. eqb r.handle k) c.retries)) [
    | inl e ↦ rw e (
        do_connect-Ended n f _
          (record { shut_off = v.shut_off; no_socket = v.no_socket; made = v.made; said = v.said }))
    | inr e ↦ rw e v
  ]

  run-Ended :
      (n : ℕ) (f : List Frame) (is : List Input) (c : WsClient)
      → All (λ i. no_connect i ≡ true) is
      → Ended n f c
      → Ended n f (run random_uuid is c)
  unfolding run
  run-Ended n f [] c h v = v
  run-Ended n f (i ∷ is) c (h, hs) v = run-Ended n f is _ hs (step-Ended n f i c h v)

  -- Whatever comes after a call of `close`, except a call of `connect`, leaves the client without a
  -- socket and turned off: it makes no new socket and sends no frame on an old one, not even when a
  -- timer of a reconnection still fires or an old socket opens late.
  pub run-close :
      (is : List Input) (c : WsClient)
      → All (λ i. no_connect i ≡ true) is
      → Ended (length c.sockets) c.calls.sent (run random_uuid is (close c))
  run-close is c h = run-Ended (length c.sockets) c.calls.sent is (close c) h (close-from c)
