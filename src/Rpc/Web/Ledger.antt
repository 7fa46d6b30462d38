-- ===== src/Rpc/Web/Ledger.antt =====
-- The requests of a web client over a run of it: web/src/core/ws/ws-client.ts.
use mobilecoding.Base.{
  ℕ, ◌≡◌, refl, sym, subst, ◌∙◌, String, true, List, [], ◌∷◌, eqb, get_elem?, any, Option-cases,
  Bool-cases, inl, inr, ◌||◌,
}
use mobilecoding.Event.{ConnectionStatus}
use mobilecoding.Rpc.Ledger.{Inv, no_calls-Inv}
use mobilecoding.Rpc.Conservation.{send-Inv, flush-Inv, respond-Inv, time_out-Inv}
use mobilecoding.Rpc.Rejection.{reject_all-Inv, reject_queue-Inv}
use mobilecoding.Rpc.Web.{
  WsClient, new_client, Envelope, rank, set_status, is_open, do_connect, connect, clear_reconnect,
  drop_socket, shut, close, schedule_reconnect, send_request, flush_queue, on_open, handle_envelope,
  on_close, timeout_error,
}
use mobilecoding.Rpc.Web.Envelope.{req, resp_ok, resp_err, resp_bare, evt}
use mobilecoding.Rpc.Web.Steps.{
  Input, step, run, is_connecting, is_alive, connects, closes, sends, socket_opens, socket_gets,
  socket_closes, request_timer, retry_timer,
}

-- What has to do with the connection leaves the requests as they are.
pub set_status-calls : (s : ConnectionStatus) (c : WsClient) → (set_status s c).calls ≡ c.calls
unfolding set_status
set_status-calls s c = elim (Bool-cases (eqb (rank c.status) (rank s))) [
  | inl e ↦ rw e refl
  | inr e ↦ rw e refl
]

pub clear_reconnect-calls : (c : WsClient) → (clear_reconnect c).calls ≡ c.calls
unfolding clear_reconnect
clear_reconnect-calls c = elim (Option-cases c.reconnect_timer) [
  | inl e ↦ rw e refl
  | inr (h, e) ↦ rw e refl
]

pub drop_socket-calls : (c : WsClient) → (drop_socket c).calls ≡ c.calls
unfolding drop_socket
drop_socket-calls c = elim (Option-cases c.ws) [ inl e ↦ rw e refl | inr (h, e) ↦ rw e refl ]

do_connect-calls : (c : WsClient) → (do_connect c).calls ≡ c.calls
unfolding do_connect
do_connect-calls c = elim (Bool-cases c.closed) [
  | inl e ↦ rw e refl
  | inr e ↦ rw e (set_status-calls ConnectionStatus.connecting _)
]

connect-calls : (token : String) (c : WsClient) → (connect token c).calls ≡ c.calls
unfolding connect
connect-calls token c = elim (Bool-cases (is_open c)) [
  | inl e ↦ rw e refl
  | inr e ↦ rw e (do_connect-calls _)
]

on_close-calls : (code : ℕ) (c : WsClient) → (on_close code c).calls ≡ c.calls
unfolding on_close schedule_reconnect
on_close-calls code c = elim (Bool-cases (eqb code 1000 || c.closed)) [
  | inl e ↦ rw e (set_status-calls ConnectionStatus.closed c)
  | inr e ↦ rw e (elim (Bool-cases c.closed) [
    | inl f ↦ rw f refl
    | inr f ↦ rw f (set_status-calls ConnectionStatus.reconnecting _)
  ])
]

pub shut-calls : (c : WsClient) → (shut c).calls ≡ c.calls
unfolding shut
shut-calls c =
    set_status-calls ConnectionStatus.closed _
    ∙ drop_socket-calls _
    ∙ clear_reconnect-calls _
    ∙ clear_reconnect-calls (record c { closed = true })

close-Inv : (c : WsClient) → Inv c.calls → Inv (close c).calls
unfolding close
close-Inv c v = reject_all-Inv "connection closed" _ (subst Inv (sym (shut-calls c)) v)

module _ (random_uuid : ℕ → String)
    (distinct : (m n : ℕ) → random_uuid m ≡ random_uuid n → m ≡ n) where
  flush_queue-Inv : (c : WsClient) → Inv c.calls → Inv (flush_queue random_uuid c).calls
  unfolding flush_queue
  flush_queue-Inv c v = elim (Bool-cases (is_open c)) [
    | inl e ↦ rw e (flush-Inv random_uuid distinct c.calls v)
    | inr e ↦ rw e (reject_queue-Inv "not connected" c.calls v)
  ]

  handle_envelope-Inv :
      (env : Envelope) (c : WsClient) → Inv c.calls → Inv (handle_envelope random_uuid env c).calls
  unfolding handle_envelope
  handle_envelope-Inv (req id method params) c v = v
  handle_envelope-Inv (resp_ok id r) c v = respond-Inv random_uuid distinct id _ c.calls v
  handle_envelope-Inv (resp_err id m) c v = respond-Inv random_uuid distinct id _ c.calls v
  handle_envelope-Inv (resp_bare id) c v = respond-Inv random_uuid distinct id _ c.calls v
  handle_envelope-Inv (evt sid ev) c v = v

  step-Inv : (i : Input) (c : WsClient) → Inv c.calls → Inv (step random_uuid i c).calls
  unfolding step send_request on_open
  step-Inv (connects token) c v = subst Inv (sym (connect-calls token c)) v
  step-Inv closes c v = close-Inv c v
  step-Inv (sends method params) c v =
      send-Inv random_uuid distinct (is_open c) method params c.calls v
  step-Inv (socket_opens i) c v = elim (Bool-cases (is_connecting (get_elem? c.sockets i))) [
    | inl e ↦
        rw e (flush_queue-Inv _ (subst Inv (sym (set_status-calls ConnectionStatus.connected _)) v))
    | inr e ↦ rw e v
  ]
  step-Inv (socket_gets env) c v = handle_envelope-Inv env c v
  step-Inv (socket_closes i code) c v = elim (Bool-cases (is_alive (get_elem? c.sockets i))) [
    | inl e ↦ rw e (subst Inv (sym (on_close-calls code _)) v)
    | inr e ↦ rw e v
  ]
  step-Inv (request_timer n) c v = time_out-Inv random_uuid distinct timeout_error n c.calls v
  step-Inv (retry_timer h) c v = elim (Bool-cases (any (λ r. eqb r.handle h) c.retries)) [
    | inl e ↦ rw e (subst Inv (sym (do_connect-calls _)) v)
    | inr e ↦ rw e v
  ]

  pub run-Inv : (is : List Input) (c : WsClient) → Inv c.calls → Inv (run random_uuid is c).calls
  unfolding run
  run-Inv [] c v = v
  run-Inv (i ∷ is) c v = run-Inv is (step random_uuid i c) (step-Inv i c v)

  -- Where the ids are distinct, each promise that a run of a new client has made stands in exactly
  -- one place (queued, pending, or settled) and once there, and each timer that is armed is that of
  -- a pending request: no promise is lost and none is settled twice.
  pub run-new_client-Inv : (is : List Input) → Inv (run random_uuid is new_client).calls
  run-new_client-Inv is = run-Inv is new_client no_calls-Inv
