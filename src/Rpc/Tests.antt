-- ===== src/Rpc/Tests.antt =====
-- The theorems on the WebSocket clients at concrete inputs (web/src/core/ws/ws-client.ts).
use mobilecoding.Base.{ltb, if◌then◌else◌, ℕ, ◌≡◌, refl, List, [], ◌∷◌, none, some, true, false}
use mobilecoding.Rpc.Calls.{Calls, no_calls, Outcome, send, do_send, put, respond, enqueue}
use mobilecoding.Rpc.Ledger.{Inv, no_calls-Inv, in_settled}
use mobilecoding.Rpc.Conservation.{send-Inv}
use mobilecoding.Rpc.Answer.{respond-send}
use mobilecoding.Rpc.Terminal.{RealInput, run_real, new_real_client, disconnect_real}
use mobilecoding.Rpc.Terminal.Disconnect.{disconnect_real-run}
use mobilecoding.Rpc.Web.{ReadyState, WsClient, new_client, close, Envelope}
use mobilecoding.Rpc.Web.Ledger.{run-new_client-Inv}
use mobilecoding.Rpc.Web.Close.{run-close}
use mobilecoding.Rpc.Web.Ended.{Ended}
use mobilecoding.Rpc.Sample.{stroke, stroke_distinct}
use mobilecoding.Rpc.Web.Steps.{Input, run}

-- A request is queued, a socket opens, a response comes, and the client is closed.
abbrev inputs : List Input
inputs =
    Input.connects "tok"
    ∷ Input.sends "session.input" none
    ∷ Input.socket_opens 0
    ∷ Input.sends "session.stop" none
    ∷ Input.socket_gets (Envelope.resp_ok "" none)
    ∷ Input.closes
    ∷ []

run-new_client-Inv_example : Inv (run stroke inputs new_client).calls
run-new_client-Inv_example = run-new_client-Inv stroke stroke_distinct inputs

abbrev late_inputs : List Input
late_inputs = Input.retry_timer 0 ∷ Input.sends "session.stop" none ∷ Input.socket_opens 0 ∷ []

-- A client with a socket that is not open yet.
abbrev dialling : WsClient
dialling = record new_client { ws = some 0; sockets = ReadyState.connecting ∷ [] }

run-close_example : Ended 1 [] (run stroke late_inputs (close dialling))
run-close_example = run-close stroke late_inputs dialling (refl, (refl, (refl, tt)))

-- A request that is pending.
abbrev one_call : Calls
unfolding send do_send put
one_call = send stroke true "session.stop" none no_calls

one_call-Inv : Inv one_call
unfolding one_call
one_call-Inv = send-Inv stroke stroke_distinct true "session.stop" none no_calls no_calls-Inv

busy : WsClient
busy = record new_client { calls = one_call }

respond-send_example :
    respond stroke "" (Outcome.resolved none) (send stroke true "session.stop" none no_calls)
    ≡ record no_calls {
      sent = record { id = ""; method = "session.stop"; params = none } ∷ [];
      settled = (0, Outcome.resolved none) ∷ [];
      issued = 1;
      made = 1;
    }
respond-send_example =
    respond-send stroke stroke_distinct "session.stop" none (Outcome.resolved none) no_calls
      no_calls-Inv

-- Two requests that are queued.
abbrev waiting : Calls
unfolding send enqueue
waiting = send stroke false "b" none (send stroke false "a" none no_calls)

waiting-Inv : Inv waiting
unfolding waiting
waiting-Inv =
    send-Inv stroke stroke_distinct false "b" none _
      (send-Inv stroke stroke_distinct false "a" none no_calls no_calls-Inv)

-- A request fails to be sent, another one is sent, a third is queued.
abbrev real_inputs : List RealInput
real_inputs =
    RealInput.connects true
    ∷ RealInput.socket_opens 0
    ∷ RealInput.sends "a" none
    ∷ RealInput.connects true
    ∷ RealInput.sends "b" none
    ∷ RealInput.socket_closes 0
    ∷ RealInput.sends "c" none
    ∷ []

disconnect_real-run_example :
    let c = run_real stroke "InvalidStateError" real_inputs new_real_client in
    let d = disconnect_real c in
    ((t : ℕ) → in_settled t d.calls.settled ≡ (if ltb t c.calls.issued then 1 else 0))
    × (d.calls.queue ≡ [])
    × (d.calls.pending ≡ [])
    × (d.calls.timers ≡ [])
    × (d.ws ≡ none)
    × (d.connected ≡ false)
disconnect_real-run_example =
    disconnect_real-run stroke "InvalidStateError" stroke_distinct real_inputs
