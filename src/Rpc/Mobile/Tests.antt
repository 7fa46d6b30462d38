-- ===== src/Rpc/Mobile/Tests.antt =====
-- The phone's client at concrete inputs (mobile/src/services/network/WSClient.ts).
use mobilecoding.Base.{◌≡◌, refl, none, List, [], ◌∷◌}
use mobilecoding.Rpc.Calls.{send, enqueue, do_send, put}
use mobilecoding.Rpc.Ledger.{Inv, places}
use mobilecoding.Rpc.Sample.{stroke, stroke_distinct}
use mobilecoding.Rpc.Web.{Envelope}
use mobilecoding.Rpc.Web.Steps.{Input}
use mobilecoding.Rpc.Mobile.{
  new_mobile_client, step_mobile, run_mobile, connect_mobile, handle_open, post_all, post, wire_of,
  send_mobile, is_ready, disconnect_mobile,
}
use mobilecoding.Rpc.Mobile.Refines.{run_mobile-Inv}

-- A request waits for the socket, goes out and is answered; the client disconnects and connects again.
abbrev inputs : List Input
inputs =
    Input.sends "session.input" none
    ∷ Input.connects "tok"
    ∷ Input.socket_opens 0
    ∷ Input.socket_gets (Envelope.resp_ok "" none)
    ∷ Input.closes
    ∷ Input.sends "session.stop" none
    ∷ []

run_mobile-Inv_example : Inv (run_mobile stroke inputs new_mobile_client).calls
unfolding step_mobile send_mobile
run_mobile-Inv_example =
    run_mobile-Inv stroke stroke_distinct inputs (tt, ((λ j. refl), (tt, (tt, (tt, (tt, tt))))))

-- Two connections at once: the older socket opens first, sending throws, and of two requests that
-- waited the second one is in no place any more.
abbrev crossed : List Input
crossed =
    Input.sends "a" none
    ∷ Input.sends "b" none
    ∷ Input.connects "tok"
    ∷ Input.connects "tok"
    ∷ Input.socket_opens 0
    ∷ []

crossed_test :
    (places 0 (run_mobile stroke crossed new_mobile_client).calls ≡ 1)
    × (places 1 (run_mobile stroke crossed new_mobile_client).calls ≡ 0)
unfolding run_mobile step_mobile connect_mobile handle_open post_all post wire_of send_mobile
    is_ready send enqueue do_send put
crossed_test = (refl, refl)

-- After a disconnection the request that was pending stays so, with no socket to answer it.
disconnected_test :
    places 0
      (run_mobile stroke
        (Input.connects "tok" ∷ Input.socket_opens 0 ∷ Input.sends "a" none ∷ Input.closes ∷ [])
        new_mobile_client).calls
    ≡ 1
unfolding run_mobile step_mobile connect_mobile handle_open post_all post wire_of send_mobile
    is_ready send enqueue do_send put disconnect_mobile
disconnected_test = refl
