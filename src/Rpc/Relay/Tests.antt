-- ===== src/Rpc/Relay/Tests.antt =====
-- The relay client at concrete inputs (web/src/core/ws/relay-client.ts).
use mobilecoding.Base.{◌≡◌, refl, String, Option, none, some, List, [], ◌∷◌}
use mobilecoding.Event.{AppEvent}
use mobilecoding.Chat.Io.{RelayConfig}
use mobilecoding.Rpc.Relay.{
  RelayInput, RelayFrame, RelayPayload, Incoming, Sending, new_relay_client, run_relay, step_relay,
  close_relay, connect_to, do_connect_relay, make_socket, open_relay, open_socket, send_forward,
  handle_frame,
}
use mobilecoding.Rpc.Relay.Close.{run_relay-close, IsSilent}

abbrev config : RelayConfig
config = record { relay_url = "wss://h/relay"; session_id = "s"; pairing_secret = "x" }

abbrev no_event : String → String → Option AppEvent
no_event sid payload = none

-- The client connects, pairs and sends a text.
abbrev inputs : List RelayInput
inputs =
    RelayInput.connects config
    ∷ RelayInput.socket_opens 0
    ∷ RelayInput.socket_gets 0 (Incoming.paired "c1")
    ∷ RelayInput.sends (Sending.sends_text "hi")
    ∷ []

-- What may come late.
abbrev late : List RelayInput
late =
    RelayInput.socket_gets 0 (Incoming.paired "c2")
    ∷ RelayInput.socket_closes 0 1006
    ∷ RelayInput.retry_timer 0
    ∷ RelayInput.sends (Sending.sends_text "again")
    ∷ []

run_relay_test :
    (run_relay no_event inputs new_relay_client).sent
    ≡ (0, RelayFrame.pair config)
      ∷ (0, RelayFrame.forward (some "s") "c1" (RelayPayload.text "hi"))
      ∷ []
unfolding run_relay step_relay connect_to do_connect_relay make_socket open_relay open_socket
    send_forward handle_frame
run_relay_test = refl

-- A text that is sent before the relay has answered the pairing goes out with no client id.
unpaired_test :
    (run_relay no_event
      (RelayInput.connects config
        ∷ RelayInput.socket_opens 0
        ∷ RelayInput.sends (Sending.sends_text "hi")
        ∷ [])
      new_relay_client).sent
    ≡ (0, RelayFrame.pair config)
      ∷ (0, RelayFrame.forward (some "s") "" (RelayPayload.text "hi"))
      ∷ []
unfolding run_relay step_relay connect_to do_connect_relay make_socket open_relay open_socket
    send_forward handle_frame
unpaired_test = refl

run_relay-close_example :
    let c = close_relay (run_relay no_event inputs new_relay_client) in
    IsSilent c (run_relay no_event late c)
run_relay-close_example =
    run_relay-close no_event inputs late (((λ j. refl), refl), (tt, (tt, (tt, tt))))
      (tt, (tt, (tt, (tt, tt))))
