-- ===== src/Phone/Terminal/Handlers.antt =====
-- The handlers of the phone's screen that change its store (mobile/src/screens/TerminalScreen.tsx).
use mobilecoding.Base.{
  String, Bool, true, false, not, ◌||◌, Option, none, some, List, [], ◌∷◌, ◌==◌, is_empty,
  if◌then◌else◌,
}
use mobilecoding.Base.Sort.{sort_by}
use mobilecoding.Json.{ℤ, Json}
use mobilecoding.Event.{AppEvent}
use mobilecoding.Chat.Detect.{trim}
use mobilecoding.Phone.Store.{
  StoreAction, handles, adds_user_message, answers_permission, resets_messages, act,
}
use mobilecoding.Phone.Terminal.{
  Request, Route, Screen, Stored, aborts, address, connects, disconnects, fetch_models, inputs,
  notifies, responds, seq_or_zero,
}

module _ (to_number : Json → Option ℤ) where
  -- A call of the store, and the screen's copy of its flags.
  unfoldable pub change : StoreAction → Screen → Screen
  change a s =
      let store = act to_number a s.store in
      if notifies a
      then record s { store = store; turn_active = store.turn_active; thinking = store.thinking }
      else record s { store = store }

  unfoldable pub handle_connect : Route → Screen → Screen × List Request
  handle_connect r s = (
    record (change resets_messages s) { session_started = false; has_client = true },
    if s.has_client then disconnects ∷ connects (address r) ∷ [] else connects (address r) ∷ [],
  )

  -- `handleSend`, at a time.
  unfoldable pub send_text : String → Screen → Screen × List Request
  send_text now s = (
    record (change
        (adds_user_message (record { session_id = "default-session"; time = now; text = s.input }))
        s) { input = ""; show_slash_picker = false },
    inputs s.input ∷ [],
  )

  unfoldable pub handle_send : String → Screen → Screen × List Request
  handle_send now s =
      if is_empty (trim s.input) || not s.has_client || not s.connected
      then (s, [])
      else if trim s.input == "/clear"
      then (record (change resets_messages s) { input = "" }, [])
      else if trim s.input == "/model"
      then (record ((fetch_models s).0) { input = "" }, (fetch_models s).1)
      else send_text now s

  -- `onBackPress`, once it is confirmed.
  unfoldable pub leave : Screen → Screen × List Request
  leave s = (change resets_messages s, if s.has_client then aborts ∷ disconnects ∷ [] else [])

  -- The buttons of the permission card.
  unfoldable pub answer : Bool → Screen → Screen × List Request
  answer allow s = (
    change answers_permission s,
    if s.has_client then responds s.store.permission_request_id allow ∷ [] else [],
  )

  unfoldable pub replay_history : (String → Option AppEvent) → List Stored → Screen → Screen
  replay_history parse [] s = s
  replay_history parse (m ∷ ms) s = elim (parse m.content) [
    | none ↦ replay_history parse ms s
    | some ev ↦ replay_history parse ms (change (handles ev) s)
  ]

  unfoldable pub load_history : (String → Option AppEvent) → List Stored → Screen → Screen
  load_history parse ms s = replay_history parse (sort_by seq_or_zero ms) s
