-- ===== src/Phone/Terminal/Answer.antt =====
-- What the phone's screen does over time, and what it answers
-- (mobile/src/screens/TerminalScreen.tsx).
use mobilecoding.Base.{
  ◌≡◌, refl, subst, has_prefix, includes, ◌&&◌, String, Bool, true, false, not, Option, none, some,
  List, [], ◌∷◌, or_null, if◌then◌else◌, Bool-cases, Option-cases, inl, inr, ◌||◌, ◌==◌, is_empty,
}
use mobilecoding.Base.Sort.{sort_by}
use mobilecoding.Json.{ℤ, Json}
use mobilecoding.Event.{AppEvent, is_permission}
use mobilecoding.Chat.Detect.{trim}
use mobilecoding.Phone.Store.{
  StoreAction, handles, adds_user_message, answers_permission, resets_messages, act, act_all,
}
use mobilecoding.Phone.Shown.{IsConsistent, IsAnswerable, act-IsConsistent, act_all-no_messages}
use mobilecoding.Phone.Terminal.{
  Route, Screen, new_screen, Request, responds, Model, RuntimeInfo, Stored, seq_or_zero, notifies,
  handle_input_change, select_slash_command, load_runtime, fetch_models, show_models,
  apply_model_switch, start_session, handle_abort,
}
use mobilecoding.Phone.Terminal.Handlers.{
  change, handle_connect, leave, send_text, handle_send, answer, replay_history, load_history,
}

pub data ScreenAction : Type 0 where
  connects_again : ScreenAction
  status_changes : Bool → ScreenAction
  receives : AppEvent → ScreenAction
  -- the effect that starts the session, and the answer to its request
  starts_session start_answered : ScreenAction
  loads_runtime : Option RuntimeInfo → ScreenAction
  loads_history : List Stored → ScreenAction
  types : String → ScreenAction
  picks_command : String → ScreenAction
  sends : String → ScreenAction
  shows_models : Option (List Model) → ScreenAction
  picks_model : String → ScreenAction
  -- with whether the restart succeeds
  switches_model : Bool → ScreenAction
  stops leaves : ScreenAction
  answers : Bool → ScreenAction

module _ (to_number : Json → Option ℤ) (parse : String → Option AppEvent) (route : Route) where
  unfoldable pub step : ScreenAction → Screen → Screen × List Request
  step connects_again s = handle_connect to_number route s
  step (status_changes c) s = (record s { connected = c }, [])
  step (receives ev) s = (change to_number (handles ev) s, [])
  step starts_session s = (s, start_session route s)
  step start_answered s = (record s { session_started = true }, [])
  step (loads_runtime info) s = (load_runtime info s, [])
  step (loads_history ms) s = (load_history to_number parse ms s, [])
  step (types txt) s = (handle_input_change txt s, [])
  step (picks_command cmd) s = (select_slash_command cmd s, [])
  step (sends now) s = handle_send to_number now s
  step (shows_models ms) s = (show_models ms s, [])
  step (picks_model m) s = (record s { selected_model = m }, [])
  step (switches_model b) s = apply_model_switch b s
  step stops s = handle_abort s
  step leaves s = leave to_number s
  step (answers allow) s = answer to_number allow s

  unfoldable pub screen_after : List ScreenAction → Screen → Screen
  screen_after [] s = s
  screen_after (a ∷ h) s = screen_after h (step a s).0

  change-IsConsistent :
      (a : StoreAction) (s : Screen)
      → IsConsistent s.store
      → IsConsistent (change to_number a s).store
  unfolding change
  change-IsConsistent a s h = elim (Bool-cases (notifies a)) [
    | inl e ↦ rw e (act-IsConsistent to_number a s.store h)
    | inr e ↦ rw e (act-IsConsistent to_number a s.store h)
  ]

  replay_history-IsConsistent :
      (ms : List Stored) (s : Screen)
      → IsConsistent s.store
      → IsConsistent (replay_history to_number parse ms s).store
  unfolding replay_history
  replay_history-IsConsistent [] s h = h
  replay_history-IsConsistent (m ∷ ms) s h = elim (Option-cases (parse m.content)) [
    | inl e ↦ rw (e, replay_history) (replay_history-IsConsistent ms s h)
    | inr (ev, e) ↦
        rw (e, replay_history)
          (replay_history-IsConsistent ms _ (change-IsConsistent (handles ev) s h))
  ]

  if-IsConsistent :
      (b : Bool) (x y : Screen × List Request)
      → IsConsistent x.0.store
      → IsConsistent y.0.store
      → IsConsistent (if b then x else y).0.store
  if-IsConsistent true x y p q = p
  if-IsConsistent false x y p q = q

  handle_send-IsConsistent :
      (now : String) (s : Screen)
      → IsConsistent s.store
      → IsConsistent (handle_send to_number now s).0.store
  unfolding handle_send send_text fetch_models
  handle_send-IsConsistent now s h =
      if-IsConsistent (is_empty (trim s.input) || not s.has_client || not s.connected) _ _ h (
        if-IsConsistent (trim s.input == "/clear") _ _ (change-IsConsistent resets_messages s h) (
          if-IsConsistent (trim s.input == "/model") _ _ h
            (change-IsConsistent (adds_user_message _) s h)))

  step-IsConsistent :
      (a : ScreenAction) (s : Screen) → IsConsistent s.store → IsConsistent (step a s).0.store
  unfolding step handle_connect handle_input_change select_slash_command load_runtime show_models
      apply_model_switch handle_abort leave answer load_history
  step-IsConsistent connects_again s h = change-IsConsistent resets_messages s h
  step-IsConsistent leaves s h = change-IsConsistent resets_messages s h
  step-IsConsistent (receives ev) s h = change-IsConsistent (handles ev) s h
  step-IsConsistent (loads_history ms) s h =
      replay_history-IsConsistent (sort_by seq_or_zero ms) s h
  step-IsConsistent (sends now) s h = handle_send-IsConsistent now s h
  step-IsConsistent (answers allow) s h = change-IsConsistent answers_permission s h
  step-IsConsistent (loads_runtime none) s h = h
  step-IsConsistent (loads_runtime (some i)) s h = h
  step-IsConsistent (shows_models none) s h = h
  step-IsConsistent (shows_models (some ms)) s h = h
  step-IsConsistent (types txt) s h =
      elim (Bool-cases (has_prefix "/" txt && not (includes " " txt))) [
        | inl e ↦ rw e h
        | inr e ↦ rw e h
      ]
  step-IsConsistent (switches_model b) s h = if-IsConsistent s.has_client _ _ h h
  step-IsConsistent stops s h = if-IsConsistent s.has_client _ _ h h
  step-IsConsistent _ s h = h

  screen_after-IsConsistent :
      (h : List ScreenAction) (s : Screen)
      → IsConsistent s.store
      → IsConsistent (screen_after h s).store
  unfolding screen_after
  screen_after-IsConsistent [] s k = k
  screen_after-IsConsistent (a ∷ h) s k = screen_after-IsConsistent h _ (step-IsConsistent a s k)

  new_screen-IsConsistent : IsConsistent new_screen.store
  unfolding new_screen act_all
  new_screen-IsConsistent = act_all-no_messages to_number []

  -- After any history of a new screen, an answer goes to the permission request on display, by its
  -- own id (no id where it has none), and the request is gone from the screen with it.
  pub step-answers :
      (h : List ScreenAction) (ev : AppEvent) (allow : Bool)
      → (screen_after h new_screen).store.permission_prompt ≡ some ev
      → (screen_after h new_screen).has_client ≡ true
      → let t = step (answers allow) (screen_after h new_screen) in
        (t.1 ≡ responds (or_null ev.message_id) allow ∷ [])
        × (is_permission ev.payload ≡ true)
        × (t.0.store.permission_prompt ≡ none)
  unfolding step answer change act
  step-answers h ev allow p c =
      let k = (screen_after-IsConsistent h new_screen new_screen-IsConsistent).answerable in
      let q : IsAnswerable (some ev) (screen_after h new_screen).store.permission_request_id =
        subst (λ o. IsAnswerable o (screen_after h new_screen).store.permission_request_id) p k in
      rw (c, q.0) (refl, q.1, refl)
