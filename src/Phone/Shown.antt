-- ===== src/Phone/Shown.antt =====
-- What the phone's store shows, and the prompt it keeps (mobile/src/stores/useMessageStore.ts).
use mobilecoding.Base.{
  ◌≡◌, refl, ap, ◌∙◌, String, Bool, true, false, Option, none, some, List, [], ◌∷◌, init, last?,
  eqb, All, All-append, if◌then◌else◌, Bool-cases, Option-cases, inl, inr, or_null,
}
use mobilecoding.Json.{ℤ, Json}
use mobilecoding.Event.{AppEvent, Payload, DisplayMessage, event, user, is_permission}
use mobilecoding.Event.Payload.{
  text, text_delta, permission_request, permission_ask, plan_mode, context_window, session,
}
use mobilecoding.Chat.Merge.{delta?}
use mobilecoding.Phone.Store.{
  MessageState, no_messages, is_protocol, push, replace_end, add_event, prompt_event, show_event,
  protocol_event, handle_other, handle_event, StoreAction, handles, adds_user_message,
  clears_permission, answers_permission, resets_messages, act, act_all,
}

-- An event that is not shown as a message.
abbrev pub is_hidden : Payload → Bool
is_hidden (context_window i) = true
is_hidden (plan_mode i) = true
is_hidden (session i) = true
is_hidden p = is_protocol p

abbrev pub IsVisible : DisplayMessage → Type 0
IsVisible (user u) = Unit
IsVisible (event e) = is_hidden e.payload ≡ false

-- The id to answer by is that of the prompt's event; a prompt is a permission request.
abbrev pub IsAnswerable : Option AppEvent → Option String → Type 0
IsAnswerable none id = id ≡ none
IsAnswerable (some ev) id = (id ≡ or_null ev.message_id) × (is_permission ev.payload ≡ true)

-- Only messages to show are shown, and the id to answer by belongs to the prompt.
pub record IsConsistent (s : MessageState) : Type 0 where
  pub visible : All IsVisible s.messages
  pub answerable : IsAnswerable s.permission_prompt s.permission_request_id

All-init : (msgs : List DisplayMessage) → All IsVisible msgs → All IsVisible (init msgs)
All-init [] h = tt
All-init (m ∷ []) h = tt
All-init (m ∷ n ∷ ms) (h, hs) = (h, All-init (n ∷ ms) hs)

push-IsVisible :
    (msgs : List DisplayMessage) (ev : AppEvent)
    → is_hidden ev.payload ≡ false
    → All IsVisible msgs
    → All IsVisible (push msgs ev)
push-IsVisible msgs ev h v = All-append IsVisible msgs (event ev ∷ []) v (h, tt)

replace_end-IsVisible :
    (msgs : List DisplayMessage) (ev : AppEvent)
    → is_hidden ev.payload ≡ false
    → All IsVisible msgs
    → All IsVisible (replace_end msgs ev)
replace_end-IsVisible msgs ev h v =
    All-append IsVisible (init msgs) (event ev ∷ []) (All-init msgs v) (h, tt)

-- A permission request takes the place of one for the same tool, or comes last.
ask-IsVisible :
    (msgs : List DisplayMessage) (ev : AppEvent) (b : Bool)
    → is_hidden ev.payload ≡ false
    → All IsVisible msgs
    → All IsVisible (if b then replace_end msgs ev else push msgs ev)
ask-IsVisible msgs ev true h v = replace_end-IsVisible msgs ev h v
ask-IsVisible msgs ev false h v = push-IsVisible msgs ev h v

add_event-IsVisible :
    (ev : AppEvent) (p : Payload) (msgs : List DisplayMessage)
    → is_hidden ev.payload ≡ false
    → All IsVisible msgs
    → All IsVisible (add_event ev p msgs)
unfolding add_event
add_event-IsVisible ev (text_delta t th block) msgs h v =
    elim (Option-cases (delta? (last? msgs))) [
      | inl e ↦ rw (e, add_event) (push-IsVisible msgs ev h v)
      | inr (d, e) ↦
          rw (e, add_event)
            (elim (Bool-cases (eqb d.3 block)) [
              | inl q ↦ rw q (replace_end-IsVisible msgs _ refl v)
              | inr q ↦ rw q (push-IsVisible msgs ev h v)
            ])
    ]
add_event-IsVisible ev (text t th) msgs h v = elim (Option-cases (delta? (last? msgs))) [
  | inl e ↦ rw (e, add_event) (push-IsVisible msgs ev h v)
  | inr (d, e) ↦ rw (e, add_event) (replace_end-IsVisible msgs _ refl v)
]
add_event-IsVisible ev (permission_request p) msgs h v = ask-IsVisible msgs ev _ h v
add_event-IsVisible ev (permission_ask p) msgs h v = ask-IsVisible msgs ev _ h v
add_event-IsVisible ev _ msgs h v = push-IsVisible msgs ev h v

prompt_event-IsAnswerable :
    (ev : AppEvent) (p : Payload) (s : MessageState)
    → ev.payload ≡ p
    → IsAnswerable s.permission_prompt s.permission_request_id
    → IsAnswerable
        (prompt_event ev p s).permission_prompt
        (prompt_event ev p s).permission_request_id
unfolding prompt_event
prompt_event-IsAnswerable ev (permission_request p) s e h = (refl, ap is_permission e)
prompt_event-IsAnswerable ev (permission_ask p) s e h = (refl, ap is_permission e)
prompt_event-IsAnswerable ev _ s e h = h

module _ (to_number : Json → Option ℤ) where
  show_event-IsConsistent :
      (ev : AppEvent) (s : MessageState)
      → is_hidden ev.payload ≡ false
      → IsConsistent s
      → IsConsistent (show_event to_number ev s)
  unfolding show_event
  show_event-IsConsistent ev s h v = record {
    visible = add_event-IsVisible ev ev.payload s.messages h v.visible;
    answerable = prompt_event-IsAnswerable ev ev.payload s refl v.answerable;
  }

  handle_other-IsConsistent :
      (ev : AppEvent) (p : Payload) (s : MessageState)
      → ev.payload ≡ p
      → is_protocol p ≡ false
      → IsConsistent s
      → IsConsistent (handle_other to_number ev p s)
  unfolding handle_other
  handle_other-IsConsistent ev (context_window i) s e h v = record {
    visible = v.visible;
    answerable = v.answerable;
  }
  handle_other-IsConsistent ev (plan_mode i) s e h v = v
  handle_other-IsConsistent ev (session i) s e h v = v
  handle_other-IsConsistent ev _ s e h v = show_event-IsConsistent ev s (ap is_hidden e ∙ h) v

  handle_event-IsConsistent :
      (ev : AppEvent) (s : MessageState)
      → IsConsistent s
      → IsConsistent (handle_event to_number ev s)
  unfolding handle_event protocol_event
  handle_event-IsConsistent ev s v = elim (Bool-cases (is_protocol ev.payload)) [
    | inl e ↦ rw e (record { visible = v.visible; answerable = v.answerable })
    | inr e ↦ rw e (handle_other-IsConsistent ev ev.payload s refl e v)
  ]

  pub act-IsConsistent :
      (a : StoreAction) (s : MessageState) → IsConsistent s → IsConsistent (act to_number a s)
  unfolding act
  act-IsConsistent (handles ev) s v = handle_event-IsConsistent ev s v
  act-IsConsistent (adds_user_message m) s v = record {
    visible = All-append IsVisible s.messages (user m ∷ []) v.visible (tt, tt);
    answerable = v.answerable;
  }
  act-IsConsistent clears_permission s v = record { visible = v.visible; answerable = refl }
  act-IsConsistent answers_permission s v = record { visible = v.visible; answerable = refl }
  act-IsConsistent resets_messages s v = record { visible = tt; answerable = refl }

  act_all-IsConsistent :
      (h : List StoreAction) (s : MessageState)
      → IsConsistent s
      → IsConsistent (act_all to_number h s)
  unfolding act_all
  act_all-IsConsistent [] s v = v
  act_all-IsConsistent (a ∷ h) s v = act_all-IsConsistent h _ (act-IsConsistent a s v)

  -- Over any history of a new store only events that are meant to be shown stand among the messages,
  -- and the id to answer by is that of the permission request on display, or none without one.
  pub act_all-no_messages : (h : List StoreAction) → IsConsistent (act_all to_number h no_messages)
  act_all-no_messages h =
      act_all-IsConsistent h no_messages (record { visible = tt; answerable = refl })
