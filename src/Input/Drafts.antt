-- ===== src/Input/Drafts.antt =====
-- The drafts of the input bar, one for each session (web/src/features/terminal/InputBar.tsx). Here the
-- storages can be written.
use mobilecoding.Base.{
  ◌≡◌, refl, String, Bool, true, false, Option, none, some, List, [], ◌∷◌, ◌==◌, eq_refl, eq_iff,
  is_empty, Bool-cases, Option-cases, inl, inr, if◌then◌else◌, if_intro,
}
use mobilecoding.Chat.Detect.{trim}
use mobilecoding.Input.{InputBar, draft_of, save_draft, load_draft, handle_send, save_history}

-- The bar with its session, and the drafts of the other sessions; the bar holds that of its own. An
-- input that is being sent is kept with the session of its `handleSend`.
pub record Desk : Type 0 where
  pub session : String
  pub bar : InputBar
  pub others : String → Option String
  pub in_flight : Option (String × String)

-- `onChange`, and a click on one of the quick inputs.
unfoldable pub put_text : String → InputBar → InputBar
put_text value b = save_draft true value (record b { text = value; history_cursor = none })

-- The effect on the session: its draft is loaded.
unfoldable pub switch_to : String → Desk → Desk
switch_to id d =
    let drafts : String → Option String =
      λ k. if k == d.session then d.bar.stored_draft else d.others k in
    record {
      session = id;
      bar = record d.bar {
        text = load_draft (drafts id);
        history_cursor = none;
        stored_draft = drafts id;
      };
      others = drafts;
      in_flight = d.in_flight;
    }

-- `handleSend`; the field and the button are disabled while an input is being sent.
unfoldable pub start_sending : Desk → Desk
start_sending d =
    if d.bar.sending
    then d
    else let (b, sent) = handle_send true d.bar in
      elim sent [ none ↦ d | some txt ↦ record d { bar = b; in_flight = some (d.session, txt) } ]

-- `setText(trimmed)` and `saveDraft(sessionId, trimmed)` after a send that failed: the text goes to the
-- session on display, the draft to that of the send.
unfoldable pub give_back : String → String → Desk → Desk
give_back id txt d =
    let d1 : Desk = record d { bar = record d.bar { text = txt } } in
    if id == d.session
    then record d1 { bar = save_draft true txt d1.bar }
    else record d1 { others = λ k. if k == id then draft_of txt else d.others k }

-- `handleSend` from its await on.
unfoldable pub send_ended : Bool → String → String → Desk → Desk
send_ended succeeds id txt d =
    let d1 = if succeeds then d else give_back id txt d in
    record d1 { bar = record d1.bar { sending = false }; in_flight = none }

pub data DeskEvent : Type 0 where
  types : String → DeskEvent
  sends : DeskEvent
  -- with whether the send succeeds
  send_ends : Bool → DeskEvent
  switches : String → DeskEvent

unfoldable pub step_desk : DeskEvent → Desk → Desk
step_desk (types t) d = record d { bar = put_text t d.bar }
step_desk sends d = start_sending d
step_desk (send_ends succeeds) d = elim d.in_flight [
  | none ↦ d
  | some (id, txt) ↦ send_ended succeeds id txt d
]
step_desk (switches id) d = switch_to id d

unfoldable pub run_desk : List DeskEvent → Desk → Desk
run_desk [] d = d
run_desk (e ∷ es) d = run_desk es (step_desk e d)

-- What is displayed is what is stored.
abbrev pub IsSaved : InputBar → Type 0
IsSaved b = load_draft b.stored_draft ≡ b.text

draft_lem : (t : String) → load_draft (draft_of t) ≡ t
unfolding load_draft
draft_lem String.[] = refl
draft_lem (String.◌∷◌ c t) = refl

-- A send that fails does so while its session is on display.
abbrev pub IsCalm : DeskEvent → Desk → Type 0
IsCalm (send_ends false) d = (id txt : String) → d.in_flight ≡ some (id, txt) → id ≡ d.session
IsCalm _ d = Unit {0}

abbrev pub IsCalmRun : List DeskEvent → Desk → Type 0
IsCalmRun [] d = Unit {0}
IsCalmRun (e ∷ es) d = IsCalm e d × IsCalmRun es (step_desk e d)

start_sending-IsSaved : (d : Desk) → IsSaved d.bar → IsSaved (start_sending d).bar
unfolding start_sending handle_send save_draft save_history
start_sending-IsSaved d h =
    if_intro (λ (x : Desk). IsSaved x.bar) d.bar.sending _ _ (λ e. h)
      (λ e. elim (Bool-cases (is_empty (trim d.bar.text))) [
        | inl k ↦ rw k h
        | inr k ↦ rw (k, k) (draft_lem "")
      ])

give_back-IsSaved : (id txt : String) (d : Desk) → id ≡ d.session → IsSaved (give_back id txt d).bar
unfolding give_back save_draft
give_back-IsSaved id txt d e =
    let same : (id == d.session) ≡ true = (eq_iff id d.session).1 e in rw same (draft_lem txt)

step_desk-IsSaved :
    (e : DeskEvent) (d : Desk) → IsCalm e d → IsSaved d.bar → IsSaved (step_desk e d).bar
unfolding step_desk put_text switch_to save_draft send_ended
step_desk-IsSaved (types t) d c h = draft_lem t
step_desk-IsSaved sends d c h = start_sending-IsSaved d h
step_desk-IsSaved (send_ends true) d c h = elim (Option-cases d.in_flight) [
  | inl e ↦ rw (e, step_desk) h
  | inr ((id, txt), e) ↦ rw (e, step_desk) h
]
step_desk-IsSaved (send_ends false) d c h = elim (Option-cases d.in_flight) [
  | inl e ↦ rw (e, step_desk) h
  | inr ((id, txt), e) ↦ rw (e, step_desk) (give_back-IsSaved id txt d (c id txt e))
]
step_desk-IsSaved (switches id) d c h = refl

run_desk-IsSaved :
    (es : List DeskEvent) (d : Desk) → IsCalmRun es d → IsSaved d.bar → IsSaved (run_desk es d).bar
unfolding run_desk
run_desk-IsSaved [] d c h = h
run_desk-IsSaved (e ∷ es) d (c, cs) h = run_desk-IsSaved es _ cs (step_desk-IsSaved e d c h)

switch_to-back :
    (d : Desk) (other t : String)
    → IsSaved d.bar
    → (d.session == other) ≡ false
    → (run_desk (switches other ∷ types t ∷ switches d.session ∷ []) d).bar.text ≡ d.bar.text
unfolding run_desk step_desk switch_to put_text save_draft
switch_to-back d other t h n = rw (n, eq_refl d.session) h

-- Where the storage can be written, what is displayed at first is what is stored, and each send that
-- fails does so while its session is on display: after any typing, sending and changing of sessions,
-- an input that is left behind for another session, even while a send is under way, is on display
-- again when one comes back, whatever was typed there.
pub run_desk-back :
    (es : List DeskEvent) (d : Desk) (other t : String)
    → IsSaved d.bar
    → IsCalmRun es d
    → ((run_desk es d).session == other) ≡ false
    → (run_desk
        (switches other ∷ types t ∷ switches (run_desk es d).session ∷ [])
        (run_desk es d)).bar.text
      ≡ (run_desk es d).bar.text
run_desk-back es d other t h c n =
    switch_to-back (run_desk es d) other t (run_desk-IsSaved es d c h) n
