-- ===== src/Banner/Answers.antt =====
-- What the banner's buttons lead to (web/src/features/terminal/PermissionBanner.tsx,
-- web/src/core/state/ChatContext.tsx).
use mobilecoding.Base.{
  ◌≡◌, refl, ap, ◌∙◌, String, Bool, true, false, not, ◌&&◌, ◌||◌, Option, none, some, List, [], ◌∷◌,
  is_some, is_empty, any-snoc, or_truthy, or_null, Bool-cases, Option-cases, inl, inr, if_intro,
  arith, if◌then◌else◌, ◌==◌, eq_refl,
}
use mobilecoding.Event.{AppEvent, Permission, permission?}
use mobilecoding.Chat.State.{ChatState, Action}
use mobilecoding.Chat.Storage.{Storage, Env}
use mobilecoding.Chat.Reducer.{member_of, allow_tool, reducer}
use mobilecoding.Chat.Io.{Effect, Result, Io, ◌>>◌, ◌>>=◌, bind_result, dispatch}
use mobilecoding.Chat.Provider.{is_relay}
use mobilecoding.Chat.Provider.Answer.{
  answer_permission, allows, answer_prompt, auto_answer, respond,
}
use mobilecoding.Banner.{
  prompt_in, offers_for, prompt_of, request_id, handle_answer, auto_allowed, offers_buttons,
}

-- Whether nothing is done.
abbrev pub is_silent : List Effect → Bool
is_silent [] = true
is_silent (e ∷ es) = false

or_true : (a : Bool) {b : Bool} → b ≡ true → (a || b) ≡ true
or_true true e = refl
or_true false e = e

module _ (relaying : Bool) (ends : Result (Unit {0})) where
  answer_permission-silent :
      (id : Option String) (s : ChatState)
      → is_silent (answer_permission true id s relaying ends).effects ≡ false
  unfolding answer_permission ◌>>=◌ bind_result
  answer_permission-silent none s = refl
  answer_permission-silent (some id) s =
      if_intro (λ (m : Io (Unit {0})). is_silent m.effects ≡ false) (is_empty id) _ _ (λ e. refl)
        (λ e. refl)

  -- For one prompt with the fields of a request.
  prompt-silent :
      (s : ChatState) (ev : AppEvent) (p : Permission)
      → permission? ev.payload ≡ some p
      → is_silent (answer_prompt s (some ev) relaying ends).effects ≡ not (auto_allowed s p)
  unfolding answer_prompt allows auto_allowed
  prompt-silent s ev p e =
      elim (Bool-cases (s.perm_allow_all_turn || member_of p.tool_name s.perm_allowlist)) [
        | inl a ↦ rw (e, a, answer_permission-silent _ s) refl
        | inr a ↦ rw (e, a) refl
      ]

  offers_lem :
      (s : ChatState) (o : Option AppEvent)
      → offers_for s (prompt_in o)
        ≡ (is_some (prompt_in o) && is_silent (answer_prompt s o relaying ends).effects)
  unfolding prompt_in
  offers_lem s none = refl
  offers_lem s (some ev) = elim (Option-cases (permission? ev.payload)) [
    | inl n ↦ rw (n, prompt_in) refl
    | inr (p, k) ↦ rw (k, prompt_in, prompt-silent s ev p k) refl
  ]

  -- The banner offers its buttons exactly if a permission is asked for and the page does not answer by
  -- itself.
  pub offers_buttons-auto_answer :
      (s : ChatState)
      → offers_buttons s
        ≡ (is_some (prompt_of s) && is_silent (auto_answer s relaying ends).effects)
  unfolding offers_buttons auto_answer
  offers_buttons-auto_answer s = offers_lem s s.permission_prompt

  -- An answer reads no more of the state than how the page is connected.
  answer_permission-same :
      (id : Option String) (s t : ChatState)
      → t.connection_mode ≡ s.connection_mode
      → answer_permission true id t relaying ends ≡ answer_permission true id s relaying ends
  unfolding answer_permission
  answer_permission-same none s t e = refl
  answer_permission-same (some id) s t e =
      ap
        (λ (r : Bool).
          if is_empty id
          then dispatch (Action.permission_answered true)
          else dispatch (Action.permission_answered true) >> respond (r && relaying) id ends true)
        (ap is_relay e)

  -- A state that allows the prompt's tool.
  licensed_lem :
      (s t : ChatState) (ev : AppEvent) (p : Permission)
      → t.permission_prompt ≡ some ev
      → t.permission_request_id ≡ s.permission_request_id
      → t.connection_mode ≡ s.connection_mode
      → permission? ev.payload ≡ some p
      → auto_allowed t p ≡ true
      → auto_answer t relaying ends ≡ handle_answer true ev s relaying ends
  unfolding auto_answer answer_prompt allows auto_allowed handle_answer request_id
  licensed_lem s t ev p e i c k a =
      ap (λ (o : Option AppEvent). answer_prompt t o relaying ends) e
      ∙ (rw (k, a) refl
          ∙ (ap
                (λ (r : Option String).
                  answer_permission true (or_truthy r (or_null ev.message_id)) t relaying ends)
                i
              ∙ answer_permission-same _ s t c))

  -- The button that allows a tool for the session, and the one that allows everything for the turn: with
  -- the prompt still on display the page then answers by itself, exactly as the button that allows once.
  pub allow_tool-handle_answer :
      (env : Env) (s : ChatState) (st : Storage) (ev : AppEvent) (p : Permission)
      → s.permission_prompt ≡ some ev
      → permission? ev.payload ≡ some p
      → (auto_answer (reducer env (Action.perm_allow_tool p.tool_name) s st).0 relaying ends
          ≡ handle_answer true ev s relaying ends)
        × (auto_answer (reducer env Action.perm_allow_all_turn s st).0 relaying ends
            ≡ handle_answer true ev s relaying ends)
  unfolding reducer allow_tool auto_allowed
  allow_tool-handle_answer env s st ev p e k = (
    if_intro
        (λ (w : ChatState × Storage).
          auto_answer w.0 relaying ends ≡ handle_answer true ev s relaying ends)
        (member_of p.tool_name s.perm_allowlist) _ _
        (λ m. licensed_lem s s ev p e refl refl k (ground (arith, m)))
        (λ m. licensed_lem s _ ev p e refl refl k (
          or_true s.perm_allow_all_turn (
            any-snoc (λ (y : String). y == p.tool_name) s.perm_allowlist p.tool_name
              (eq_refl p.tool_name)))),
    licensed_lem s _ ev p e refl refl k refl,
  )
