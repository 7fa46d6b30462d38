-- ===== src/Phone/Groups.antt =====
-- The groups that the phone renders: mobile/src/components/terminal/groupMessages.ts.
use mathlib.Core.List.{append-nil, append_assoc}
use mobilecoding.Base.{
  ◌≡◌, refl, sym, ap, ◌∙◌, Bool, not, true, false, List, [], ◌∷◌, ◌++◌, All, All-append,
  if◌then◌else◌, Bool-cases, inl, inr,
}
use mobilecoding.Event.{DisplayMessage, event, user, UserMessage, is_permission_message}

pub data RenderGroup : Type 0 where
  by_user : UserMessage → RenderGroup
  assistant : List DisplayMessage → RenderGroup
  standalone : DisplayMessage → RenderGroup

-- `isStandalone`
abbrev pub is_standalone : DisplayMessage → Bool
is_standalone m = is_permission_message m

-- What the loop keeps: the groups, and the assistant's messages that are not in a group yet.
pub record Grouping : Type 0 where
  pub groups : List RenderGroup
  pub current_assistant : List DisplayMessage

unfoldable pub flush_assistant : Grouping → Grouping
flush_assistant g = elim g.current_assistant [
  | [] ↦ g
  | (m ∷ ms) ↦ record { groups = g.groups ++ assistant (m ∷ ms) ∷ []; current_assistant = [] }
]

abbrev pub push_group : RenderGroup → Grouping → Grouping
push_group r g = record g { groups = g.groups ++ r ∷ [] }

unfoldable pub group_one : DisplayMessage → Grouping → Grouping
group_one (user u) g = push_group (by_user u) (flush_assistant g)
group_one (event e) g =
    if is_standalone (event e)
    then push_group (standalone (event e)) (flush_assistant g)
    else record g { current_assistant = g.current_assistant ++ event e ∷ [] }

unfoldable pub group_each : List DisplayMessage → Grouping → Grouping
group_each [] g = g
group_each (m ∷ ms) g = group_each ms (group_one m g)

unfoldable pub group_messages : List DisplayMessage → List RenderGroup
group_messages ms =
    (flush_assistant (group_each ms (record { groups = []; current_assistant = [] }))).groups

abbrev pub members : RenderGroup → List DisplayMessage
members (by_user u) = user u ∷ []
members (assistant ms) = ms
members (standalone m) = m ∷ []

abbrev pub ungroup : List RenderGroup → List DisplayMessage
ungroup [] = []
ungroup (r ∷ rs) = members r ++ ungroup rs

ungroup-append : (xs ys : List RenderGroup) → ungroup (xs ++ ys) ≡ ungroup xs ++ ungroup ys
ungroup-append [] ys = refl
ungroup-append (x ∷ xs) ys =
    ap (λ l. members x ++ l) (ungroup-append xs ys)
    ∙ sym (append_assoc (members x) (ungroup xs) (ungroup ys))

abbrev held : Grouping → List DisplayMessage
held g = ungroup g.groups ++ g.current_assistant

push-held :
    (rs : List RenderGroup) (r : RenderGroup) → ungroup (rs ++ r ∷ []) ≡ ungroup rs ++ members r
push-held rs r = ungroup-append rs (r ∷ []) ∙ ap (λ l. ungroup rs ++ l) (append-nil (members r))

flush-both :
    (gs : List RenderGroup) (ms : List DisplayMessage)
    → let g = flush_assistant (record { groups = gs; current_assistant = ms }) in
      (ungroup g.groups ≡ ungroup gs ++ ms) × (g.current_assistant ≡ [])
unfolding flush_assistant
flush-both gs [] = (sym (append-nil (ungroup gs)), refl)
flush-both gs (m ∷ ms) = (push-held gs (assistant (m ∷ ms)), refl)

push_group-held :
    (r : RenderGroup) (g : Grouping) → held (push_group r (flush_assistant g)) ≡ held g ++ members r
push_group-held r g =
    let (h, e) = flush-both g.groups g.current_assistant in
    rw e (append-nil _) ∙ push-held (flush_assistant g).groups r ∙ ap (λ l. l ++ members r) h

group_one-held : (m : DisplayMessage) (g : Grouping) → held (group_one m g) ≡ held g ++ m ∷ []
unfolding group_one
group_one-held (user u) g = push_group-held (by_user u) g
group_one-held (event e) g = elim (Bool-cases (is_standalone (event e))) [
  | inl h ↦ rw h (push_group-held (standalone (event e)) g)
  | inr h ↦ rw h (sym (append_assoc (ungroup g.groups) g.current_assistant (event e ∷ [])))
]

group_each-held : (ms : List DisplayMessage) (g : Grouping) → held (group_each ms g) ≡ held g ++ ms
unfolding group_each
group_each-held [] g = sym (append-nil (held g))
group_each-held (m ∷ ms) g =
    group_each-held ms (group_one m g)
    ∙ ap (λ l. l ++ ms) (group_one-held m g)
    ∙ append_assoc (held g) (m ∷ []) ms

-- Put one after another, the members of the groups are the messages: none is lost, doubled or moved.
pub ungroup-group_messages : (ms : List DisplayMessage) → ungroup (group_messages ms) ≡ ms
unfolding group_messages
ungroup-group_messages ms =
    let g = group_each ms (record { groups = []; current_assistant = [] }) in
    (flush-both g.groups g.current_assistant).0
    ∙ group_each-held ms (record { groups = []; current_assistant = [] })

-- A message of the assistant that needs no answer.
abbrev pub is_plain : DisplayMessage → Bool
is_plain (user u) = false
is_plain (event e) = not (is_standalone (event e))

-- A group of the assistant has members, all of them plain; a message that stands alone is a
-- permission request.
abbrev pub IsSorted : RenderGroup → Type 0
IsSorted (by_user u) = Unit
IsSorted (assistant []) = ⊥
IsSorted (assistant (m ∷ ms)) = All (λ x. is_plain x ≡ true) (m ∷ ms)
IsSorted (standalone m) = is_permission_message m ≡ true

-- The groups so far are sorted, and what is not in a group yet is plain.
abbrev IsSound : Grouping → Type 0
IsSound g = All IsSorted g.groups × All (λ x. is_plain x ≡ true) g.current_assistant

flush-IsSound :
    (gs : List RenderGroup) (ms : List DisplayMessage)
    → All IsSorted gs
    → All (λ x. is_plain x ≡ true) ms
    → IsSound (flush_assistant (record { groups = gs; current_assistant = ms }))
unfolding flush_assistant
flush-IsSound gs [] h k = (h, k)
flush-IsSound gs (m ∷ ms) h k = (All-append IsSorted gs (assistant (m ∷ ms) ∷ []) h (k, tt), tt)

group_one-IsSound : (m : DisplayMessage) (g : Grouping) → IsSound g → IsSound (group_one m g)
unfolding group_one
group_one-IsSound (user u) g (h, k) =
    let (a, b) = flush-IsSound g.groups g.current_assistant h k in
    (All-append IsSorted _ (by_user u ∷ []) a (tt, tt), b)
group_one-IsSound (event e) g (h, k) = elim (Bool-cases (is_standalone (event e))) [
  | inl q ↦
      let (a, b) = flush-IsSound g.groups g.current_assistant h k in
      rw q (All-append IsSorted _ (standalone (event e) ∷ []) a (q, tt), b)
  | inr q ↦ rw q (h, All-append _ g.current_assistant (event e ∷ []) k (ap not q, tt))
]

group_each-IsSound :
    (ms : List DisplayMessage) (g : Grouping) → IsSound g → IsSound (group_each ms g)
unfolding group_each
group_each-IsSound [] g h = h
group_each-IsSound (m ∷ ms) g h = group_each-IsSound ms _ (group_one-IsSound m g h)

-- Every group is of its kind: an assistant's group is not empty and has neither an input of the user
-- nor a permission request in it, and what stands alone is a permission request.
group_messages-IsSorted : (ms : List DisplayMessage) → All IsSorted (group_messages ms)
unfolding group_messages
group_messages-IsSorted ms =
    let (h, k) = group_each-IsSound ms (record { groups = []; current_assistant = [] }) (tt, tt) in
    (flush-IsSound _ _ h k).0
