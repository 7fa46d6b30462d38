-- ===== src/Messages/Follows.antt =====
-- When the list of messages goes to its end (web/src/features/terminal/MessageList.tsx).
use mobilecoding.Base.{
  ℕ, suc, ◌≡◌, refl, true, false, not, ◌&&◌, List, [], ◌∷◌, eqb, if_intro, arith, if◌then◌else◌,
}
use mobilecoding.Messages.{
  MessageView, ListEvent, scrolls, counts, presses, is_shown, jump, follow, on_scroll,
  scroll_to_bottom, mount_list, step_list, run_list,
}

-- The button is shown exactly if the reader is not at the end.
abbrev IsTrue : MessageView → Type 0
IsTrue v = v.show_scroll_btn ≡ not v.stuck_at_bottom

-- A list that does not hear of scrolling takes its reader to be at the end.
abbrev IsDeaf : MessageView → Type 0
IsDeaf v = (v.listening ≡ false) × ((v.stuck_at_bottom ≡ true) × (v.show_scroll_btn ≡ false))

jump-IsTrue : (v : MessageView) → IsTrue v → IsTrue (jump v)
jump-IsTrue v t = if_intro IsTrue (is_shown v.count) _ _ (λ e. t) (λ e. t)

follow-IsTrue : (v : MessageView) → IsTrue v → IsTrue (follow v)
unfolding follow
follow-IsTrue v t =
    if_intro IsTrue v.stuck_at_bottom _ _ (λ e. jump-IsTrue v t) (λ e. ground (arith, e))

step_list-IsTrue : (e : ListEvent) (v : MessageView) → IsTrue v → IsTrue (step_list e v)
unfolding step_list on_scroll scroll_to_bottom
step_list-IsTrue (scrolls h t c) v k = if_intro IsTrue v.listening _ _ (λ e. refl) (λ e. k)
step_list-IsTrue (counts n) v k =
    if_intro IsTrue (eqb n v.count) _ _ (λ e. k)
      (λ e. follow-IsTrue (record v { count = n; listening = v.listening && is_shown n }) k)
step_list-IsTrue presses v k =
    if_intro IsTrue (is_shown v.count && v.show_scroll_btn) _ _ (λ e. refl) (λ e. k)

run_list-IsTrue : (es : List ListEvent) (v : MessageView) → IsTrue v → IsTrue (run_list es v)
unfolding run_list
run_list-IsTrue [] v t = t
run_list-IsTrue (e ∷ es) v t = run_list-IsTrue es (step_list e v) (step_list-IsTrue e v t)

jump-IsDeaf : (v : MessageView) → IsDeaf v → IsDeaf (jump v)
jump-IsDeaf v d = if_intro IsDeaf (is_shown v.count) _ _ (λ e. d) (λ e. d)

follow-IsDeaf : (v : MessageView) → IsDeaf v → IsDeaf (follow v)
unfolding follow
follow-IsDeaf v (l, (s, b)) =
    if_intro IsDeaf v.stuck_at_bottom _ _ (λ e. jump-IsDeaf v (l, (s, b)))
      (λ e. absurd (ground (arith, e, s)))

step_list-IsDeaf : (e : ListEvent) (v : MessageView) → IsDeaf v → IsDeaf (step_list e v)
unfolding step_list on_scroll
step_list-IsDeaf (scrolls h t c) v (l, d) =
    if_intro IsDeaf v.listening _ _ (λ e. absurd (ground (arith, e, l))) (λ e. (l, d))
step_list-IsDeaf (counts n) v (l, d) =
    if_intro IsDeaf (eqb n v.count) _ _ (λ e. (l, d))
      (λ e.
        follow-IsDeaf (record v { count = n; listening = v.listening && is_shown n })
          (ground (arith, l), d))
step_list-IsDeaf presses v (l, (s, b)) =
    if_intro IsDeaf (is_shown v.count && v.show_scroll_btn) _ _ (λ e. absurd (ground (arith, e, b)))
      (λ e. (l, (s, b)))

run_list-IsDeaf : (es : List ListEvent) (v : MessageView) → IsDeaf v → IsDeaf (run_list es v)
unfolding run_list
run_list-IsDeaf [] v d = d
run_list-IsDeaf (e ∷ es) v d = run_list-IsDeaf es (step_list e v) (step_list-IsDeaf e v d)

counts_lem :
    (v : MessageView) (k : ℕ)
    → IsTrue v
    → is_shown k ≡ true
    → (step_list (counts k) v).jumps
      ≡ (if eqb k v.count then v.jumps else if v.show_scroll_btn then v.jumps else suc v.jumps)
unfolding step_list follow
counts_lem v k t s = ground (arith, t, s)

-- Whatever happened before: when the messages change and there is one at least, the list goes to its
-- end, once, exactly if their number is another than before and the button is not shown; messages that
-- leave the number as it is do not move it. A list that is first rendered without a message never
-- shows the button, so that it then goes to its end with every change of the number, wherever its
-- reader is.
pub run_list-jumps :
    (n k : ℕ) (es : List ListEvent)
    → is_shown k ≡ true
    → ((step_list (counts k) (run_list es (mount_list n))).jumps ≡ (
        if eqb k (run_list es (mount_list n)).count
        then (run_list es (mount_list n)).jumps
        else if (run_list es (mount_list n)).show_scroll_btn
        then (run_list es (mount_list n)).jumps
        else suc (run_list es (mount_list n)).jumps))
      × ((run_list es (mount_list 0)).show_scroll_btn ≡ false)
unfolding mount_list follow
run_list-jumps n k es s =
    let first : MessageView = record {
      count = n;
      listening = is_shown n;
      stuck_at_bottom = true;
      show_scroll_btn = false;
      jumps = 0;
    } in
    let (l, (q, b)) = run_list-IsDeaf es (mount_list 0) (refl, (refl, refl)) in
    (counts_lem _ k (run_list-IsTrue es _ (follow-IsTrue first refl)) s, b)
