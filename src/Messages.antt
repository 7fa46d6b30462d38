-- ===== src/Messages.antt =====
-- The list of messages in the browser, which follows its end: web/src/features/terminal/MessageList.tsx.
-- The effect that listens for scrolling is run once; positions are in whole pixels.
pub mod Follows
mod Tests
use mobilecoding.Base.{
  ℕ, suc, ◌-◌, Bool, true, false, not, ◌&&◌, List, [], ◌∷◌, eqb, ltb, if◌then◌else◌,
}

-- What the list keeps: how many messages it shows, whether it hears of scrolling, whether the reader is
-- at the end, whether the button is shown, and how often it went to its end.
pub record MessageView : Type 0 where
  pub count : ℕ
  pub listening : Bool
  pub stuck_at_bottom : Bool
  pub show_scroll_btn : Bool
  pub jumps : ℕ

-- The reader scrolls, with the height, the position and the height of the window; the messages change,
-- with how many there are then (the effect only looks at their number, which stays where a delta is
-- merged and where the list is full); the button is pressed.
pub data ListEvent : Type 0 where
  scrolls : ℕ → ℕ → ℕ → ListEvent
  counts : ℕ → ListEvent
  presses : ListEvent

abbrev pub is_shown : ℕ → Bool
is_shown n = not (eqb n 0)

abbrev pub near_bottom : ℕ → ℕ → ℕ → Bool
near_bottom height top client = ltb (height - top - client) 80

-- `sentinelRef.current?.scrollIntoView`: the end is there if a message is.
abbrev pub jump : MessageView → MessageView
jump v = if is_shown v.count then record v { jumps = suc v.jumps } else v

-- The effect on `state.messages.length`.
unfoldable pub follow : MessageView → MessageView
follow v = if v.stuck_at_bottom then jump v else record v { show_scroll_btn = true }

unfoldable pub on_scroll : Bool → MessageView → MessageView
on_scroll near v =
    if v.listening then record v { stuck_at_bottom = near; show_scroll_btn = not near } else v

unfoldable pub scroll_to_bottom : MessageView → MessageView
scroll_to_bottom v = record (jump v) { stuck_at_bottom = true; show_scroll_btn = false }

-- The first rendering: the list has an element to listen to if it has a message.
unfoldable pub mount_list : ℕ → MessageView
mount_list n = follow (record {
  count = n;
  listening = is_shown n;
  stuck_at_bottom = true;
  show_scroll_btn = false;
  jumps = 0;
})

unfoldable pub step_list : ListEvent → MessageView → MessageView
step_list (scrolls height top client) v = on_scroll (near_bottom height top client) v
step_list (counts n) v =
    if eqb n v.count
    then v
    else follow (record v { count = n; listening = v.listening && is_shown n })
step_list presses v = if is_shown v.count && v.show_scroll_btn then scroll_to_bottom v else v

unfoldable pub run_list : List ListEvent → MessageView → MessageView
run_list [] v = v
run_list (e ∷ es) v = run_list es (step_list e v)
