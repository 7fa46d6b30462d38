-- ===== src/Input/Keys.antt =====
-- The keys and the button of the input bar (web/src/features/terminal/InputBar.tsx).
use mobilecoding.Base.{
  ◌≡◌, String, Bool, true, false, not, Option, none, ◌||◌, is_empty, includes, if◌then◌else◌, arith,
}
use mobilecoding.Chat.State.{ChatState}
use mobilecoding.Chat.Receive.{is_idle}
use mobilecoding.Chat.Detect.{trim}
use mobilecoding.Controls.{is_remote_cli_not_ready}
use mobilecoding.Input.{InputBar, Direction, up, down, navigate_history, handle_send}

-- `isActive`: the turn is under way.
unfoldable pub is_active : ChatState → Bool
is_active s = s.turn_active || (s.thinking || not (is_idle s.agent_state.status))

unfoldable pub is_disabled : ChatState → Bool
is_disabled s = is_remote_cli_not_ready s.connection_mode s.runtime.launch_mode s.session_id

-- With whether shift is held down.
pub data Key : Type 0 where
  enter arrow_up arrow_down : Bool → Key
  other_key : Key

-- What a key or the button does.
pub data Press : Type 0 where
  sends aborts nothing : Press
  browses : Direction → Press
  -- the browser's own handling of the key
  default : Press

-- `onKeyDown`, with the text of the field.
unfoldable pub on_key_down : ChatState → String → Key → Press
on_key_down s value (enter false) = if is_active s then aborts else sends
on_key_down s value (arrow_up false) = if includes "\n" value then default else browses up
on_key_down s value (arrow_down false) = if includes "\n" value then default else browses down
on_key_down s value _ = default

-- The button that is shown, by what a click does.
unfoldable pub button : ChatState → InputBar → Press
button s b =
    if is_disabled s
    then nothing
    else if s.stopping
    then nothing
    else if is_active s
    then aborts
    else if is_empty (trim b.text) || b.sending
    then nothing
    else sends

-- The bar after a press that browses the history; the other presses leave what the history needs.
abbrev pub browse_by : Press → InputBar → InputBar
browse_by (browses d) b = (navigate_history d b).0
browse_by _ b = b

abbrev pub arrow_key : Direction → Key
arrow_key up = arrow_up false
arrow_key down = arrow_down false

-- The bar after an arrow key, without shift.
unfoldable pub press_arrow : ChatState → Direction → InputBar → InputBar
press_arrow s d b = browse_by (on_key_down s b.text (arrow_key d)) b

-- The bar after a press that sends, and what is sent, with whether the storages can be written; the
-- other presses leave it.
unfoldable pub bar_after : Bool → Press → InputBar → InputBar × Option String
bar_after can sends b = handle_send can b
bar_after can _ b = (b, none)

-- Whether a press aborts the turn.
abbrev pub is_abort : Press → Bool
is_abort aborts = true
is_abort _ = false

-- While the text field can be used and no stop is under way, the enter key does what the button does.
on_key_down-button :
    (can : Bool) (s : ChatState) (b : InputBar)
    → is_disabled s ≡ false
    → b.sending ≡ false
    → s.stopping ≡ false
    → (bar_after can (on_key_down s b.text (enter false)) b ≡ bar_after can (button s b) b)
      × (is_abort (on_key_down s b.text (enter false)) ≡ is_abort (button s b))
unfolding on_key_down button bar_after handle_send
on_key_down-button can s b d n t = ground (arith, d, n, t)
