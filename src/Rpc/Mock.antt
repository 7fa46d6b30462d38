-- ===== src/Rpc/Mock.antt =====
-- `MockWSClient` of mobile/src/screens/TerminalScreen.tsx, which answers by itself. A timer of a reply
-- is known by its number; those that connect are counted, since nothing keeps them.
pub mod Silent
mod Tests
use mobilecoding.Base.{
  ℕ, zero, suc, ◌+◌, String, Bool, true, false, not, ◌&&◌, ◌||◌, Option, none, some, List, [], ◌∷◌,
  ◌++◌, any, filter, eqb, ◌==◌, truthy, or_text, text_of, concat, if◌then◌else◌,
}
use mobilecoding.Event.{ConnectionStatus}

-- What a timer will answer to: its number, the session and the text.
pub record Waiting : Type 0 where
  pub timer : ℕ
  pub session_id : String
  pub user_text : String

-- What the listeners are called with.
pub data MockEvent : Type 0 where
  mock_text : String → String → ℕ → MockEvent
  mock_turn_end : String → ℕ → MockEvent

pub record MockClient : Type 0 where
  pub connected : Bool
  pub dialling : ℕ
  pub waiting : List Waiting
  pub next_timer : ℕ
  pub statuses : List ConnectionStatus
  pub heard : List MockEvent

abbrev pub new_mock : MockClient
new_mock = record {
  connected = false;
  dialling = 0;
  waiting = [];
  next_timer = 0;
  statuses = [];
  heard = [];
}

abbrev pub tell : ConnectionStatus → MockClient → MockClient
tell s c = record c { statuses = c.statuses ++ s ∷ [] }

unfoldable pub connect_mock : MockClient → MockClient
connect_mock c = tell ConnectionStatus.connecting (record c { dialling = suc c.dialling })

-- A timer of `connect` that is over.
abbrev pub dialled : ℕ → MockClient → MockClient
dialled zero c = c
dialled (suc n) c = tell ConnectionStatus.connected (record c { dialling = n; connected = true })

unfoldable pub disconnect_mock : MockClient → MockClient
disconnect_mock c = tell ConnectionStatus.closed (record c { waiting = []; connected = false })

abbrev pub is_input : String → Bool
is_input method = method == "send_message" || method == "session.input"

-- `send`, with whether it throws.
unfoldable pub send_mock : String → Option String → Option String → MockClient → Bool × MockClient
send_mock method session_id user_text c =
    if not c.connected
    then (true, c)
    else if is_input method && truthy user_text
    then (
      false,
      record c {
        waiting =
            c.waiting
            ++ record {
              timer = c.next_timer;
              session_id = or_text (text_of session_id) "default-session";
              user_text = text_of user_text;
            }
              ∷ [];
        next_timer = suc c.next_timer;
      },
    )
    else (false, c)

abbrev pub reply_text : String → String
reply_text t = concat "好的，已收到：" (concat t "（Mock 回复）")

-- The two events of a timer that is over.
unfoldable pub hear : ℕ → ℕ → List Waiting → List MockEvent
hear now n [] = []
hear now n (w ∷ ws) =
    let rest = hear now n ws in
    if eqb w.timer n
    then mock_text w.session_id (reply_text w.user_text) now
      ∷ mock_turn_end w.session_id (now + 1)
      ∷ []
    else rest

unfoldable pub reply_fires : ℕ → ℕ → MockClient → MockClient
reply_fires now n c = record c {
  waiting = filter (λ w. not (eqb w.timer n)) c.waiting;
  heard = c.heard ++ hear now n c.waiting;
}

-- What happens to the client; `replies` is a timer of a reply, with the time.
pub data MockInput : Type 0 where
  dials : MockInput
  dial_timer : MockInput
  hangs_up : MockInput
  sends_mock : String → Option String → Option String → MockInput
  replies : ℕ → ℕ → MockInput

unfoldable pub step_mock : MockInput → MockClient → MockClient
step_mock dials c = connect_mock c
step_mock dial_timer c = dialled c.dialling c
step_mock hangs_up c = disconnect_mock c
step_mock (sends_mock m s t) c = (send_mock m s t c).1
step_mock (replies now n) c = reply_fires now n c

unfoldable pub run_mock : List MockInput → MockClient → MockClient
run_mock [] c = c
run_mock (i ∷ is) c = run_mock is (step_mock i c)
