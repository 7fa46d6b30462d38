-- ===== src/Controls/Ready.antt =====
-- The checks before something is sent (web/src/features/terminal/sessionControls.ts).
use mobilecoding.Base.{◌≡◌, refl, String, Option, none, some, truthy, if◌then◌else◌, text_of}
use mobilecoding.Chat.State.{LaunchMode, managed, remote_control}
use mobilecoding.Controls.{ok, failed, require_active_session_id, session_id_for_direct_send}

-- The id that is sent to in each mode.
abbrev pub target : LaunchMode → Option String → Option String → Option String
target managed current refreshed = current
target remote_control current refreshed = refreshed

abbrev pub reason : LaunchMode → String
reason managed = "请先启动会话"
reason remote_control = "桌面 CLI 未就绪，请确认 mc claude 会话仍在运行"

-- A direct send goes to the current session where the program is managed, and to the one that was
-- just asked for where it is controlled from afar; without an id, or with an empty one, it fails with
-- the error of that mode, and the other mode's id is never taken instead.
session_id_for_direct_send_lem :
    (mode : LaunchMode) (current refreshed : Option String)
    → let id = target mode current refreshed in
      session_id_for_direct_send mode current refreshed
      ≡ (if truthy id then ok (text_of id) else failed (reason mode))
unfolding session_id_for_direct_send require_active_session_id
session_id_for_direct_send_lem managed none r = refl
session_id_for_direct_send_lem managed (some String.[]) r = refl
session_id_for_direct_send_lem managed (some (String.◌∷◌ c s)) r = refl
session_id_for_direct_send_lem remote_control c none = refl
session_id_for_direct_send_lem remote_control c (some String.[]) = refl
session_id_for_direct_send_lem remote_control c (some (String.◌∷◌ d s)) = refl
