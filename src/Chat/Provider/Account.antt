-- ===== src/Chat/Provider/Account.antt =====
-- What becomes of an input that is sent (web/src/core/state/ChatContext.tsx).
use mobilecoding.Base.{
  ℕ, ◌+◌, ◌≤◌, ◌≡◌, refl, String, Bool, true, false, not, ◌&&◌, Option, none, some, List, [], ◌∷◌,
  ◌++◌, if◌then◌else◌, ◌==◌, eq_refl, Bool-cases, inl, inr, arith,
}
use native.Mathlib.Nat.{zero-add}
use mobilecoding.Chat.State.{
  ChatState, Action, RuntimeConfig, LaunchMode, managed, remote_control, queue_input,
  user_message_sent,
}
use mobilecoding.Chat.Io.{
  Effect, dispatches, sends_input, relays_text, Result, ok, thrown, Io, ◌>>=◌, ◌>>◌, give, dispatch,
  bind_result,
}
use mobilecoding.Chat.Provider.{
  Reply, unreachable, refused, body, is_connected, is_relay, refresh_active_session_id,
  detect_active, refresh_runtime_config, launch_mode_of, relay_send,
}
use mobilecoding.Controls.{Checked}
use mobilecoding.Chat.Provider.Input.{
  Replies, checked_or, deliver, is_gone, relay_session_of, report_stop, send_directly, send_input,
  show_and_deliver,
}

abbrev pub one_if : Bool → ℕ
one_if true = 1
one_if false = 0

-- How often the text is queued, sent and shown.
abbrev pub queued_by : String → Effect → ℕ
queued_by txt (dispatches (queue_input t)) = one_if (t == txt)
queued_by txt _ = 0

abbrev pub sent_by : String → Effect → ℕ
sent_by txt (sends_input t) = one_if (t == txt)
sent_by txt (relays_text t) = one_if (t == txt)
sent_by txt _ = 0

abbrev pub shown_by : String → Effect → ℕ
shown_by txt (dispatches (user_message_sent t id)) = one_if (t == txt)
shown_by txt _ = 0

unfoldable pub tally : (Effect → ℕ) → List Effect → ℕ
tally w [] = 0
tally w (e ∷ es) = w e + tally w es

tally-append : (w : Effect → ℕ) (es fs : List Effect) → tally w (es ++ fs) ≡ tally w es + tally w fs
unfolding tally
tally-append w [] fs = ground arith
tally-append w (e ∷ es) fs = ground (arith, tally-append w es fs)

abbrev pub IsSilent : String → List Effect → Type 0
IsSilent txt es =
    (tally (queued_by txt) es ≡ 0) × (tally (sent_by txt) es ≡ 0) × (tally (shown_by txt) es ≡ 0)

unfoldable pub IsQuiet {ℓ} : {A : Type ℓ} → String → Io A → Type 0
IsQuiet txt m = IsSilent txt m.effects

unfoldable pub IsAccounted : String → Io (Unit {0}) → Type 0
IsAccounted txt m = elim m.result [
  | ok u ↦
      (tally (queued_by txt) m.effects + tally (sent_by txt) m.effects ≡ 1)
      × (tally (shown_by txt) m.effects ≡ tally (sent_by txt) m.effects)
  | thrown e ↦ (tally (queued_by txt) m.effects ≡ 0) × (tally (sent_by txt) m.effects ≤ 1)
]

before-IsAccounted :
    (txt : String) (es fs : List Effect) (r : Result (Unit {0}))
    → IsSilent txt es
    → IsAccounted txt (record { effects = fs; result = r })
    → IsAccounted txt (record { effects = es ++ fs; result = r })
unfolding IsAccounted
before-IsAccounted txt es fs (ok u) (q, r, k) h = simp (tally-append, q, r, k, zero-add) h
before-IsAccounted txt es fs (thrown e) (q, r, k) h = simp (tally-append, q, r, zero-add) h

bind_result-IsAccounted {ℓ} :
    {A : Type ℓ} (txt : String) (es : List Effect) (r : Result A) (f : A → Io (Unit {0}))
    → IsSilent txt es
    → ((a : A) → IsAccounted txt (f a))
    → IsAccounted txt (bind_result es r f)
unfolding bind_result
bind_result-IsAccounted txt es (ok a) f q h =
    before-IsAccounted txt es (f a).effects (f a).result q (h a)
bind_result-IsAccounted txt es (thrown e) f (q, r, k) h = unfold IsAccounted in ground (arith, q, r)

bind_IsAccounted {ℓ} :
    {A : Type ℓ} (txt : String) (m : Io A) (f : A → Io (Unit {0}))
    → IsQuiet txt m
    → ((a : A) → IsAccounted txt (f a))
    → IsAccounted txt (m >>= f)
unfolding ◌>>=◌ IsQuiet
bind_IsAccounted txt m f q h = bind_result-IsAccounted txt m.effects m.result f q h

give-IsQuiet {ℓ} : {A : Type ℓ} (txt : String) (a : A) → IsQuiet txt (give a)
unfolding IsQuiet tally
give-IsQuiet txt a = (refl, refl, refl)

refresh_runtime_config-IsQuiet :
    (txt : String) (current : RuntimeConfig) (r : Reply (Option RuntimeConfig))
    → IsQuiet txt (refresh_runtime_config current r)
unfolding refresh_runtime_config tally IsQuiet ◌>>=◌ bind_result
refresh_runtime_config-IsQuiet txt current (body (some r)) = (refl, refl, refl)
refresh_runtime_config-IsQuiet txt current unreachable = (refl, refl, refl)
refresh_runtime_config-IsQuiet txt current refused = (refl, refl, refl)
refresh_runtime_config-IsQuiet txt current (body none) = (refl, refl, refl)

refresh_active_session_id-IsQuiet :
    (txt : String) (r : Reply (Option String)) (b : Bool)
    → IsQuiet txt (refresh_active_session_id true r b)
unfolding refresh_active_session_id detect_active tally IsQuiet ◌>>=◌ bind_result
refresh_active_session_id-IsQuiet txt unreachable b = (refl, refl, refl)
refresh_active_session_id-IsQuiet txt refused b = (refl, refl, refl)
refresh_active_session_id-IsQuiet txt (body id) b = ground (arith)

no_effects : (txt : String) → IsSilent txt []
unfolding tally
no_effects txt = (refl, refl, refl)

checked_or-IsQuiet :
    (txt : String) (reports : List Effect) (c : Checked)
    → IsSilent txt reports
    → IsQuiet txt (checked_or reports c)
unfolding tally IsQuiet ◌>>=◌ bind_result
checked_or-IsQuiet txt reports (Checked.ok s) h = (refl, refl, refl)
checked_or-IsQuiet txt reports (Checked.failed e) (q, r, k) =
    simp (tally-append, q, r, k) (refl, refl, refl)

report_stop-IsSilent : (txt : String) (m : LaunchMode) → IsSilent txt (report_stop m)
unfolding tally
report_stop-IsSilent txt remote_control = (refl, refl, refl)
report_stop-IsSilent txt managed = (refl, refl, refl)

deliver-IsAccounted :
    (txt : String) (r : Result (Unit {0})) (shows : Bool) (sid : String)
    → IsAccounted txt (show_and_deliver shows txt sid r)
unfolding show_and_deliver deliver tally IsAccounted ◌>>=◌ bind_result
deliver-IsAccounted txt (ok u) true sid = rw (eq_refl txt) (refl, refl)
deliver-IsAccounted txt (ok u) false sid = rw (eq_refl txt) (refl, refl)
deliver-IsAccounted txt (thrown e) true sid = elim (Bool-cases (is_gone e)) [
  | inl p ↦ rw (p, eq_refl txt) (ground arith)
  | inr p ↦ rw (p, eq_refl txt) (ground arith)
]
deliver-IsAccounted txt (thrown e) false sid = elim (Bool-cases (is_gone e)) [
  | inl p ↦ rw (p, eq_refl txt) (ground arith)
  | inr p ↦ rw (p, eq_refl txt) (ground arith)
]

if-IsQuiet {ℓ} :
    {A : Type ℓ} (txt : String) (c : Bool) (m n : Io A)
    → IsQuiet txt m
    → IsQuiet txt n
    → IsQuiet txt (if c then m else n)
if-IsQuiet txt true m n h k = h
if-IsQuiet txt false m n h k = k

send_directly-IsAccounted :
    (txt : String) (s : ChatState) (current : RuntimeConfig) (a : Replies)
    → IsAccounted txt (send_directly txt s current a)
unfolding send_directly
send_directly-IsAccounted txt s current a =
    bind_IsAccounted txt _ _
      (if-IsQuiet txt _ _ _ (refresh_runtime_config-IsQuiet txt current a.version)
        (give-IsQuiet txt current))
      λ runtime. bind_IsAccounted txt _ _ (checked_or-IsQuiet txt [] _ (no_effects txt)) λ command.
        bind_IsAccounted txt _ _
          (if-IsQuiet txt _ _ _ (refresh_active_session_id-IsQuiet txt a.session a.can_set)
            (give-IsQuiet txt none))
          λ refreshed.
            bind_IsAccounted txt _ _
              (checked_or-IsQuiet txt _ _ (report_stop-IsSilent txt (launch_mode_of runtime)))
              λ sid. deliver-IsAccounted txt a.sent _ sid

relay_send-IsAccounted :
    (txt sid : String) (r : Result (Unit {0}))
    → IsAccounted txt
        (dispatch (Action.user_message_sent txt sid) >> relay_send (relays_text txt) r)
unfolding tally IsAccounted ◌>>=◌ bind_result
relay_send-IsAccounted txt sid (ok u) = rw (eq_refl txt) (refl, refl)
relay_send-IsAccounted txt sid (thrown e) = ground arith

queued_IsAccounted : (txt : String) → IsAccounted txt (dispatch (Action.queue_input txt))
unfolding tally IsAccounted
queued_IsAccounted txt = rw (eq_refl txt) (refl, refl)

-- Whatever the mode, the state and the replies, an input that `sendInput` returns from is queued or
-- sent, exactly one of the two and once, and it is shown exactly if it is sent; where `sendInput`
-- throws, the input is not queued, so that a caller that queues it again does so once, and a request
-- for it went out at most once.
pub send_input-IsAccounted :
    (txt : String) (s : ChatState) (relaying : Bool) (current : RuntimeConfig) (a : Replies)
    → IsAccounted txt (send_input txt s relaying current a)
unfolding send_input
send_input-IsAccounted txt s relaying current a =
    elim (Bool-cases (not (is_relay s.connection_mode) && not (is_connected s.status))) [
      | inl e ↦ rw e (queued_IsAccounted txt)
      | inr e ↦ rw e (elim (Bool-cases (is_relay s.connection_mode && relaying)) [
        | inl p ↦ rw p (relay_send-IsAccounted txt (relay_session_of s.session_id) a.sent)
        | inr p ↦ rw p (send_directly-IsAccounted txt s current a)
      ])
    ]
