-- ===== src/Phone/Terminal.antt =====
-- The screen of a session on the phone (mobile/src/screens/TerminalScreen.tsx): its state, what its
-- handlers change, and what they ask the client and the server for. `to_number` is `Number`, as for
-- the store; `to_lower` is `toLowerCase`, and `parse` reads the text of a stored message.
pub mod Handlers
pub mod Commands
pub mod Arguments
pub mod Answer
mod Tests
use mobilecoding.Base.{
  ℕ, String, Bool, true, false, not, ◌&&◌, ◌||◌, Option, none, some, List, [], ◌∷◌, ◌++◌, ◌==◌,
  concat, is_empty, truthy, text_of, has_prefix, strip_prefix, includes, filter, if◌then◌else◌,
  is_some,
}
use mobilecoding.Base.Sort.{sort_by}
use mobilecoding.Json.{ℤ, Json}
use mobilecoding.Event.{AppEvent, Payload, plan_mode, session}
use mobilecoding.Chat.Detect.{trim}
use mobilecoding.Phone.Store.{
  MessageState, StoreAction, handles, adds_user_message, answers_permission, resets_messages,
  no_messages, act,
}

pub data CommandMode : Type 0 where
  passthrough local : CommandMode

pub record SlashCommand : Type 0 where
  pub cmd : String
  pub desc : String
  pub mode : CommandMode

pub record Model : Type 0 where
  pub label : String
  pub value : String

-- `props.route.params`, with their defaults.
pub record Route : Type 0 where
  pub host : String
  pub port : String
  pub path : String
  pub use_wss : Bool
  pub model : String

pub record Screen : Type 0 where
  pub store : MessageState
  pub input : String
  pub turn_active : Bool
  pub thinking : Bool
  pub connected : Bool
  pub session_started : Bool
  pub show_slash_picker : Bool
  pub slash_filter : String
  pub show_model_picker : Bool
  pub models : List Model
  pub selected_model : String
  pub loading_models : Bool
  pub runtime_args : List String
  pub settings_path : String
  pub project_cwd : String
  -- whether `clientRef` holds a client
  pub has_client : Bool

unfoldable pub new_screen : Screen
new_screen = record {
  store = no_messages;
  input = "";
  turn_active = false;
  thinking = false;
  connected = false;
  session_started = false;
  show_slash_picker = false;
  slash_filter = "";
  show_model_picker = false;
  models = [];
  selected_model = "";
  loading_models = false;
  runtime_args = [];
  settings_path = "";
  project_cwd = "";
  has_client = false;
}

pub data Request : Type 0 where
  disconnects : Request
  connects : String → Request
  -- `session.start`, with whether the session restarts
  starts : List String → Bool → Request
  inputs : String → Request
  aborts : Request
  responds : Option String → Bool → Request
  -- the models, of the settings file where there is one
  asks_models : Option String → Request

-- What the server says of the runtime.
pub record RuntimeInfo : Type 0 where
  pub default_args : Option (List String)
  pub cwd : Option String

pub record Stored : Type 0 where
  pub seq : Option ℕ
  pub content : String

-- `a.seq || 0`
abbrev pub seq_or_zero : Stored → ℕ
seq_or_zero m = elim m.seq [ none ↦ 0 | some n ↦ n ]

-- An event for which the store does not set its state.
abbrev pub is_passed_over : Payload → Bool
is_passed_over (plan_mode i) = true
is_passed_over (session i) = true
is_passed_over _ = false

-- Whether the store calls the screen.
abbrev pub notifies : StoreAction → Bool
notifies (handles ev) = not (is_passed_over ev.payload)
notifies _ = true

unfoldable pub address : Route → String
address r =
    concat (if r.use_wss then "wss" else "ws")
      (concat "://" (concat r.host (concat ":" (concat r.port r.path))))

-- `handleInputChange`
unfoldable pub handle_input_change : String → Screen → Screen
unfolding strip_prefix
handle_input_change txt s =
    if has_prefix "/" txt && not (includes " " txt)
    then record s { input = txt; slash_filter = txt; show_slash_picker = true }
    else record s { input = txt; show_slash_picker = false }

unfoldable pub select_slash_command : String → Screen → Screen
select_slash_command cmd s = record s { input = concat cmd " "; show_slash_picker = false }

unfoldable pub filtered_commands :
    (String → String) → List SlashCommand → Screen → List SlashCommand
filtered_commands to_lower commands s =
    filter (λ c. includes (to_lower s.slash_filter) (to_lower c.cmd)) commands

-- `args.indexOf('--settings')`, and the argument behind it if there is one.
unfoldable pub settings_argument : List String → Option String
settings_argument [] = none
settings_argument (a ∷ []) = none
settings_argument (a ∷ b ∷ r) =
    let rest = settings_argument (b ∷ r) in if a == "--settings" then some b else rest

-- The runtime's answer; `none` where there is none to use.
unfoldable pub load_runtime : Option RuntimeInfo → Screen → Screen
load_runtime none s = s
load_runtime (some info) s =
    let args : List String = elim info.default_args [ none ↦ [] | some l ↦ l ] in
    record s {
      runtime_args = args;
      settings_path = elim (settings_argument args) [ none ↦ s.settings_path | some p ↦ p ];
      project_cwd = if truthy info.cwd then text_of info.cwd else s.project_cwd;
    }

-- The start of `fetchModelsAndShowPicker`, and its end with the list or without.
unfoldable pub fetch_models : Screen → Screen × List Request
fetch_models s = (
  record s { loading_models = true; show_model_picker = true },
  asks_models (if is_empty s.settings_path then none else some s.settings_path) ∷ [],
)

abbrev pub fallback_models : List Model
fallback_models =
    record { label = "默认模型"; value = "" }
    ∷ record { label = "Sonnet 4.6"; value = "claude-sonnet-4-6" }
    ∷ record { label = "Opus 4.8"; value = "claude-opus-4-8" }
    ∷ []

abbrev pub first_model : List Model → String → String
first_model [] old = old
first_model (m ∷ ms) old = m.value

unfoldable pub show_models : Option (List Model) → Screen → Screen
show_models none s = record s {
  models = fallback_models;
  selected_model = "";
  loading_models = false;
}
show_models (some ms) s = record s {
  models = ms;
  selected_model = first_model ms s.selected_model;
  loading_models = false;
}

-- The loop over the runtime's arguments: a `--model` is left out, and what follows it.
unfoldable pub kept_args : List String → List String
kept_args [] = []
kept_args (a ∷ []) = if a == "--model" then [] else a ∷ []
kept_args (a ∷ b ∷ r) = elim (a == "--model") [ true ↦ kept_args r | false ↦ a ∷ kept_args (b ∷ r) ]

abbrev pub switch_args : Screen → List String
switch_args s =
    let args = kept_args s.runtime_args in
    if is_empty s.selected_model then args else args ++ "--model" ∷ s.selected_model ∷ []

-- `applyModelSwitch`, with whether the restart succeeds.
unfoldable pub apply_model_switch : Bool → Screen → Screen × List Request
apply_model_switch succeeds s =
    if s.has_client
    then (
      record s { show_model_picker = if succeeds then false else s.show_model_picker },
      starts (switch_args s) true ∷ [],
    )
    else (s, [])

abbrev pub start_args : Route → List String
start_args r = if is_empty r.model then [] else "--model" ∷ r.model ∷ []

-- The effect that starts the session, up to its request; the flag is set when it is answered.
unfoldable pub start_session : Route → Screen → List Request
start_session r s =
    if s.connected && not s.session_started && s.has_client
    then starts (start_args r) false ∷ []
    else []

unfoldable pub handle_abort : Screen → Screen × List Request
handle_abort s =
    if s.has_client
    then (record s { turn_active = false; thinking = false }, aborts ∷ [])
    else (s, [])
