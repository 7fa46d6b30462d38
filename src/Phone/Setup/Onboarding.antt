-- ===== src/Phone/Setup/Onboarding.antt =====
-- The first screen: mobile/src/screens/OnboardingScreen.tsx. A request for the models is in flight
-- until the step that answers it, and so is a profile that is being saved.
pub mod Goes
use mobilecoding.Base.{
  ℕ, String, Bool, true, false, not, Option, none, some, List, [], ◌∷◌, ◌++◌, concat, is_empty,
  get_elem?, if◌then◌else◌,
}
use mobilecoding.Chat.Detect.{trim}
use mobilecoding.Controls.Bar.{ModelOption}
use mobilecoding.Git.{Reply, answer, not_ok, thrown, remove_at}
use mobilecoding.Phone.Link.Adapt.{
  ConnectionParams, Adapted, adapted, refused, looks_like_connection_url,
}
use mobilecoding.Phone.Setup.{
  Device, adapt, terminal_params, profile_of, SetupEffect, alerts, asks_models, saves_profile,
  opens_terminal, throws,
}

pub record Onboarding : Type 0 where
  pub connection_url : String
  pub adapted_to : Option ConnectionParams
  pub models : List ModelOption
  pub selected_model : String
  pub loading_models : Bool
  -- the requests in flight
  pub asked : List String
  -- the profiles that are being saved, with the model that was selected when connecting was pressed
  pub saving : List (ConnectionParams × String)

abbrev pub new_onboarding : Onboarding
new_onboarding = record {
  connection_url = "";
  adapted_to = none;
  models = [];
  selected_model = "";
  loading_models = false;
  asked = [];
  saving = [];
}

-- A handler's new state, and what it asks for in order.
abbrev pub Handled : Type 0
Handled = Onboarding × List SetupEffect

unfoldable pub models_url : ConnectionParams → String
models_url c =
    concat (if c.use_wss then "https" else "http")
      (concat "://" (concat c.host (concat ":" (concat c.port "/api/v1/models"))))

-- `fetchModels` up to its first await.
unfoldable pub fetch_models : ConnectionParams → Onboarding → Handled
fetch_models c s = (
  record s { loading_models = true; asked = s.asked ++ models_url c ∷ [] },
  asks_models (models_url c) ∷ [],
)

abbrev pub fallback : List ModelOption
fallback =
    record { label = "默认模型"; value = "" }
    ∷ record { label = "Sonnet 4.6"; value = "claude-sonnet-4-6" }
    ∷ record { label = "Opus 4.8"; value = "claude-opus-4-8" }
    ∷ record { label = "Haiku 4.5"; value = "claude-haiku-4-5" }
    ∷ []

-- `fetchModels` from its first await on.
unfoldable pub models_replied : Reply (List ModelOption) → Onboarding → Onboarding
models_replied (answer []) s = record s { models = []; loading_models = false }
models_replied (answer (m ∷ ms)) s = record s {
  models = m ∷ ms;
  selected_model = m.value;
  loading_models = false;
}
models_replied _ s = record s { models = fallback; selected_model = ""; loading_models = false }

abbrev bad_format : SetupEffect
bad_format = alerts "格式不对" "请粘贴扫码得到的完整链接，例如：\nhttps://10.138.77.206:8443/?token=xxx"

abbrev no_token : SetupEffect
no_token = alerts "链接里没找到 token" "请确认粘贴的是完整的扫码链接"

pub data SetupEvent : Type 0 where
  types : String → SetupEvent
  picks_model : String → SetupEvent
  presses_preview : SetupEvent
  presses_connect : SetupEvent
  models_reply : ℕ → Reply (List ModelOption) → SetupEvent
  -- the keychain answers, with whether the profile is saved
  save_reply : ℕ → Bool → SetupEvent

module _ (d : Device) where
  -- What `handlePreview` does with an adapted link.
  unfoldable pub take_link : Adapted → Onboarding → Handled
  take_link (refused msg) s = (s, throws msg ∷ [])
  take_link (adapted c) s =
      if is_empty c.token
      then (s, no_token ∷ [])
      else fetch_models c (record s { adapted_to = some c })

  unfoldable pub handle_preview : Onboarding → Handled
  handle_preview s =
      if not (looks_like_connection_url (trim s.connection_url))
      then (s, bad_format ∷ [])
      else take_link (adapt d (trim s.connection_url)) s

  -- `handleConnect` up to its await.
  unfoldable pub handle_connect : Onboarding → Handled
  handle_connect s = elim s.adapted_to [
    | none ↦ handle_preview s
    | some c ↦ (
      record s { saving = s.saving ++ (c, s.selected_model) ∷ [] },
      saves_profile (profile_of d c) ∷ [],
    )
  ]

  -- `handleConnect` from its await on, with the connection and the model that it closed over.
  unfoldable pub profile_saved : Bool → ConnectionParams × String → List SetupEffect
  profile_saved true (c, model) = opens_terminal (terminal_params (some model) c) ∷ []
  profile_saved false (c, model) = alerts "保存失败" "请重试" ∷ []

  unfoldable pub step_setup : SetupEvent → Onboarding → Handled
  step_setup (types txt) s = (record s { connection_url = txt; adapted_to = none }, [])
  step_setup (picks_model v) s = (record s { selected_model = v }, [])
  step_setup presses_preview s = handle_preview s
  step_setup presses_connect s = handle_connect s
  step_setup (models_reply n r) s = elim (get_elem? s.asked n) [
    | none ↦ (s, [])
    | some url ↦ (record (models_replied r s) { asked = remove_at n s.asked }, [])
  ]
  step_setup (save_reply n saved) s = elim (get_elem? s.saving n) [
    | none ↦ (s, [])
    | some x ↦ (record s { saving = remove_at n s.saving }, profile_saved saved x)
  ]

  unfoldable pub run_setup : List SetupEvent → Onboarding → Onboarding
  run_setup [] s = s
  run_setup (e ∷ es) s = run_setup es (step_setup e s).0
