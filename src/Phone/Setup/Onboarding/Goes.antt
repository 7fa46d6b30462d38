-- ===== src/Phone/Setup/Onboarding/Goes.antt =====
-- Where the first screen goes (mobile/src/screens/OnboardingScreen.tsx).
use mobilecoding.Base.{◌≡◌, String, true, false, some, List, ◌∷◌, ◌++◌, is_empty, All}
use mobilecoding.Chat.Detect.{trim}
use mobilecoding.Phone.Link.Adapt.{ConnectionParams, adapted, looks_like_connection_url}
use mobilecoding.Phone.Setup.{
  Device, adapt, terminal_params, profile_of, SetupEffect, saves_profile, opens_terminal,
}
use mobilecoding.Phone.Setup.Onboarding.{
  Onboarding, new_onboarding, Handled, SetupEvent, presses_connect, run_setup,
}

module _ (d : Device) where
  -- The connection is that of the link in the field, and has a token.
  abbrev pub IsOfLink : String → ConnectionParams → Type 0
  IsOfLink link c =
      (looks_like_connection_url (trim link) ≡ true)
      × (adapt d (trim link) ≡ adapted c)
      × (is_empty c.token ≡ false)

  abbrev IsConsistent : Onboarding → Type 0
  IsConsistent s = (c : ConnectionParams) → s.adapted_to ≡ some c → IsOfLink s.connection_url c

  -- What an effect may do while that link is in the field; what is being saved has that property.
  abbrev pub Goes : (ConnectionParams × String → Type 0) → String → SetupEffect → Type 0
  Goes P link (opens_terminal t) =
      (c : ConnectionParams) × (m : String) × P (c, m) × (t ≡ terminal_params (some m) c)
  Goes P link (saves_profile p) = (c : ConnectionParams) × IsOfLink link c × (p ≡ profile_of d c)
  Goes P link _ = Unit {0}

  -- A handler leaves a consistent screen, and its effects are allowed.
  abbrev IsSound : (ConnectionParams × String → Type 0) → String → Handled → Type 0
  IsSound P link h = IsConsistent h.0 × All (Goes P link) h.1

  abbrev after : List SetupEvent → Onboarding
  after es = run_setup d es new_onboarding

  -- Connecting was pressed in the course of the events while that connection's link was in the field and
  -- that model was selected.
  pub record WasPressed (es : List SetupEvent) (x : ConnectionParams × String) : Type 0 where
    pub earlier : List SetupEvent
    pub later : List SetupEvent
    pub split : es ≡ earlier ++ presses_connect ∷ later
    pub of_link : IsOfLink (run_setup d earlier new_onboarding).connection_url x.0
    pub of_model : x.1 ≡ (run_setup d earlier new_onboarding).selected_model

  abbrev IsKept : List SetupEvent → Type 0
  IsKept es = IsConsistent (after es) × All (WasPressed es) (after es).saving
