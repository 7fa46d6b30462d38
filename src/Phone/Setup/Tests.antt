-- ===== src/Phone/Setup/Tests.antt =====
-- The set-up at concrete inputs (mobile/src/screens/OnboardingScreen.tsx,
-- mobile/src/screens/QRScannerScreen.tsx, mobile/src/services/auth/AuthService.ts).
use mobilecoding.Base.{
  ◌≡◌, ◌≤◌, refl, String, true, false, Option, none, some, List, [], ◌∷◌, includes, strip_prefix,
}
use mobilecoding.Json.{pos}
use mobilecoding.Phone.Link.{parse_connection_url, parse_web, last_token, cut, key_value, pairs_of}
use mobilecoding.Phone.Link.Adapt.{
  other_system, adapt_connection, adapt_parsed, looks_like_connection_url,
}
use mobilecoding.Phone.Setup.{Device, adapt, ServerProfile}
use mobilecoding.Phone.Setup.Profiles.{
  Keychain, saves, use_all, load_profile, matching, slot, load_profile-slot,
}
use mobilecoding.Phone.Setup.Onboarding.{SetupEvent, types, presses_preview, presses_connect}
use mobilecoding.Phone.Setup.Onboarding.Goes.{Goes}
use mobilecoding.Phone.Setup.Scanner.{new_scanner, run_scanner, on_code_scanned, connect_scanned}
use mobilecoding.Phone.Setup.Scanner.Once.{openings, opens, run_scanner-openings}

abbrev device : Device
device = record {
  decode = λ t. some t;
  number = λ t. some 8443;
  to_lower = λ t. t;
  show = λ n. "8443";
  platform = other_system;
  iso = "2026-01-01";
}

-- A keychain that keeps what is set.
abbrev box : Keychain
box = record {
  State = Option (String × ServerProfile);
  set_generic_password = λ u p s. some (u, p);
  get_generic_password = λ s. s;
  reset_generic_password = λ s. none;
  get-set = λ u p s. refl;
  get-reset = λ s. refl;
}

abbrev profile : String → ServerProfile
profile host = record {
  id = host;
  name = host;
  host = host;
  port = some (pos 8443);
  token = "t";
  last_connected_at = none;
  active = true;
}

load_profile-slot_example :
    load_profile box "a" (use_all box (saves (profile "a") ∷ saves (profile "b") ∷ []) none)
    ≡ matching "a" (slot (saves (profile "a") ∷ saves (profile "b") ∷ []) none)
load_profile-slot_example =
    load_profile-slot box (saves (profile "a") ∷ saves (profile "b") ∷ []) none "a" refl

-- A second profile takes the place of the first one.
lost_test : matching "a" (slot (saves (profile "a") ∷ saves (profile "b") ∷ []) none) ≡ none
lost_test = refl

abbrev link : String
link = "https://h:8443/?token=abc"

-- The link is edited while its profile is saved: the terminal is opened with the link of before.
abbrev edited : List SetupEvent
edited = types link ∷ presses_preview ∷ presses_connect ∷ types "https://other:8443/?token=x" ∷ []

run_scanner-openings_example :
    openings (run_scanner device ((some link, true) ∷ (some link, true) ∷ []) new_scanner) ≤ 1
run_scanner-openings_example =
    run_scanner-openings device ((some link, true) ∷ (some link, true) ∷ []) (refl, (refl, tt))

-- Two codes before the screen is rendered open the terminal twice.
twice_test :
    openings (run_scanner device ((some link, false) ∷ (some link, false) ∷ []) new_scanner) ≡ 2
unfolding run_scanner on_code_scanned connect_scanned adapt opens adapt_connection adapt_parsed
    parse_connection_url parse_web last_token cut key_value pairs_of looks_like_connection_url
    includes strip_prefix
twice_test = refl
