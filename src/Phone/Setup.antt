-- ===== src/Phone/Setup.antt =====
-- How the phone is set up to a server: the profile that is kept
-- (mobile/src/types/server-profile.ts, mobile/src/services/auth/AuthService.ts), the first screen
-- (mobile/src/screens/OnboardingScreen.tsx) and the scanner (mobile/src/screens/QRScannerScreen.tsx).
pub mod Profiles
pub mod Onboarding
pub mod Scanner
mod Tests
use mobilecoding.Base.{ℕ, String, Bool, true, Option, some, concat}
use mobilecoding.Json.{ℤ, parse_int}
use mobilecoding.Phone.Link.{parse_connection_url}
use mobilecoding.Phone.Link.Adapt.{Platform, ConnectionParams, Adapted, adapt_connection}

pub record ServerProfile : Type 0 where
  pub id : String
  pub name : String
  pub host : String
  -- none for `NaN`
  pub port : Option ℤ
  pub token : String
  pub last_connected_at : Option String
  pub active : Bool

-- What the screens take from the device and from the language: `decodeURIComponent`, `Number`,
-- `toLowerCase`, `String` of a number, the platform, and the time.
pub record Device : Type 0 where
  pub decode : String → Option String
  pub number : String → Option ℕ
  pub to_lower : String → String
  pub show : Option ℕ → String
  pub platform : Platform
  pub iso : String

-- `adaptConnection` of a link.
unfoldable pub adapt : Device → String → Adapted
adapt d input =
    adapt_connection d.to_lower d.show d.platform (parse_connection_url d.decode d.number input)

-- The parameters that the terminal screen is opened with.
pub record TerminalParams : Type 0 where
  pub host : String
  pub port : String
  pub token : String
  pub path : String
  pub use_wss : Bool
  -- the first screen gives a model, the scanner none
  pub model : Option String

unfoldable pub terminal_params : Option String → ConnectionParams → TerminalParams
terminal_params model c = record {
  host = c.host;
  port = c.port;
  token = c.token;
  path = c.path;
  use_wss = c.use_wss;
  model = model;
}

-- The object that both screens hand to `saveProfile`.
unfoldable pub profile_of : Device → ConnectionParams → ServerProfile
profile_of d c = record {
  id = concat c.host (concat ":" c.port);
  name = concat c.host (concat ":" c.port);
  host = c.host;
  port = parse_int c.port;
  token = c.token;
  last_connected_at = some d.iso;
  active = true;
}

pub data SetupEffect : Type 0 where
  alerts : String → String → SetupEffect
  asks_models : String → SetupEffect
  saves_profile : ServerProfile → SetupEffect
  opens_terminal : TerminalParams → SetupEffect
  -- an error that no handler catches
  throws : String → SetupEffect
