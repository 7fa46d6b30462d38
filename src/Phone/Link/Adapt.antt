-- ===== src/Phone/Link/Adapt.antt =====
-- How a link is adapted to the device: mobile/src/services/network/ConnectionAdapter.ts. `to_lower` is
-- `toLowerCase`, `show` the text of a number.
use mobilecoding.Base.{
  ℕ, ◌+◌, ◌≡◌, refl, String, Bool, true, false, ◌&&◌, ◌||◌, Option, none, some, ◌==◌, concat,
  has_prefix, strip_prefix, includes, if◌then◌else◌,
}
use mobilecoding.Phone.Link.{Connection, Parsed, parsed, failed}

-- `Platform`: the model and the brand of an Android device, or another system.
pub data Platform : Type 0 where
  android : String → String → Platform
  other_system : Platform

pub record ConnectionParams : Type 0 where
  pub host : String
  pub port : String
  pub token : String
  pub path : String
  pub use_wss : Bool
  pub use_mock : Bool
  pub label : String

-- The parameters, or the message of an error.
pub data Adapted : Type 0 where
  adapted : ConnectionParams → Adapted
  refused : String → Adapted

abbrev emulator_host : String
emulator_host = "10.0.2.2"

unfoldable pub looks_like_connection_url : String → Bool
unfolding strip_prefix
looks_like_connection_url input =
    includes "token=" input
    && (has_prefix "http://" input
        || has_prefix "https://" input
        || has_prefix "mobilecoding://" input)

module _ (to_lower : String → String) (show : Option ℕ → String) where
  unfoldable pub is_android_emulator : String → String → Bool
  is_android_emulator model brand =
      let m = to_lower model in
      (includes "sdk" m || includes "emulator" m || includes "generic" m)
      || (to_lower brand == "google" && (includes "gphone" m || includes "sdk" m))

  -- `parsed.port + 2`; no number stays none.
  abbrev pub dev_port : Option ℕ → Option ℕ
  dev_port none = none
  dev_port (some n) = some (n + 2)

  abbrev pub params_at : String → String → String → Bool → String → ConnectionParams
  params_at host port token wss kind = record {
    host = host;
    port = port;
    token = token;
    path = "/api/v1/ws";
    use_wss = wss;
    use_mock = false;
    label = concat kind (concat " → " (concat host (concat ":" port)));
  }

  unfoldable pub adapt_parsed : Platform → Connection → ConnectionParams
  adapt_parsed (android model brand) c =
      if is_android_emulator model brand
      then params_at emulator_host (show (dev_port c.port)) c.token false "模拟器"
      else params_at c.host (show (dev_port c.port)) c.token false "真机 (ws)"
  adapt_parsed other_system c = params_at c.host (show c.port) c.token true "直连 (wss)"

  unfoldable pub adapt_connection : Platform → Parsed → Adapted
  adapt_connection p (parsed c) = adapted (adapt_parsed p c)
  adapt_connection p (failed msg) = refused msg

adapt_tests :
    (adapt_connection
        (λ t. t)
        (λ p. "n")
        (android "sdk_gphone64" "google")
        (parsed (record { host = "192.168.1.5"; port = some 8443; token = "t" }))
      ≡ adapted (record {
        host = "10.0.2.2";
        port = "n";
        token = "t";
        path = "/api/v1/ws";
        use_wss = false;
        use_mock = false;
        label = "模拟器 → 10.0.2.2:n";
      }))
    × (looks_like_connection_url "https://a:1/?token=t" ≡ true)
    × (looks_like_connection_url "ftp://a:1/?token=t" ≡ false)
unfolding adapt_connection adapt_parsed is_android_emulator looks_like_connection_url includes
    strip_prefix
adapt_tests = (refl, refl, refl)
