-- ===== src/Phone/Setup/Scanner.antt =====
-- The scanner: mobile/src/screens/QRScannerScreen.tsx. The callback closes over the state of the last
-- rendering, so that state and that of the screen are told apart. `saveProfile` is not awaited: how it
-- ends changes nothing here.
pub mod Once
use mobilecoding.Base.{
  String, Bool, true, false, not, ◌||◌, Option, none, some, List, [], ◌∷◌, ◌++◌, is_empty, truthy,
  text_of, if◌then◌else◌,
}
use mobilecoding.Phone.Link.Adapt.{
  ConnectionParams, Adapted, adapted, refused, looks_like_connection_url,
}
use mobilecoding.Phone.Setup.{
  Device, adapt, terminal_params, profile_of, SetupEffect, alerts, saves_profile, opens_terminal,
}

pub record Flags : Type 0 where
  pub scanned : Bool
  pub processing : Bool

pub record Scanner : Type 0 where
  pub now : Flags
  -- what the callback sees
  pub rendered : Flags

abbrev pub no_flags : Flags
no_flags = record { scanned = false; processing = false }

abbrev pub all_flags : Flags
all_flags = record { scanned = true; processing = true }

abbrev pub new_scanner : Scanner
new_scanner = record { now = no_flags; rendered = no_flags }

abbrev pub Scanned : Type 0
Scanned = Scanner × List SetupEffect

abbrev pub render : Scanner → Scanner
render s = record s { rendered = s.now }

module _ (d : Device) where
  -- The `try` block of the callback; both flags are set before it.
  unfoldable pub connect_scanned : Adapted → Scanner → Scanned
  connect_scanned (refused msg) s = (record s { now = no_flags }, alerts "连接失败" "请重试" ∷ [])
  connect_scanned (adapted c) s =
      if is_empty c.token
      then (record s { now = no_flags }, alerts "解析失败" "二维码里没有找到 token" ∷ [])
      else (
        record s { now = all_flags },
        saves_profile (profile_of d c) ∷ opens_terminal (terminal_params none c) ∷ [],
      )

  -- `onCodeScanned`, with the value of the first code.
  unfoldable pub on_code_scanned : Option String → Scanner → Scanned
  on_code_scanned value s =
      if s.rendered.scanned || s.rendered.processing
      then (s, [])
      else if not (truthy value)
      then (s, [])
      else if not (looks_like_connection_url (text_of value))
      then (s, alerts "无效二维码" "这个二维码不是 MobileCoding 连接码" ∷ [])
      else connect_scanned (adapt d (text_of value)) s

  -- The codes that the camera finds, with whether the screen is rendered before the next.
  unfoldable pub run_scanner : List (Option String × Bool) → Scanner → List SetupEffect
  run_scanner [] s = []
  run_scanner ((value, renders) ∷ codes) s =
      let h = on_code_scanned value s in
      h.1 ++ run_scanner codes (if renders then render h.0 else h.0)
