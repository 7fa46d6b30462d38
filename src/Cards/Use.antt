-- ===== src/Cards/Use.antt =====
-- The card of a tool's call: web/src/features/terminal/cards/ToolUseCard.tsx. `lower` is
-- `toLowerCase` and `as_text` is `String` of a value; an icon stands for its picture.
pub mod Pictures
use mobilecoding.Base.{
  String, ◌||◌, Option, none, some, List, [], ◌∷◌, includes, text_take, if◌then◌else◌,
}
use mobilecoding.Json.{Json, obj, Fields, member}
use mobilecoding.Phone.Cards.{truthy_json}

pub data Icon : Type 0 where
  folder magnifier pencil arrow clipboard note wrench : Icon

-- `TOOL_ICONS`
abbrev pub tool_icons : List (String × Icon)
tool_icons =
    ("Read", folder)
    ∷ ("Grep", magnifier)
    ∷ ("Glob", magnifier)
    ∷ ("Search", magnifier)
    ∷ ("Edit", pencil)
    ∷ ("Write", pencil)
    ∷ ("Replace", pencil)
    ∷ ("Create", pencil)
    ∷ ("Bash", arrow)
    ∷ ("Run", arrow)
    ∷ ("Task", clipboard)
    ∷ ("TodoWrite", note)
    ∷ []

module _ (lower : String → String) where
  -- The loop over the entries.
  unfoldable pub icon_in : List (String × Icon) → String → Icon
  icon_in [] name = wrench
  icon_in ((k, i) ∷ es) name =
      let rest = icon_in es name in if includes (lower k) (lower name) then i else rest

  unfoldable pub tool_icon : String → Icon
  tool_icon name = icon_in tool_icons name

-- `a || b` on values that may be missing.
abbrev pub or_json : Option Json → Option Json → Option Json
or_json a b = if truthy_json a then a else b

module _ (as_text : Json → String) where
  abbrev pub shown_field : Option Json → String
  shown_field none = ""
  shown_field (some j) = as_text j

  -- The first of the fields that says what is done.
  unfoldable pub summary_of : Fields → String
  summary_of fs =
      if truthy_json (member "file_path" fs) || truthy_json (member "path" fs)
      then shown_field (or_json (member "file_path" fs) (member "path" fs))
      else if truthy_json (member "command" fs)
      then text_take 50 (shown_field (member "command" fs))
      else if truthy_json (member "pattern" fs)
      then shown_field (member "pattern" fs)
      else if truthy_json (member "description" fs)
      then text_take 40 (shown_field (member "description" fs))
      else ""

  unfoldable pub format_tool_summary : Option Json → String
  format_tool_summary (some (obj fs)) = summary_of fs
  format_tool_summary _ = ""
