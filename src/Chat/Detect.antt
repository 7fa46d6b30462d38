-- ===== src/Chat/Detect.antt =====
-- The permission request that hides in a `tool_result`: the texts that `EVENT_RECEIVED` looks for and
-- its regular expression (web/src/core/state/ChatContext.tsx).
use Prim.Native.Char.{code}
use mobilecoding.Base.{
  ℕ, ◌≡◌, refl, String, Bool, true, ◌&&◌, ◌||◌, Option, none, some, eqb, leb, if◌then◌else◌,
  or_else, concat, has_prefix, strip_prefix, includes, is_empty,
}
use mobilecoding.Json.{Json, str, is_space}

-- `\w`
is_word : ℕ → Bool
is_word c =
    (leb b'0' c && leb c b'9')
    || (leb b'A' c && leb c b'Z')
    || (leb b'a' c && leb c b'z')
    || eqb c b'_'

-- What `.` does not match.
is_newline : ℕ → Bool
is_newline c = eqb c 10 || eqb c 13 || eqb c 0x2028 || eqb c 0x2029

-- `(?:,| but|\.|$)`
at_end : String → Bool
unfolding strip_prefix
at_end String.[] = true
at_end (String.◌∷◌ c s) =
    eqb (code c) b',' || has_prefix " but" (String.◌∷◌ c s) || eqb (code c) b'.'

-- `(.+?)` up to the first place where the rest of the pattern matches.
scan_target : String → String → Option String
unfolding at_end is_newline
scan_target acc String.[] = some acc
scan_target acc (String.◌∷◌ c s) =
    let longer = scan_target (concat acc (String.◌∷◌ c String.[])) s in
    if at_end (String.◌∷◌ c s) then some acc else if is_newline (code c) then none else longer

start_target : String → Option String
unfolding scan_target is_newline
start_target String.[] = none
start_target (String.◌∷◌ c s) =
    if is_newline (code c) then none else scan_target (String.◌∷◌ c String.[]) s

-- ` (?:to|on|in) `
after_preposition : String → Option String
unfolding strip_prefix
after_preposition s =
    or_else (strip_prefix " to " s) (or_else (strip_prefix " on " s) (strip_prefix " in " s))

target_after : String → Option String
unfolding after_preposition start_target
target_after s = elim (after_preposition s) [ none ↦ none | some rest ↦ start_target rest ]

-- What follows the tool's name: the group with a target, else no group.
match_tail : String → String → Option (String × String)
unfolding target_after at_end
match_tail name s = elim (target_after s) [
  | some target ↦ some (name, target)
  | none ↦ if at_end s then some (name, "") else none
]

-- `(\w+)`, the longest run: were it shorter, a word character would follow, where no rest matches.
match_name : String → String → Option (String × String)
unfolding match_tail is_word
match_name name String.[] = if is_empty name then none else match_tail name ""
match_name name (String.◌∷◌ c s) =
    let longer = match_name (concat name (String.◌∷◌ c String.[])) s in
    if is_word (code c)
    then longer
    else if is_empty name
    then none
    else match_tail name (String.◌∷◌ c s)

match_here : String → Option (String × String)
unfolding match_name strip_prefix
match_here s = elim (strip_prefix "permissions to " s) [
  | none ↦ none
  | some rest ↦ match_name "" rest
]

-- `rt.match(…)`: the leftmost match.
find_match : String → Option (String × String)
unfolding match_here
find_match String.[] = match_here ""
find_match (String.◌∷◌ c s) = or_else (match_here (String.◌∷◌ c s)) (find_match s)

trim_start : String → String
unfolding is_space
trim_start String.[] = ""
trim_start (String.◌∷◌ c s) = if is_space (code c) then trim_start s else String.◌∷◌ c s

trim_end : String → String
unfolding is_space
trim_end String.[] = ""
trim_end (String.◌∷◌ c s) =
    if is_space (code c) && is_empty (trim_end s) then "" else String.◌∷◌ c (trim_end s)

unfoldable pub trim : String → String
unfolding trim_start trim_end
trim s = trim_end (trim_start s)

-- `typeof ev.toolResult === 'string' ? ev.toolResult : ''`
abbrev pub result_text : Json → String
result_text (str s) = s
result_text _ = ""

-- The tool and the target of the request that a tool's result reports as not granted.
unfoldable pub denied_request : String → Option (String × String)
unfolding find_match trim includes
denied_request rt =
    if includes "requested permissions" rt && includes "haven't granted" rt
    then elim (find_match rt) [
      | none ↦ some ("Unknown", "")
      | some (name, target) ↦ some (name, trim target)
    ]
    else none

-- `请求使用 ${toolName}${target ? ' — ' + target : ''}`
unfoldable pub prompt_text : String → String → String
prompt_text name target =
    concat (concat "请求使用 " name) (if is_empty target then "" else concat " — " target)

denied_tests :
    (denied_request "Claude requested permissions to Edit in a.ts, but you haven't granted it yet."
      ≡ some ("Edit", "a"))
    × (denied_request "Claude requested permissions to use Bash, but you haven't granted it."
        ≡ some ("Unknown", ""))
    × (denied_request "done" ≡ none)
unfolding denied_request
denied_tests = (refl, refl, refl)
