-- ===== src/Chat/Agent.antt =====
-- What an event says of the agent and of the context window: `agentStateFromEvent` and
-- `extractContextTokens` (web/src/core/state/ChatContext.tsx).
use Prim.Native.Char.{code}
use mobilecoding.Base.{
  ℕ, ◌+◌, ◌≡◌, refl, String, Bool, true, false, ◌&&◌, ◌||◌, Option, none, some, eqb, leb,
  if◌then◌else◌, or_else,
}
use mobilecoding.Json.{ℤ, pos, Json, num, str, obj, Fields, member, parse_int}
use mobilecoding.Event.{
  Payload, thinking_start, thinking_end, tool_start, tool_end, bash_start, bash_end,
}
use mobilecoding.Chat.State.{
  AgentStatus, idle, thinking, reading_files, editing_files, running_command, AgentStateInfo,
  ContextUsage,
}

-- Case folding of a regular expression with the flag `i`, on the letters that the patterns use.
fold_case : ℕ → ℕ
fold_case c = if leb b'A' c && leb c b'Z' then c + 32 else c

unfoldable pub starts_folded : String → String → Bool
unfolding fold_case
starts_folded String.[] s = true
starts_folded (String.◌∷◌ p ps) String.[] = false
starts_folded (String.◌∷◌ p ps) (String.◌∷◌ c s) =
    eqb (code p) (fold_case (code c)) && starts_folded ps s

-- `/word/i.test(s)`, for a word in lower case.
unfoldable pub mentions : String → String → Bool
unfolding starts_folded
mentions word String.[] = starts_folded word String.[]
mentions word (String.◌∷◌ c s) = starts_folded word (String.◌∷◌ c s) || mentions word s

-- `/read|grep|glob|search|find|cat/i`
unfoldable pub is_reader : String → Bool
unfolding mentions
is_reader name =
    mentions "read" name
    || mentions "grep" name
    || mentions "glob" name
    || mentions "search" name
    || mentions "find" name
    || mentions "cat" name

-- `/edit|write|replace|patch|create/i`
unfoldable pub is_editor : String → Bool
unfolding mentions
is_editor name =
    mentions "edit" name
    || mentions "write" name
    || mentions "replace" name
    || mentions "patch" name
    || mentions "create" name

unfoldable pub tool_status : String → AgentStatus
tool_status name =
    if is_reader name
    then reading_files
    else if is_editor name
    then editing_files
    else running_command

-- A `Partial<AgentStateInfo>`: a tool's name may be missing.
unfoldable pub agent_state_from_event : ℕ → Payload → Option AgentStateInfo
agent_state_from_event now thinking_start =
    some (record { status = thinking; tool_name = none; since = now })
agent_state_from_event now (tool_start id name input) =
    some (record { status = tool_status name; tool_name = some name; since = now })
agent_state_from_event now (bash_start id name input) =
    some (record { status = running_command; tool_name = some "Bash"; since = now })
agent_state_from_event now thinking_end =
    some (record { status = idle; tool_name = none; since = now })
agent_state_from_event now (tool_end id name) =
    some (record { status = idle; tool_name = none; since = now })
agent_state_from_event now (bash_end id name) =
    some (record { status = idle; tool_name = none; since = now })
agent_state_from_event now _ = none

-- `{ ...state.agentState, ...as }`
abbrev pub patch_agent : AgentStateInfo → Option AgentStateInfo → AgentStateInfo
patch_agent old none = old
patch_agent old (some new) = record new { tool_name = or_else new.tool_name old.tool_name }

-- `pick`
unfoldable pub pick : Option Json → ℤ
pick none = pos 0
pick (some (num n)) = n
pick (some (str s)) = elim (parse_int s) [ none ↦ pos 0 | some n ↦ n ]
pick (some _) = pos 0

-- `obj.a ?? obj.b ?? obj.c`
abbrev first_member : String → String → String → Fields → Option Json
first_member a b c fs = or_else (member a fs) (or_else (member b fs) (member c fs))

unfoldable pub extract_context_tokens : Json → ContextUsage
unfolding pick member
extract_context_tokens (obj fs) = record {
  used = pick (first_member "usedTokens" "used" "tokens" fs);
  max = pick (first_member "maxTokens" "max" "contextWindow" fs);
}
extract_context_tokens _ = record { used = pos 0; max = pos 0 }

tool_status_tests :
    (tool_status "NotebookRead" ≡ reading_files)
    × (tool_status "MultiEdit" ≡ editing_files)
    × (tool_status "Bash" ≡ running_command)
unfolding tool_status is_reader is_editor
tool_status_tests = (refl, refl, refl)
