-- ===== src/Hub/Messages.antt =====
-- bridge/src/hub_protocol.ts: the messages of the phone, how some are turned into others, and which
-- commands only read.
use pi_pilot.Base.{
  negsuc, pos, ℤ, ℕ, max, min, String, Bool, false, ◌||◌, not, Option, none, some, List, [], ◌∷◌,
  if◌then◌else◌, or_else, nat_key, string_key, same,
}
use Prim.Native.String
use pi_pilot.Base.Text.{after_prefix, is_space, trim}
use pi_pilot.Base.Json.{
  is_text, put_field, Json, text, Fields, field, end, lookup, as_record, as_text, as_count,
  is_empty, ◌>>=◌, ◌>>◌, guard,
}
use pi_pilot.Registry.State.{HubCursor}

abbrev pub remove_field : String → Fields → Fields
remove_field k end = end
remove_field k (field j v fs) =
    let rest = remove_field k fs in if same j k then rest else field j v rest

-- COMPACT_PROMPT on a trimmed text: the outer `none` is no match.
abbrev pub compact_rest : String → Option String
compact_rest String.[] = some String.[]
compact_rest (String.◌∷◌ c s) = if is_space c then some (trim s) else none

abbrev pub compact_prompt : String → Option String
compact_prompt s = do let rest = (← after_prefix "/compact" s); compact_rest rest

abbrev pub with_instructions : String → Fields → Fields
with_instructions s e = if is_empty s then e else put_field "instructions" (text s) e

-- `translateCompactPrompt`
unfoldable pub translate_compact_prompt : Fields → Option Fields
translate_compact_prompt e = do
  guard (is_text "prompt" (lookup "type" e))
  let message = (← as_text (lookup "message" e))
  let instructions = (← compact_prompt (trim message))
  some (
      with_instructions instructions (
        remove_field "instructions" (
          remove_field "streamingBehavior"
            (remove_field "message" (put_field "type" (text "compact") e)))))

abbrev pub prompt : String → Fields
prompt message = field "type" (text "prompt") (field "message" (text message) end)

-- `translateHeadlessCommand`
unfoldable pub translate_headless_command : Fields → Fields
translate_headless_command e =
    let entry = or_else (as_text (lookup "entryId" e)) "" in
    if is_text "abort" (lookup "type" e)
    then prompt "/pipilot-abort"
    else if not (is_text "navigate_tree" (lookup "type" e))
    then e
    else if is_empty entry
    then prompt "/pipilot-undo"
    else prompt (String.◌++◌ "/pipilot-nav " entry)

abbrev pub is_one_of : String → List String → Bool
is_one_of s [] = false
is_one_of s (t ∷ ts) = same t s || is_one_of s ts

-- READ_ONLY_SOURCE_COMMANDS
abbrev pub read_only_source_commands : List String
read_only_source_commands =
    "get_state" ∷ "get_entries" ∷ "get_available_models" ∷ "get_available_thinking_levels"
    ∷ "get_session_stats" ∷ "get_tree" ∷ "get_commands" ∷ "get_fork_messages"
    ∷ "get_last_assistant_text" ∷ []

-- DESKTOP_MUTATION_COMMANDS
abbrev pub desktop_mutation_commands : List String
desktop_mutation_commands =
    "prompt" ∷ "abort" ∷ "set_model" ∷ "set_thinking_level" ∷ "set_session_name" ∷ "compact"
    ∷ "navigate_tree" ∷ []

unfoldable pub is_read_only_source_command : String → Bool
is_read_only_source_command type = is_one_of type read_only_source_commands

unfoldable pub is_desktop_mutation_command : String → Bool
is_desktop_mutation_command type = is_one_of type desktop_mutation_commands

-- `withoutHubMetadata`
abbrev pub without_hub_metadata : Fields → Fields
without_hub_metadata e = remove_field "_hub" e

-- `parseCursor`
unfoldable pub parse_cursor : Option Json → Option HubCursor
parse_cursor v = do
  let e = (← as_record v)
  let hub = (← as_text (lookup "hubId" e))
  let source = (← as_text (lookup "sourceId" e))
  let epoch = (← as_text (lookup "sourceEpoch" e))
  let seq = (← as_count (lookup "seq" e))
  some (record { hub_id = hub; source_id = source; source_epoch = epoch; seq = seq })

-- `clampLeaseTtl` of a time in milliseconds, rounded down; `none` is no finite number, and a number
-- below 0 is below every minimum.
unfoldable pub clamp_lease_ttl : Option ℤ → ℕ → ℕ → ℕ
clamp_lease_ttl none min_ms max_ms = max_ms
clamp_lease_ttl (some (pos n)) min_ms max_ms = max min_ms (min max_ms n)
clamp_lease_ttl (some (negsuc n)) min_ms max_ms = min_ms
