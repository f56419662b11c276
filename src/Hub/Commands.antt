-- ===== src/Hub/Commands.antt =====
-- `handleSourceCommand`: what a frame of the phone for the selected source leads to.
use pi_pilot.Base.{
  negsuc, pos, ℕ, String, ◌⊎◌, inl, inr, Bool, true, false, ◌&&◌, ◌||◌, not, Option, none, some,
  List, [], ◌∷◌, if◌then◌else◌, is_some, or_else, nat_key, string_key, same,
}
use Prim.Native.String
use pi_pilot.Base.Map
use pi_pilot.Base.Map.{Map}
use pi_pilot.Base.Text.{after_prefix, is_word_end}
use pi_pilot.Base.Json.{
  is_text, field_of, Json, null, boolean, number, text, array, object, Fields, field, end, lookup,
  as_text, is_empty, whole, fraction,
}
use pi_pilot.Lease.{OwnerLease, granted, refused}
use pi_pilot.Registry.State.{headless, desktop, SourceDescriptor, Registry}
use pi_pilot.Registry.Leasing
use pi_pilot.Registry.Streams.{JsonAccess, record_local_event}
use pi_pilot.Hub.Messages.{
  translate_compact_prompt, is_one_of, is_read_only_source_command, is_desktop_mutation_command,
}

-- The phone, as far as a source command looks at it.
pub record MobileClient : Type 0 where
  pub client_id : String
  pub selected_source_id : Option String

-- What the hub finds: the clock, whether a source works, whether a frame to a source goes out, which
-- sources have a session file, and how the session of a sleeping source is opened, with the error
-- where that fails.
pub record Hub (T : Type 0) : Type 0 where
  pub now : ℕ
  pub json : JsonAccess Fields
  pub is_streaming : String → Bool
  pub sends : String → Fields → Bool
  pub has_session_file : SourceDescriptor → Bool
  pub ensure_session : SourceDescriptor → Registry Fields T → Registry Fields T × Option String

-- What is done with the frame: the phone is told something, or it goes on to another handler.
pub data Outcome : Type 0 where
  refuses : String → Outcome
  ignores : Outcome
  handles_ask : Outcome
  answers_dialog : String → Fields → Bool → Outcome
  reads_desktop : String → Fields → Outcome
  reads_file : String → Fields → Outcome
  forwards : String → Fields → Outcome

abbrev pub type_of : Fields → Option String
type_of e = as_text (lookup "type" e)

abbrev pub is_ask : Fields → Bool
is_ask e =
    is_text "ask_claim" (lookup "type" e)
    || is_text "ask_response" (lookup "type" e)
    || is_text "ask_decline" (lookup "type" e)

-- ALLOWED_SLASH_COMMANDS
abbrev pub is_word : String → String → Bool
is_word p s = elim (after_prefix p s) [ none ↦ false | some rest ↦ is_word_end rest ]

unfoldable pub is_allowed_slash : String → Bool
is_allowed_slash s = is_word "/pipilot-nav" s || is_word "/pipilot-undo" s

abbrev pub is_slash_prompt : Fields → Bool
is_slash_prompt e = is_text "prompt" (lookup "type" e) && (elim (as_text (lookup "message" e)) [
  | none ↦ false
  | some s ↦ is_some (after_prefix "/" s) && not (is_allowed_slash s)
])

-- SESSION_MUTATING_COMMANDS
abbrev pub session_mutating_commands : List String
session_mutating_commands = "switch_session" ∷ "new_session" ∷ "fork" ∷ "clone" ∷ "compact" ∷ []

-- The lease that a frame shows. A fence that is a number but no natural one is 0, which no lease has.
abbrev pub lease_id_of : Fields → Option String
lease_id_of e = as_text (field_of "leaseId" (lookup "_hub" e))

abbrev pub fence_value : Option Json → Option ℕ
fence_value (some (number (whole (pos n)))) = some n
fence_value (some (number (whole (negsuc n)))) = some 0
fence_value (some (number fraction)) = some 0
fence_value (some (text s)) = none
fence_value (some (object fs)) = none
fence_value (some (array xs)) = none
fence_value (some null) = none
fence_value (some (boolean b)) = none
fence_value none = none

abbrev pub fence_of : Fields → Option ℕ
fence_of e = fence_value (field_of "fence" (lookup "_hub" e))

-- An absent id is an empty text as well.
abbrev pub selected : MobileClient → Option String
selected c = elim c.selected_source_id [
  | none ↦ none
  | some id ↦ if is_empty id then none else some id
]

abbrev pub is_dormant : SourceDescriptor → Bool
is_dormant d = (elim d.kind [ headless ↦ true | desktop ↦ false ]) && not d.connected

abbrev pub copy_field : String → Fields → Fields → Fields
copy_field k e rest = elim (lookup k e) [ none ↦ rest | some v ↦ field k v rest ]

abbrev pub dialog_frame : String → Fields → Fields
dialog_frame id e = field "type" (text "extension_ui_response") (
    field "id" (text id)
      (copy_field "value" e (copy_field "confirmed" e (copy_field "cancelled" e end))))

abbrev pub answered_event : String → Fields
answered_event id = field "type" (text "extension_ui_answered") (field "requestId" (text id) end)

abbrev pub is_desktop : SourceDescriptor → Bool
is_desktop d = elim d.kind [ headless ↦ false | desktop ↦ true ]

module _ {T : Type 0} where
  abbrev pub descriptor_of : String → Registry Fields T → Option SourceDescriptor
  descriptor_of id g = elim (Map.get id g.records) [ none ↦ none | some r ↦ some r.descriptor ]

  -- A sleeping source is woken for a command that is not a read.
  unfoldable pub wake :
      Hub T → MobileClient → Fields → Registry Fields T → Registry Fields T × Option String
  wake h c e g = elim (type_of e) [
    | none ↦ (g, none)
    | some type ↦ if is_read_only_source_command type then (g, none) else elim (selected c) [
      | none ↦ (g, none)
      | some id ↦ elim (descriptor_of id g) [
        | none ↦ (g, none)
        | some d ↦ let woken = h.ensure_session d g in if is_dormant d then woken else (g, none)
      ]
    ]
  ]

  -- `requireSelectedSource`
  unfoldable pub require_selected_source :
      MobileClient → Registry Fields T → SourceDescriptor ⊎ String
  require_selected_source c g = elim (selected c) [
    | none ↦ inr "select a source first"
    | some id ↦ elim (descriptor_of id g) [
      | none ↦ inr "selected source is offline"
      | some d ↦ if d.connected then inl d else inr "selected source is offline"
    ]
  ]

  -- `requireLease`
  unfoldable pub require_lease :
      Hub T
      → MobileClient
      → String
      → Fields
      → Registry Fields T
      → Registry Fields T × (OwnerLease ⊎ String)
  require_lease h c id e g =
      let (g', result) = Leasing.validate id c.client_id (lease_id_of e) (fence_of e) h.now g in
      elim result [
        | none ↦ (g', inr "source not found")
        | some (refused error) ↦ (g', inr error)
        | some (granted lease stolen) ↦ (g', inl lease)
      ]

  -- The answer to an extension's dialog, of the owner.
  unfoldable pub on_dialog :
      Hub T → SourceDescriptor → Fields → Registry Fields T → Registry Fields T × Outcome
  on_dialog h d e g = elim d.kind [
    | desktop ↦ (g, refuses "desktop dialogs must be answered in the TUI")
    | headless ↦ elim (as_text (lookup "uiRequestId" e)) [
      | none ↦ (g, refuses "uiRequestId is required")
      | some id ↦
          let frame = dialog_frame id e in
          let sent = h.sends d.id frame in
          let noted = (record_local_event h.json d.id (answered_event id) g).0 in
          if is_empty id
          then (g, refuses "uiRequestId is required")
          else (if sent then noted else g, answers_dialog d.id frame sent)
    ]
  ]

  abbrev pub on_read : Hub T → SourceDescriptor → String → Fields → Outcome
  on_read h d type e = elim d.kind [
    | desktop ↦ reads_desktop d.id e
    | headless ↦
        if same type "get_entries" && h.has_session_file d
        then reads_file d.id e
        else forwards d.id e
  ]

  -- A command of the owner that changes something.
  unfoldable pub on_mutation : Hub T → SourceDescriptor → String → Fields → Outcome
  on_mutation h d type e =
      if is_one_of type session_mutating_commands && h.is_streaming d.id
      then refuses "streaming_guard: source is streaming; abort first"
      else if is_desktop d && not (is_desktop_mutation_command type)
      then refuses (String.◌++◌ type " is not supported by the desktop relay")
      else if is_desktop d && not (is_one_of type d.capabilities)
      then refuses (String.◌++◌ "desktop source does not advertise " type)
      else forwards d.id e

  unfoldable pub on_source :
      Hub T
      → MobileClient
      → SourceDescriptor
      → String
      → Fields
      → Registry Fields T
      → Registry Fields T × Outcome
  on_source h c d type e g =
      let (g', owner) = require_lease h c d.id e g in
      let dialog = on_dialog h d e g' in
      if same type "extension_ui_response"
      then elim owner [ inl lease ↦ dialog | inr error ↦ (g', refuses error) ]
      else if is_read_only_source_command type
      then (g, on_read h d type e)
      else elim owner [ inl lease ↦ (g', on_mutation h d type e) | inr error ↦ (g', refuses error) ]

  unfoldable pub on_awake :
      Hub T → MobileClient → Fields → Registry Fields T → Registry Fields T × Outcome
  on_awake h c e g = elim (require_selected_source c g) [
    | inr error ↦ (g, refuses error)
    | inl d ↦ elim (type_of e) [ none ↦ (g, ignores) | some type ↦ on_source h c d type e g ]
  ]

  -- `handleSourceCommand`
  unfoldable pub handle_source_command :
      Hub T → MobileClient → Fields → Registry Fields T → Registry Fields T × Outcome
  handle_source_command h c msg g =
      let e = or_else (translate_compact_prompt msg) msg in
      let (g', error) = wake h c e g in
      let awake = on_awake h c e g' in
      if is_ask msg
      then (g, handles_ask)
      else if is_slash_prompt e
      then (g, refuses "slash commands are not supported here; send plain text")
      else elim error [ some why ↦ (g', refuses why) | none ↦ awake ]
