-- ===== src/Hub/Ask.antt =====
-- The questions of desktop sources, which the phone may answer in the computer's place.
use pi_pilot.Base.{
  String, Bool, true, false, ◌||◌, not, Option, none, some, List, [], ◌∷◌, ◌++◌, if◌then◌else◌,
  or_else, nat_key, string_key, same,
}
use pi_pilot.Base.Map
use pi_pilot.Base.Map.{Map}
use pi_pilot.Base.Json.{
  is_text, Json, null, boolean, number, text, array, object, Items, nil, cons, Fields, lookup,
  as_text, is_empty,
}
use pi_pilot.Hub.Commands.{selected}
use pi_pilot.Hub.Commands.{MobileClient}

pub record InFlightAsk : Type 0 where
  pub request_id : String
  pub tool_call_id : String
  pub epoch : String
  pub questions : Items
  pub claimed : Bool

-- What is sent while a frame is handled.
pub data AskFrame : Type 0 where
  ask_claimed : String → AskFrame
  ask_declined : String → AskFrame
  ask_result : String → String → Items → AskFrame
  ask_retracted : String → AskFrame
  ask_request : String → String → Items → AskFrame
  answers : Bool → String → AskFrame

-- A frame goes to the desktop of a source, to all phones that watch the source, or to the caller.
pub data Send : Type 0 where
  to_desktop : String → AskFrame → Send
  to_watchers : String → AskFrame → Send
  to_caller : AskFrame → Send

abbrev pub Asks : Type 0
Asks = Map String InFlightAsk

-- `clearAskForSource` and `retractAsk`
unfoldable pub clear_ask : String → Bool → Asks → Asks × List Send
clear_ask source_id retract m = elim (Map.get source_id m) [
  | none ↦ (m, [])
  | some ask ↦ (
    Map.delete source_id m,
    if retract then to_watchers source_id (ask_retracted ask.request_id) ∷ [] else [],
  )
]

-- `republishAsk`
abbrev pub republish_ask : String → Asks → List Send
republish_ask source_id m = elim (Map.get source_id m) [
  | none ↦ []
  | some ask ↦
      to_watchers source_id (ask_request ask.request_id ask.tool_call_id ask.questions) ∷ []
]

abbrev pub over : String
over = "这份问卷已经结束或已由电脑接手"

abbrev pub refused : String → List Send
refused why = to_caller (answers false why) ∷ []

abbrev pub accepted : List Send
accepted = to_caller (answers true "") ∷ []

-- The objects of an array
abbrev pub is_object : Json → Bool
is_object (object fs) = true
is_object (array xs) = true
is_object null = false
is_object (boolean b) = false
is_object (number n) = false
is_object (text s) = false

abbrev pub only_objects : Items → Items
only_objects nil = nil
only_objects (cons x xs) = let rest = only_objects xs in if is_object x then cons x rest else rest

abbrev pub objects_of : Option Json → Items
objects_of (some (array xs)) = only_objects xs
objects_of (some (object fs)) = nil
objects_of (some null) = nil
objects_of (some (boolean b)) = nil
objects_of (some (number n)) = nil
objects_of (some (text s)) = nil
objects_of none = nil

abbrev pub is_nil : Items → Bool
is_nil nil = true
is_nil (cons x xs) = false

abbrev pub claim_ask : String → InFlightAsk → Asks → Asks × List Send
claim_ask source_id ask m = if ask.claimed then (m, accepted) else (
  Map.set source_id (record ask { claimed = true }) m,
  to_desktop source_id (ask_claimed ask.request_id) ∷ accepted,
)

abbrev pub then_answer : List Send → Asks × List Send → List Send → Asks × List Send
then_answer before (m, out) last = (m, before ++ (out ++ last))

abbrev pub unavailable : String
unavailable = "桌面端连接不可用"

abbrev pub decline_ask : Bool → String → InFlightAsk → Asks → Asks × List Send
decline_ask sent source_id ask m =
    then_answer (to_desktop source_id (ask_declined ask.request_id) ∷ [])
      (clear_ask source_id true m) (if sent then accepted else refused unavailable)

abbrev pub answer_ask : Bool → String → Items → InFlightAsk → Asks → Asks × List Send
answer_ask sent source_id given ask m =
    let result = to_desktop source_id (ask_result ask.request_id ask.epoch given) in
    if is_nil given
    then (m, refused "answers is required")
    else if not sent
    then (m, result ∷ refused unavailable)
    else then_answer (result ∷ []) (clear_ask source_id true m) accepted

-- `handleAskFrame`: `connected` tells whether the source's desktop is there, `sent` whether a frame to
-- it goes out.
unfoldable pub handle_ask_frame :
    (String → Bool) → Bool → MobileClient → Fields → Asks → Asks × List Send
handle_ask_frame connected sent c e m =
    let request_id = or_else (as_text (lookup "requestId" e)) "" in
    elim (selected c) [
      | none ↦ (m, refused "select a source first")
      | some source_id ↦ elim (Map.get source_id m) [
        | none ↦ (m, refused over)
        | some ask ↦
            if is_empty request_id || not (same ask.request_id request_id)
            then (m, refused over)
            else if not (connected source_id)
            then then_answer [] (clear_ask source_id true m) (refused "桌面端已断开")
            else if is_text "ask_claim" (lookup "type" e)
            then claim_ask source_id ask m
            else if is_text "ask_decline" (lookup "type" e)
            then decline_ask sent source_id ask m
            else answer_ask sent source_id (objects_of (lookup "answers" e)) ask m
      ]
    ]

-- `sendAskFrame` reaches the phones that have the source selected.
abbrev pub watchers_of : String → List MobileClient → List MobileClient
watchers_of source_id [] = []
watchers_of source_id (c ∷ cs) =
    let rest = watchers_of source_id cs in
    elim c.selected_source_id [ none ↦ rest | some s ↦ if same s source_id then c ∷ rest else rest ]
