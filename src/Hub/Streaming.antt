-- ===== src/Hub/Streaming.antt =====
-- The edges of a source's work: what an event of the source makes of the notification detector.
use pi_pilot.Base.{
  String, Bool, true, false, ◌&&◌, ◌||◌, not, Option, none, some, if◌then◌else◌, or_else, nat_key,
  string_key,
}
use pi_pilot.Base.Map
use pi_pilot.Base.Map.{Map}
use pi_pilot.Base.Json.{
  Json, null, boolean, number, text, array, object, Items, nil, cons, Fields, lookup, is_text,
  is_true, field_of, put_field,
}
use pi_pilot.Notify.Detector.{
  Detector, DetectResult, Call, Context, on_task_start, on_task_end, on_task_aborted,
  adopt_streaming_source,
}

-- The stop reason of the last message of the assistant; the outer `none` is that there is none.
abbrev pub last_stop_reason : Items → Option (Option Json)
last_stop_reason nil = none
last_stop_reason (cons x xs) =
    let rest = last_stop_reason xs in
    elim rest [
      | some reason ↦ some reason
      | none ↦
          if is_text "assistant" (field_of "role" (some x))
          then some (field_of "stopReason" (some x))
          else none
    ]

abbrev pub stop_reason : Option Json → Option Json
stop_reason (some (array xs)) = elim (last_stop_reason xs) [ none ↦ none | some r ↦ r ]
stop_reason (some (object fs)) = none
stop_reason (some null) = none
stop_reason (some (boolean b)) = none
stop_reason (some (number n)) = none
stop_reason (some (text s)) = none
stop_reason none = none

pub record EndFlags : Type 0 where
  pub will_retry : Bool
  pub aborted : Bool

-- `agentEndFlags`
unfoldable pub agent_end_flags : Fields → EndFlags
agent_end_flags e = record {
  will_retry = is_true (lookup "willRetry" e);
  aborted = is_true (lookup "aborted" e) || is_text "aborted" (stop_reason (lookup "messages" e));
}

-- `withAgentEndFlags`
unfoldable pub with_agent_end_flags : Fields → Fields
with_agent_end_flags e =
    let f = agent_end_flags e in
    let retried = if f.will_retry then put_field "willRetry" (boolean true) e else e in
    if not (is_text "agent_end" (lookup "type" e))
    then e
    else if (not f.will_retry || is_true (lookup "willRetry" e))
        && (not f.aborted || is_true (lookup "aborted" e))
    then e
    else if f.aborted
    then put_field "aborted" (boolean true) retried
    else retried

pub record Edges : Type 0 where
  pub streaming_by_source : Map String Bool
  pub last_end_aborted : Map String Bool
  pub detector : Detector

abbrev pub is_end : Fields → Bool
is_end e = is_text "agent_end" (lookup "type" e)

abbrev pub is_start : Fields → Bool
is_start e = is_text "agent_start" (lookup "type" e)

abbrev pub is_settled : Fields → Bool
is_settled e = is_text "agent_settled" (lookup "type" e)

abbrev pub flags_of : Fields → EndFlags
flags_of e = if is_end e then agent_end_flags e else record { will_retry = false; aborted = false }

-- `next`: whether the source works after the event, if the event says so.
abbrev pub streaming_after : Fields → Option Bool
streaming_after e =
    if is_start e then some true else if is_end e || is_settled e then some false else none

abbrev pub streams : String → Edges → Bool
streams k s = or_else (Map.get k s.streaming_by_source) false

abbrev pub is_abort : Fields → Bool
is_abort e = is_end e && (flags_of e).aborted

abbrev pub same_bool : Bool → Bool → Bool
same_bool true b = b
same_bool false b = not b

-- The two registers, once the value has turned.
abbrev pub turned : String → Fields → Bool → Edges → Edges
turned k e next s = record s {
  streaming_by_source = Map.set k next s.streaming_by_source;
  last_end_aborted =
      if next || not (is_abort e)
      then Map.delete k s.last_end_aborted
      else Map.set k true s.last_end_aborted;
}

-- What the detector makes of the turn.
unfoldable pub detect :
    Call → Context → String → Fields → Bool → Edges → Edges × Option DetectResult
detect c x k e next s =
    let ended = on_task_end c k x s.detector in
    if next
    then (record s { detector = (on_task_start c k s.detector).0 }, none)
    else if is_abort e
    then (record s { detector = on_task_aborted c k s.detector }, none)
    else (record s { detector = ended.0 }, ended.1)

-- `noteStreamingFromEvent`: the edges, the notification, and whether the sessions changed. The
-- context has the session of the source's snapshot.
unfoldable pub note_streaming :
    Call → Context → String → Fields → Edges → Edges × Option DetectResult × Bool
note_streaming c x k e s =
    if is_end e && (flags_of e).will_retry then (s, none, false) else elim (streaming_after e) [
      | none ↦ (s, none, false)
      | some next ↦
          let (s', result) = detect c x k e next (turned k e next s) in
          if same_bool (streams k s) next then (s, none, false) else (s', result, true)
    ]

-- `adoptStreamingFromSnapshot`
unfoldable pub adopt_streaming : Call → String → Edges → Edges
adopt_streaming c k s = record s {
  streaming_by_source = Map.set k true s.streaming_by_source;
  detector = (adopt_streaming_source c k s.detector).0;
}

-- `sourceIsStreaming`, with what the source's snapshot says.
abbrev pub source_is_streaming : String → Bool → Edges → Bool
source_is_streaming k snapshot_streams s = streams k s || snapshot_streams
