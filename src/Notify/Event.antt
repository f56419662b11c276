-- ===== src/Notify/Event.antt =====
-- Notification events: how they are made, and how long they last.
use pi_pilot.Base.{
  ℕ, ◌+◌, ◌-◌, ◌*◌, ◌/◌, String, Bool, false, Option, none, some, ltb, leb, if◌then◌else◌, or_else,
  nat_key, string_key,
}
use Prim.Native.Char.{Char, code}

pub data EventType : Type 0 where
  task_completed input_required input_resolved : EventType

pub data Priority : Type 0 where
  high normal : Priority

pub data Privacy : Type 0 where
  generic session_name : Privacy

pub record Presentation : Type 0 where
  pub title : String
  pub body : Option String
  pub privacy : Privacy

-- A time is the number that `Date.parse` gives of its text, `none` if that is not one.
pub record NotificationEvent : Type 0 where
  pub bridge_installation_id : String
  pub event_epoch : String
  pub event_id : String
  pub sequence : ℕ
  pub task_generation_id : Option String
  pub source_id : Option String
  pub session_id : Option String
  pub type : EventType
  pub created_at : Option ℕ
  pub ttl_seconds : ℕ
  pub priority : Priority
  pub collapse_key : Option String
  pub presentation : Presentation

-- DEFAULT_TTL_SECONDS
abbrev pub default_ttl_seconds : EventType → ℕ
default_ttl_seconds task_completed = 24 * 60 * 60
default_ttl_seconds input_required = 60 * 60
default_ttl_seconds input_resolved = 60 * 60

abbrev pub max_title_chars : ℕ
max_title_chars = 200

abbrev pub max_body_chars : ℕ
max_body_chars = 500

-- The UTF-16 units of a character.
abbrev pub units : Char → ℕ
units c = if ltb 65535 (code c) then 2 else 1

-- `slice(0, limit)` on UTF-16 units, where it cuts no character in two.
unfoldable pub cut : ℕ → String → String
cut limit String.[] = String.[]
cut limit (String.◌∷◌ c s) =
    let rest = cut (limit - units c) s in
    if leb (units c) limit then String.◌∷◌ c rest else String.[]

-- What the detector passes; an absent id or time is made by the caller of `create_event`.
pub record EventInput : Type 0 where
  pub bridge_installation_id : String
  pub event_epoch : String
  pub sequence : ℕ
  pub type : EventType
  pub task_generation_id : Option String
  pub source_id : Option String
  pub session_id : Option String
  pub priority : Option Priority
  pub collapse_key : Option String
  pub presentation : Presentation
  pub ttl_seconds : Option ℕ
  pub event_id : Option String
  pub created_at : Option ℕ

abbrev pub default_priority : EventType → Priority
default_priority task_completed = high
default_priority input_required = high
default_priority input_resolved = normal

-- An empty body is left out.
abbrev pub kept_body : Option String → Option String
kept_body none = none
kept_body (some String.[]) = none
kept_body (some (String.◌∷◌ c s)) = some (String.◌∷◌ c s)

-- `createNotificationEvent`; `new_id` and `now` serve where the input has none.
unfoldable pub create_event : String → ℕ → EventInput → NotificationEvent
create_event new_id now i = record {
  bridge_installation_id = i.bridge_installation_id;
  event_epoch = i.event_epoch;
  event_id = or_else i.event_id new_id;
  sequence = i.sequence;
  task_generation_id = i.task_generation_id;
  source_id = i.source_id;
  session_id = i.session_id;
  type = i.type;
  created_at = some (or_else i.created_at now);
  ttl_seconds = or_else i.ttl_seconds (default_ttl_seconds i.type);
  priority = or_else i.priority (default_priority i.type);
  collapse_key = i.collapse_key;
  presentation = record {
    title = cut max_title_chars i.presentation.title;
    body =
        kept_body (elim i.presentation.body [ none ↦ none | some b ↦ some (cut max_body_chars b) ]);
    privacy = i.presentation.privacy;
  };
}

-- `isExpired`; a difference below 0 is not over the time to live.
unfoldable pub is_expired : NotificationEvent → ℕ → Bool
is_expired e now = elim e.created_at [
  | none ↦ false
  | some created ↦ ltb (created + e.ttl_seconds * 1000) now
]

-- `remainingTtlSeconds`: half a second is rounded up.
unfoldable pub remaining_ttl_seconds : NotificationEvent → ℕ → ℕ
remaining_ttl_seconds e now = elim e.created_at [
  | none ↦ e.ttl_seconds
  | some created ↦ (e.ttl_seconds * 1000 + created + 500 - now) / 1000
]
