-- ===== src/Notify/Log.antt =====
-- The event store's log: compaction, replay at the start, pruning, appending and flushing.
use pi_pilot.Base.{
  ℕ, zero, suc, ◌+◌, ◌-◌, ◌*◌, String, Bool, true, false, ◌||◌, Option, none, some, List, [], ◌∷◌,
  ◌++◌, ltb, leb, ◌==◌, if◌then◌else◌, or_else, nat_key, string_key, length, drop,
}
use pi_pilot.Base.Map
use pi_pilot.Base.Map.{Map}
use pi_pilot.Notify.Event.{NotificationEvent, is_expired}
use pi_pilot.Notify.Store.{
  in_flight, completed, cancelled, GenerationRecord, LogRecord, event_line, ack_line,
  generation_line, tombstone_line, delivery_line, Line, whole, damaged, Write, StoreOptions,
  EventStore, append_sync, is_synced, take_in, set_aside, reaches,
}

abbrev pub values {ℓ} : {K V : Type ℓ} → Map K V → List V
values [] = []
values ((k, v) ∷ m) = v ∷ values m

-- `sort` by sequence: stable.
abbrev pub insert_event : NotificationEvent → List NotificationEvent → List NotificationEvent
insert_event e [] = e ∷ []
insert_event e (f ∷ fs) =
    let rest = insert_event e fs in if leb e.sequence f.sequence then e ∷ f ∷ fs else f ∷ rest

abbrev pub sort_events : List NotificationEvent → List NotificationEvent
sort_events [] = []
sort_events (e ∷ es) = insert_event e (sort_events es)

-- `slice(-n)`, which for 0 is the whole.
abbrev pub last_of : ℕ → List NotificationEvent → List NotificationEvent
last_of n es = if n == 0 then es else drop (length es - n) es

unfoldable pub kept_events : StoreOptions → EventStore → List NotificationEvent
kept_events o s = last_of o.max_events (sort_events (values s.events))

abbrev pub lines_of {ℓ} : {A : Type ℓ} → (A → LogRecord) → List A → List Line
lines_of f [] = []
lines_of f (x ∷ xs) = whole (f x) ∷ lines_of f xs

unfoldable pub compact_lines : List NotificationEvent → EventStore → List Line
compact_lines kept s =
    lines_of event_line kept
    ++ (lines_of generation_line (values s.generations) ++ lines_of ack_line (values s.acks))

abbrev pub by_sequence : List NotificationEvent → Map ℕ NotificationEvent → Map ℕ NotificationEvent
by_sequence [] m = m
by_sequence (e ∷ es) m = by_sequence es (Map.set e.sequence e m)

abbrev pub by_id : List NotificationEvent → Map String ℕ → Map String ℕ
by_id [] m = m
by_id (e ∷ es) m = by_id es (Map.set e.event_id e.sequence m)

-- `compact`; `done` tells whether the new file took the old one's place.
unfoldable pub compact : StoreOptions → Bool → EventStore → EventStore × Bool
compact o done s =
    let kept = kept_events o s in
    if done
    then (
      record s {
        events = by_sequence kept [];
        event_id_index = by_id kept [];
        tombstones = 0;
        compactions = s.compactions + 1;
        log = record { lines = compact_lines kept s; torn = false };
      },
      true,
    )
    else (record s { write_failures = s.write_failures + 1 }, false)

-- `maybeCompact`: the file's size, the number of events or the share of tombstones is reached.
abbrev pub is_compact_due : StoreOptions → ℕ → EventStore → Bool
is_compact_due o bytes s =
    leb o.max_bytes bytes
    || leb o.max_events (length s.events)
    || (if length s.events + s.tombstones == 0
        then o.tombstone_tenths == 0
        else leb (o.tombstone_tenths * (length s.events + s.tombstones)) (s.tombstones * 10))

unfoldable pub maybe_compact : StoreOptions → ℕ → Bool → EventStore → EventStore
maybe_compact o bytes done s = if is_compact_due o bytes s then (compact o done s).0 else s

-- `appendEvent`
unfoldable pub append_event :
    StoreOptions → Write → ℕ → Bool → NotificationEvent → EventStore → EventStore × Bool
append_event o w bytes done e s =
    let s' = append_sync w (event_line e) s in
    if is_synced w
    then (maybe_compact o bytes done (take_in e s'), true)
    else (set_aside o e s', false)

-- The loop of `flushPending`, with the ends of its writes; `none` left ends them as well.
unfoldable pub flush_each : List Write → List NotificationEvent → EventStore → EventStore × ℕ
flush_each ws [] s = (record s { pending = [] }, 0)
flush_each [] (e ∷ es) s = (record s { pending = e ∷ es }, 0)
flush_each (w ∷ ws) (e ∷ es) s =
    let s' = append_sync w (event_line e) s in
    let (t, n) = flush_each ws es (take_in e s') in
    if is_synced w then (t, n + 1) else (record s' { pending = e ∷ es }, 0)

unfoldable pub flush_pending : StoreOptions → List Write → ℕ → Bool → EventStore → EventStore × ℕ
flush_pending o ws bytes done s =
    let (t, n) = flush_each ws s.pending s in
    (if ltb 0 n then maybe_compact o bytes done t else t, n)

-- `applyRecord`; a record with the right checksum is as it was written.
abbrev pub bury : ℕ → EventStore → EventStore
bury sequence s = elim (Map.get sequence s.events) [
  | none ↦ record s { tombstones = s.tombstones + 1 }
  | some e ↦ record s {
    event_id_index = Map.delete e.event_id s.event_id_index;
    events = Map.delete sequence s.events;
    tombstones = s.tombstones + 1;
  }
]

unfoldable pub apply_record : LogRecord → EventStore → EventStore
apply_record (event_line e) s = take_in e s
apply_record (ack_line a) s =
    if reaches (Map.get a.installation_id s.acks) a.through
    then s
    else record s { acks = Map.set a.installation_id a s.acks }
apply_record (generation_line g) s = record s {
  generations = Map.set g.task_generation_id g s.generations;
}
apply_record (tombstone_line sequence) s = bury sequence s
apply_record delivery_line s = s

abbrev pub apply_line : Line → EventStore → EventStore
apply_line (whole r) s = apply_record r s
apply_line damaged s = record s { corrupt_records = s.corrupt_records + 1 }

unfoldable pub replay_lines : List Line → EventStore → EventStore
replay_lines [] s = s
replay_lines (l ∷ ls) s = replay_lines ls (apply_line l s)

-- An event that is over its time to live or the retention.
abbrev pub is_past : StoreOptions → ℕ → NotificationEvent → Bool
is_past o now e =
    is_expired e now
    || (elim e.created_at [ none ↦ false | some created ↦ ltb (created + o.retention_ms) now ])

-- The loop of `pruneExpired`; `writes` has the end of each tombstone's write.
unfoldable pub prune_each :
    StoreOptions → ℕ → (ℕ → Write) → Map ℕ NotificationEvent → EventStore → EventStore × ℕ
prune_each o now writes [] s = (s, 0)
prune_each o now writes ((k, e) ∷ m) s =
    let s' = append_sync (writes k) (tombstone_line k) s in
    let (t, n) = prune_each o now writes m (record s' {
      event_id_index = Map.delete e.event_id s'.event_id_index;
      events = Map.delete k s'.events;
      tombstones = s'.tombstones + 1;
    }) in
    let skipped = prune_each o now writes m s in if is_past o now e then (t, n + 1) else skipped

unfoldable pub prune_expired :
    StoreOptions → ℕ → (ℕ → Write) → ℕ → Bool → EventStore → EventStore × ℕ
prune_expired o now writes bytes done s =
    let (t, n) = prune_each o now writes s.events s in
    (if ltb 0 n then maybe_compact o bytes done t else t, n)

-- `load` of a file that could be read.
unfoldable pub load : StoreOptions → ℕ → (ℕ → Write) → ℕ → Bool → EventStore → EventStore
load o now writes bytes done s =
    (prune_expired o now writes bytes done (replay_lines s.log.lines s)).0

-- `inFlightGenerations`
abbrev pub only_in_flight : List GenerationRecord → List GenerationRecord
only_in_flight [] = []
only_in_flight (g ∷ gs) =
    let rest = only_in_flight gs in
    elim g.state [ in_flight ↦ g ∷ rest | completed ↦ rest | cancelled ↦ rest ]

unfoldable pub in_flight_generations : EventStore → List GenerationRecord
in_flight_generations s = only_in_flight (values s.generations)

-- `oldestAvailable`
abbrev pub least_key : Map ℕ NotificationEvent → Option ℕ
least_key [] = none
least_key ((k, e) ∷ m) =
    let rest = least_key m in
    elim rest [ none ↦ some k | some j ↦ if ltb k j then some k else some j ]

unfoldable pub oldest_available : EventStore → ℕ
oldest_available s = or_else (least_key s.events) s.last_sequence

-- The loop of `range`, with the rounds that are left.
unfoldable pub range_from : ℕ → ℕ → EventStore → List NotificationEvent
range_from sequence zero s = []
range_from sequence (suc n) s =
    let rest = range_from (suc sequence) n s in
    elim (Map.get sequence s.events) [ none ↦ rest | some e ↦ e ∷ rest ]

unfoldable pub range : ℕ → ℕ → EventStore → List NotificationEvent
range from_exclusive through s = range_from (suc from_exclusive) (through - from_exclusive) s
