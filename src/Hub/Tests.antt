-- ===== src/Hub/Tests.antt =====
-- The hub's decisions at concrete inputs.
use pi_pilot.Base.{
  pos, ℕ, ◌+◌, ◌≤◌, String, ◌≡◌, refl, true, false, none, some, List, [], ◌∷◌, ℕ_discrete,
  String_discrete, nat_key, string_key,
}
use pi_pilot.Base.Map
use pi_pilot.Base.Map.{Map}
use pi_pilot.Base.Json.{Json, text, object, number, whole, Fields, field, end, lookup}
use pi_pilot.Lease.{OwnerLease}
use pi_pilot.Registry.State.{desktop, SourceDescriptor, Registry}
use pi_pilot.Registry.Streams.{JsonAccess}
use pi_pilot.Notify.Event.{generic}
use pi_pilot.Notify.Store.{new_store, synced, default_options}
use pi_pilot.Notify.Detector.{Call, Context}
use pi_pilot.Hub.Streaming.{Edges, streams}
use pi_pilot.Hub.Edges.{SourceEvent, completions, good_ends_in, starts_in, one, completions_paid}
use pi_pilot.Hub.Messages.{translate_compact_prompt}
use pi_pilot.Hub.Commands.{
  MobileClient, Hub, forwards, wake, handle_source_command, is_allowed_slash,
}
use pi_pilot.Lease
use pi_pilot.Registry.Leasing
use pi_pilot.Hub.Messages.{is_read_only_source_command, is_desktop_mutation_command}
use pi_pilot.Hub.Commands.{
  on_awake, on_source, on_mutation, on_dialog, require_lease, require_selected_source,
}

abbrev call : Call
call = record {
  now = 5;
  new_id = "g";
  options = default_options;
  generation_write = synced;
  event_write = synced;
  log_bytes = 10;
  compact_done = true;
}

abbrev context : Context
context = record { source_id = none; session_id = none; session_name = none }

abbrev edges : Edges
edges = record {
  streaming_by_source = [];
  last_end_aborted = [];
  detector = record {
    bridge_installation_id = "b";
    event_epoch = "e";
    privacy = generic;
    store = new_store (record { lines = []; torn = false });
    active_generation = [];
    latest_started_at = [];
    input_requests = [];
  };
}

abbrev event_of : String → SourceEvent
event_of type = record {
  call = call;
  context = context;
  source_id = "s";
  event = field "type" (text type) end;
}

abbrev work : List SourceEvent
work = event_of "agent_start" ∷ event_of "agent_end" ∷ event_of "agent_settled" ∷ []

completions_paid_example :
    (completions "s" work edges ≤ starts_in "s" work + one (streams "s" edges))
    × (completions "s" work edges ≤ good_ends_in "s" work)
completions_paid_example = completions_paid "s" work edges

slash_refused : is_allowed_slash "/pipilot-navigate x" ≡ false
unfolding is_allowed_slash
slash_refused = refl

compacted :
    translate_compact_prompt
      (field "type" (text "prompt") (field "message" (text " /compact  be brief ") end))
    ≡ some (field "type" (text "compact") (field "instructions" (text "be brief") end))
unfolding translate_compact_prompt lookup String_discrete
compacted = refl

abbrev json : JsonAccess Fields
json = record { text_length = λ e. 10; string_field = λ k e. none }

abbrev hub : Hub ℕ
hub = record {
  now = 5;
  json = json;
  is_streaming = λ s. false;
  sends = λ s e. true;
  has_session_file = λ d. false;
  ensure_session = λ d g. (g, some "no process");
}

abbrev source : SourceDescriptor
source = record {
  id = "s";
  kind = desktop;
  label = "l";
  connected = true;
  epoch = "e";
  cwd = none;
  session_id = none;
  session_file = none;
  session_name = none;
  capabilities = "abort" ∷ [];
}

abbrev lease : OwnerLease
lease = record { lease_id = "l"; client_id = "phone"; fence = 1; expires_at = 100 }

abbrev registry : Registry Fields ℕ
registry = record {
  hub_id = "hub";
  records =
      (
        "s",
        record {
          descriptor = source;
          transport = 0;
          snapshot = none;
          ring = record { events = []; sizes = []; bytes = 0 };
          last_seq = 0;
          lease = record { active = some lease; next_fence = 1 };
        },
      )
      ∷ [];
  limits = record { replay_capacity = 2; replay_byte_budget = 100 };
}

abbrev phone : MobileClient
phone = record { client_id = "phone"; selected_source_id = some "s" }

abbrev shown : Json
shown = object (field "leaseId" (text "l") (field "fence" (number (whole (pos 1))) end))

abbrev abort : Fields
abort = field "type" (text "abort") (field "_hub" shown end)

forwarded : (handle_source_command hub phone abort registry).1 ≡ forwards "s" abort
unfolding handle_source_command on_awake on_source on_mutation on_dialog require_lease
    require_selected_source wake translate_compact_prompt is_allowed_slash
    is_read_only_source_command is_desktop_mutation_command Leasing.validate Lease.validate
    Lease.expire lookup Map.get Map.set String_discrete ℕ_discrete
forwarded = refl
