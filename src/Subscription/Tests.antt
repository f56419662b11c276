-- ===== src/Subscription/Tests.antt =====
-- The subscriptions at concrete inputs.
use pi_pilot.Base.{
  ℕ, ◌≡◌, refl, ◌⊎◌, true, false, none, some, List, [], ◌∷◌, arith, ℕ_discrete, String_discrete,
  nat_key, string_key,
}
use pi_pilot.Base.Map
use pi_pilot.Base.Map.{Map}
use pi_pilot.Notify.Event.{
  NotificationEvent, EventType, task_completed, input_required, high, generic,
}
use pi_pilot.Notify.Store.{EventStore, new_store, synced}
use pi_pilot.Notify.Log.{oldest_available, range}
use pi_pilot.Subscription.State.{
  is_left_out, matches_scope, SubscribeRequest, SubscriptionState, Manager, Around,
}
use pi_pilot.Subscription.Requests.{parse_subscribe_request}
use pi_pilot.Subscription.Parsed.{IsRequest, accepted-IsRequest}
use pi_pilot.Subscription.Written.{subscribe_json, parse_subscribe-json}
use pi_pilot.Subscription.Paging.{
  batch_of, page_from, merge_skipped, covers_continuously, new_subscription, next_page,
}
use pi_pilot.Subscription.Covered.{IsKeyed, page_covers}
use pi_pilot.Subscription.CatchUp.{catch_up, wanted, catch_up_complete}
use pi_pilot.Subscription.Live.{drain_live_buffer, drained, drain_resync, AckRequest, ack}
use pi_pilot.Subscription.Waiting.{arrive, in_scope}
use pi_pilot.Subscription.Full.{FindsFull}
use pi_pilot.Subscription.Arrivals.{all_of, live_complete}
use pi_pilot.Subscription.Invariant.{Op, subscribes, arrives, drains, becomes_ready, new_manager}
use pi_pilot.Subscription.Acknowledged.{Answers, ack-Answers}

abbrev event : ℕ → EventType → NotificationEvent
event n type = record {
  bridge_installation_id = "b";
  event_epoch = "e";
  event_id = "id";
  sequence = n;
  task_generation_id = none;
  source_id = some "s";
  session_id = none;
  type = type;
  created_at = some 0;
  ttl_seconds = 60;
  priority = high;
  collapse_key = none;
  presentation = record { title = "t"; body = none; privacy = generic };
}

abbrev store : EventStore
store = record (new_store (record { lines = []; torn = false })) {
  events =
      (1, event 1 task_completed) ∷ (2, event 2 input_required) ∷ (4, event 4 task_completed) ∷ [];
  last_sequence = 4;
}

abbrev around : Around
around = record { store = store; now = 1000; is_stale_event = λ e. false; json_length = λ e. 200 }

abbrev request : SubscribeRequest
request = record {
  id = "phone";
  installation_id = "i";
  cursor = some (record { event_epoch = "e"; sequence = 0 });
  scopes = record { source_ids = none; event_types = some (task_completed ∷ []) };
  scope_version = 1;
  page_limit = some 1;
  background_elapsed_ms = none;
}

abbrev phone : SubscriptionState
phone = new_subscription around request 1

abbrev manager : Manager
manager = record (new_manager "b" "e") { subscriptions = ("phone", phone) ∷ [] }

keyed : IsKeyed store
unfolding Map.get
keyed n e h = ground arith

page_covers_example :
    covers_continuously 0
      (batch_of around phone).cursor
      (batch_of around phone).events
      (merge_skipped (batch_of around phone).skipped)
    ≡ true
page_covers_example = page_covers around phone keyed

phone_found : Map.get "phone" manager.subscriptions ≡ some phone
unfolding Map.get String_discrete
phone_found = refl

catch_up_complete_example :
    (catch_up around "phone" 5 manager).1 ≡ (wanted around phone (range 0 4 store), true)
catch_up_complete_example =
    catch_up_complete around 5 manager phone phone_found refl (omega arith) (omega arith)

live_complete_example :
    ((drain_live_buffer around "phone" (arrive around (event 5 task_completed ∷ []) manager)).1
      ≡ drained (all_of around (in_scope phone (event 5 task_completed ∷ []))))
    ⊎ (((drain_live_buffer around "phone" (arrive around (event 5 task_completed ∷ []) manager)).1
          ≡ drain_resync "phone")
        × FindsFull around phone (event 5 task_completed ∷ []))
live_complete_example =
    live_complete around (event 5 task_completed ∷ []) manager phone phone_found refl refl refl refl
      (omega arith, tt)

-- Two pages of one event each.
all_pages :
    (catch_up around "phone" 5 manager).1
    ≡ (event 1 task_completed ∷ event 4 task_completed ∷ [], true)
unfolding catch_up next_page page_from Map.get Map.set ℕ_discrete String_discrete is_left_out
    matches_scope merge_skipped oldest_available
all_pages = refl

abbrev calls : List Op
calls =
    subscribes around (record request { page_limit = some 100 })
    ∷ arrives around (event 5 task_completed)
    ∷ drains around "phone"
    ∷ becomes_ready "phone"
    ∷ []

abbrev ready_phone : SubscriptionState
ready_phone = record phone { page_limit = 100; delivered = 5; caught_up = true; ready = true }

abbrev ack_request : AckRequest
ack_request = record { installation_id = "i"; event_epoch = "e"; through = 4 }

ack-Answers_example : Answers ack_request manager store (ack 5 synced ack_request manager store)
ack-Answers_example = ack-Answers 5 synced ack_request manager store

request_sound : IsRequest request
request_sound = record {
  named = refl;
  installed = refl;
  starts = (refl, omega arith);
  versioned = omega arith;
  limited = (omega arith, omega arith);
  timed = tt;
}

parse_subscribe-json_example :
    parse_subscribe_request (some (subscribe_json request)) ≡ some request
parse_subscribe-json_example = parse_subscribe-json request request_sound

accepted-IsRequest_example : IsRequest request
accepted-IsRequest_example =
    accepted-IsRequest (some (subscribe_json request)) request
      (parse_subscribe-json request request_sound)
