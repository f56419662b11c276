-- ===== src/Rendezvous/Hello.antt =====
-- `onHello` of rendezvous/src/server.ts: a desktop takes its room, a phone is let into it.
use pi_pilot.Base.{
  ℕ, String, Bool, true, Option, none, some, List, [], ◌++◌, if◌then◌else◌, is_some, or_else,
  nat_key, string_key, same,
}
use pi_pilot.Base.Map
use pi_pilot.Base.Map.{Map}
use pi_pilot.Base.Json.{is_text, Json, Fields, lookup, as_text}
use pi_pilot.Rendezvous.Policy.{validate_device_id, validate_pairing_key}
use pi_pilot.Rendezvous.State.{
  Action, Around, Client, Rendezvous, Role, Room, build_client_ice_servers, fail, guest, host,
  ok_frame, peer_joined, put_client, put_room, send,
}

abbrev pub empty_room : Room
empty_room = record { host_client = none; pairing_key_hash = none; guests = [] }

-- A client that is let in.
abbrev pub let_in : Role → String → Option String → Client → Client
let_in role device peer c = record c {
  role = some role;
  device_id = some device;
  peer_id = peer;
  authed = true;
}

abbrev pub hello_host :
    Around → ℕ → String → String → Client → Rendezvous → Rendezvous × List Action
hello_host a u device key_hash c s =
    let room = or_else (Map.get device s.rooms) empty_room in
    let entered =
      put_room device (record room { host_client = some u; pairing_key_hash = some key_hash })
        (put_client u (let_in host device c.peer_id c) s) in
    if is_some room.host_client
    then fail u "device_id_in_use" s
    else (entered, send u (ok_frame none (build_client_ice_servers a)) entered)

abbrev pub admit :
    Around
    → ℕ
    → String
    → String
    → Client
    → Rendezvous
    → Room
    → ℕ
    → String
    → Rendezvous × List Action
admit a u device key_hash c s room h expected =
    let peer = a.random_id in
    let entered =
      put_room device (record room { guests = Map.set peer u room.guests })
        (put_client u (let_in guest device (some peer) c) s) in
    if same expected key_hash
    then (
      entered,
      send u (ok_frame (some peer) (build_client_ice_servers a)) entered
          ++ send h (peer_joined peer) entered,
    )
    else fail u "bad_key" s

-- A room needs its host and the digest of its key.
abbrev pub enter :
    Around
    → ℕ
    → String
    → String
    → Client
    → Rendezvous
    → Room
    → Option ℕ
    → Option String
    → Rendezvous × List Action
enter a u device key_hash c s room none expected = fail u "host_offline" s
enter a u device key_hash c s room (some h) none = fail u "host_offline" s
enter a u device key_hash c s room (some h) (some expected) =
    admit a u device key_hash c s room h expected

abbrev pub enter_room :
    Around → ℕ → String → String → Client → Rendezvous → Option Room → Rendezvous × List Action
enter_room a u device key_hash c s none = fail u "host_offline" s
enter_room a u device key_hash c s (some room) =
    enter a u device key_hash c s room room.host_client room.pairing_key_hash

abbrev pub hello_guest :
    Around → ℕ → String → String → Client → Rendezvous → Rendezvous × List Action
hello_guest a u device key_hash c s = enter_room a u device key_hash c s (Map.get device s.rooms)

abbrev pub role_of : Option Json → Option Role
role_of v = if is_text "host" v then some host else if is_text "guest" v then some guest else none

-- A text that passes a test
abbrev pub checked : (String → Bool) → Option Json → Option String
checked p v = elim (as_text v) [ none ↦ none | some s ↦ if p s then some s else none ]

-- `onHello`, with the parts of the frame that pass.
abbrev pub greet :
    Around
    → ℕ
    → Client
    → Rendezvous
    → Option String
    → Option String
    → Option Role
    → Rendezvous × List Action
greet a u c s none secret role = fail u "bad_device_id" s
greet a u c s (some device) none role = fail u "weak_key" s
greet a u c s (some device) (some secret) none = fail u "bad_role" s
greet a u c s (some device) (some secret) (some host) = hello_host a u device (a.hash secret) c s
greet a u c s (some device) (some secret) (some guest) = hello_guest a u device (a.hash secret) c s

unfoldable pub on_hello : Around → ℕ → Client → Fields → Rendezvous → Rendezvous × List Action
on_hello a u c e s =
    greet a u c s (checked validate_device_id (lookup "deviceId" e))
      (checked validate_pairing_key (lookup "secret" e)) (role_of (lookup "role" e))
