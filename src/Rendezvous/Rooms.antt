-- ===== src/Rendezvous/Rooms.antt =====
-- `onSignal`, `cleanup` and the handlers of connections of rendezvous/src/server.ts.
use pi_pilot.Base.{
  ℕ, String, Bool, true, false, ◌&&◌, not, Option, none, some, List, [], ◌∷◌, ◌++◌, ◌==◌,
  if◌then◌else◌, is_some, or_else, nat_key, string_key, length,
}
use pi_pilot.Base.Map
use pi_pilot.Base.Map.{Map}
use pi_pilot.Base.Json.{is_text, Fields, lookup, as_text}
use pi_pilot.Rendezvous.State.{
  Action, Around, Client, Rendezvous, Role, Room, closes, guest, host, peer_left, pings, put_client,
  put_room, send, close_client, signal_frame, terminates, welcome,
}
use pi_pilot.Rendezvous.Hello.{on_hello}

abbrev pub is_guest : Option Role → Bool
is_guest none = false
is_guest (some host) = false
is_guest (some guest) = true

abbrev pub is_host : Option Role → Bool
is_host none = false
is_host (some host) = true
is_host (some guest) = false

-- `onSignal`
abbrev pub to_host : Client → Fields → Rendezvous → Option ℕ → List Action
to_host c e s none = []
to_host c e s (some h) = send h (signal_frame c.peer_id (lookup "data" e)) s

abbrev pub to_guest : Fields → Rendezvous → Option ℕ → List Action
to_guest e s none = []
to_guest e s (some g) = send g (signal_frame none (lookup "data" e)) s

abbrev pub pass_on : Client → Fields → Rendezvous → Option Room → List Action
pass_on c e s none = []
pass_on c e s (some room) =
    if is_guest c.role
    then to_host c e s room.host_client
    else to_guest e s (Map.get (or_else (as_text (lookup "peerId" e)) "") room.guests)

abbrev pub signal_from : Client → Fields → Rendezvous → Option String → List Action
signal_from c e s none = []
signal_from c e s (some device) = pass_on c e s (Map.get device s.rooms)

unfoldable pub on_signal : Client → Fields → Rendezvous → List Action
on_signal c e s = if c.authed then signal_from c e s c.device_id else []

-- `cleanup`: all guests of a room go with its host.
abbrev pub dismiss : Map String ℕ → Rendezvous → Rendezvous × List Action
dismiss [] s = (s, [])
dismiss ((p, g) ∷ gs) s =
    let (t, out) = dismiss gs (close_client g s) in
    (t, send g (peer_left none) s ++ closes g 4001 "host offline" ∷ out)

abbrev pub is_client : ℕ → Option ℕ → Bool
is_client u none = false
is_client u (some v) = u == v

abbrev pub keep_room : String → Room → Rendezvous → Rendezvous
keep_room device room s =
    if not (is_some room.host_client) && length room.guests == 0
    then record s { rooms = Map.delete device s.rooms }
    else put_room device room s

abbrev pub host_leaves : ℕ → String → Room → Rendezvous → Rendezvous × List Action
host_leaves u device room s =
    let left : Room = record room {
      host_client = if is_client u room.host_client then none else room.host_client;
      guests = [];
    } in
    let (t, out) = dismiss room.guests s in (keep_room device left t, out)

abbrev pub tell_host : Option ℕ → String → Rendezvous → List Action
tell_host none peer s = []
tell_host (some h) peer s = send h (peer_left (some peer)) s

abbrev pub guest_leaves : ℕ → Option String → String → Room → Rendezvous → Rendezvous × List Action
guest_leaves u none device room s = (keep_room device room s, [])
guest_leaves u (some peer) device room s =
    if is_client u (Map.get peer room.guests)
    then (
      keep_room device (record room { guests = Map.delete peer room.guests }) s,
      tell_host room.host_client peer s,
    )
    else (keep_room device room s, [])

abbrev pub leave_room : ℕ → Client → Rendezvous → String → Option Room → Rendezvous × List Action
leave_room u c s device none = (s, [])
leave_room u c s device (some room) =
    if is_host c.role then host_leaves u device room s else guest_leaves u c.peer_id device room s

abbrev pub leave_device : ℕ → Client → Rendezvous → Option String → Rendezvous × List Action
leave_device u c s none = (s, [])
leave_device u c s (some device) = leave_room u c s device (Map.get device s.rooms)

unfoldable pub leave : ℕ → Client → Rendezvous → Rendezvous × List Action
leave u c s = if c.authed then leave_device u c s c.device_id else (s, [])

-- What can happen to the service.
pub data Input : Type 0 where
  connects : ℕ → Input
  receives : ℕ → Fields → Input
  pongs : ℕ → Input
  disconnects : ℕ → Input
  hello_times_out : ℕ → Input
  ping_timer : Input

abbrev pub fresh_client : Client
fresh_client = record {
  is_open = true;
  tracked = true;
  authed = false;
  alive = true;
  hello_timer = true;
  role = none;
  device_id = none;
  peer_id = none;
}

abbrev pub on_client :
    (Client → Rendezvous × List Action) → Rendezvous → Option Client → Rendezvous × List Action
on_client f s none = (s, [])
on_client f s (some c) = f c

-- A frame that is not one of the two kinds is passed over.
abbrev pub on_message : Around → ℕ → Client → Fields → Rendezvous → Rendezvous × List Action
on_message a u c e s =
    let waiting = record c { hello_timer = false } in
    if is_text "hello" (lookup "type" e) && not c.authed
    then on_hello a u waiting e (put_client u waiting s)
    else if is_text "signal" (lookup "type" e)
    then (s, on_signal c e s)
    else (s, [])

-- One round of the ping timer
abbrev pub pinged : Client → Client
pinged c =
    if not c.tracked
    then c
    else if c.alive
    then record c { alive = false }
    else record c { is_open = false }

abbrev pub ping_each : Map ℕ Client → Map ℕ Client × List Action
ping_each [] = ([], [])
ping_each ((u, c) ∷ m) =
    let (m', out) = ping_each m in
    (
      (u, pinged c) ∷ m',
      if not c.tracked then out else if not c.alive then terminates u ∷ out else pings u ∷ out,
    )

-- The end of a connection
abbrev pub gone : Client → Client
gone c = record c { is_open = false; tracked = false; hello_timer = false }

abbrev pub on_close : ℕ → Rendezvous → Client → Rendezvous × List Action
on_close u s c = leave u (gone c) (put_client u (gone c) s)

-- The number of a new connection is one that was not used.
abbrev pub on_connect : Around → ℕ → Rendezvous → Option Client → Rendezvous × List Action
on_connect a u s (some c) = (s, [])
on_connect a u s none =
    let t = put_client u fresh_client s in (t, send u (welcome a.config.stun_urls) t)

unfoldable pub step : Around → Input → Rendezvous → Rendezvous × List Action
step a (connects u) s = on_connect a u s (Map.get u s.clients)
step a (receives u e) s = on_client (λ c. on_message a u c e s) s (Map.get u s.clients)
step a (pongs u) s =
    on_client (λ c. (put_client u (record c { alive = true }) s, [])) s (Map.get u s.clients)
step a (disconnects u) s = on_client (on_close u s) s (Map.get u s.clients)
step a (hello_times_out u) s =
    on_client
      (λ c.
        if c.hello_timer then (close_client u s, closes u 4002 "hello timeout" ∷ []) else (s, []))
      s (Map.get u s.clients)
step a ping_timer s = let (m, out) = ping_each s.clients in (record s { clients = m }, out)
