-- ===== src/Rendezvous/State.antt =====
-- What the service of rendezvous/src/server.ts keeps of its rooms and connections, and how it sends. A
-- connection is a number; its client is the object that the service keeps for it.
use pi_pilot.Base.{
  ℕ, ◌+◌, String, Bool, false, Option, none, some, List, [], ◌∷◌, ◌++◌, if◌then◌else◌, nat_key,
  string_key,
}
use Prim.Native.String
use pi_pilot.Base.Map
use pi_pilot.Base.Map.{Map}
use pi_pilot.Base.Json.{Json}

pub data Role : Type 0 where
  host guest : Role

pub record Client : Type 0 where
  pub is_open : Bool
  pub tracked : Bool
  pub authed : Bool
  pub alive : Bool
  pub hello_timer : Bool
  pub role : Option Role
  pub device_id : Option String
  pub peer_id : Option String

pub record Room : Type 0 where
  pub host_client : Option ℕ
  pub pairing_key_hash : Option String
  pub guests : Map String ℕ

pub record Rendezvous : Type 0 where
  pub rooms : Map String Room
  pub clients : Map ℕ Client

pub record TurnConfig : Type 0 where
  pub urls : List String
  pub secret : String
  pub ttl_seconds : ℕ

pub record RendezvousConfig : Type 0 where
  pub stun_urls : List String
  pub turn : Option TurnConfig

pub record ClientIceServer : Type 0 where
  pub urls : List String
  pub username : Option String
  pub credential : Option String

-- What a connection is sent, or done to it.
pub data Frame : Type 0 where
  welcome : List String → Frame
  error_frame : String → Frame
  ok_frame : Option String → List ClientIceServer → Frame
  peer_joined : String → Frame
  peer_left : Option String → Frame
  signal_frame : Option String → Option Json → Frame

pub data Action : Type 0 where
  sends : ℕ → Frame → Action
  closes : ℕ → ℕ → String → Action
  terminates : ℕ → Action
  pings : ℕ → Action

-- What the service finds: its configuration, the clock in seconds, the random texts it makes, how a
-- number is written, and the digests of the crypto library.
pub record Around : Type 0 where
  pub config : RendezvousConfig
  pub now_seconds : ℕ
  pub random_id : String
  pub credential_id : String
  pub text_of : ℕ → String
  pub hash : String → String
  pub hmac : String → String → String

abbrev pub turn_username : Around → TurnConfig → String
turn_username a t =
    String.◌++◌ (a.text_of (a.now_seconds + t.ttl_seconds))
      (String.◌++◌ ":pipilot:" a.credential_id)

abbrev pub stun_servers : List String → List ClientIceServer
stun_servers [] = []
stun_servers (u ∷ us) = record { urls = u ∷ us; username = none; credential = none } ∷ []

-- `buildClientIceServers`
unfoldable pub build_client_ice_servers : Around → List ClientIceServer
build_client_ice_servers a = stun_servers a.config.stun_urls ++ (elim a.config.turn [
  | none ↦ []
  | some t ↦
      record {
        urls = t.urls;
        username = some (turn_username a t);
        credential = some (a.hmac t.secret (turn_username a t));
      }
      ∷ []
])

abbrev pub put_client : ℕ → Client → Rendezvous → Rendezvous
put_client u c s = record s { clients = Map.set u c s.clients }

abbrev pub put_room : String → Room → Rendezvous → Rendezvous
put_room k r s = record s { rooms = Map.set k r s.rooms }

-- `send`: only to a connection that is open.
abbrev pub is_open_now : ℕ → Rendezvous → Bool
is_open_now u s = elim (Map.get u s.clients) [ none ↦ false | some c ↦ c.is_open ]

abbrev pub send : ℕ → Frame → Rendezvous → List Action
send u f s = if is_open_now u s then sends u f ∷ [] else []

-- `close` and `terminate` of a connection: it is not open any more, though its end comes later.
abbrev pub close_client : ℕ → Rendezvous → Rendezvous
close_client u s = elim (Map.get u s.clients) [
  | none ↦ s
  | some c ↦ put_client u (record c { is_open = false }) s
]

-- `fail`
abbrev pub fail : ℕ → String → Rendezvous → Rendezvous × List Action
fail u reason s = (close_client u s, send u (error_frame reason) s ++ closes u 4000 reason ∷ [])
