-- ===== src/Rendezvous/Tests.antt =====
-- The service at concrete inputs.
use pi_pilot.Base.{
  String, ◌≡◌, refl, true, false, none, some, List, [], ◌∷◌, ◌++◌, ℕ_discrete, String_discrete,
  nat_key, string_key,
}
use pi_pilot.Base.Map
use pi_pilot.Base.Json.{Fields, text, field, end, lookup}
use pi_pilot.Rendezvous.Policy.{validate_device_id, validate_pairing_key}
use pi_pilot.Rendezvous.State.{guest, Client, Around, sends, signal_frame}
use pi_pilot.Rendezvous.Rooms.{
  Input, connects, receives, disconnects, on_signal, step, leave, fresh_client,
}
use pi_pilot.Rendezvous.Hello.{on_hello}
use pi_pilot.Rendezvous.Runs.{empty_service, run}
use pi_pilot.Rendezvous.Isolation.{Reaches, signals_stay_in_room}

abbrev around : Around
around = record {
  config = record { stun_urls = []; turn = none };
  now_seconds = 7;
  random_id = "p";
  credential_id = "q";
  text_of = λ n. "7";
  hash = λ s. s;
  hmac = λ s t. t;
}

abbrev hello : String → String → Fields
hello role secret =
    field "type" (text "hello") (
      field "deviceId" (text "desk-1")
        (field "secret" (text secret) (field "role" (text role) end)))

abbrev signal : Fields
signal = field "type" (text "signal") (field "data" (text "sdp") end)

abbrev at : Input → Around × Input
at i = (around, i)

abbrev old_key : String
old_key = "Abcdefgh12345678"

abbrev new_key : String
new_key = "Zbcdefgh12345678"

abbrev two_in : List (Around × Input)
two_in =
    at (connects 1)
    ∷ at (receives 1 (hello "host" old_key))
    ∷ at (connects 2)
    ∷ at (receives 2 (hello "guest" old_key))
    ∷ []

abbrev phone : Client
phone = record fresh_client {
  authed = true;
  hello_timer = false;
  role = some guest;
  device_id = some "desk-1";
  peer_id = some "p";
}

phone_in : Map.get 2 (run two_in empty_service).clients ≡ some phone
unfolding run step on_hello validate_device_id validate_pairing_key lookup Map.get Map.set
    String_discrete ℕ_discrete
phone_in = refl

signals_stay_in_room_example :
    Reaches phone (run two_in empty_service) (on_signal phone signal (run two_in empty_service))
signals_stay_in_room_example = signals_stay_in_room two_in phone signal

-- The host goes, and another one comes with another key, before the phone's connection has ended: a
-- signal of the phone, which does not know the new key, gets to the new host.
abbrev host_again : List (Around × Input)
host_again =
    two_in ++ (at (disconnects 1) ∷ at (connects 3) ∷ at (receives 3 (hello "host" new_key)) ∷ [])

stale_guest :
    on_signal phone signal (run host_again empty_service)
    ≡ sends 3 (signal_frame (some "p") (some (text "sdp"))) ∷ []
unfolding run step on_hello on_signal leave validate_device_id validate_pairing_key lookup Map.get
    Map.set Map.delete String_discrete ℕ_discrete
stale_guest = refl
