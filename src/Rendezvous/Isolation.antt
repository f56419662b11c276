-- ===== src/Rendezvous/Isolation.antt =====
-- To whom the service passes a signal.
use pi_pilot.Base.{
  ℕ, String, ◌≡◌, refl, sym, ap, ◌∙◌, Bool, true, false, not, Option, none, some, List, [], ◌∷◌,
  if◌then◌else◌, or_else, nat_key, string_key,
}
use pi_pilot.Base.Map
use pi_pilot.Base.Map.{Map}
use pi_pilot.Base.Json.{Json, Fields, lookup, as_text}
use pi_pilot.Rendezvous.State.{
  Client, Room, Rendezvous, Around, Action, signal_frame, sends, closes, terminates, pings, send,
  is_open_now,
}
use pi_pilot.Rendezvous.Rooms.{to_host, to_guest, is_guest, pass_on, signal_from, on_signal, Input}
use pi_pilot.Rendezvous.Invariant.{Stands, IsRendezvous}
use pi_pilot.Rendezvous.Runs.{empty_service, run, run-IsRendezvous, empty-IsRendezvous}

-- Both were let into the room of the device `k`, on different sides.
abbrev pub IsOtherSide : Client → String → Client → Type 0
IsOtherSide c k d =
    (c.authed ≡ true)
    × (c.device_id ≡ some k)
    × (d.authed ≡ true)
    × (d.device_id ≡ some k)
    × (is_guest c.role ≡ not (is_guest d.role))

-- Each action sends a signal, and to such a client.
abbrev pub Reaches : Client → Rendezvous → List Action → Type 0
Reaches c s [] = Unit
Reaches c s (sends u (signal_frame from payload) ∷ rest) =
    ((k : String) × Stands (IsOtherSide c k) u s.clients) × Reaches c s rest
Reaches c s (sends u _ ∷ rest) = ⊥
Reaches c s (closes u code why ∷ rest) = ⊥
Reaches c s (terminates u ∷ rest) = ⊥
Reaches c s (pings u ∷ rest) = ⊥

send-Reaches :
    (c : Client) (k : String) (s : Rendezvous) (u : ℕ) (from : Option String)
    (payload : Option Json)
    → Stands (IsOtherSide c k) u s.clients
    → Reaches c s (send u (signal_frame from payload) s)
send-Reaches c k s u from payload h = by_test (is_open_now u s)
  where
    by_test : (b : Bool) → Reaches c s (if b then sends u (signal_frame from payload) ∷ [] else [])
    by_test true = ((k, h), tt)
    by_test false = tt

pass_on-Reaches :
    (c : Client) (e : Fields) (k : String) (s : Rendezvous) (o : Option Room)
    → Map.get k s.rooms ≡ o
    → c.authed ≡ true
    → c.device_id ≡ some k
    → IsRendezvous s
    → Reaches c s (pass_on c e s o)
pass_on-Reaches c e k s none q own at v = tt
pass_on-Reaches c e k s (some r) q own at v = by_role (is_guest c.role) refl
  where
    peer : String
    peer = or_else (as_text (lookup "peerId" e)) ""

    host_side :
        (o : Option ℕ) → r.host_client ≡ o → is_guest c.role ≡ true → Reaches c s (to_host c e s o)
    host_side none h g = tt
    host_side (some u) h g =
        let (d, known, let_in) = v.hosts k r u q h in
        send-Reaches c k s u c.peer_id (lookup "data" e)
          (d, known, (own, at, let_in.0, let_in.2, g ∙ sym (ap (λ x. not (is_guest x)) let_in.1)))

    guest_side :
        (o : Option ℕ)
        → Map.get peer r.guests ≡ o
        → is_guest c.role ≡ false
        → Reaches c s (to_guest e s o)
    guest_side none h g = tt
    guest_side (some u) h g =
        let (d, known, let_in) = v.members k peer r u q h in
        send-Reaches c k s u none (lookup "data" e)
          (d, known, (own, at, let_in.0, let_in.2, g ∙ sym (ap (λ x. not (is_guest x)) let_in.1)))

    by_role :
        (b : Bool)
        → is_guest c.role ≡ b
        → Reaches c s
            (if b then to_host c e s r.host_client else to_guest e s (Map.get peer r.guests))
    by_role true g = host_side r.host_client refl g
    by_role false g = guest_side (Map.get peer r.guests) refl g

-- In every state that the service comes into, whatever its connections sent before: a signal of a
-- client goes to no connection but those that were let into the room that the client itself was let
-- into, on the other side. A client that was not let into a room has its signals sent to nobody.
pub signals_stay_in_room :
    (is : List (Around × Input)) (c : Client) (e : Fields)
    → Reaches c (run is empty_service) (on_signal c e (run is empty_service))
unfolding on_signal
signals_stay_in_room is c e = by_test c.authed refl
  where
    s : Rendezvous
    s = run is empty_service

    by_device :
        (o : Option String) → c.device_id ≡ o → c.authed ≡ true → Reaches c s (signal_from c e s o)
    by_device none h own = tt
    by_device (some k) h own =
        pass_on-Reaches c e k s (Map.get k s.rooms) refl own h
          (run-IsRendezvous is empty_service empty-IsRendezvous)

    by_test :
        (b : Bool) → c.authed ≡ b → Reaches c s (if b then signal_from c e s c.device_id else [])
    by_test true own = by_device c.device_id refl own
    by_test false own = tt
