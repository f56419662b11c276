-- ===== src/Rendezvous/Steps.antt =====
-- Every step of the service keeps its rooms right.
use pi_pilot.Base.{
  ℕ, String, ◌≡◌, refl, sym, ap, ◌∙◌, subst, inl, inr, Option-cases, Bool, true, false, ◌&&◌, not,
  Option, none, some, List, [], ◌∷◌, arith, if◌then◌else◌, is_some, or_else, String_discrete,
  nat_key, string_key, same,
}
use pi_pilot.Base.Map
use pi_pilot.Base.Map.{Map, get-set_self, get-set_ne, get-delete_self, get-delete_ne}
use pi_pilot.Base.Json.{Fields, lookup, is_text}
use pi_pilot.Rendezvous.State.{
  Role, host, guest, Client, Room, Rendezvous, Around, Action, put_client, close_client, fail,
}
use pi_pilot.Rendezvous.Hello.{
  empty_room, let_in, hello_host, on_hello, admit, enter, enter_room, greet,
}
use pi_pilot.Rendezvous.Rooms.{on_message, dismiss}
use pi_pilot.Rendezvous.Invariant.{
  HostOf, GuestOf, Stands, IsRendezvous, Keeping, put_client-IsRendezvous, put_room-IsRendezvous,
}

-- What a step leaves.
pub record Keeps (r : Rendezvous × List Action) : Type 0 where
  pub kept : IsRendezvous r.0

pub keeps : {s : Rendezvous} {out : List Action} → IsRendezvous s → Keeps (s, out)
keeps v = record { kept = v }

pub if-Keeps :
    (b : Bool) {x y : Rendezvous × List Action}
    → (b ≡ true → Keeps x)
    → (b ≡ false → Keeps y)
    → Keeps (if b then x else y)
if-Keeps true u v = u refl
if-Keeps false u v = v refl

-- A client that was not let in stands nowhere, so that it may become anything.
unknown-Keeping : (c c' : Client) → c.authed ≡ false → Keeping c c'
unknown-Keeping c c' h =
    ((λ k p. absurd (ground (arith, p.0))), (λ k q p. absurd (ground (arith, p.0))))

some_number : (a b : ℕ) → some a ≡ some b → a ≡ b
some_number a b e = cc

pub none_in : (p : String) (w : ℕ) → Map.get p [] ≡ some w → ⊥
unfolding Map.get
none_in p w h = cc

pub close_client-IsRendezvous :
    (u : ℕ) (s : Rendezvous) → IsRendezvous s → IsRendezvous (close_client u s)
close_client-IsRendezvous u s v = elim (Option-cases (Map.get u s.clients)) [
  | inl n ↦ rw (n, close_client) v
  | inr (c, h) ↦
      rw (h, close_client)
        (put_client-IsRendezvous u c (record c { is_open = false }) s h ((λ k q. q), (λ k p q. q))
          v)
]

pub dismiss-IsRendezvous :
    (gs : Map String ℕ) (s : Rendezvous) → IsRendezvous s → IsRendezvous (dismiss gs s).0
dismiss-IsRendezvous [] s v = v
dismiss-IsRendezvous ((p, g) ∷ gs) s v =
    dismiss-IsRendezvous gs (close_client g s) (close_client-IsRendezvous g s v)

close_client-rooms : (u : ℕ) (s : Rendezvous) → (close_client u s).rooms ≡ s.rooms
close_client-rooms u s = elim (Option-cases (Map.get u s.clients)) [
  | inl n ↦ rw (n, close_client) refl
  | inr (c, h) ↦ rw (h, close_client) refl
]

pub dismiss-rooms : (gs : Map String ℕ) (s : Rendezvous) → (dismiss gs s).0.rooms ≡ s.rooms
dismiss-rooms [] s = refl
dismiss-rooms ((p, g) ∷ gs) s = dismiss-rooms gs (close_client g s) ∙ close_client-rooms g s

fail-Keeps : (u : ℕ) (reason : String) (s : Rendezvous) → IsRendezvous s → Keeps (fail u reason s)
fail-Keeps u reason s v = keeps (close_client-IsRendezvous u s v)

hello_host-Keeps :
    (a : Around) (u : ℕ) (device key_hash : String) (c : Client) (s : Rendezvous)
    → Map.get u s.clients ≡ some c
    → c.authed ≡ false
    → IsRendezvous s
    → Keeps (hello_host a u device key_hash c s)
hello_host-Keeps a u device key_hash c s known new v =
    if-Keeps (is_some (or_else (Map.get device s.rooms) empty_room).host_client)
      (λ t. fail-Keeps u _ s v)
      (λ f. keeps (put_room-IsRendezvous device _ (put_client u entered s) hosts guests kept))
  where
    entered : Client
    entered = let_in host device c.peer_id c

    kept : IsRendezvous (put_client u entered s)
    kept = put_client-IsRendezvous u c entered s known (unknown-Keeping c entered new) v

    hosts : (w : ℕ) → some u ≡ some w → Stands (HostOf device) w (Map.set u entered s.clients)
    hosts w e =
        subst (λ x. Stands (HostOf device) x (Map.set u entered s.clients)) (some_number u w e)
          (entered, get-set_self u entered s.clients, (refl, refl, refl))

    guests :
        (p : String) (w : ℕ)
        → Map.get p (or_else (Map.get device s.rooms) empty_room).guests ≡ some w
        → Stands (GuestOf device p) w (Map.set u entered s.clients)
    guests p w e = of_room (Map.get device s.rooms) refl e
      where
        of_room :
            (o : Option Room)
            → Map.get device s.rooms ≡ o
            → Map.get p (or_else o empty_room).guests ≡ some w
            → Stands (GuestOf device p) w (Map.set u entered s.clients)
        of_room none q h = absurd (none_in p w h)
        of_room (some r) q h = kept.members device p r w q h

admit-Keeps :
    (a : Around) (u : ℕ) (device key_hash : String) (c : Client) (s : Rendezvous) (room : Room)
    (h : ℕ) (expected : String)
    → Map.get u s.clients ≡ some c
    → c.authed ≡ false
    → Map.get device s.rooms ≡ some room
    → IsRendezvous s
    → Keeps (admit a u device key_hash c s room h expected)
admit-Keeps a u device key_hash c s room h expected known new q v =
    if-Keeps (same expected key_hash)
      (λ t. keeps (
        put_room-IsRendezvous device _ (put_client u entered s)
          (λ w e. kept.hosts device room w q e) guests kept))
      (λ f. fail-Keeps u _ s v)
  where
    entered : Client
    entered = let_in guest device (some a.random_id) c

    kept : IsRendezvous (put_client u entered s)
    kept = put_client-IsRendezvous u c entered s known (unknown-Keeping c entered new) v

    guests :
        (p : String) (w : ℕ)
        → Map.get p (Map.set a.random_id u room.guests) ≡ some w
        → Stands (GuestOf device p) w (Map.set u entered s.clients)
    guests p w e = elim (String_discrete a.random_id p) [
      | yes y ↦
          let here : u ≡ w = some_number u w (
            sym (
              ap (λ x. Map.get x (Map.set a.random_id u room.guests)) (sym y)
              ∙ get-set_self a.random_id u room.guests)
            ∙ e) in
          subst (λ x. Stands (GuestOf device p) x (Map.set u entered s.clients)) here
            (entered, get-set_self u entered s.clients, (refl, refl, refl, ap some y))
      | no n ↦ kept.members device p room w q (sym (get-set_ne a.random_id p u room.guests n) ∙ e)
    ]

enter_room-Keeps :
    (a : Around) (u : ℕ) (device key_hash : String) (c : Client) (s : Rendezvous) (o : Option Room)
    → Map.get u s.clients ≡ some c
    → c.authed ≡ false
    → Map.get device s.rooms ≡ o
    → IsRendezvous s
    → Keeps (enter_room a u device key_hash c s o)
enter_room-Keeps a u device key_hash c s none known new q v = fail-Keeps u _ s v
enter_room-Keeps a u device key_hash c s (some room) known new q v =
    of_host room.host_client room.pairing_key_hash
  where
    of_host :
        (h : Option ℕ) (expected : Option String)
        → Keeps (enter a u device key_hash c s room h expected)
    of_host none expected = fail-Keeps u _ s v
    of_host (some h) none = fail-Keeps u _ s v
    of_host (some h) (some expected) =
        admit-Keeps a u device key_hash c s room h expected known new q v

greet-Keeps :
    (a : Around) (u : ℕ) (c : Client) (s : Rendezvous) (device secret : Option String)
    (role : Option Role)
    → Map.get u s.clients ≡ some c
    → c.authed ≡ false
    → IsRendezvous s
    → Keeps (greet a u c s device secret role)
greet-Keeps a u c s none secret role known new v = fail-Keeps u _ s v
greet-Keeps a u c s (some device) none role known new v = fail-Keeps u _ s v
greet-Keeps a u c s (some device) (some secret) none known new v = fail-Keeps u _ s v
greet-Keeps a u c s (some device) (some secret) (some host) known new v =
    hello_host-Keeps a u device (a.hash secret) c s known new v
greet-Keeps a u c s (some device) (some secret) (some guest) known new v =
    enter_room-Keeps a u device (a.hash secret) c s (Map.get device s.rooms) known new refl v

pub on_message-Keeps :
    (a : Around) (u : ℕ) (c : Client) (e : Fields) (s : Rendezvous)
    → Map.get u s.clients ≡ some c
    → IsRendezvous s
    → Keeps (on_message a u c e s)
unfolding on_hello
on_message-Keeps a u c e s known v =
    if-Keeps (is_text "hello" (lookup "type" e) && not c.authed)
      (λ t.
        let new : c.authed ≡ false = ground arith in
        greet-Keeps a u waiting (put_client u waiting s) _ _ _ (get-set_self u waiting s.clients)
          new (put_client-IsRendezvous u c waiting s known ((λ k h. h), (λ k p h. h)) v))
      (λ f. if-Keeps (is_text "signal" (lookup "type" e)) (λ t. keeps v) (λ g. keeps v))
  where
    waiting : Client
    waiting = record c { hello_timer = false }
