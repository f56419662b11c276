-- ===== src/Rendezvous/Invariant.antt =====
-- Who stands in a room was let into it.
use pi_pilot.Base.{
  ℕ, String, ◌≡◌, sym, ap, ◌∙◌, subst, true, none, some, ℕ_discrete, String_discrete, nat_key,
  string_key,
}
use pi_pilot.Base.Map
use pi_pilot.Base.Map.{
  Map, get-set_self, get-set_ne, get-delete_self, get-delete_ne, get-set, get-delete,
}
use pi_pilot.Rendezvous.State.{host, guest, Client, Room, Rendezvous, put_client, put_room}

-- The client of a connection was let in as the host of a room, or as a guest under a name.
abbrev pub HostOf : String → Client → Type 0
HostOf k c = (c.authed ≡ true) × (c.role ≡ some host) × (c.device_id ≡ some k)

abbrev pub GuestOf : String → String → Client → Type 0
GuestOf k p c =
    (c.authed ≡ true) × (c.role ≡ some guest) × (c.device_id ≡ some k) × (c.peer_id ≡ some p)

abbrev pub Stands : (Client → Type 0) → ℕ → Map ℕ Client → Type 0
Stands P u m = (c : Client) × (Map.get u m ≡ some c) × P c

pub record IsRendezvous (s : Rendezvous) : Type 0 where
  pub hosts :
      (k : String) (r : Room) (u : ℕ)
      → Map.get k s.rooms ≡ some r
      → r.host_client ≡ some u
      → Stands (HostOf k) u s.clients
  pub members :
      (k p : String) (r : Room) (u : ℕ)
      → Map.get k s.rooms ≡ some r
      → Map.get p r.guests ≡ some u
      → Stands (GuestOf k p) u s.clients

-- A client that is changed where it does not matter.
pub set-Stands :
    (P : Client → Type 0) (u v : ℕ) (c c' : Client) (m : Map ℕ Client)
    → Map.get u m ≡ some c
    → (P c → P c')
    → Stands P v m
    → Stands P v (Map.set u c' m)
set-Stands P u v c c' m h f (d, k, p) = elim (ℕ_discrete u v) [
  | yes e ↦
      let same_client : d ≡ c = some_inj d c (sym k ∙ (ap (λ w. Map.get w m) (sym e) ∙ h)) in
      (
        c',
        ap (λ w. Map.get w (Map.set u c' m)) (sym e) ∙ get-set_self u c' m,
        f (subst P same_client p),
      )
  | no n ↦ (d, get-set_ne u v c' m n ∙ k, p)
]
  where
    some_inj : (a b : Client) → some a ≡ some b → a ≡ b
    some_inj a b e = cc

-- Both standings are kept by a change.
abbrev pub Keeping : Client → Client → Type 0
Keeping c c' =
    ((k : String) → HostOf k c → HostOf k c') × ((k p : String) → GuestOf k p c → GuestOf k p c')

pub put_client-IsRendezvous :
    (u : ℕ) (c c' : Client) (s : Rendezvous)
    → Map.get u s.clients ≡ some c
    → Keeping c c'
    → IsRendezvous s
    → IsRendezvous (put_client u c' s)
put_client-IsRendezvous u c c' s h f v = record {
  hosts = λ k r w a b. set-Stands (HostOf k) u w c c' s.clients h (f.0 k) (v.hosts k r w a b);
  members = λ k p r w a b.
      set-Stands (GuestOf k p) u w c c' s.clients h (f.1 k p) (v.members k p r w a b);
}

-- A room all of whose members stand may take its place.
pub put_room-IsRendezvous :
    (k : String) (r : Room) (s : Rendezvous)
    → ((u : ℕ) → r.host_client ≡ some u → Stands (HostOf k) u s.clients)
    → ((p : String) (u : ℕ) → Map.get p r.guests ≡ some u → Stands (GuestOf k p) u s.clients)
    → IsRendezvous s
    → IsRendezvous (put_room k r s)
put_room-IsRendezvous k r s hosts guests v = record {
  hosts = λ j q u a b. elim (String_discrete k j) [
    | yes e ↦
        let same_room : q ≡ r = the_room j q e a in
        subst (λ i. Stands (HostOf i) u s.clients) e
          (hosts u (ap (λ x. x.host_client) (sym same_room) ∙ b))
    | no n ↦ v.hosts j q u (sym (get-set_ne k j r s.rooms n) ∙ a) b
  ];
  members = λ j p q u a b. elim (String_discrete k j) [
    | yes e ↦
        let same_room : q ≡ r = the_room j q e a in
        subst (λ i. Stands (GuestOf i p) u s.clients) e
          (guests p u (ap (λ x. Map.get p x.guests) (sym same_room) ∙ b))
    | no n ↦ v.members j p q u (sym (get-set_ne k j r s.rooms n) ∙ a) b
  ];
}
  where
    some_inj : (a b : Room) → some a ≡ some b → a ≡ b
    some_inj a b e = cc

    the_room : (j : String) (q : Room) → k ≡ j → Map.get j (Map.set k r s.rooms) ≡ some q → q ≡ r
    the_room j q e a =
        some_inj q r
          (sym a ∙ (ap (λ i. Map.get i (Map.set k r s.rooms)) (sym e) ∙ get-set_self k r s.rooms))

pub delete_room-IsRendezvous :
    (k : String) (s : Rendezvous)
    → IsRendezvous s
    → IsRendezvous (record s { rooms = Map.delete k s.rooms })
delete_room-IsRendezvous k s v = record {
  hosts = λ j q u a b. v.hosts j q u (still j q a) b;
  members = λ j p q u a b. v.members j p q u (still j q a) b;
}
  where
    still :
        (j : String) (q : Room)
        → Map.get j (Map.delete k s.rooms) ≡ some q
        → Map.get j s.rooms ≡ some q
    still j q a = elim (String_discrete k j) [
      | yes e ↦
          let gone : Map.get j (Map.delete k s.rooms) ≡ none =
            ap (λ i. Map.get i (Map.delete k s.rooms)) (sym e) ∙ get-delete_self k s.rooms in
          absurd (cc)
      | no n ↦ sym (get-delete_ne k j s.rooms n) ∙ a
    ]
