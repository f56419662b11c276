-- ===== src/Rendezvous/Runs.antt =====
-- The ends of connections, the ping timer, and runs of the service.
use pi_pilot.Base.{
  ℕ, String, ◌≡◌, refl, sym, ap, ◌∙◌, subst, if_pos, if_neg, Bool, true, false, ◌&&◌, not, Option,
  none, some, List, [], ◌∷◌, arith, ℕ_discrete, ◌==◌, if◌then◌else◌, is_some, String_discrete,
  nat_key, string_key, length,
}
use pi_pilot.Base.Map
use pi_pilot.Base.Map.{Map, get-set_self, get-set_ne, get-delete_self, get-delete_ne}
use pi_pilot.Rendezvous.State.{Client, Room, Rendezvous, Around, Action, put_client, put_room}
use pi_pilot.Rendezvous.Rooms.{
  dismiss, keep_room, host_leaves, guest_leaves, leave, leave_room, leave_device, is_client,
  is_host, Input, connects, receives, pongs, disconnects, hello_times_out, ping_timer, fresh_client,
  on_client, on_connect, on_close, gone, ping_each, pinged, step,
}
use pi_pilot.Rendezvous.Invariant.{
  HostOf, GuestOf, Stands, IsRendezvous, put_client-IsRendezvous, put_room-IsRendezvous,
  delete_room-IsRendezvous,
}
use pi_pilot.Rendezvous.Steps.{
  close_client-IsRendezvous, dismiss-IsRendezvous, dismiss-rooms, Keeps, keeps, if-Keeps, none_in,
  on_message-Keeps,
}

-- A room that lost members, or is gone.
keep_room-IsRendezvous :
    (k : String) (r r' : Room) (s : Rendezvous)
    → Map.get k s.rooms ≡ some r
    → ((u : ℕ) → r'.host_client ≡ some u → r.host_client ≡ some u)
    → ((p : String) (u : ℕ) → Map.get p r'.guests ≡ some u → Map.get p r.guests ≡ some u)
    → IsRendezvous s
    → IsRendezvous (keep_room k r' s)
keep_room-IsRendezvous k r r' s q hosts guests v =
    by_test (not (is_some r'.host_client) && length r'.guests == 0)
  where
    by_test :
        (b : Bool)
        → IsRendezvous (if b then record s { rooms = Map.delete k s.rooms } else put_room k r' s)
    by_test true = delete_room-IsRendezvous k s v
    by_test false =
        put_room-IsRendezvous k r' s (λ u e. v.hosts k r u q (hosts u e))
          (λ p u e. v.members k p r u q (guests p u e)) v

host_leaves-Keeps :
    (u : ℕ) (k : String) (r : Room) (s : Rendezvous)
    → Map.get k s.rooms ≡ some r
    → IsRendezvous s
    → Keeps (host_leaves u k r s)
host_leaves-Keeps u k r s q v =
    let t = (dismiss r.guests s).0 in
    keeps (
      keep_room-IsRendezvous k r _ t (ap (Map.get k) (dismiss-rooms r.guests s) ∙ q)
        (hosts (is_client u r.host_client)) (λ p w e. absurd (none_in p w e))
        (dismiss-IsRendezvous r.guests s v))
  where
    hosts :
        (b : Bool) (w : ℕ) → (if b then none else r.host_client) ≡ some w → r.host_client ≡ some w
    hosts true w e = absurd (cc)
    hosts false w e = e

guest_leaves-Keeps :
    (u : ℕ) (peer : Option String) (k : String) (r : Room) (s : Rendezvous)
    → Map.get k s.rooms ≡ some r
    → IsRendezvous s
    → Keeps (guest_leaves u peer k r s)
guest_leaves-Keeps u none k r s q v =
    keeps (keep_room-IsRendezvous k r r s q (λ w e. e) (λ p w e. e) v)
guest_leaves-Keeps u (some peer) k r s q v =
    if-Keeps (is_client u (Map.get peer r.guests))
      (λ t. keeps (keep_room-IsRendezvous k r _ s q (λ w e. e) fewer v))
      (λ f. keeps (keep_room-IsRendezvous k r r s q (λ w e. e) (λ p w e. e) v))
  where
    fewer :
        (p : String) (w : ℕ)
        → Map.get p (Map.delete peer r.guests) ≡ some w
        → Map.get p r.guests ≡ some w
    fewer p w e = elim (String_discrete peer p) [
      | yes y ↦
          let none_left : Map.get p (Map.delete peer r.guests) ≡ none =
            ap (λ x. Map.get x (Map.delete peer r.guests)) (sym y)
            ∙ get-delete_self peer r.guests in
          absurd (cc)
      | no n ↦ sym (get-delete_ne peer p r.guests n) ∙ e
    ]

leave_device-Keeps :
    (u : ℕ) (c : Client) (s : Rendezvous) (device : Option String)
    → IsRendezvous s
    → Keeps (leave_device u c s device)
leave_device-Keeps u c s none v = keeps v
leave_device-Keeps u c s (some k) v = of_room (Map.get k s.rooms) refl
  where
    of_room : (o : Option Room) → Map.get k s.rooms ≡ o → Keeps (leave_room u c s k o)
    of_room none q = keeps v
    of_room (some r) q =
        if-Keeps (is_host c.role) (λ t. host_leaves-Keeps u k r s q v)
          (λ f. guest_leaves-Keeps u c.peer_id k r s q v)

on_close-Keeps :
    (u : ℕ) (s : Rendezvous) (c : Client)
    → Map.get u s.clients ≡ some c
    → IsRendezvous s
    → Keeps (on_close u s c)
unfolding leave
on_close-Keeps u s c known v =
    if-Keeps c.authed
      (λ t. leave_device-Keeps u (gone c) (put_client u (gone c) s) c.device_id kept)
      (λ f. keeps kept)
  where
    kept : IsRendezvous (put_client u (gone c) s)
    kept = put_client-IsRendezvous u c (gone c) s known ((λ k h. h), (λ k p h. h)) v

-- A new connection is of nobody that stands in a room.
new-Stands :
    (P : Client → Type 0) (u v : ℕ) (c : Client) (m : Map ℕ Client)
    → Map.get u m ≡ none
    → Stands P v m
    → Stands P v (Map.set u c m)
new-Stands P u v c m h (d, k, p) = elim (ℕ_discrete u v) [
  | yes e ↦ let missing : Map.get v m ≡ none = ap (λ w. Map.get w m) (sym e) ∙ h in absurd (cc)
  | no n ↦ (d, get-set_ne u v c m n ∙ k, p)
]

on_connect-Keeps :
    (a : Around) (u : ℕ) (s : Rendezvous) (o : Option Client)
    → Map.get u s.clients ≡ o
    → IsRendezvous s
    → Keeps (on_connect a u s o)
on_connect-Keeps a u s (some c) h v = keeps v
on_connect-Keeps a u s none h v = keeps (record {
  hosts = λ k r w p q. new-Stands (HostOf k) u w fresh_client s.clients h (v.hosts k r w p q);
  members =
      λ k n r w p q. new-Stands (GuestOf k n) u w fresh_client s.clients h (v.members k n r w p q);
})

ping_of :
    (P : Client → Type 0) (c : Client)
    → ((c : Client) (alive is_open : Bool)
        → P c
        → P (record c { alive = alive; is_open = is_open }))
    → P c
    → P (pinged c)
ping_of P c f p = by_test c.tracked c.alive
  where
    by_test :
        (b d : Bool)
        → P (
            if not b
            then c
            else if d
            then record c { alive = false }
            else record c { is_open = false })
    by_test true true = f c false c.is_open p
    by_test true false = f c c.alive false p
    by_test false d = p

ping-Stands :
    (P : Client → Type 0) (v : ℕ) (m : Map ℕ Client)
    → ((c : Client) (alive is_open : Bool)
        → P c
        → P (record c { alive = alive; is_open = is_open }))
    → Stands P v m
    → Stands P v (ping_each m).0
unfolding Map.get
ping-Stands P v [] f (d, k, p) = absurd (cc)
ping-Stands P v ((u, c) ∷ m) f (d, k, p) = elim (ℕ_discrete u v) [
  | yes e ↦
      let same_client : c ≡ d = ground arith in
      (
        pinged c,
        if_pos (ℕ_discrete u v) e _ (Map.get v (ping_each m).0),
        ping_of P c f (subst P (sym same_client) p),
      )
  | no n ↦
      let found : Map.get v m ≡ some d = ground arith in
      let (x, q, r) = ping-Stands P v m f (d, found, p) in
      (x, if_neg (ℕ_discrete u v) n (some (pinged c)) _ ∙ q, r)
]

on_client-Keeps :
    (f : Client → Rendezvous × List Action) (s : Rendezvous) (o : Option Client)
    → ((c : Client) → o ≡ some c → Keeps (f c))
    → IsRendezvous s
    → Keeps (on_client f s o)
on_client-Keeps f s none h v = keeps v
on_client-Keeps f s (some c) h v = h c refl

pub step-Keeps : (a : Around) (i : Input) (s : Rendezvous) → IsRendezvous s → Keeps (step a i s)
unfolding step
step-Keeps a (connects u) s v = on_connect-Keeps a u s (Map.get u s.clients) refl v
step-Keeps a (receives u e) s v =
    on_client-Keeps _ s (Map.get u s.clients) (λ c h. on_message-Keeps a u c e s h v) v
step-Keeps a (pongs u) s v =
    on_client-Keeps _ s (Map.get u s.clients)
      (λ c h.
        keeps (
          put_client-IsRendezvous u c (record c { alive = true }) s h ((λ k q. q), (λ k p q. q)) v))
      v
step-Keeps a (disconnects u) s v =
    on_client-Keeps (on_close u s) s (Map.get u s.clients) (λ c h. on_close-Keeps u s c h v) v
step-Keeps a (hello_times_out u) s v =
    on_client-Keeps _ s (Map.get u s.clients)
      (λ c h. if-Keeps c.hello_timer (λ t. keeps (close_client-IsRendezvous u s v)) (λ f. keeps v))
      v
step-Keeps a ping_timer s v = keeps (record {
  hosts = λ k r w p q. ping-Stands (HostOf k) w s.clients (λ c d b h. h) (v.hosts k r w p q);
  members =
      λ k n r w p q. ping-Stands (GuestOf k n) w s.clients (λ c d b h. h) (v.members k n r w p q);
})

abbrev pub empty_service : Rendezvous
empty_service = record { rooms = []; clients = [] }

pub empty-IsRendezvous : IsRendezvous empty_service
unfolding Map.get
empty-IsRendezvous = record {
  hosts = λ k r u p q. absurd (cc);
  members = λ k n r u p q. absurd (cc);
}

-- The states that the service is in, after inputs one after the other.
unfoldable pub run : List (Around × Input) → Rendezvous → Rendezvous
run [] s = s
run ((a, i) ∷ is) s = run is (step a i s).0

pub run-IsRendezvous :
    (is : List (Around × Input)) (s : Rendezvous) → IsRendezvous s → IsRendezvous (run is s)
unfolding run
run-IsRendezvous [] s v = v
run-IsRendezvous ((a, i) ∷ is) s v = run-IsRendezvous is (step a i s).0 (step-Keeps a i s v).kept
