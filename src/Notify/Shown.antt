-- ===== src/Notify/Shown.antt =====
-- The register of receipts stays bounded, and a receipt never goes back.
use pi_pilot.Base.{
  ℕ, suc, ◌+◌, ◌≤◌, ◌<◌, String, ◌≡◌, refl, ap, inl, inr, Option, none, some, [], ◌∷◌, arith, ltb,
  leb, Bool-cases, Option-cases, nat_key, string_key, length,
}
use pi_pilot.Base.Map
use pi_pilot.Base.Map.{
  Map, Distinct, get-set_self, get-delete_self, length-delete, length-delete-le, length-set-le,
  delete_absent,
}
use pi_pilot.Notify.Receipts.{
  ReceiptRequest, ReceiptRecord, ReceiptStore, max_receipts, key, rank, receipt_of, make_room,
  put_receipt, record_receipt, receipt,
}

abbrev pub rank_of : Option ReceiptRecord → ℕ
rank_of none = 0
rank_of (some r) = rank r.state

put_receipt-rank :
    (k : String) (r : ReceiptRecord) (s : ReceiptStore)
    → rank_of (Map.get k (put_receipt k r s).receipts) ≡ rank r.state
unfolding put_receipt
put_receipt-rank k r s = ap rank_of (get-set_self k r (Map.delete k (make_room k s.receipts)))

-- Recording a receipt never lowers the rank of what is known of that event on that installation,
-- and reaches the rank of what was reported.
pub receipt_forward :
    (now : ℕ) (q : ReceiptRequest) (s : ReceiptStore)
    → (rank_of (receipt q.installation_id q.event_id s)
        ≤ rank_of (receipt q.installation_id q.event_id (record_receipt now q s).0))
      × (rank q.state ≤ rank_of (receipt q.installation_id q.event_id (record_receipt now q s).0))
unfolding receipt record_receipt
receipt_forward now q s =
    let k = key q.installation_id q.event_id in
    let put = put_receipt-rank k (receipt_of now q) s in
    elim (Option-cases (Map.get k s.receipts)) [
      | inl n ↦ rw (n, record_receipt) (omega arith, omega arith)
      | inr (old, h) ↦ elim (Bool-cases (ltb (rank q.state) (rank old.state))) [
        | inl l ↦ rw (h, record_receipt, l, h) (omega arith, ground arith)
        | inr l ↦ rw (h, record_receipt, l) (ground arith, omega arith)
      ]
    ]

delete_first-length :
    (j : String) (r : ReceiptRecord) (m : Map String ReceiptRecord)
    → length (Map.delete j ((j, r) ∷ m)) ≤ length m
unfolding Map.delete
delete_first-length j r m = ground (arith, length-delete-le j m)

delete_found-length :
    (k : String) (v : ReceiptRecord) (m : Map String ReceiptRecord)
    → Map.get k m ≡ some v
    → length (Map.delete k m) + 1 ≤ length m
unfolding Map.get Map.delete
delete_found-length k v [] h = absurd (ground arith)
delete_found-length k v ((i, w) ∷ m) h =
    ground (arith, delete_found-length k v m, length-delete-le k m)

make_room-absent :
    (k : String) (m : Map String ReceiptRecord)
    → length m ≤ max_receipts
    → Map.get k m ≡ none
    → length (make_room k m) < max_receipts
unfolding make_room
make_room-absent k [] h n = omega arith
make_room-absent k ((j, r) ∷ m) h n = elim (Bool-cases (leb max_receipts (suc (length m)))) [
  | inl f ↦ let d = delete_first-length j r m in rw (n, f) (omega arith)
  | inr f ↦ rw f (ground arith)
]

make_room-found :
    (k : String) (v : ReceiptRecord) (m : Map String ReceiptRecord)
    → Map.get k m ≡ some v
    → make_room k m ≡ m
unfolding make_room
make_room-found k v [] h = refl
make_room-found k v ((j, r) ∷ m) h = elim (Bool-cases (leb max_receipts (suc (length m)))) [
  | inl f ↦ rw (f, h) refl
  | inr f ↦ rw f refl
]

put_receipt-length :
    (k : String) (r : ReceiptRecord) (s : ReceiptStore)
    → length s.receipts ≤ max_receipts
    → length (put_receipt k r s).receipts ≤ max_receipts
unfolding put_receipt
put_receipt-length k r s h = elim (Option-cases (Map.get k s.receipts)) [
  | inl n ↦
      let a = make_room-absent k s.receipts h n in
      let b = length-delete-le k (make_room k s.receipts) in
      let c = length-set-le k r (Map.delete k (make_room k s.receipts)) in omega arith
  | inr (v, e) ↦
      let a = make_room-found k v s.receipts e in
      let b = delete_found-length k v s.receipts e in
      let c = length-set-le k r (Map.delete k s.receipts) in rw a (omega arith)
]

-- The register never holds more than 4096 receipts: recording one keeps the bound.
pub record_receipt-length :
    (now : ℕ) (q : ReceiptRequest) (s : ReceiptStore)
    → length s.receipts ≤ max_receipts
    → length (record_receipt now q s).0.receipts ≤ max_receipts
unfolding record_receipt
record_receipt-length now q s h =
    let k = key q.installation_id q.event_id in
    let put = put_receipt-length k (receipt_of now q) s h in
    elim (Option-cases (Map.get k s.receipts)) [
      | inl n ↦ rw (n, record_receipt) put
      | inr (old, e) ↦ elim (Bool-cases (ltb (rank q.state) (rank old.state))) [
        | inl l ↦ rw (e, record_receipt, l) h
        | inr l ↦ rw (e, record_receipt, l) put
      ]
    ]
