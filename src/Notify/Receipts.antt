-- ===== src/Notify/Receipts.antt =====
-- `NotificationReceiptStore`: what each installation reported of each event. The clock is an
-- argument.
use pi_pilot.Base.{
  ℕ, ◌+◌, String, Bool, true, false, ◌&&◌, not, Option, none, some, [], ◌∷◌, ltb, leb,
  if◌then◌else◌, is_some, or_else, nat_key, string_key, same, length,
}
use pi_pilot.Base.Map
use pi_pilot.Base.Map.{Map}
use Prim.Native.String

pub data ReceiptState : Type 0 where
  received display_requested display_confirmed suppressed_duplicate blocked_permission
        blocked_channel :
      ReceiptState

pub record ReceiptRequest : Type 0 where
  pub installation_id : String
  pub event_id : String
  pub state : ReceiptState
  pub at : String

pub record ReceiptRecord : Type 0 where
  pub installation_id : String
  pub event_id : String
  pub state : ReceiptState
  pub at : String
  pub recorded_at : ℕ

-- MAX_RECEIPTS
abbrev pub max_receipts : ℕ
max_receipts = 4096

abbrev pub state_index : ReceiptState → ℕ
state_index received = 0
state_index display_requested = 1
state_index display_confirmed = 2
state_index suppressed_duplicate = 3
state_index blocked_permission = 4
state_index blocked_channel = 5

-- The counts are by the state's index.
pub record ReceiptStore : Type 0 where
  pub receipts : Map String ReceiptRecord
  pub counts : Map ℕ ℕ

abbrev pub new_receipts : ReceiptStore
new_receipts = record { receipts = []; counts = [] }

-- `key`; the separator is U+0000.
unfoldable pub key : String → String → String
key installation_id event_id =
    String.◌++◌ installation_id (String.◌∷◌ Prim.Native.Char.nul event_id)

abbrev pub rank : ReceiptState → ℕ
rank received = 1
rank display_requested = 2
rank display_confirmed = 4
rank suppressed_duplicate = 3
rank blocked_permission = 4
rank blocked_channel = 4

abbrev pub receipt_of : ℕ → ReceiptRequest → ReceiptRecord
receipt_of now r = record {
  installation_id = r.installation_id;
  event_id = r.event_id;
  state = r.state;
  at = r.at;
  recorded_at = now;
}

-- The oldest goes where a new key would be one too many.
unfoldable pub make_room : String → Map String ReceiptRecord → Map String ReceiptRecord
make_room k [] = []
make_room k ((j, r) ∷ m) =
    if leb max_receipts (length ((j, r) ∷ m)) && not (is_some (Map.get k ((j, r) ∷ m)))
    then Map.delete j ((j, r) ∷ m)
    else (j, r) ∷ m

unfoldable pub put_receipt : String → ReceiptRecord → ReceiptStore → ReceiptStore
put_receipt k r s = record {
  receipts = Map.set k r (Map.delete k (make_room k s.receipts));
  counts =
      Map.set (state_index r.state) (or_else (Map.get (state_index r.state) s.counts) 0 + 1)
        s.counts;
}

-- `record`
unfoldable pub record_receipt : ℕ → ReceiptRequest → ReceiptStore → ReceiptStore × ReceiptRecord
record_receipt now q s =
    let k = key q.installation_id q.event_id in
    let r = receipt_of now q in
    elim (Map.get k s.receipts) [
      | none ↦ (put_receipt k r s, r)
      | some old ↦ if ltb (rank r.state) (rank old.state) then (s, old) else (put_receipt k r s, r)
    ]

-- `get`
unfoldable pub receipt : String → String → ReceiptStore → Option ReceiptRecord
receipt installation_id event_id s = Map.get (key installation_id event_id) s.receipts

abbrev pub is_shown : ReceiptState → Bool
is_shown received = false
is_shown display_requested = true
is_shown display_confirmed = true
is_shown suppressed_duplicate = true
is_shown blocked_permission = true
is_shown blocked_channel = true

-- `needsNoFallback`
unfoldable pub needs_no_fallback : String → String → ReceiptStore → Bool
needs_no_fallback installation_id event_id s = elim (receipt installation_id event_id s) [
  | none ↦ false
  | some r ↦ is_shown r.state
]

-- `forgetInstallation`
abbrev pub forget_each :
    String → Map String ReceiptRecord → Map String ReceiptRecord → Map String ReceiptRecord
forget_each installation_id [] m = m
forget_each installation_id ((k, r) ∷ es) m =
    forget_each installation_id es
      (if same r.installation_id installation_id then Map.delete k m else m)

unfoldable pub forget_installation : String → ReceiptStore → ReceiptStore
forget_installation installation_id s = record s {
  receipts = forget_each installation_id s.receipts s.receipts;
}
