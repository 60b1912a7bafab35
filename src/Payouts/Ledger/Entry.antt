-- ===== src/Payouts/Ledger/Entry.antt =====
-- `TechnicianLedgerEntry` of apps/payouts/models.py, and the queries that the service makes.
-- `amount_rial` is a PositiveBigIntegerField, so a natural number; metadata is left out.
use rasti_kiro_gpt.Common.{
  ℕ, ◌+◌, Bool, true, false, ◌&&◌, ◌||◌, Option, none, some, List, [], ◌∷◌, ◌==◌, if◌then◌else◌,
}
use rasti_kiro_gpt.Common.Int.{ℤ, pos, ◌-ℤ◌}

pub data EntryType : Type 0 where
  credit debit : EntryType

pub data Source : Type 0 where
  online_gateway cash_from_customer manual_payment manual_settlement : Source
  direct_gateway_settlement adjustment refund technician_service_wage : Source

-- An idempotency key. The services build their keys from these prefixes and ids, so two keys are
-- equal as texts when prefix and ids are; `other` numbers the texts of all other callers and uuids.
pub data Key : Type 0 where
  technician_credit cash_received_by_technician : ℕ → Key
  technician_service_wage direct_gateway_settlement : ℕ → Key
  settlement_item : ℕ → ℕ → Key
  adjustment_wage : ℕ → Key
  other : ℕ → Key

abbrev pub same_idempotency_key : Key → Key → Bool
same_idempotency_key (Key.technician_credit a) (Key.technician_credit b) = a == b
same_idempotency_key (Key.cash_received_by_technician a) (Key.cash_received_by_technician b) =
    a == b
same_idempotency_key (Key.technician_service_wage a) (Key.technician_service_wage b) = a == b
same_idempotency_key (Key.direct_gateway_settlement a) (Key.direct_gateway_settlement b) = a == b
same_idempotency_key (Key.settlement_item a i) (Key.settlement_item b j) = a == b && i == j
same_idempotency_key (Key.adjustment_wage a) (Key.adjustment_wage b) = a == b
same_idempotency_key (Key.other a) (Key.other b) = a == b
same_idempotency_key _ _ = false

-- What a caller of `create_credit` and `create_debit` gives.
pub record Request : Type 0 where
  pub company : ℕ
  pub technician : ℕ
  pub entry_type : EntryType
  pub source : Source
  pub amount_rial : ℕ
  pub idempotency_key : Key
  pub invoice : Option ℕ
  pub payment : Option ℕ
  pub order : Option ℕ

pub record Entry : Type 0 where
  pub request : Request
  pub open request use *
  pub balance_after : ℤ

abbrev pub Ledger : Type 0
Ledger = List Entry

abbrev pub is_credit : EntryType → Bool
is_credit EntryType.credit = true
is_credit EntryType.debit = false

abbrev pub is_debit : EntryType → Bool
is_debit EntryType.debit = true
is_debit EntryType.credit = false

-- `filter(company=..., technician=...)`
abbrev pub is_of : ℕ → ℕ → Entry → Bool
is_of company technician e = e.company == company && e.technician == technician

-- `filter(entry_type=CREDIT).aggregate(Sum("amount_rial"))`
unfoldable pub credits : ℕ → ℕ → Ledger → ℕ
credits company technician [] = 0
credits company technician (e ∷ l) =
    (if is_of company technician e && is_credit e.entry_type then e.amount_rial else 0)
    + credits company technician l

unfoldable pub debits : ℕ → ℕ → Ledger → ℕ
debits company technician [] = 0
debits company technician (e ∷ l) =
    (if is_of company technician e && is_debit e.entry_type then e.amount_rial else 0)
    + debits company technician l

-- `TechnicianLedgerService.get_balance`
unfoldable pub get_balance : ℕ → ℕ → Ledger → ℤ
unfolding credits debits
get_balance company technician l =
    pos (credits company technician l) -ℤ pos (debits company technician l)

-- `filter(idempotency_key=key).exists()`
unfoldable pub has_key : Key → Ledger → Bool
has_key key [] = false
has_key key (e ∷ l) = same_idempotency_key key e.idempotency_key || has_key key l

-- `filter(idempotency_key=key).first()`
unfoldable pub find_key : Key → Ledger → Option Entry
find_key key [] = none
find_key key (e ∷ l) = if same_idempotency_key key e.idempotency_key then some e else find_key key l

unfoldable pub for_technician : ℕ → ℕ → Ledger → Ledger
for_technician company technician [] = []
for_technician company technician (e ∷ l) =
    let rest = for_technician company technician l in
    if is_of company technician e then e ∷ rest else rest

unfoldable pub drop : ℕ → Ledger → Ledger
drop n [] = []
drop ℕ.zero (e ∷ l) = e ∷ l
drop (ℕ.suc n) (e ∷ l) = drop n l

unfoldable pub take : ℕ → Ledger → Ledger
take n [] = []
take ℕ.zero (e ∷ l) = []
take (ℕ.suc n) (e ∷ l) = e ∷ take n l

-- `TechnicianLedgerService.list_statement`
unfoldable pub list_statement : ℕ → ℕ → ℕ → ℕ → Ledger → Ledger
unfolding for_technician drop take
list_statement company technician limit offset l =
    take limit (drop offset (for_technician company technician l))
