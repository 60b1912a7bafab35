-- ===== src/Payouts/Ledger/Posting.antt =====
-- services_order_wages.py and services_direct_settlement.py: the credit of a completed order's
-- service wage, and the debit of what the gateway has paid to the technician directly.
use rasti_kiro_gpt.Common.{
  ℕ, ◌+◌, ◌*◌, ◌/◌, Bool, false, ◌&&◌, Option, none, some, List, [], ◌∷◌, ◌==◌, leb, not,
  if◌then◌else◌,
}
use rasti_kiro_gpt.Common.Int.{ℤ, pos, negsuc}
use rasti_kiro_gpt.Payouts.Split.{OwnerType, is_platform, Decision}
use rasti_kiro_gpt.Payouts.Ledger.Entry.{EntryType, Source, Key, Request, Entry, Ledger}
use rasti_kiro_gpt.Payouts.Ledger.Write.{create_credit, create_debit, to_list}

-- `OrderItemValue` with what is read of its item; the value is its number of hundredths.
pub record ItemValue : Type 0 where
  pub item : ℕ
  pub is_number : Bool
  pub is_technician_wage_applicable : Bool
  pub value_number : Option ℤ

-- `TechnicianServiceRate`
pub record Rate : Type 0 where
  pub company : ℕ
  pub technician : ℕ
  pub item_definition : ℕ
  pub fixed_wage_rial : ℕ
  pub is_active : Bool

pub record OrderInfo : Type 0 where
  pub order_id : ℕ
  pub company : ℕ
  pub technician : Option ℕ
  pub item_values : List ItemValue

-- The first active rate of the technician for the item.
unfoldable pub find_rate : ℕ → ℕ → ℕ → List Rate → Option Rate
find_rate company technician item [] = none
find_rate company technician item (r ∷ rates) =
    if r.company == company
      && r.technician == technician
      && r.item_definition == item
      && r.is_active
    then some r
    else find_rate company technician item rates

-- What one item value contributes: nothing, an item without a rate, or a wage.
pub data Line : Type 0 where
  skipped : Line
  missing : ℕ → Line
  payable : ℕ → Line

abbrev pub rate_line : ℕ → ℕ → Option Rate → Line
rate_line item qty none = missing item
rate_line item qty (some r) = payable (qty * r.fixed_wage_rial / 100)

abbrev pub quantity_line : ℕ → Option ℤ → Option Rate → Line
quantity_line item none rate = skipped
quantity_line item (some (negsuc n)) rate = skipped
quantity_line item (some (pos qty)) rate = if leb qty 0 then skipped else rate_line item qty rate

unfoldable pub line_for : ℕ → ℕ → List Rate → ItemValue → Line
unfolding find_rate
line_for company technician rates v =
    if v.is_number && v.is_technician_wage_applicable
    then quantity_line v.item v.value_number (find_rate company technician v.item rates)
    else skipped

abbrev pub wage_of : Line → ℕ
wage_of (payable w) = w
wage_of _ = 0

-- `sum(p["item_wage"] for p in payable)`
unfoldable pub total_wage : ℕ → ℕ → List Rate → List ItemValue → ℕ
unfolding line_for
total_wage company technician rates [] = 0
total_wage company technician rates (v ∷ vs) =
    wage_of (line_for company technician rates v) + total_wage company technician rates vs

abbrev pub service_wage_request : OrderInfo → ℕ → ℕ → Request
service_wage_request order technician amount = record {
  company = order.company;
  technician = technician;
  entry_type = EntryType.credit;
  source = Source.technician_service_wage;
  amount_rial = amount;
  idempotency_key = Key.technician_service_wage order.order_id;
  invoice = none;
  payment = none;
  order = some order.order_id;
}

abbrev pub post_wage : OrderInfo → ℕ → ℕ → Ledger → List Entry × Ledger
post_wage order technician amount l =
    if leb amount 0
    then ([], l)
    else (let (entry, l') = create_credit (service_wage_request order technician amount) l in
        (to_list entry, l'))

-- `TechnicianWagePostingService.post_for_order`
unfoldable pub post_for_order : List Rate → OrderInfo → Ledger → List Entry × Ledger
post_for_order rates order l = elim order.technician [
  | none ↦ ([], l)
  | some technician ↦
      post_wage order technician (total_wage order.company technician rates order.item_values) l
]

-- What the direct settlement reads of a payment, of its invoice's order and of its technician.
pub record OrderLink : Type 0 where
  pub order_id : ℕ
  pub order_company : ℕ
  pub technician : Option (ℕ × ℕ)

pub record PaymentLink : Type 0 where
  pub payment_id : ℕ
  pub company : ℕ
  pub gateway : Option OwnerType
  pub invoice : Option (ℕ × Option OrderLink)

abbrev pub direct_request : ℕ → ℕ → ℕ → ℕ → ℕ → ℕ → Request
direct_request company technician amount payment invoice order = record {
  company = company;
  technician = technician;
  entry_type = EntryType.debit;
  source = Source.direct_gateway_settlement;
  amount_rial = amount;
  idempotency_key = Key.direct_gateway_settlement payment;
  invoice = some invoice;
  payment = some payment;
  order = some order;
}

abbrev pub is_platform_gateway : Option OwnerType → Bool
is_platform_gateway none = false
is_platform_gateway (some owner) = is_platform owner

-- The entry asked for, once snapshot and gateway have passed; `none` where a link is missing or a
-- company differs.
unfoldable pub settlement_request : PaymentLink → ℕ → Option (ℕ × Option OrderLink) → Option Request
settlement_request p amount (some (invoice, some order)) = elim order.technician [
  | none ↦ none
  | some (technician, technician_company) ↦
      if p.company == order.order_company && technician_company == p.company
      then some (direct_request p.company technician amount p.payment_id invoice order.order_id)
      else none
]
settlement_request p amount _ = none

abbrev pub post_request : Option Request → Ledger → List Entry × Ledger
post_request none l = ([], l)
post_request (some r) l = let (entry, l') = create_debit r l in (to_list entry, l')

-- `TechnicianDirectSettlementService.post_for_payment`, on the payment's split snapshot
unfoldable pub post_for_payment : PaymentLink → Option Decision → Ledger → List Entry × Ledger
post_for_payment p none l = ([], l)
post_for_payment p (some snapshot) l =
    if not snapshot.should_split_with_technician
    then ([], l)
    else if leb snapshot.technician_direct_amount 0
    then ([], l)
    else if not (is_platform_gateway p.gateway)
    then ([], l)
    else post_request (settlement_request p snapshot.technician_direct_amount p.invoice) l
