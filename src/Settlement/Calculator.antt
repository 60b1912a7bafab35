-- ===== src/Settlement/Calculator.antt =====
-- `SettlementCalculator` of apps/payouts/services_settlement_calculator.py. The carried-forward credit
-- and debt of a company are the constant 0 there.
pub mod Balance
use rasti_kiro_gpt.Common.{
  ℕ, ◌+◌, Bool, true, false, not, ◌&&◌, ◌||◌, Option, none, some, List, [], ◌∷◌, ◌==◌, same_key,
  if◌then◌else◌,
}
use rasti_kiro_gpt.Common.Int.{ℤ, pos, negsuc, ◌+ℤ◌, ◌-ℤ◌}
use rasti_kiro_gpt.Common.Table.{Table, lookup}
use rasti_kiro_gpt.Common.Result.{Result, ok, ◌>>◌, raise_if}
use rasti_kiro_gpt.Payouts.Split.{Decision}
use rasti_kiro_gpt.Payouts.Escrow.Defs.{EscrowRecord, is_held, is_reserved}
use rasti_kiro_gpt.Payouts.Ledger.Entry.{
  Source, Key, Entry, Ledger, is_credit, is_debit, is_of, find_key,
}
use rasti_kiro_gpt.Settlement.Books.{
  Books, InvoiceRow, TechnicianRow, AdjustmentDocument, Error, is_refund, is_applied,
  foreign_technician,
}

-- `SettlementPosition`
pub data Position : Type 0 where
  payable receivable zero blocked : Position

-- Why an invoice or a technician is not settled: the calculator's two reasons, then the planner's.
pub data Reason : Type 0 where
  no_escrow not_distributed : Reason
  not_paid escrow_in_batch item_in_batch pending_adjustment unresolved_backfill : Reason
  zero_balance owes_company : Reason

-- `_classify`
unfoldable pub classify : ℤ → Position
classify (pos n) = if n == 0 then Position.zero else Position.payable
classify (negsuc n) = Position.receivable

pub record Layer1Result : Type 0 where
  pub invoice_id : ℕ
  pub company : ℕ
  pub position : Position
  pub blocked_reason : Option Reason
  pub gross_invoice_amount_rial : ℕ
  pub platform_commission_rial : ℕ
  pub provider_share_rial : ℕ
  pub direct_provider_split_rial : ℕ
  pub company_payable_base_rial : ℕ
  pub prior_company_credit_rial : ℕ
  pub prior_company_debt_rial : ℕ
  pub adjustment_rial : ℤ
  pub refund_rial : ℤ
  pub net_position_rial : ℤ

pub record Layer2Result : Type 0 where
  pub technician_id : ℕ
  pub company : ℕ
  pub position : Position
  pub wage_credit_rial : ℕ
  pub settlement_debit_rial : ℕ
  pub direct_split_debit_rial : ℕ
  pub other_debit_rial : ℕ
  pub adjustment_rial : ℤ
  pub refund_rial : ℤ
  pub net_position_rial : ℤ

-- `EscrowRecord.objects.filter(company=..., invoice=...).order_by("-held_at").first()`
unfoldable pub latest_escrow : ℕ → ℕ → Table EscrowRecord → Option (ℕ × EscrowRecord)
latest_escrow company invoice [] = none
latest_escrow company invoice ((pk, e) ∷ rows) = elim (latest_escrow company invoice rows) [
  | some later ↦ some later
  | none ↦ if e.company == company && same_key e.invoice (some invoice) then some (pk, e) else none
]

-- The direct split of the snapshot of a payment.
unfoldable pub direct_split : ℕ → Table Decision → ℕ
direct_split payment snapshots = elim (lookup payment snapshots) [
  | none ↦ 0
  | some d ↦ if d.should_split_with_technician then d.technician_direct_amount else 0
]

abbrev pub value : Option ℤ → ℤ
value none = pos 0
value (some z) = z

-- `_sum_field` over the documents that pass a test
unfoldable pub sum_field :
    (AdjustmentDocument → Option ℤ) → (AdjustmentDocument → Bool) → Table AdjustmentDocument → ℤ
sum_field field test [] = pos 0
sum_field field test ((_, d) ∷ ds) =
    (if test d then value (field d) else pos 0) +ℤ sum_field field test ds

abbrev pub of_invoice : ℕ → ℕ → AdjustmentDocument → Bool
of_invoice company invoice d =
    d.company == company && d.original_invoice == invoice && is_applied d.status

-- `_get_invoice_reversal_totals`: the sum for the refunds, or for the other adjustments
unfoldable pub invoice_reversals : Bool → ℕ → ℕ → Table AdjustmentDocument → ℤ
unfolding sum_field
invoice_reversals refunds company invoice =
    sum_field (λ d. d.company_share_reversal)
      (λ d.
        of_invoice company invoice d
        && (if refunds then is_refund d.document_type else not (is_refund d.document_type)))

-- `ledger_entry__technician=technician`, through the key of the entry
unfoldable pub entry_is_of : Ledger → ℕ → Option Key → Bool
entry_is_of ledger technician none = false
entry_is_of ledger technician (some key) = elim (find_key key ledger) [
  | none ↦ false
  | some e ↦ e.technician == technician
]

-- `_get_technician_reversal_totals`
unfoldable pub technician_reversals : Bool → Ledger → ℕ → ℕ → Table AdjustmentDocument → ℤ
unfolding sum_field
technician_reversals refunds ledger company technician =
    sum_field (λ d. d.technician_wage_reversal)
      (λ d.
        d.company == company
        && is_applied d.status
        && entry_is_of ledger technician d.technician_ledger_entry
        && (if refunds then is_refund d.document_type else not (is_refund d.document_type)))

abbrev pub blocked_result : InvoiceRow → Reason → ℕ → Layer1Result
blocked_result inv reason direct = record {
  invoice_id = inv.invoice_id;
  company = inv.company;
  position = Position.blocked;
  blocked_reason = some reason;
  gross_invoice_amount_rial = inv.total_amount;
  platform_commission_rial = 0;
  provider_share_rial = 0;
  direct_provider_split_rial = direct;
  company_payable_base_rial = 0;
  prior_company_credit_rial = 0;
  prior_company_debt_rial = 0;
  adjustment_rial = pos 0;
  refund_rial = pos 0;
  net_position_rial = pos 0;
}

-- `not_yet_distributed`
abbrev pub is_undistributed : EscrowRecord → Bool
is_undistributed e = is_held e.status || is_reserved e.status

-- `company_payable_base_rial + prior_company_credit_rial - prior_company_debt_rial`
abbrev pub net_layer1 : EscrowRecord → ℤ
net_layer1 e = pos (e.organization_share_rial + 0) -ℤ pos 0

abbrev pub settled_result : Books → InvoiceRow → EscrowRecord → Layer1Result
settled_result b inv e = record {
  invoice_id = inv.invoice_id;
  company = inv.company;
  position = classify (net_layer1 e);
  blocked_reason = none;
  gross_invoice_amount_rial = inv.total_amount;
  platform_commission_rial = e.platform_commission_rial;
  provider_share_rial = e.provider_share_rial;
  direct_provider_split_rial = direct_split e.payment b.snapshots;
  company_payable_base_rial = e.organization_share_rial;
  prior_company_credit_rial = 0;
  prior_company_debt_rial = 0;
  adjustment_rial = invoice_reversals false inv.company inv.invoice_id b.adjustments;
  refund_rial = invoice_reversals true inv.company inv.invoice_id b.adjustments;
  net_position_rial = net_layer1 e;
}

-- `calculate_layer1_for_invoice`, on the escrow record that it has found
unfoldable pub calculate_on : Books → InvoiceRow → Option (ℕ × EscrowRecord) → Layer1Result
calculate_on b inv none = blocked_result inv Reason.no_escrow 0
calculate_on b inv (some (pk, e)) =
    if is_undistributed e
    then blocked_result inv Reason.not_distributed (direct_split e.payment b.snapshots)
    else settled_result b inv e

unfoldable pub calculate_layer1 : Books → InvoiceRow → Layer1Result
calculate_layer1 b inv =
    calculate_on b inv (latest_escrow inv.company inv.invoice_id b.escrows.rows)

-- `_sum_field(entries.filter(...))`
unfoldable pub sum_entries : (Entry → Bool) → Ledger → ℕ
sum_entries test [] = 0
sum_entries test (e ∷ l) = (if test e then e.amount_rial else 0) + sum_entries test l

abbrev pub is_manual_settlement : Source → Bool
is_manual_settlement Source.manual_settlement = true
is_manual_settlement _ = false

abbrev pub is_direct_settlement : Source → Bool
is_direct_settlement Source.direct_gateway_settlement = true
is_direct_settlement _ = false

abbrev pub debit_of : ℕ → ℕ → (Source → Bool) → Entry → Bool
debit_of company technician test e =
    is_of company technician e && is_debit e.entry_type && test e.source

abbrev pub is_other_source : Source → Bool
is_other_source s = not (is_manual_settlement s || is_direct_settlement s)

-- `wage_credit_rial` and the three kinds of debits
unfoldable pub wage_credit : ℕ → ℕ → Ledger → ℕ
unfolding sum_entries
wage_credit company technician =
    sum_entries (λ e. is_of company technician e && is_credit e.entry_type)

unfoldable pub debit_sum : (Source → Bool) → ℕ → ℕ → Ledger → ℕ
unfolding sum_entries
debit_sum test company technician = sum_entries (debit_of company technician test)

-- `wage_credit_rial - settlement_debit_rial - direct_split_debit_rial - other_debit_rial`
unfoldable pub net_layer2 : ℕ → ℕ → Ledger → ℤ
net_layer2 company technician l =
    pos (wage_credit company technician l)
    -ℤ pos (debit_sum is_manual_settlement company technician l)
    -ℤ pos (debit_sum is_direct_settlement company technician l)
    -ℤ pos (debit_sum is_other_source company technician l)

abbrev pub layer2_result : Books → ℕ → TechnicianRow → Layer2Result
layer2_result b company t = record {
  technician_id = t.technician_id;
  company = company;
  position = classify (net_layer2 company t.technician_id b.ledger);
  wage_credit_rial = wage_credit company t.technician_id b.ledger;
  settlement_debit_rial = debit_sum is_manual_settlement company t.technician_id b.ledger;
  direct_split_debit_rial = debit_sum is_direct_settlement company t.technician_id b.ledger;
  other_debit_rial = debit_sum is_other_source company t.technician_id b.ledger;
  adjustment_rial = technician_reversals false b.ledger company t.technician_id b.adjustments;
  refund_rial = technician_reversals true b.ledger company t.technician_id b.adjustments;
  net_position_rial = net_layer2 company t.technician_id b.ledger;
}

-- `calculate_layer2_for_technician`
unfoldable pub calculate_layer2 : Books → ℕ → TechnicianRow → Result Error Layer2Result
calculate_layer2 b company t = do
  raise_if (not (t.company == company)) foreign_technician
  ok (layer2_result b company t)
