-- ===== src/Settlement/Planner.antt =====
-- `SettlementPlanner` of apps/payouts/services_settlement_planner.py.
pub mod Eligible
use rasti_kiro_gpt.Common.{
  ℕ, Bool, false, not, ◌&&◌, Option, none, some, List, [], ◌∷◌, ◌==◌, same_key, is_some,
  if◌then◌else◌,
}
use rasti_kiro_gpt.Common.Table.{Table}
use rasti_kiro_gpt.Common.Result.{Result, ok, ◌>>=◌}
use rasti_kiro_gpt.Payouts.Escrow.Defs.{EscrowRecord}
use rasti_kiro_gpt.Payouts.Ledger.Entry.{Entry, Ledger, is_of}
use rasti_kiro_gpt.Settlement.Books.{
  Books, InvoiceRow, TechnicianRow, AdjustmentDocument, BackfillTask, Batch, Item, Error, is_live,
  is_paid, is_pending_adjustment, is_unresolved, is_ledger_task, exists,
}
use rasti_kiro_gpt.Settlement.Calculator.{
  Position, Reason, Layer1Result, Layer2Result, latest_escrow, entry_is_of, calculate_layer1,
  calculate_layer2,
}

pub record Layer1PlanningItem : Type 0 where
  pub invoice_id : ℕ
  pub company : ℕ
  pub payment_id : Option ℕ
  pub escrow_id : Option ℕ
  pub eligible : Bool
  pub blocked_reason : Option Reason
  pub calculation : Option Layer1Result

pub record Layer2PlanningItem : Type 0 where
  pub technician_id : ℕ
  pub company : ℕ
  pub eligible : Bool
  pub blocked_reason : Option Reason
  pub calculation : Layer2Result

pub record Report {ℓ} (A : Type ℓ) : Type ℓ where
  pub eligible_items : List A
  pub blocked_items : List A

-- `SettlementItem.objects.filter(company=..., invoice=...).exclude(batch__status=FAILED)`
abbrev pub claims_invoice : Table Batch → ℕ → ℕ → ℕ × Item → Bool
claims_invoice batches company invoice (pk, item) =
    item.company == company && same_key item.invoice (some invoice) && is_live batches item.batch

-- The same for the entries of a technician.
abbrev pub claims_technician : Table Batch → Ledger → ℕ → ℕ → ℕ × Item → Bool
claims_technician batches ledger company technician (pk, item) =
    item.company == company
    && entry_is_of ledger technician item.ledger_entry
    && is_live batches item.batch

abbrev pub adjusts_invoice : ℕ → ℕ → ℕ × AdjustmentDocument → Bool
adjusts_invoice company invoice (pk, d) =
    d.company == company && d.original_invoice == invoice && is_pending_adjustment d.status

abbrev pub adjusts_technician : Ledger → ℕ → ℕ → ℕ × AdjustmentDocument → Bool
adjusts_technician ledger company technician (pk, d) =
    d.company == company
    && is_pending_adjustment d.status
    && entry_is_of ledger technician d.technician_ledger_entry

abbrev pub is_unresolved_for : ℕ → ℕ → BackfillTask → Bool
is_unresolved_for company invoice t =
    t.company == company && same_key t.invoice (some invoice) && is_unresolved t.status

-- `invoice_id__in=technician_invoice_ids`; a null never is in a list.
abbrev pub is_entry_on : ℕ → ℕ → Option ℕ → Entry → Bool
is_entry_on company technician none e = false
is_entry_on company technician (some invoice) e =
    is_of company technician e && same_key e.invoice (some invoice)

abbrev pub is_unresolved_near : Ledger → ℕ → ℕ → BackfillTask → Bool
is_unresolved_near ledger company technician t =
    t.company == company
    && is_ledger_task t.task_type
    && is_unresolved t.status
    && exists (is_entry_on company technician t.invoice) ledger

-- `escrow.settlement_batch_id is not None and escrow.settlement_batch.status != FAILED`
abbrev pub in_live_batch : Table Batch → Option (ℕ × EscrowRecord) → Bool
in_live_batch batches none = false
in_live_batch batches (some (pk, e)) = elim e.settlement_batch [
  | none ↦ false
  | some batch ↦ is_live batches batch
]

-- Why a PAID invoice is blocked, if it is.
unfoldable pub refusal_layer1 :
    Books → InvoiceRow → Option (ℕ × EscrowRecord) → Option Reason → Option Reason
refusal_layer1 b inv escrow (some reason) = some reason
refusal_layer1 b inv escrow none =
    if in_live_batch b.batches escrow
    then some Reason.escrow_in_batch
    else if exists (claims_invoice b.batches inv.company inv.invoice_id) b.items
    then some Reason.item_in_batch
    else if exists (adjusts_invoice inv.company inv.invoice_id) b.adjustments
    then some Reason.pending_adjustment
    else if exists (is_unresolved_for inv.company inv.invoice_id) b.backfills
    then some Reason.unresolved_backfill
    else none

abbrev pub key_of : Option (ℕ × EscrowRecord) → Option ℕ
key_of none = none
key_of (some (pk, e)) = some pk

abbrev pub payment_of : Option (ℕ × EscrowRecord) → Option ℕ
payment_of none = none
payment_of (some (pk, e)) = some e.payment

abbrev pub judged_layer1 :
    InvoiceRow → Option (ℕ × EscrowRecord) → Layer1Result → Option Reason → Layer1PlanningItem
judged_layer1 inv escrow calculation reason = record {
  invoice_id = inv.invoice_id;
  company = inv.company;
  payment_id = payment_of escrow;
  escrow_id = key_of escrow;
  eligible = not (is_some reason);
  blocked_reason = reason;
  calculation = some calculation;
}

abbrev pub unpaid_layer1 : InvoiceRow → Layer1PlanningItem
unpaid_layer1 inv = record {
  invoice_id = inv.invoice_id;
  company = inv.company;
  payment_id = none;
  escrow_id = none;
  eligible = false;
  blocked_reason = some Reason.not_paid;
  calculation = none;
}

-- `evaluate_layer1_for_invoice`
unfoldable pub evaluate_layer1 : Books → InvoiceRow → Layer1PlanningItem
evaluate_layer1 b inv =
    if not (is_paid inv.status)
    then unpaid_layer1 inv
    else let calculation = calculate_layer1 b inv in
      let escrow = latest_escrow inv.company inv.invoice_id b.escrows.rows in
      judged_layer1 inv escrow calculation (refusal_layer1 b inv escrow calculation.blocked_reason)

abbrev pub add_layer1 : Layer1PlanningItem → Report Layer1PlanningItem → Report Layer1PlanningItem
add_layer1 item report =
    if item.eligible
    then record report { eligible_items = item ∷ report.eligible_items }
    else record report { blocked_items = item ∷ report.blocked_items }

unfoldable pub plan_invoices : Books → ℕ → List InvoiceRow → Report Layer1PlanningItem
plan_invoices b company [] = record { eligible_items = []; blocked_items = [] }
plan_invoices b company (inv ∷ invs) =
    let report = plan_invoices b company invs in
    if inv.company == company then add_layer1 (evaluate_layer1 b inv) report else report

-- `plan_layer1_for_company`
unfoldable pub plan_layer1 : Books → ℕ → Report Layer1PlanningItem
plan_layer1 b company = plan_invoices b company b.invoices

-- A technician is paid what is PAYABLE, and nothing else.
abbrev pub by_position : Position → Option Reason
by_position Position.payable = none
by_position Position.zero = some Reason.zero_balance
by_position _ = some Reason.owes_company

-- Why a technician is blocked, if so.
unfoldable pub refusal_layer2 : Books → ℕ → ℕ → Position → Option Reason
refusal_layer2 b company technician position =
    if exists (claims_technician b.batches b.ledger company technician) b.items
    then some Reason.item_in_batch
    else if exists (adjusts_technician b.ledger company technician) b.adjustments
    then some Reason.pending_adjustment
    else if exists (is_unresolved_near b.ledger company technician) b.backfills
    then some Reason.unresolved_backfill
    else by_position position

abbrev pub judged_layer2 : ℕ → TechnicianRow → Layer2Result → Option Reason → Layer2PlanningItem
judged_layer2 company t calculation reason = record {
  technician_id = t.technician_id;
  company = company;
  eligible = not (is_some reason);
  blocked_reason = reason;
  calculation = calculation;
}

-- `evaluate_layer2_for_technician`
unfoldable pub evaluate_layer2 : Books → ℕ → TechnicianRow → Result Error Layer2PlanningItem
evaluate_layer2 b company t = do
  calculation ← calculate_layer2 b company t
  ok (
      judged_layer2 company t calculation
        (refusal_layer2 b company t.technician_id calculation.position))

abbrev pub add_layer2 : Layer2PlanningItem → Report Layer2PlanningItem → Report Layer2PlanningItem
add_layer2 item report =
    if item.eligible
    then record report { eligible_items = item ∷ report.eligible_items }
    else record report { blocked_items = item ∷ report.blocked_items }

unfoldable pub plan_technicians :
    Books → ℕ → List TechnicianRow → Result Error (Report Layer2PlanningItem)
plan_technicians b company [] = ok (record { eligible_items = []; blocked_items = [] })
plan_technicians b company (t ∷ ts) =
    let rest = plan_technicians b company ts in
    do item ← evaluate_layer2 b company t; report ← rest; ok (add_layer2 item report)

unfoldable pub of_company : ℕ → List TechnicianRow → List TechnicianRow
of_company company [] = []
of_company company (t ∷ ts) =
    let rest = of_company company ts in if t.company == company then t ∷ rest else rest

-- `plan_layer2_for_company`
unfoldable pub plan_layer2 :
    Books → ℕ → Option TechnicianRow → Result Error (Report Layer2PlanningItem)
plan_layer2 b company (some t) = plan_technicians b company (t ∷ [])
plan_layer2 b company none = plan_technicians b company (of_company company b.technicians)
