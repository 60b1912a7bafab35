-- ===== src/Settlement/Builder.antt =====
-- `SettlementBatchBuilder` of apps/payouts/services_settlement_batch_builder.py. A build holds the
-- company's lock for all of its time, so it is one step here; the lock's row is left out.
pub mod Closed
pub mod Linked
pub mod Success
pub mod Stuck
pub mod Kept
pub mod Again
pub mod Layer2
use rasti_kiro_gpt.Common.{
  ℕ, suc, ◌+◌, Bool, true, false, not, Option, none, some, List, [], ◌∷◌, ◌==◌, ltb, if◌then◌else◌,
}
use rasti_kiro_gpt.Common.Int.{ℤ, pos, pos_part, neg_part, ◌+ℤ◌, ◌-ℤ◌, same_ℤ}
use rasti_kiro_gpt.Common.Table.{Table, lookup, save}
use rasti_kiro_gpt.Common.Result.{Result, ok, err, ◌>>=◌, ◌>>◌, raise_if, or_raise}
use rasti_kiro_gpt.Payouts.Escrow.Defs.{Escrows, mark_pending_settlement}
use rasti_kiro_gpt.Payouts.Escrow.Defs.{Error as EscrowError}
use rasti_kiro_gpt.Payouts.Ledger.Entry.{Entry, Ledger, is_of}
use rasti_kiro_gpt.Settlement.Books.{
  Books, Item, Level, Error, TechnicianRow, bad_period, receivable, other_company, totals_differ,
  not_payable, no_entries, escrow_failed, does_not_exist, attribute_error,
}
use rasti_kiro_gpt.Settlement.Calculator.{Position}
use rasti_kiro_gpt.Settlement.Planner.{
  Layer1PlanningItem, Layer2PlanningItem, plan_layer1, plan_layer2,
}
use rasti_kiro_gpt.Settlement.Batches.{create_batch, mark_ready, add_invoice_item, add_ledger_item}

-- `BatchBuildResult`; the batch is given by its key.
pub record BuildResult : Type 0 where
  pub batch : Option ℕ
  pub items_created : ℕ
  pub net_amount_rial : ℤ
  pub total_credits : ℕ
  pub total_debits : ℕ

abbrev pub nothing_built : BuildResult
nothing_built = record {
  batch = none;
  items_created = 0;
  net_amount_rial = pos 0;
  total_credits = 0;
  total_debits = 0;
}

abbrev pub is_receivable : Position → Bool
is_receivable Position.receivable = true
is_receivable _ = false

abbrev pub is_payable : Position → Bool
is_payable Position.payable = true
is_payable _ = false

-- `SettlementItem.objects.filter(batch=batch).aggregate(Sum("amount_rial"))`
unfoldable pub sum_of_batch : ℕ → Table Item → ℤ
sum_of_batch pk [] = pos 0
sum_of_batch pk ((_, item) ∷ items) =
    (if item.batch == pk then item.amount_rial else pos 0) +ℤ sum_of_batch pk items

-- The totals of a batch as they grow: credits, debits and the number of items.
pub record Totals : Type 0 where
  pub credits : ℕ
  pub debits : ℕ
  pub count : ℕ

abbrev pub no_totals : Totals
no_totals = record { credits = 0; debits = 0; count = 0 }

-- `total_credits += amount` or `total_debits += abs(amount)`
abbrev pub add_amount : ℤ → Totals → Totals
add_amount amount t = record {
  credits = t.credits + pos_part amount;
  debits = t.debits + neg_part amount;
  count = suc t.count;
}

-- One eligible invoice: the checks, and its item. The invoice is read again by the id that the planner
-- has read it under, in the same transaction.
unfoldable pub add_layer1_item :
    ℕ → ℕ → Layer1PlanningItem → Totals → Books → Result Error (Totals × Books)
add_layer1_item company pk item t b = do
  calculation ← or_raise item.calculation attribute_error
  raise_if (is_receivable calculation.position) receivable
  raise_if (not (calculation.company == company)) other_company
  b' ← add_invoice_item pk item.invoice_id calculation.net_position_rial b
  ok (add_amount calculation.net_position_rial t, b')

unfoldable pub add_layer1_items :
    ℕ → ℕ → List Layer1PlanningItem → Totals → Books → Result Error (Totals × Books)
add_layer1_items company pk [] t b = ok (t, b)
add_layer1_items company pk (item ∷ items) t b = do
  step ← add_layer1_item company pk item t b
  add_layer1_items company pk items step.0 step.1

abbrev pub net_of : Totals → ℤ
net_of t = pos t.credits -ℤ pos t.debits

-- `batch.save(update_fields=["net_amount_rial", "total_credits", "total_debits", "items_count"])`
unfoldable pub save_totals : ℕ → Totals → Books → Result Error Books
save_totals pk t b = do
  batch ← or_raise (lookup pk b.batches) does_not_exist
  ok (record b {
    batches =
        save pk
          (record batch {
            net_amount_rial = net_of t;
            total_credits = t.credits;
            total_debits = t.debits;
            items_count = t.count;
          })
          b.batches;
  })

-- The totals, the check of them, and READY.
unfoldable pub finish_batch : ℕ → Totals → Books → Result Error Books
finish_batch pk t b = do
  b' ← save_totals pk t b
  raise_if (not (same_ℤ (sum_of_batch pk b'.items) (net_of t))) totals_differ
  mark_ready pk b'

abbrev pub lift_escrow {ℓ} : {A : Type ℓ} → Result EscrowError A → Result Error A
lift_escrow (ok a) = ok a
lift_escrow (err e) = err (escrow_failed e)

-- `mark_pending_settlement` for the escrow record of each item that has one
unfoldable pub advance_escrows : ℕ → List Layer1PlanningItem → Escrows → Result Error Escrows
advance_escrows batch [] escrows = ok escrows
advance_escrows batch (item ∷ items) escrows = elim item.escrow_id [
  | none ↦ advance_escrows batch items escrows
  | some pk ↦ lift_escrow (mark_pending_settlement pk batch escrows) >>= λ step.
      advance_escrows batch items step.1
]

abbrev pub built : ℕ → Totals → BuildResult
built pk t = record {
  batch = some pk;
  items_created = t.count;
  net_amount_rial = net_of t;
  total_credits = t.credits;
  total_debits = t.debits;
}

-- A Layer 1 batch of the eligible items, if there are any.
unfoldable pub batch_layer1 :
    ℕ → List Layer1PlanningItem → Books → Result Error (BuildResult × Books)
batch_layer1 company [] b = ok (nothing_built, b)
batch_layer1 company (item ∷ items) b = do
  let pk = b.next_batch
  step ←
      add_layer1_items company pk (item ∷ items) no_totals
        (create_batch company Level.platform_to_org b)
  ready ← finish_batch pk step.0 step.1
  escrows ← advance_escrows pk (item ∷ items) ready.escrows
  ok (built pk step.0, record ready { escrows = escrows })

-- `build_layer1_batch`
unfoldable pub build_layer1 : ℕ → ℕ → ℕ → Books → Result Error (BuildResult × Books)
build_layer1 company period_start period_end b = do
  raise_if (not (ltb period_start period_end)) bad_period
  batch_layer1 company (plan_layer1 b company).eligible_items b

-- `order_by("-created_at", "-id").first()` of a technician's entries
unfoldable pub most_recent_entry : ℕ → ℕ → Ledger → Option Entry
most_recent_entry company technician [] = none
most_recent_entry company technician (e ∷ l) =
    if is_of company technician e then some e else most_recent_entry company technician l

unfoldable pub add_layer2_item :
    ℕ → ℕ → Layer2PlanningItem → Totals → Books → Result Error (Totals × Books)
add_layer2_item company pk item t b = do
  raise_if (not (is_payable item.calculation.position)) not_payable
  raise_if (not (item.calculation.company == company)) other_company
  entry ← or_raise (most_recent_entry company item.technician_id b.ledger) no_entries
  b' ← add_ledger_item pk entry.idempotency_key item.calculation.net_position_rial b
  ok (add_amount item.calculation.net_position_rial t, b')

unfoldable pub add_layer2_items :
    ℕ → ℕ → List Layer2PlanningItem → Totals → Books → Result Error (Totals × Books)
add_layer2_items company pk [] t b = ok (t, b)
add_layer2_items company pk (item ∷ items) t b = do
  step ← add_layer2_item company pk item t b
  add_layer2_items company pk items step.0 step.1

unfoldable pub batch_layer2 :
    ℕ → List Layer2PlanningItem → Books → Result Error (BuildResult × Books)
batch_layer2 company [] b = ok (nothing_built, b)
batch_layer2 company (item ∷ items) b = do
  let pk = b.next_batch
  step ←
      add_layer2_items company pk (item ∷ items) no_totals
        (create_batch company Level.org_to_provider b)
  ready ← finish_batch pk step.0 step.1
  ok (built pk step.0, ready)

-- `build_layer2_batch`
unfoldable pub build_layer2 :
    ℕ → ℕ → ℕ → Option TechnicianRow → Books → Result Error (BuildResult × Books)
build_layer2 company period_start period_end technician b = do
  raise_if (not (ltb period_start period_end)) bad_period
  report ← plan_layer2 b company technician
  batch_layer2 company report.eligible_items b
