-- ===== src/Settlement/Tests.antt =====
-- The theorems on the settlement chain at one company with two invoices, two escrow records and the
-- wages of one technician.
use rasti_kiro_gpt.Common.{ℕ, ◌≡◌, refl, true, false, ◌&&◌, ltb, none, some, [], ◌∷◌, arith, inl}
use rasti_kiro_gpt.Common.Int.{pos, ◌-ℤ◌, ◌+ℤ◌}
use rasti_kiro_gpt.Common.Table.{lookup, save}
use rasti_kiro_gpt.Common.Result.{ok, succeeds}
use rasti_kiro_gpt.Invoice.Status.{Status as InvoiceStatus}
use rasti_kiro_gpt.Payouts.Escrow.Defs.{
  Status as EscrowStatus, EscrowRecord, find_by_payment, mark_pending_settlement, update,
  await_settlement,
}
use rasti_kiro_gpt.Payouts.Escrow.Table.{IsValid}
use rasti_kiro_gpt.Payouts.Ledger.Entry.{
  EntryType, Source, Key, Request, Entry, get_balance, has_key, find_key,
}
use rasti_kiro_gpt.Payouts.Ledger.Balance.{HasUniqueKeys}
use rasti_kiro_gpt.Settlement.Books.{
  Status, Books, Batch, Item, Level, InvoiceRow, TechnicianRow, exists, is_live,
}
use rasti_kiro_gpt.Settlement.Calculator.{
  Reason, net_layer2, wage_credit, debit_sum, sum_entries, classify, latest_escrow, direct_split,
  calculate_layer1, calculate_on, calculate_layer2, layer2_result, invoice_reversals, sum_field,
  entry_is_of,
}
use rasti_kiro_gpt.Settlement.Batches.{
  create_batch, add_invoice_item, lock_calculating, mark_ready, transition,
}
use rasti_kiro_gpt.Settlement.Calculator.Balance.{net_layer2-get_balance}
use rasti_kiro_gpt.Settlement.Planner.{
  Layer2PlanningItem, plan_layer1, plan_invoices, evaluate_layer1, refusal_layer1, evaluate_layer2,
  refusal_layer2, claims_technician, claims_invoice, adjusts_invoice, is_unresolved_for,
  judged_layer2,
}
use rasti_kiro_gpt.Settlement.Builder.{
  BuildResult, build_layer1, batch_layer1, add_layer1_items, add_layer1_item, finish_batch,
  save_totals, sum_of_batch, advance_escrows, build_layer2, nothing_built,
}
use rasti_kiro_gpt.Settlement.Builder.Linked.{IsSound, all_distributed}
use rasti_kiro_gpt.Settlement.Builder.Success.{build_layer1-succeeds}
use rasti_kiro_gpt.Settlement.Builder.Stuck.{failed_batch_stops_builds}
use rasti_kiro_gpt.Settlement.Claims.{IsExclusive, count_claims}
use rasti_kiro_gpt.Settlement.Claims.Layer1.{IsGuarded}
use rasti_kiro_gpt.Settlement.Claims.Steps.{begin, then, builds1, Reach-IsGuarded}
use rasti_kiro_gpt.Settlement.Claims.Again.{build_layer1_again}
use rasti_kiro_gpt.Settlement.Execution.{ExecutionStatus, outcome, execute_batch}
use rasti_kiro_gpt.Settlement.Execution.Outcome.{Outcome, execute_batch-Outcome}
use rasti_kiro_gpt.Settlement.Technician.Settled.{
  settle_technician, claimed_technician_blocked, write_all,
}

abbrev paid_invoice : ℕ → InvoiceRow
paid_invoice i = record {
  invoice_id = i;
  company = 1;
  status = InvoiceStatus.paid;
  total_amount = 1000;
  settled_technician_wage = 400;
  technician = some 7;
}

abbrev distributed_escrow : ℕ → ℕ → EscrowRecord
distributed_escrow payment invoice = record {
  company = 1;
  payment = payment;
  invoice = some invoice;
  amount_rial = 1000;
  platform_commission_rial = 50;
  organization_share_rial = 550;
  provider_share_rial = 400;
  status = EscrowStatus.distributed;
  distributed_at = some 5;
  settled_at = none;
  closed_at = none;
  settlement_batch = none;
}

abbrev wage_entry : Entry
wage_entry = record {
  request = record {
    company = 1;
    technician = 7;
    entry_type = EntryType.credit;
    source = Source.online_gateway;
    amount_rial = 400;
    idempotency_key = Key.technician_credit 10;
    invoice = some 10;
    payment = none;
    order = none;
  };
  balance_after = pos 400;
}

abbrev technician : TechnicianRow
technician = record { technician_id = 7; company = 1 }

abbrev books : Books
books = record {
  invoices = paid_invoice 10 ∷ paid_invoice 11 ∷ [];
  technicians = technician ∷ [];
  escrows = record {
    rows = (0, distributed_escrow 30 10) ∷ (1, distributed_escrow 31 11) ∷ [];
    next_pk = 2;
  };
  snapshots = [];
  ledger = wage_entry ∷ [];
  fees = [];
  adjustments = [];
  backfills = [];
  batches = [];
  items = [];
  next_batch = 0;
  next_item = 0;
  next_adjustment = 0;
}

books_escrows-IsValid : IsValid books.escrows
unfolding lookup find_by_payment
books_escrows-IsValid =
    (omega arith, refl, refl, ground arith, (omega arith, refl, refl, ground arith, tt))

books-IsSound : IsSound books
unfolding lookup
books-IsSound = record {
  below = tt;
  fresh = λ k h. refl;
  escrows = books_escrows-IsValid;
  distinct = (refl, (refl, tt));
}

build_layer1-succeeds_example :
    succeeds (build_layer1 1 0 10 books)
    ≡ (ltb 0 10 && all_distributed (plan_layer1 books 1).eligible_items books.escrows.rows)
build_layer1-succeeds_example = build_layer1-succeeds 1 0 10 books books-IsSound

net_layer2-get_balance_example :
    net_layer2 1 7 (wage_entry ∷ []) ≡ get_balance 1 7 (wage_entry ∷ [])
net_layer2-get_balance_example = net_layer2-get_balance 1 7 (wage_entry ∷ [])

ledger-HasUniqueKeys : HasUniqueKeys books.ledger
unfolding has_key
ledger-HasUniqueKeys = (refl, tt)

books-IsExclusive : IsExclusive books
unfolding count_claims
books-IsExclusive = λ c i. omega arith

abbrev claim : ℕ → Item
claim invoice = record {
  company = 1;
  batch = 0;
  invoice = some invoice;
  ledger_entry = none;
  platform_fee_entry = none;
  amount_rial = pos 550;
}

abbrev pending_escrow : ℕ → ℕ → EscrowRecord
pending_escrow payment invoice = record (distributed_escrow payment invoice) {
  status = EscrowStatus.pending_settlement;
  settlement_batch = some 0;
}

abbrev first_batch : Batch
first_batch = record {
  company = 1;
  level = Level.platform_to_org;
  status = Status.ready;
  net_amount_rial = pos 1100;
  total_credits = 1100;
  total_debits = 0;
  items_count = 2;
  executed_at = none;
}

abbrev first_result : BuildResult
first_result = record {
  batch = some 0;
  items_created = 2;
  net_amount_rial = pos 1100;
  total_credits = 1100;
  total_debits = 0;
}

abbrev batched_books : Books
batched_books = record books {
  escrows = record {
    rows = (0, pending_escrow 30 10) ∷ (1, pending_escrow 31 11) ∷ [];
    next_pk = 2;
  };
  batches = (0, first_batch) ∷ [];
  items = (1, claim 11) ∷ (0, claim 10) ∷ [];
  next_batch = 1;
  next_item = 2;
}

builds_first : build_layer1 1 0 10 books ≡ ok (first_result, batched_books)
unfolding build_layer1 batch_layer1 plan_layer1 plan_invoices evaluate_layer1 refusal_layer1
    calculate_layer1 calculate_on latest_escrow classify direct_split lookup save exists
    invoice_reversals sum_field create_batch add_layer1_items add_layer1_item add_invoice_item
    lock_calculating finish_batch save_totals sum_of_batch mark_ready transition advance_escrows
    mark_pending_settlement update await_settlement ◌-ℤ◌ ◌+ℤ◌
builds_first = refl

Reach-IsGuarded_example : IsGuarded batched_books
Reach-IsGuarded_example =
    Reach-IsGuarded (then begin (builds1 1 0 10 first_result builds_first))
      (record { sound = books-IsSound; exclusive = books-IsExclusive })

execute_batch-Outcome_example : Outcome 0 50 batched_books (execute_batch 0 50 batched_books)
execute_batch-Outcome_example = execute_batch-Outcome 0 50 batched_books

build_layer1_again_example : build_layer1 1 10 20 batched_books ≡ ok (nothing_built, batched_books)
build_layer1_again_example =
    build_layer1_again 1 0 10 books batched_books first_result 10 20 books-IsSound builds_first
      (omega arith)

-- The same company after its batch of invoice 10 has failed.
abbrev failed_books : Books
failed_books = record books {
  escrows = record {
    rows = (0, pending_escrow 30 10) ∷ (1, distributed_escrow 31 11) ∷ [];
    next_pk = 2;
  };
  batches = (0, record first_batch { status = Status.failed }) ∷ [];
  items = (0, claim 10) ∷ [];
  next_batch = 1;
  next_item = 1;
}

failed_books-IsSound : IsSound failed_books
unfolding lookup find_by_payment
failed_books-IsSound = record {
  below = (omega arith, tt);
  fresh = λ k h. ground arith;
  escrows = (omega arith, refl, refl, ground arith, (omega arith, refl, refl, ground arith, tt));
  distinct = (refl, (refl, tt));
}

failed_claim : exists (claims_invoice failed_books.batches 1 10) failed_books.items ≡ false
unfolding exists is_live lookup
failed_claim = refl

no_adjustment : exists (adjusts_invoice 1 10) failed_books.adjustments ≡ false
unfolding exists
no_adjustment = refl

no_backfill : exists (is_unresolved_for 1 10) failed_books.backfills ≡ false
unfolding exists
no_backfill = refl

failed_latest : latest_escrow 1 10 failed_books.escrows.rows ≡ some (0, pending_escrow 30 10)
unfolding latest_escrow
failed_latest = refl

failed_found : lookup 0 failed_books.batches ≡ some (record first_batch { status = Status.failed })
unfolding lookup
failed_found = refl

failed_batch_stops_builds_example : succeeds (build_layer1 1 10 20 failed_books) ≡ false
failed_batch_stops_builds_example =
    failed_batch_stops_builds failed_books (paid_invoice 10) 0 0 10 20 (pending_escrow 30 10)
      (record first_batch { status = Status.failed }) failed_books-IsSound (inl refl) refl
      failed_latest refl refl failed_found refl failed_claim no_adjustment no_backfill

abbrev payable_item : Layer2PlanningItem
payable_item = judged_layer2 1 technician (layer2_result books 1 technician) none

technician_eligible : evaluate_layer2 books 1 technician ≡ ok payable_item
unfolding evaluate_layer2 calculate_layer2 refusal_layer2 exists classify net_layer2 wage_credit
    debit_sum sum_entries ◌-ℤ◌
technician_eligible = refl

free_key : has_key (Key.settlement_item 0 0) books.ledger ≡ false
unfolding has_key
free_key = refl

settle_technician_example :
    (r : BuildResult) × (mid : Books) × (out : Books) × (build_layer2 1 0 10 (some technician) books
      ≡ ok (r, mid))
    × (r.batch ≡ some 0)
    × (execute_batch 0 50 mid ≡ ok (outcome ExecutionStatus.completed 1, out))
    × (get_balance 1 7 out.ledger ≡ pos 0)
    × (exists (claims_technician out.batches out.ledger 1 7) out.items ≡ true)
settle_technician_example =
    settle_technician books technician 0 10 50 payable_item books-IsSound ledger-HasUniqueKeys
      free_key (omega arith) technician_eligible refl

-- The technician is in the item of a COMPLETED batch.
abbrev settled_books : Books
settled_books = record books {
  batches =
      (0, record first_batch { level = Level.org_to_provider; status = Status.completed }) ∷ [];
  items =
      (0, record (claim 10) { invoice = none; ledger_entry = some (Key.technician_credit 10) })
      ∷ [];
  next_batch = 1;
  next_item = 1;
}

technician_claimed :
    exists (claims_technician settled_books.batches settled_books.ledger 1 7) settled_books.items
    ≡ true
unfolding exists is_live lookup entry_is_of find_key
technician_claimed = refl

abbrev new_wage : Request
new_wage = record wage_entry.request {
  idempotency_key = Key.technician_credit 12;
  invoice = some 12;
}

claimed_technician_blocked_example :
    let later = record settled_books { ledger = write_all (new_wage ∷ []) settled_books.ledger } in
    (item : Layer2PlanningItem) × (evaluate_layer2 later 1 technician ≡ ok item)
    × (item.eligible ≡ false)
    × (item.blocked_reason ≡ some Reason.item_in_batch)
    × (item.calculation.net_position_rial ≡ get_balance 1 7 later.ledger)
claimed_technician_blocked_example =
    claimed_technician_blocked settled_books technician (new_wage ∷ []) technician_claimed
