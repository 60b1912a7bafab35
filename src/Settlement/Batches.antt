-- ===== src/Settlement/Batches.antt =====
-- `SettlementBatchService` and `SettlementItemService` of apps/payouts/services_settlement_batch.py.
-- The text of a failure reason and a bank reference are left out: no decision reads them.
use rasti_kiro_gpt.Common.{ℕ, suc, Bool, not, ◌||◌, none, some, ◌∷◌}
use rasti_kiro_gpt.Common.Int.{ℤ, pos}
use rasti_kiro_gpt.Common.Table.{lookup, save}
use rasti_kiro_gpt.Common.Result.{Result, ok, ◌>>=◌, ◌>>◌, raise_if, or_raise}
use rasti_kiro_gpt.Payouts.Ledger.Entry.{Key}
use rasti_kiro_gpt.Payouts.Fees.{FeeKey}
use rasti_kiro_gpt.Settlement.Books.{
  Books, Batch, Item, Level, Status, Error, is_calculating, is_ready, is_executing, is_completed,
  is_failed, batch_transition, item_not_allowed, does_not_exist, value_error,
}

abbrev pub new_batch : ℕ → Level → Batch
new_batch company level = record {
  company = company;
  level = level;
  status = Status.calculating;
  net_amount_rial = pos 0;
  total_credits = 0;
  total_debits = 0;
  items_count = 0;
  executed_at = none;
}

-- `create_batch`: the database with the batch, whose key was the next one
unfoldable pub create_batch : ℕ → Level → Books → Books
create_batch company level b = record b {
  batches = save b.next_batch (new_batch company level) b.batches;
  next_batch = suc b.next_batch;
}

-- A change of status: the row is locked, tested and saved.
unfoldable pub transition : (Status → Bool) → (Batch → Batch) → ℕ → Books → Result Error Books
transition from write pk b = do
  locked ← or_raise (lookup pk b.batches) does_not_exist
  raise_if (not (from locked.status)) batch_transition
  ok (record b { batches = save pk (write locked) b.batches })

unfoldable pub mark_ready : ℕ → Books → Result Error Books
mark_ready = transition is_calculating (λ batch. record batch { status = Status.ready })

unfoldable pub mark_executing : ℕ → Books → Result Error Books
mark_executing = transition is_ready (λ batch. record batch { status = Status.executing })

unfoldable pub mark_completed : ℕ → ℕ → Books → Result Error Books
mark_completed pk now =
    transition is_executing
      (λ batch. record batch { status = Status.completed; executed_at = some now }) pk

-- `mark_failed`, with whether a failure reason is given
unfoldable pub mark_failed : ℕ → Bool → Books → Result Error Books
mark_failed pk given b = do
  raise_if (not given) value_error
  transition is_executing (λ batch. record batch { status = Status.failed }) pk b

abbrev pub is_terminal : Batch → Bool
is_terminal batch = is_completed batch.status || is_failed batch.status

-- The row of a batch that may take items.
unfoldable pub lock_calculating : ℕ → Books → Result Error Batch
lock_calculating pk b = do
  locked ← or_raise (lookup pk b.batches) does_not_exist
  raise_if (not (is_calculating locked.status)) item_not_allowed
  ok locked

abbrev pub with_item : Item → Books → Books
with_item item b = record b { items = (b.next_item, item) ∷ b.items; next_item = suc b.next_item }

-- `add_invoice_item`
unfoldable pub add_invoice_item : ℕ → ℕ → ℤ → Books → Result Error Books
unfolding lock_calculating
add_invoice_item pk invoice amount b = do
  batch ← lock_calculating pk b
  ok (
      with_item
        (record {
          company = batch.company;
          batch = pk;
          invoice = some invoice;
          ledger_entry = none;
          platform_fee_entry = none;
          amount_rial = amount;
        })
        b)

-- `add_ledger_item`
unfoldable pub add_ledger_item : ℕ → Key → ℤ → Books → Result Error Books
unfolding lock_calculating
add_ledger_item pk entry amount b = do
  batch ← lock_calculating pk b
  ok (
      with_item
        (record {
          company = batch.company;
          batch = pk;
          invoice = none;
          ledger_entry = some entry;
          platform_fee_entry = none;
          amount_rial = amount;
        })
        b)

-- `add_platform_fee_item`, which nothing calls
unfoldable pub add_platform_fee_item : ℕ → FeeKey → ℤ → Books → Result Error Books
unfolding lock_calculating
add_platform_fee_item pk entry amount b = do
  batch ← lock_calculating pk b
  ok (
      with_item
        (record {
          company = batch.company;
          batch = pk;
          invoice = none;
          ledger_entry = none;
          platform_fee_entry = some entry;
          amount_rial = amount;
        })
        b)
