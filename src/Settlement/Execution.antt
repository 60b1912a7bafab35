-- ===== src/Settlement/Execution.antt =====
-- `SettlementExecutionEngine` of apps/payouts/services_settlement_execution.py. The inner savepoint
-- is rolled back by an error, so what follows an error starts from the state before it; every
-- exception there has a text, so that `mark_failed` is given a reason.
pub mod Completion
pub mod Outcome
use rasti_kiro_gpt.Common.{
  ℕ, ◌+◌, Bool, true, false, not, ◌&&◌, none, some, [], ◌∷◌, ◌==◌, ltb, same_key, is_some,
  if◌then◌else◌,
}
use rasti_kiro_gpt.Common.Table.{Table, lookup}
use rasti_kiro_gpt.Common.Result.{Result, ok, err, ◌>>=◌, or_raise}
use rasti_kiro_gpt.Payouts.Escrow.Defs.{EscrowRecord, Escrows, mark_settled}
use rasti_kiro_gpt.Payouts.Ledger.Entry.{Key, Ledger, find_key}
use rasti_kiro_gpt.Payouts.Ledger.Write.{Direction, Error as WriteError, record_manual_settlement}
use rasti_kiro_gpt.Payouts.Fees.{FeeKey, Fees, has_fee, record_manual_credit}
use rasti_kiro_gpt.Settlement.Books.{
  Books, Batch, Item, Level, Error, is_completed, does_not_exist, attribute_error, value_error,
  execution_error,
}
use rasti_kiro_gpt.Settlement.Batches.{mark_executing, mark_completed, mark_failed}
use rasti_kiro_gpt.Settlement.Builder.{lift_escrow}

pub data ExecutionStatus : Type 0 where
  completed already_completed failed : ExecutionStatus

-- `ExecutionResult`
pub record ExecutionResult : Type 0 where
  pub status : ExecutionStatus
  pub ledger_entries_created : ℕ

-- `EscrowRecord.objects.filter(company=batch.company, settlement_batch=batch)`
unfoldable pub escrows_of : ℕ → ℕ → Table EscrowRecord → Table EscrowRecord
escrows_of company batch [] = []
escrows_of company batch ((pk, e) ∷ rows) =
    let rest = escrows_of company batch rows in
    if e.company == company && same_key e.settlement_batch (some batch)
    then (pk, e) ∷ rest
    else rest

unfoldable pub total_commission : Table EscrowRecord → ℕ
total_commission [] = 0
total_commission ((pk, e) ∷ rows) = e.platform_commission_rial + total_commission rows

-- `mark_settled` for each of them
unfoldable pub settle_escrows : ℕ → ℕ → Table EscrowRecord → Escrows → Result Error Escrows
settle_escrows batch now [] escrows = ok escrows
settle_escrows batch now ((pk, e) ∷ rows) escrows =
    lift_escrow (mark_settled pk (some batch) now escrows) >>= λ step.
    settle_escrows batch now rows step.1

abbrev pub one_if : Bool → ℕ
one_if true = 1
one_if false = 0

-- The credit of the company's fee ledger, if there is a commission.
unfoldable pub credit_fees : ℕ → ℕ → ℕ → Fees → ℕ × Fees
credit_fees company batch total fees =
    if ltb 0 total
    then (
      one_if (not (has_fee (FeeKey.settlement_batch batch) fees)),
      record_manual_credit company total (FeeKey.settlement_batch batch) fees,
    )
    else (0, fees)

-- `_complete_layer1`
unfoldable pub complete_layer1 : ℕ → Batch → ℕ → Books → Result Error (ℕ × Books)
complete_layer1 pk batch now b = do
  let escrows = escrows_of batch.company pk b.escrows.rows
  let fees = credit_fees batch.company pk (total_commission escrows) b.fees
  settled ← settle_escrows pk now escrows b.escrows
  ok (fees.0, record b { fees = fees.1; escrows = settled })

abbrev pub lift_write {ℓ} : {A : Type ℓ} → Result WriteError A → Result Error A
lift_write (ok a) = ok a
lift_write (err e) = err value_error

-- What an item pays to the technician of its ledger entry.
unfoldable pub pay_item : ℕ → ℕ → ℕ → Item → Key → Ledger → Result Error (ℕ × Ledger)
pay_item company pk item_pk item key ledger = do
  entry ← or_raise (find_key key ledger) attribute_error
  step ← lift_write (
      record_manual_settlement company entry.technician item.amount_rial
        Direction.company_paid_technician (some (Key.settlement_item pk item_pk)) 0 ledger)
  ok (one_if (is_some step.0), step.1)

abbrev pub is_item_of : ℕ → ℕ → Item → Bool
is_item_of company pk item = item.company == company && item.batch == pk

unfoldable pub pay_of : ℕ → ℕ → ℕ → Item → ℕ × Ledger → Result Error (ℕ × Ledger)
pay_of company pk item_pk item (n, ledger) =
    if is_item_of company pk item
    then elim item.ledger_entry [
      | none ↦ ok (n, ledger)
      | some key ↦ pay_item company pk item_pk item key ledger >>= λ step. ok (n + step.0, step.1)
    ]
    else ok (n, ledger)

-- The items of the batch that have a ledger entry, the oldest first
unfoldable pub pay_items : ℕ → ℕ → Table Item → Ledger → Result Error (ℕ × Ledger)
pay_items company pk [] ledger = ok (0, ledger)
pay_items company pk ((item_pk, item) ∷ items) ledger =
    pay_items company pk items ledger >>= λ before. pay_of company pk item_pk item before

-- `_complete_layer2`
unfoldable pub complete_layer2 : ℕ → Batch → Books → Result Error (ℕ × Books)
complete_layer2 pk batch b = do
  paid ← pay_items batch.company pk b.items b.ledger
  ok (paid.0, record b { ledger = paid.1 })

-- `_complete_batch`
unfoldable pub complete_batch : ℕ → Batch → ℕ → Books → Result Error (ℕ × Books)
complete_batch pk batch now b = elim batch.level [
  | Level.platform_to_org ↦ complete_layer1 pk batch now b
  | Level.org_to_provider ↦ complete_layer2 pk batch b
  | Level.unknown ↦ err execution_error
]

-- The inner transaction.
unfoldable pub complete : ℕ → Batch → ℕ → Books → Result Error (ℕ × Books)
complete pk batch now b = do
  step ← complete_batch pk batch now b
  b' ← mark_completed pk now step.1
  ok (step.0, b')

abbrev pub outcome : ExecutionStatus → ℕ → ExecutionResult
outcome status n = record { status = status; ledger_entries_created = n }

-- What follows the inner transaction, from the state before it.
unfoldable pub conclude :
    ℕ → Books → Result Error (ℕ × Books) → Result Error (ExecutionResult × Books)
conclude pk b (ok (n, b')) = ok (outcome ExecutionStatus.completed n, b')
conclude pk b (err e) = do b' ← mark_failed pk true b; ok (outcome ExecutionStatus.failed 0, b')

-- `execute_batch`
unfoldable pub execute_batch : ℕ → ℕ → Books → Result Error (ExecutionResult × Books)
execute_batch pk now b = do
  locked ← or_raise (lookup pk b.batches) does_not_exist
  if is_completed locked.status
      then ok (outcome ExecutionStatus.already_completed 0, b)
      else mark_executing pk b >>= λ running. conclude pk running (complete pk locked now running)
