-- ===== src/Settlement/Books.antt =====
-- The rows of apps/payouts/models.py that the settlement chain reads and writes: SettlementBatch,
-- SettlementItem, AdjustmentDocument and FinancialBackfillTask, with what it reads of others.
-- A ledger entry is named by its idempotency key, which is unique. Items stand newest first, and the
-- escrow records in the order of `held_at`, in which they are created.
use rasti_kiro_gpt.Common.{ℕ, Bool, true, false, not, ◌||◌, Option, none, some, List, [], ◌∷◌}
use rasti_kiro_gpt.Common.Int.{ℤ}
use rasti_kiro_gpt.Common.Table.{Table, lookup}
use rasti_kiro_gpt.Invoice.Status.{Status as InvoiceStatus}
use rasti_kiro_gpt.Payouts.Split.{Decision}
use rasti_kiro_gpt.Payouts.Escrow.Defs.{Escrows, Error as EscrowError}
use rasti_kiro_gpt.Payouts.Ledger.Entry.{Key, Ledger}
use rasti_kiro_gpt.Payouts.Fees.{FeeKey, Fees}

-- `SettlementBatch.Level`; `unknown` is any other text in the column.
pub data Level : Type 0 where
  platform_to_org org_to_provider unknown : Level

-- `SettlementBatch.Status`
pub data Status : Type 0 where
  calculating ready executing completed failed : Status

pub record Batch : Type 0 where
  pub company : ℕ
  pub level : Level
  pub status : Status
  pub net_amount_rial : ℤ
  pub total_credits : ℕ
  pub total_debits : ℕ
  pub items_count : ℕ
  pub executed_at : Option ℕ

-- `SettlementItem`
pub record Item : Type 0 where
  pub company : ℕ
  pub batch : ℕ
  pub invoice : Option ℕ
  pub ledger_entry : Option Key
  pub platform_fee_entry : Option FeeKey
  pub amount_rial : ℤ

-- `AdjustmentDocument.DocumentType`
pub data DocumentType : Type 0 where
  full_refund partial_refund credit_note debit_note manual_adjustment : DocumentType

-- `AdjustmentDocument.Status`
pub data DocumentStatus : Type 0 where
  draft pending_approval approved applied rejected cancelled : DocumentStatus

pub record AdjustmentDocument : Type 0 where
  pub company : ℕ
  pub document_type : DocumentType
  pub status : DocumentStatus
  pub original_invoice : ℕ
  pub amount_rial : ℕ
  pub approved_by : Option ℕ
  pub approved_at : Option ℕ
  pub applied_at : Option ℕ
  pub technician_wage_reversal : Option ℤ
  pub platform_fee_reversal : Option ℤ
  pub company_share_reversal : Option ℤ
  pub technician_ledger_entry : Option Key
  pub platform_fee_entry : Option FeeKey

-- `FinancialBackfillTask.TaskType`; the code creates tasks of type "escrow_record" too.
pub data TaskType : Type 0 where
  technician_ledger platform_fee payment_split_snapshot : TaskType
  direct_gateway_settlement escrow_record : TaskType

-- `FinancialBackfillTask.Status`
pub data TaskStatus : Type 0 where
  pending processing resolved failed : TaskStatus

pub record BackfillTask : Type 0 where
  pub company : ℕ
  pub task_type : TaskType
  pub status : TaskStatus
  pub invoice : Option ℕ

-- What is read of an invoice; `technician` is that of its order, and a wage that is not settled is 0.
pub record InvoiceRow : Type 0 where
  pub invoice_id : ℕ
  pub company : ℕ
  pub status : InvoiceStatus
  pub total_amount : ℕ
  pub settled_technician_wage : ℕ
  pub technician : Option ℕ

-- What is read of a technician.
pub record TechnicianRow : Type 0 where
  pub technician_id : ℕ
  pub company : ℕ

-- The database as the chain uses it; a split snapshot stands under its payment.
pub record Books : Type 0 where
  pub invoices : List InvoiceRow
  pub technicians : List TechnicianRow
  pub escrows : Escrows
  pub snapshots : Table Decision
  pub ledger : Ledger
  pub fees : Fees
  pub adjustments : Table AdjustmentDocument
  pub backfills : List BackfillTask
  pub batches : Table Batch
  pub items : Table Item
  pub next_batch : ℕ
  pub next_item : ℕ
  pub next_adjustment : ℕ

-- `SettlementBatchTransitionError`, `SettlementItemNotAllowedError`, `SettlementBatchBuilderError` by
-- what it is raised for, an error of the escrow service, `DoesNotExist`, `AttributeError` and
-- `ValueError`.
pub data Error : Type 0 where
  batch_transition item_not_allowed : Error
  bad_period receivable other_company totals_differ not_payable no_entries : Error
  escrow_failed : EscrowError → Error
  does_not_exist attribute_error execution_error value_error foreign_technician : Error

abbrev pub is_calculating : Status → Bool
is_calculating Status.calculating = true
is_calculating _ = false

abbrev pub is_ready : Status → Bool
is_ready Status.ready = true
is_ready _ = false

abbrev pub is_executing : Status → Bool
is_executing Status.executing = true
is_executing _ = false

abbrev pub is_completed : Status → Bool
is_completed Status.completed = true
is_completed _ = false

abbrev pub is_failed : Status → Bool
is_failed Status.failed = true
is_failed _ = false

abbrev pub is_paid : InvoiceStatus → Bool
is_paid InvoiceStatus.paid = true
is_paid _ = false

-- `_REFUND_DOCUMENT_TYPES`; the other types are `_ADJUSTMENT_DOCUMENT_TYPES`.
abbrev pub is_refund : DocumentType → Bool
is_refund DocumentType.full_refund = true
is_refund DocumentType.partial_refund = true
is_refund _ = false

abbrev pub is_applied : DocumentStatus → Bool
is_applied DocumentStatus.applied = true
is_applied _ = false

-- `_PENDING_ADJUSTMENT_STATUSES`
abbrev pub is_pending_adjustment : DocumentStatus → Bool
is_pending_adjustment DocumentStatus.draft = true
is_pending_adjustment DocumentStatus.pending_approval = true
is_pending_adjustment DocumentStatus.approved = true
is_pending_adjustment _ = false

-- `_UNRESOLVED_BACKFILL_STATUSES`
abbrev pub is_unresolved : TaskStatus → Bool
is_unresolved TaskStatus.resolved = false
is_unresolved _ = true

abbrev pub is_ledger_task : TaskType → Bool
is_ledger_task TaskType.technician_ledger = true
is_ledger_task _ = false

-- `exclude(batch__status=FAILED)`, for the batch with a key
unfoldable pub is_live : Table Batch → ℕ → Bool
is_live batches pk = elim (lookup pk batches) [
  | none ↦ true
  | some batch ↦ not (is_failed batch.status)
]

-- Whether some row of a list passes a test: `filter(...).exists()`
unfoldable pub exists {ℓ} : {A : Type ℓ} → (A → Bool) → List A → Bool
exists test [] = false
exists test (x ∷ xs) = test x || exists test xs
