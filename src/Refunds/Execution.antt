-- ===== src/Refunds/Execution.antt =====
-- `RefundExecutionService` of apps/payouts/services_refund_execution.py. An error of the inner
-- transaction is raised on, so that an error carries no state. A split snapshot stands under its
-- payment, whose company is the document's.
use rasti_kiro_gpt.Common.{
  ℕ, Bool, true, false, not, ◌&&◌, ◌||◌, Option, none, some, List, [], ◌∷◌, ◌==◌, same_key, is_some,
  if◌then◌else◌,
}
use rasti_kiro_gpt.Common.Int.{pos}
use rasti_kiro_gpt.Common.Table.{Table, lookup, save}
use rasti_kiro_gpt.Common.Result.{Result, ok, err, ◌>>=◌, ◌>>◌, raise_if, or_raise}
use rasti_kiro_gpt.Payouts.Split.{Decision}
use rasti_kiro_gpt.Payouts.Escrow.Defs.{
  Status as EscrowStatus, EscrowRecord, Error as EscrowError, close,
}
use rasti_kiro_gpt.Payouts.Ledger.Entry.{EntryType, Source, Key, Request, is_debit}
use rasti_kiro_gpt.Payouts.Ledger.Write.{create_debit}
use rasti_kiro_gpt.Payouts.Fees.{FeeKey, FeeEntry, Fees, has_fee, record_manual_credit}
use rasti_kiro_gpt.Settlement.Books.{
  DocumentType, AdjustmentDocument, InvoiceRow, Books, is_applied,
}
use rasti_kiro_gpt.Settlement.Calculator.{latest_escrow}
use rasti_kiro_gpt.Refunds.Documents.{
  Error, is_approved, mark_applied, adjustment_transition, blocked, does_not_exist, escrow_failed,
}

-- The two values of `RefundExecutionResult.status`.
pub data RefundStatus : Type 0 where
  applied already_applied : RefundStatus

-- `RefundExecutionResult`
pub record RefundResult : Type 0 where
  pub status : RefundStatus
  pub platform_fee_entry_created : Bool
  pub technician_ledger_entry_created : Bool
  pub escrow_closed : Bool

abbrev pub is_full_refund : DocumentType → Bool
is_full_refund DocumentType.full_refund = true
is_full_refund _ = false

abbrev pub is_closed : EscrowStatus → Bool
is_closed EscrowStatus.closed = true
is_closed _ = false

abbrev pub is_over : EscrowStatus → Bool
is_over EscrowStatus.settled = true
is_over EscrowStatus.closed = true
is_over _ = false

-- `snapshot is not None and snapshot.should_split_with_technician`
unfoldable pub was_split : ℕ → Table Decision → Bool
was_split payment snapshots = elim (lookup payment snapshots) [
  | none ↦ false
  | some d ↦ d.should_split_with_technician
]

-- Whether the newest escrow record of the invoice blocks the refund.
abbrev pub blocks : Table Decision → Option (ℕ × EscrowRecord) → Bool
blocks snapshots none = false
blocks snapshots (some (pk, e)) = is_over e.status || was_split e.payment snapshots

-- `_validate_safe_scope`
unfoldable pub validate_safe_scope : AdjustmentDocument → Books → Result Error (Unit {0})
validate_safe_scope d b =
    raise_if (not (is_full_refund d.document_type)) blocked
    >> raise_if (blocks b.snapshots (latest_escrow d.company d.original_invoice b.escrows.rows))
        blocked

-- `CompanyPlatformFeeEntry.objects.filter(...).first()`, the newest
unfoldable pub find_fee_debit : ℕ → ℕ → Fees → Option FeeEntry
find_fee_debit company invoice [] = none
find_fee_debit company invoice (e ∷ fees) =
    if e.company == company && same_key e.invoice (some invoice) && is_debit e.entry_type
    then some e
    else find_fee_debit company invoice fees

-- Whether an entry was made, the document object, and the database.
pub record Progress : Type 0 where
  pub made : Bool
  pub document : AdjustmentDocument
  pub books : Books

abbrev pub unmade : AdjustmentDocument → Books → Progress
unmade d b = record { made = false; document = d; books = b }

-- `document.save(update_fields=...)` after an entry was made; no one else writes the locked row.
abbrev pub saved : ℕ → AdjustmentDocument → Books → Progress
saved pk d b = record {
  made = true;
  document = d;
  books = record b { adjustments = save pk d b.adjustments };
}

-- `_reverse_platform_fee`
unfoldable pub reverse_platform_fee : ℕ → InvoiceRow → AdjustmentDocument → Books → Progress
reverse_platform_fee pk inv d b = elim (find_fee_debit d.company inv.invoice_id b.fees) [
  | none ↦ unmade d b
  | some original ↦
      let key = FeeKey.adjustment pk in
      let b' = record b { fees = record_manual_credit d.company original.amount_rial key b.fees } in
      if has_fee key b.fees
      then unmade d b'
      else saved pk
          (record d {
            platform_fee_reversal = some (pos original.amount_rial);
            platform_fee_entry = some key;
          })
          b'
]

abbrev pub wage_refund : ℕ → InvoiceRow → ℕ → ℕ → Request
wage_refund pk inv company technician = record {
  company = company;
  technician = technician;
  entry_type = EntryType.debit;
  source = Source.refund;
  amount_rial = inv.settled_technician_wage;
  idempotency_key = Key.adjustment_wage pk;
  invoice = some inv.invoice_id;
  payment = none;
  order = none;
}

-- `_reverse_technician_wage`
unfoldable pub reverse_technician_wage : ℕ → InvoiceRow → AdjustmentDocument → Books → Progress
reverse_technician_wage pk inv d b =
    if inv.settled_technician_wage == 0 then unmade d b else elim inv.technician [
      | none ↦ unmade d b
      | some technician ↦
          let (entry, ledger) = create_debit (wage_refund pk inv d.company technician) b.ledger in
          let b' = record b { ledger = ledger } in
          if is_some entry
          then saved pk
              (record d {
                technician_wage_reversal = some (pos inv.settled_technician_wage);
                technician_ledger_entry = some (Key.adjustment_wage pk);
              })
              b'
          else unmade d b'
    ]

abbrev pub lift {ℓ} : {A : Type ℓ} → Result EscrowError A → Result Error A
lift (ok a) = ok a
lift (err e) = err (escrow_failed e)

-- `_close_escrow_if_applicable`
unfoldable pub close_escrow : ℕ → ℕ → ℕ → Books → Result Error (Bool × Books)
close_escrow company invoice now b = elim (latest_escrow company invoice b.escrows.rows) [
  | none ↦ ok (false, b)
  | some (pk, e) ↦
      if is_closed e.status
      then ok (false, b)
      else lift (close pk now b.escrows) >>= λ step. ok (true, record b { escrows = step.1 })
]

-- `locked.original_invoice`
unfoldable pub find_invoice : ℕ → List InvoiceRow → Option InvoiceRow
find_invoice i [] = none
find_invoice i (inv ∷ invs) = if inv.invoice_id == i then some inv else find_invoice i invs

abbrev pub nothing_refunded : RefundResult
nothing_refunded = record {
  status = already_applied;
  platform_fee_entry_created = false;
  technician_ledger_entry_created = false;
  escrow_closed = false;
}

-- The inner transaction.
unfoldable pub reverse :
    ℕ → InvoiceRow → AdjustmentDocument → ℕ → Books → Result Error (RefundResult × Books)
reverse pk inv d now b = do
  let fee = reverse_platform_fee pk inv d b
  let wage = reverse_technician_wage pk inv fee.document fee.books
  closed ← close_escrow d.company inv.invoice_id now wage.books
  done ← mark_applied now pk closed.1
  ok (
    record {
      status = applied;
      platform_fee_entry_created = fee.made;
      technician_ledger_entry_created = wage.made;
      escrow_closed = closed.0;
    },
    done,
  )

-- `execute`
unfoldable pub execute : ℕ → ℕ → Books → Result Error (RefundResult × Books)
execute pk now b = do
  locked ← or_raise (lookup pk b.adjustments) does_not_exist
  if is_applied locked.status
      then ok (nothing_refunded, b)
      else raise_if (not (is_approved locked.status)) adjustment_transition
        >> (validate_safe_scope locked b
            >> (or_raise (find_invoice locked.original_invoice b.invoices) does_not_exist >>= λ inv.
                reverse pk inv locked now b))
