-- ===== src/Refunds/Documents.antt =====
-- `AdjustmentDocumentService` of apps/payouts/services_adjustment.py. A document's reason is only
-- tested for being blank, and its author is left out.
use rasti_kiro_gpt.Common.{
  ℕ, suc, Bool, true, false, not, ◌&&◌, none, some, List, [], ◌∷◌, ◌==◌, ltb,
}
use rasti_kiro_gpt.Common.Int.{ℤ, pos_part}
use rasti_kiro_gpt.Common.Table.{lookup, save}
use rasti_kiro_gpt.Common.Result.{Result, ok, ◌>>=◌, ◌>>◌, raise_if, or_raise}
use rasti_kiro_gpt.Common.Text.{strip}
use rasti_kiro_gpt.Payouts.Escrow.Defs.{Error as EscrowError}
use rasti_kiro_gpt.Settlement.Books.{
  DocumentType, DocumentStatus, AdjustmentDocument, InvoiceRow, Books, is_paid, is_refund,
}

-- `AdjustmentTransitionError`, `RefundExecutionBlockedError`, `ValueError`, `DoesNotExist`, and an
-- error of the escrow service.
pub data Error : Type 0 where
  adjustment_transition blocked value_error does_not_exist : Error
  escrow_failed : EscrowError → Error

abbrev pub is_draft : DocumentStatus → Bool
is_draft DocumentStatus.draft = true
is_draft _ = false

abbrev pub is_pending_approval : DocumentStatus → Bool
is_pending_approval DocumentStatus.pending_approval = true
is_pending_approval _ = false

abbrev pub is_approved : DocumentStatus → Bool
is_approved DocumentStatus.approved = true
is_approved _ = false

abbrev pub is_blank : List ℕ → Bool
is_blank [] = true
is_blank (c ∷ s) = false

abbrev pub draft_of : ℕ → InvoiceRow → DocumentType → ℕ → AdjustmentDocument
draft_of company inv document_type amount = record {
  company = company;
  document_type = document_type;
  status = DocumentStatus.draft;
  original_invoice = inv.invoice_id;
  amount_rial = amount;
  approved_by = none;
  approved_at = none;
  applied_at = none;
  technician_wage_reversal = none;
  platform_fee_reversal = none;
  company_share_reversal = none;
  technician_ledger_entry = none;
  platform_fee_entry = none;
}

-- `create_draft`: the key of the document, and the database with it
unfoldable pub create_draft :
    ℕ → InvoiceRow → DocumentType → ℤ → List ℕ → Books → Result Error (ℕ × Books)
unfolding strip
create_draft company inv document_type amount reason b = do
  raise_if (not (is_paid inv.status)) value_error
  raise_if (pos_part amount == 0) value_error
  raise_if (is_refund document_type && ltb inv.total_amount (pos_part amount)) value_error
  raise_if (is_blank (strip reason)) value_error
  ok (
    b.next_adjustment,
    record b {
      adjustments =
          save b.next_adjustment (draft_of company inv document_type (pos_part amount))
            b.adjustments;
      next_adjustment = suc b.next_adjustment;
    },
  )

-- A change of a document: the row is locked, tested and saved.
unfoldable pub change :
    (DocumentStatus → Bool)
    → (AdjustmentDocument → AdjustmentDocument)
    → ℕ
    → Books
    → Result Error Books
change from write pk b = do
  locked ← or_raise (lookup pk b.adjustments) does_not_exist
  raise_if (not (from locked.status)) adjustment_transition
  ok (record b { adjustments = save pk (write locked) b.adjustments })

unfoldable pub submit_for_approval : ℕ → Books → Result Error Books
submit_for_approval = change is_draft (λ d. record d { status = DocumentStatus.pending_approval })

-- `approve`, by a user at a time
unfoldable pub approve : ℕ → ℕ → ℕ → Books → Result Error Books
approve approved_by now = change is_pending_approval (λ d. record d {
  status = DocumentStatus.approved;
  approved_by = some approved_by;
  approved_at = some now;
})

unfoldable pub reject : ℕ → Books → Result Error Books
reject = change is_pending_approval (λ d. record d { status = DocumentStatus.rejected })

unfoldable pub cancel : ℕ → Books → Result Error Books
cancel = change is_draft (λ d. record d { status = DocumentStatus.cancelled })

unfoldable pub mark_applied : ℕ → ℕ → Books → Result Error Books
mark_applied now =
    change is_approved (λ d. record d { status = DocumentStatus.applied; applied_at = some now })
