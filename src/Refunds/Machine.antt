-- ===== src/Refunds/Machine.antt =====
-- The life of an adjustment document: DRAFT, PENDING_APPROVAL, APPROVED, APPLIED, with REJECTED and
-- CANCELLED as the other ends.
use rasti_kiro_gpt.Common.{
  ℕ, ◌≡◌, ◌≢◌, refl, ap, ◌∙◌, Bool, true, some, arith, Bool-cases, Option-cases, inl, inr,
}
use rasti_kiro_gpt.Common.Table.{lookup, save, lookup-save_self, lookup-save_ne}
use rasti_kiro_gpt.Common.Result.{Result, ok}
use rasti_kiro_gpt.Settlement.Books.{DocumentStatus, AdjustmentDocument, Books}
use rasti_kiro_gpt.Refunds.Documents.{
  Error, is_draft, is_pending_approval, is_approved, change, submit_for_approval, approve, reject,
  cancel, mark_applied,
}

-- The documented transitions.
pub data Allowed : DocumentStatus → DocumentStatus → Type 0 where
  submitting : Allowed DocumentStatus.draft DocumentStatus.pending_approval
  cancelling : Allowed DocumentStatus.draft DocumentStatus.cancelled
  approving : Allowed DocumentStatus.pending_approval DocumentStatus.approved
  rejecting : Allowed DocumentStatus.pending_approval DocumentStatus.rejected
  applying : Allowed DocumentStatus.approved DocumentStatus.applied

pub data Call : Type 0 where
  submits rejects cancels : Call
  approves : (approved_by now : ℕ) → Call
  applies : (now : ℕ) → Call

-- A call of the service on a stored document
unfoldable pub call : Call → ℕ → Books → Result Error Books
call submits = submit_for_approval
call rejects = reject
call cancels = cancel
call (approves approved_by now) = approve approved_by now
call (applies now) = mark_applied now

-- One document has moved, and what it orders is as it was.
pub record Moves (pk : ℕ) (b out : Books) : Type 0 where
  pub before : AdjustmentDocument
  pub after : AdjustmentDocument
  pub found : lookup pk b.adjustments ≡ some before
  pub stored : lookup pk out.adjustments ≡ some after
  pub allowed : Allowed before.status after.status
  pub same_type : after.document_type ≡ before.document_type
  pub same_amount : after.amount_rial ≡ before.amount_rial
  pub same_invoice : after.original_invoice ≡ before.original_invoice
  pub others : (k : ℕ) → k ≢ pk → lookup k out.adjustments ≡ lookup k b.adjustments

change-eq-ok :
    (from : DocumentStatus → Bool) (write : AdjustmentDocument → AdjustmentDocument) (pk : ℕ)
    (b out : Books)
    → change from write pk b ≡ ok out
    → (d : AdjustmentDocument) × (lookup pk b.adjustments ≡ some d)
      × (from d.status ≡ true)
      × (out ≡ record b { adjustments = save pk (write d) b.adjustments })
unfolding change
change-eq-ok from write pk b out h = elim (Option-cases (lookup pk b.adjustments)) [
  | inl missing ↦ absurd (ground arith)
  | inr (d, found) ↦ elim (Bool-cases (from d.status)) [
    | inl e ↦ (d, found, e, ground arith)
    | inr e ↦ absurd (ground arith)
  ]
]

change-Moves :
    (from : DocumentStatus → Bool) (write : AdjustmentDocument → AdjustmentDocument) (pk : ℕ)
    (b out : Books)
    → change from write pk b ≡ ok out
    → ((d : AdjustmentDocument)
        → from d.status ≡ true
        → Allowed d.status (write d).status
          × ((write d).document_type ≡ d.document_type)
          × ((write d).amount_rial ≡ d.amount_rial)
          × ((write d).original_invoice ≡ d.original_invoice))
    → Moves pk b out
change-Moves from write pk b out h step =
    let (d, found, passed, e) = change-eq-ok from write pk b out h in
    let (allowed, same_type, same_amount, same_invoice) = step d passed in
    record {
      before = d;
      after = write d;
      found = found;
      stored =
          ◌∙◌ (ap (λ (x : Books). lookup pk x.adjustments) e)
            (lookup-save_self pk (write d) b.adjustments);
      allowed = allowed;
      same_type = same_type;
      same_amount = same_amount;
      same_invoice = same_invoice;
      others = λ k ne.
          ◌∙◌ (ap (λ (x : Books). lookup k x.adjustments) e)
            (lookup-save_ne k pk (write d) b.adjustments ne);
    }

from_draft : (s : DocumentStatus) → is_draft s ≡ true → s ≡ DocumentStatus.draft
from_draft s h = ground arith

from_pending :
    (s : DocumentStatus) → is_pending_approval s ≡ true → s ≡ DocumentStatus.pending_approval
from_pending s h = ground arith

from_approved : (s : DocumentStatus) → is_approved s ≡ true → s ≡ DocumentStatus.approved
from_approved s h = ground arith

-- Every call of the document service that succeeds makes a documented transition of its document,
-- keeps the document's type, amount and invoice, and leaves every other document as it is.
pub call-Moves : (c : Call) (pk : ℕ) (b out : Books) → call c pk b ≡ ok out → Moves pk b out
unfolding call submit_for_approval approve reject cancel mark_applied
call-Moves submits pk b out h =
    change-Moves _ _ pk b out h
      (λ d passed. (rw (from_draft d.status passed) submitting, refl, refl, refl))
call-Moves rejects pk b out h =
    change-Moves _ _ pk b out h
      (λ d passed. (rw (from_pending d.status passed) rejecting, refl, refl, refl))
call-Moves cancels pk b out h =
    change-Moves _ _ pk b out h
      (λ d passed. (rw (from_draft d.status passed) cancelling, refl, refl, refl))
call-Moves (approves approved_by now) pk b out h =
    change-Moves _ _ pk b out h
      (λ d passed. (rw (from_pending d.status passed) approving, refl, refl, refl))
call-Moves (applies now) pk b out h =
    change-Moves _ _ pk b out h
      (λ d passed. (rw (from_approved d.status passed) applying, refl, refl, refl))
