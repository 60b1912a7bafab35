-- ===== src/Invoice/Cancelling.antt =====
-- `InvoiceCancelService` and `InvoiceCancellationGuard` of apps/invoices/services.py, and
-- `InvoiceCancellationRequestService` of apps/invoices/services_cancel_request.py. Of an invoice only
-- its status counts here, and notes, reasons and reviewers are left out.
pub mod Requests
use rasti_kiro_gpt.Common.{
  ℕ, suc, ◌+◌, ◌≤◌, ◌<◌, ◌≡◌, ◌≢◌, ◌∙◌, sym, refl, Bool, true, false, not, ◌&&◌, Option, none, some,
  List, [], ◌∷◌, ◌==◌, ltb, if◌then◌else◌, arith, Bool-cases, Option-cases, inl, inr,
}
use rasti_kiro_gpt.Common.Table.{Table, lookup, save, lookup-save_self, lookup-save_ne}
use rasti_kiro_gpt.Common.Result.{Result, ok, err, ◌>>=◌, ◌>>◌, raise_if, or_raise, >>=-eq-ok}
use rasti_kiro_gpt.Invoice.Status.{Status as InvoiceStatus, is_open}

-- `InvoiceCancellationRequest.Status`
pub data Status : Type 0 where
  pending approved rejected : Status

-- `InvoiceCancellationRequest`
pub record Request : Type 0 where
  pub invoice : ℕ
  pub status : Status

pub record Desk : Type 0 where
  pub invoices : Table InvoiceStatus
  pub requests : Table Request
  pub next_request : ℕ

pub data Error : Type 0 where
  does_not_exist not_cancellable already_pending not_pending invoice_paid : Error

abbrev pub is_pending : Status → Bool
is_pending Status.pending = true
is_pending _ = false

abbrev pub is_paid : InvoiceStatus → Bool
is_paid InvoiceStatus.paid = true
is_paid _ = false

-- The number of PENDING requests of an invoice.
unfoldable pub pending_count : ℕ → Table Request → ℕ
pending_count invoice [] = 0
pending_count invoice ((k, r) ∷ requests) =
    (if r.invoice == invoice && is_pending r.status then 1 else 0) + pending_count invoice requests

-- `InvoiceCancellationGuard.has_pending_request`
unfoldable pub has_pending_request : ℕ → Desk → Bool
unfolding pending_count
has_pending_request invoice d = ltb 0 (pending_count invoice d.requests)

-- `InvoiceCancelService.cancel` of an invoice object with the given status
unfoldable pub cancel : ℕ → InvoiceStatus → Desk → Result Error Desk
cancel invoice status d = do
  raise_if (not (is_open status)) not_cancellable
  ok (record d { invoices = save invoice InvoiceStatus.cancelled d.invoices })

-- `InvoiceCancellationRequestService.request`
unfoldable pub request : ℕ → Desk → Result Error Desk
request invoice d = do
  status ← or_raise (lookup invoice d.invoices) does_not_exist
  raise_if (not (is_open status)) not_cancellable
  raise_if (has_pending_request invoice d) already_pending
  ok (record d {
    requests =
        save d.next_request (record { invoice = invoice; status = Status.pending }) d.requests;
    next_request = suc d.next_request;
  })

abbrev pub review : ℕ → Request → Status → Desk → Desk
review pk r status d = record d { requests = save pk (record r { status = status }) d.requests }

-- `InvoiceCancellationRequestService.approve`
unfoldable pub approve : ℕ → Desk → Result Error Desk
approve pk d = do
  r ← or_raise (lookup pk d.requests) does_not_exist
  status ← or_raise (lookup r.invoice d.invoices) does_not_exist
  raise_if (not (is_pending r.status)) not_pending
  raise_if (is_paid status) invoice_paid
  d' ← cancel r.invoice status d
  ok (review pk r Status.approved d')

-- `InvoiceCancellationRequestService.reject`
unfoldable pub reject : ℕ → Desk → Result Error Desk
reject pk d = do
  r ← or_raise (lookup pk d.requests) does_not_exist
  raise_if (not (is_pending r.status)) not_pending
  ok (review pk r Status.rejected d)
