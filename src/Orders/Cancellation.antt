-- ===== src/Orders/Cancellation.antt =====
-- `OrderCancelService` of apps/orders/services.py and `OrderCancelReviewService` of
-- apps/orders/cancel_review_service.py.
use rasti_kiro_gpt.Common.{
  ℕ, Bool, true, false, ◌&&◌, not, Option, none, some, List, [], ◌∷◌, ◌==◌, is_some, if◌then◌else◌,
}
use rasti_kiro_gpt.Common.Result.{Result, ok, ◌>>=◌, ◌>>◌, raise_if}
use rasti_kiro_gpt.Orders.Model.{
  Status, Order, StatusLog, Notice, Db, Error, transition, notify, same_status, is_terminal,
  wrong_status, access_denied,
}

-- NEW, WAITING and IN_PROGRESS
abbrev pub is_cancellable : Status → Bool
is_cancellable Status.new = true
is_cancellable Status.waiting = true
is_cancellable Status.in_progress = true
is_cancellable _ = false

-- `OrderCancelService.request_cancel`
unfoldable pub request_cancel : Order → Option ℕ → Db → Result Error Db
request_cancel order requested_by db = do
  raise_if (not (is_cancellable order.status)) wrong_status
  db' ←
      transition order (λ row. record row { status = Status.cancel_requested }) order.status
        Status.cancel_requested requested_by db
  ok (notify (Notice.cancel_requested_customer order.pk) db')

-- `OrderCancelService.force_cancel`
unfoldable pub force_cancel : Order → Option ℕ → Db → Result Error Db
force_cancel order cancelled_by db = do
  raise_if (is_terminal order.status) wrong_status
  db' ←
      transition order (λ row. record row { status = Status.cancelled; technician = none })
        order.status Status.cancelled cancelled_by db
  ok (notify (Notice.order_cancelled order.pk) db')

-- The newest log entry of the order into CANCEL_REQUESTED.
unfoldable pub find_request : ℕ → ℕ → List StatusLog → Option StatusLog
find_request order company [] = none
find_request order company (l ∷ logs) =
    if l.order == order && l.company == company && same_status l.new_status Status.cancel_requested
    then some l
    else find_request order company logs

abbrev pub fallback_status : Option ℕ → Status
fallback_status technician = if is_some technician then Status.waiting else Status.new

abbrev pub candidate_of : Option StatusLog → Option Status
candidate_of none = none
candidate_of (some l) = l.old_status

abbrev pub restore_to : Option Status → Option ℕ → Status
restore_to none technician = fallback_status technician
restore_to (some s) technician = if is_cancellable s then s else fallback_status technician

-- `_determine_restore_status`
unfoldable pub determine_restore_status : Order → Db → Status
unfolding find_request
determine_restore_status order db =
    restore_to (candidate_of (find_request order.pk order.company db.logs)) order.technician

-- `OrderCancelReviewService.approve` by a user of company `by_company`
unfoldable pub approve : Order → ℕ → ℕ → Db → Result Error Db
approve order approved_by by_company db = do
  raise_if (not (order.company == by_company)) access_denied
  raise_if (not (same_status order.status Status.cancel_requested)) wrong_status
  db' ←
      transition order (λ row. record row { status = Status.cancelled }) order.status
        Status.cancelled (some approved_by) db
  ok (notify (Notice.cancel_approved order.pk) db')

-- `OrderCancelReviewService.reject`
unfoldable pub reject : Order → ℕ → ℕ → Db → Result Error Db
reject order rejected_by by_company db = do
  raise_if (not (order.company == by_company)) access_denied
  raise_if (not (same_status order.status Status.cancel_requested)) wrong_status
  let restored_status = determine_restore_status order db
  db' ←
      transition order (λ row. record row { status = restored_status }) order.status restored_status
        (some rejected_by) db
  ok (notify (Notice.cancel_rejected order.pk) db')
