-- ===== src/Orders/Restoring.antt =====
-- Asking for a cancellation and turning it down (apps/orders/cancel_review_service.py).
use rasti_kiro_gpt.Common.{ℕ, ◌≡◌, refl, true, Option, some, List, ◌∷◌, ◌==◌, arith}
use rasti_kiro_gpt.Common.Table.{lookup, save, lookup-save_self}
use rasti_kiro_gpt.Common.Result.{ok, ◌>>=◌}
use rasti_kiro_gpt.Orders.Model.{Status, Order, Db, notify, Notice, StatusLog, log_for}
use rasti_kiro_gpt.Orders.Cancellation.{
  is_cancellable, request_cancel, reject, determine_restore_status, find_request,
}
use rasti_kiro_gpt.Orders.Machine.{IsFresh, moved_db, transition_found}

-- The log entry that a request for `order` writes.
abbrev request_log : Order → Option ℕ → StatusLog
request_log order by = log_for order (some order.status) Status.cancel_requested by

-- The object that the reviewer loads after the request.
abbrev pub requested : Order → Order
requested order = record order { status = Status.cancel_requested }

abbrev pub requested_db : Order → Option ℕ → Db → Db
requested_db order by db = notify (Notice.cancel_requested_customer order.pk) (
    moved_db order (λ row. record row { status = Status.cancel_requested }) order order.status
      Status.cancel_requested by db)

pub request_cancel_found :
    (order : Order) (by : Option ℕ) (db : Db)
    → IsFresh order db
    → is_cancellable order.status ≡ true
    → request_cancel order by db ≡ ok (requested_db order by db)
unfolding request_cancel
request_cancel_found order by db fresh may =
    rw
      (
        may,
        transition_found order order (λ row. record row { status = Status.cancel_requested })
            order.status Status.cancel_requested by db fresh,
      )
      refl

find_request-log :
    (order : Order) (by : Option ℕ) (logs : List StatusLog)
    → find_request order.pk order.company (request_log order by ∷ logs)
      ≡ some (request_log order by)
unfolding find_request
find_request-log order by logs = ground arith

restores :
    (order : Order) (by : Option ℕ) (db : Db)
    → is_cancellable order.status ≡ true
    → determine_restore_status (requested order) (requested_db order by db) ≡ order.status
unfolding determine_restore_status
restores order by db may = rw (find_request-log order by db.logs, may) refl

-- For an order object that is the row and is NEW, WAITING or IN_PROGRESS, a request to cancel followed
-- by a rejection by a reviewer of the order's company succeeds and leaves the row exactly as it was.
pub reject-request_cancel :
    (order : Order) (by : Option ℕ) (reviewer : ℕ) (db : Db)
    → IsFresh order db
    → is_cancellable order.status ≡ true
    → (out : Db) × ((request_cancel order by db >>= λ db'.
          reject (requested order) reviewer order.company db')
        ≡ ok out)
      × (lookup order.pk out.orders ≡ some order)
unfolding reject
reject-request_cancel order by reviewer db fresh may =
    let db' = requested_db order by db in
    let same : (order.company == order.company) ≡ true = ground arith in
    let saved = lookup-save_self order.pk (requested order) db.orders in
    let write =
      λ (row : Order). record row { status = determine_restore_status (requested order) db' } in
    let out = notify (Notice.cancel_rejected order.pk) (
      moved_db (requested order) write (requested order) Status.cancel_requested
        (determine_restore_status (requested order) db') (some reviewer) db') in
    (
      out,
      rw (request_cancel_found order by db fresh may) (
          rw
            (
              same,
              transition_found (requested order) (requested order) write Status.cancel_requested
                  (determine_restore_status (requested order) db') (some reviewer) db' saved,
            )
            refl),
      rw (restores order by db may)
          (lookup-save_self order.pk order (save order.pk (requested order) db.orders)),
    )
