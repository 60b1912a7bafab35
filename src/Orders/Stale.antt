-- ===== src/Orders/Stale.antt =====
-- The services that do not lock the row decide on the status of the object that they are handed. An
-- object loaded before another call changed the row carries the decision over that change.
use rasti_kiro_gpt.Common.{ℕ, ◌≡◌, refl, ap, true, false, Option, none, some}
use rasti_kiro_gpt.Common.Table.{lookup, lookup-save_self}
use rasti_kiro_gpt.Common.Result.{ok}
use rasti_kiro_gpt.Orders.Model.{Status, Order, Db, Env, Notice, notify, is_terminal, same_status}
use rasti_kiro_gpt.Orders.Completion.{
  complete, completion_price, create_invoice_placeholder, post_wage,
}
use rasti_kiro_gpt.Orders.Cancellation.{force_cancel}
use rasti_kiro_gpt.Orders.Machine.{moved_db, transition_found}
use rasti_kiro_gpt.Orders.Steps.{create_invoice_placeholder-orders}

-- An order object that says IN_PROGRESS completes whatever status the row has by then: the call
-- succeeds and the row is DONE, with the row's technician.
pub complete_stale :
    (env : Env) (order row : Order) (by price : Option ℕ) (now : ℕ) (db : Db)
    → lookup order.pk db.orders ≡ some row
    → order.status ≡ Status.in_progress
    → (out : Db) × (complete env order by price now db ≡ ok out)
      × (lookup order.pk out.orders
          ≡ some (record row {
            status = Status.done;
            completed_at = some now;
            final_price = completion_price order price;
          }))
unfolding complete post_wage
complete_stale env order row by price now db found was =
    let write = λ (r : Order). record r {
      status = Status.done;
      completed_at = some now;
      final_price = completion_price order price;
    } in
    let db' = moved_db order write row order.status Status.done by db in
    let out = notify (Notice.survey_request_customer order.pk) (
      notify (Notice.order_completed_customer order.pk)
        (create_invoice_placeholder order (post_wage env order db'))) in
    let passed : same_status order.status Status.in_progress ≡ true =
      ap (λ s. same_status s Status.in_progress) was in
    (
      out,
      rw (passed, transition_found order row write order.status Status.done by db found) refl,
      rw (create_invoice_placeholder-orders) (lookup-save_self order.pk (write row) db.orders),
    )

-- An order object that is not DONE or CANCELLED is cancelled by force whatever status the row has by
-- then, DONE included, and its technician is taken off.
pub force_cancel_stale :
    (order row : Order) (by : Option ℕ) (db : Db)
    → lookup order.pk db.orders ≡ some row
    → is_terminal order.status ≡ false
    → (out : Db) × (force_cancel order by db ≡ ok out)
      × (lookup order.pk out.orders
          ≡ some (record row { status = Status.cancelled; technician = none }))
unfolding force_cancel
force_cancel_stale order row by db found live =
    let write = λ (r : Order). record r { status = Status.cancelled; technician = none } in
    let db' = moved_db order write row order.status Status.cancelled by db in
    (
      notify (Notice.order_cancelled order.pk) db',
      rw (live, transition_found order row write order.status Status.cancelled by db found) refl,
      lookup-save_self order.pk (write row) db.orders,
    )
