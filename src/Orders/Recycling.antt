-- ===== src/Orders/Recycling.antt =====
-- apps/orders/recycle_service.py: an order is cancelled and a new one takes its place; and
-- `TechnicianStatusUpdateService` of apps/orders/services.py, which may recycle.
use rasti_kiro_gpt.Common.{
  ℕ, suc, Bool, true, false, ◌&&◌, not, Option, none, some, [], same_key, if◌then◌else◌,
}
use rasti_kiro_gpt.Common.Table.{save}
use rasti_kiro_gpt.Common.Result.{Result, ok, ◌>>=◌, ◌>>◌, raise_if}
use rasti_kiro_gpt.Orders.Model.{
  Status, Details, Order, Notice, Technician, Db, Env, Error, get_locked, transition, add_log,
  log_for, notify, same_status, is_terminal, has_uncancelled_invoice, wrong_status,
  validation_error, has_live_invoice, not_assigned_to_you,
}
use rasti_kiro_gpt.Orders.Eligibility.{calculate_priority_visibility_times}
use rasti_kiro_gpt.Orders.Completion.{complete, values_of}

-- `full_clean`, `save` and the first log entry of a new order, under the next primary key.
unfoldable pub insert_order : Env → Order → Option ℕ → Db → Result Error Db
insert_order env order by db = do
  raise_if (not (env.full_clean order)) validation_error
  ok (
      add_log (log_for order none order.status by)
        (record db { orders = save db.next_order order db.orders; next_order = suc db.next_order }))

-- `_copy_item_values` to an order that has none yet
unfoldable pub copy_item_values : Order → ℕ → Db → Db
copy_item_values source target db = record db {
  item_values = save target (values_of source db) db.item_values;
}

-- The replacement has business data `details`, and nobody assigned.
unfoldable pub replacement : Env → Order → Details → ℕ → ℕ → Order
replacement env locked details pk now =
    let (p2, p3) = calculate_priority_visibility_times env locked.company now in
    record {
      pk = pk;
      company = locked.company;
      details = details;
      technician = none;
      status = Status.new;
      final_price = 0;
      priority2_visible_at = some p2;
      priority3_visible_at = some p3;
      accepted_at = none;
      completed_at = none;
    }

-- What `recycle` copies: not the customer's name and phone on the order, the service date, the extra
-- payment or the wage deduction.
abbrev pub recycled_details : Details → Details
recycled_details d = record d {
  customer_name = [];
  customer_phone = [];
  service_date = none;
  extra_payment = 0;
  wage_deduction = 0;
}

-- `OrderRecycleService.recycle`: the new order's key, and the database
unfoldable pub recycle : Env → Order → Option ℕ → ℕ → Db → Result Error (ℕ × Db)
recycle env order recycled_by now db = do
  locked ← get_locked order.pk db
  raise_if (is_terminal locked.status) wrong_status
  db₁ ←
      transition locked (λ row. record row { status = Status.cancelled; technician = none })
        locked.status Status.cancelled recycled_by db
  let new_order = replacement env locked (recycled_details locked.details) db.next_order now
  db₂ ← insert_order env new_order recycled_by db₁
  ok (db.next_order, copy_item_values locked db.next_order db₂)

-- CANCEL_REQUESTED, NEW, WAITING and IN_PROGRESS
abbrev pub may_return : Status → Bool
may_return Status.cancel_requested = true
may_return Status.new = true
may_return Status.waiting = true
may_return Status.in_progress = true
may_return _ = false

-- `OrderReturnToCycleService.return_to_cycle`. The code writes the old order's log entry once the new
-- order is saved, just before the new order's own, which gives the same log.
unfoldable pub return_to_cycle : Env → Order → Option ℕ → ℕ → Db → Result Error (ℕ × Db)
return_to_cycle env order performed_by now db = do
  locked ← get_locked order.pk db
  raise_if (has_uncancelled_invoice locked db) has_live_invoice
  raise_if (not (may_return locked.status)) wrong_status
  db₁ ←
      transition locked (λ row. record row { status = Status.cancelled }) locked.status
        Status.cancelled performed_by db
  let new_order = replacement env locked locked.details db.next_order now
  db₂ ← insert_order env new_order performed_by db₁
  ok (
    db.next_order,
    notify (Notice.order_available db.next_order) (copy_item_values locked db.next_order db₂),
  )

-- `ALLOWED_TRANSITIONS`
abbrev pub is_allowed : Status → Status → Bool
is_allowed Status.waiting Status.in_progress = true
is_allowed Status.waiting Status.cancel_requested = true
is_allowed Status.in_progress Status.done = true
is_allowed Status.in_progress Status.cancel_requested = true
is_allowed _ _ = false

abbrev pub status_notice : Status → Order → Db → Db
status_notice Status.cancel_requested order db = notify (Notice.cancel_requested order.pk) db
status_notice Status.in_progress order db = notify (Notice.order_started order.pk) db
status_notice _ order db = db

-- The step for an allowed status, which is not the order's.
unfoldable pub update_allowed : Env → Order → Status → Option ℕ → ℕ → Db → Result Error Db
update_allowed env order new_status updated_by now db =
    if same_status new_status Status.cancel_requested
      && (env.settings order.company).auto_recycle_cancel_request
    then (recycle env order updated_by now db >>= λ r. ok r.1)
    else if same_status new_status Status.done
    then complete env order updated_by none now db
    else (transition order (λ row. record row { status = new_status }) order.status new_status
          updated_by db
        >>= λ db'. ok (status_notice new_status order db'))

-- `TechnicianStatusUpdateService.update_status`
unfoldable pub update_status :
    Env → Order → Technician → Status → Option ℕ → ℕ → Db → Result Error Db
update_status env order t new_status updated_by now db = do
  raise_if (not (same_key order.technician (some t.technician_id))) not_assigned_to_you
  if same_status order.status new_status
      then ok db
      else (raise_if (not (is_allowed order.status new_status)) wrong_status
          >> update_allowed env order new_status updated_by now db)
