-- ===== src/Orders/Assignment.antt =====
-- The services of apps/orders/services.py that give an order to a technician, or take it back:
-- accepting, assigning, assigning from the edit page, and unassigning.
use rasti_kiro_gpt.Common.{
  ℕ, Bool, true, false, ◌&&◌, ◌||◌, not, Option, none, some, ◌==◌, same_key, is_some, if◌then◌else◌,
}
use rasti_kiro_gpt.Common.Table.{lookup}
use rasti_kiro_gpt.Common.Result.{Result, ok, ◌>>=◌, ◌>>◌, raise_if, or_raise}
use rasti_kiro_gpt.Orders.Model.{
  Status, Order, Notice, Technician, Db, Env, Error, get_locked, transition, notify, same_status,
  has_uncancelled_invoice, foreign_technician, technician_not_available, wrong_status,
  already_assigned, no_category, no_category_skill, too_many_active_orders, not_visible_yet,
  future_order_hidden, before_service_date, has_live_invoice, invalid_technician,
}
use rasti_kiro_gpt.Orders.Eligibility.{
  active_order_limit_reached, is_delayed, is_future_order_visible,
  is_order_accept_allowed_by_service_date,
}

-- The fields that an assignment writes.
abbrev pub assigned : Technician → Option ℕ → Status → Order → Order
assigned t accepted_at status row = record row {
  technician = some t.technician_id;
  status = status;
  accepted_at = accepted_at;
}

-- The rules on skill, workload and delay, for the locked order.
unfoldable pub check_skill : Env → Technician → ℕ → Order → Db → Result Error (Unit {0})
check_skill env t now locked db = do
  category ← or_raise locked.service_category no_category
  raise_if (not t.is_available) technician_not_available
  priority ← or_raise (env.category_priority t.technician_id category) no_category_skill
  raise_if
      (active_order_limit_reached t (env.settings locked.company).max_active_orders_per_technician
        db)
      too_many_active_orders
  raise_if (is_delayed locked priority now) not_visible_yet

-- The rules on the service date.
unfoldable pub check_dates : Env → ℕ → Order → Result Error (Unit {0})
check_dates env now locked = do
  let settings = env.settings locked.company
  raise_if (not (is_future_order_visible env locked settings now)) future_order_hidden
  raise_if (not (is_order_accept_allowed_by_service_date env locked settings now))
      before_service_date

-- `TechnicianAcceptService.accept`, which `OrderAcceptService.accept` passes on
unfoldable pub accept : Env → Order → Technician → Option ℕ → ℕ → Db → Result Error Db
accept env order t accepted_by now db = do
  raise_if (not (order.company == t.company)) foreign_technician
  locked ← get_locked order.pk db
  raise_if (not (same_status locked.status Status.new)) wrong_status
  raise_if (is_some locked.technician) already_assigned
  check_skill env t now locked db
  check_dates env now locked
  db' ←
      transition locked (assigned t (some now) Status.waiting) locked.status Status.waiting
        accepted_by db
  ok (notify (Notice.order_accepted_customer locked.pk) db')

abbrev pub is_assignable : Status → Bool
is_assignable Status.new = true
is_assignable Status.pending_review = true
is_assignable _ = false

-- The rest of `assign`, for the locked order.
unfoldable pub assign_locked : Technician → Option ℕ → ℕ → Order → Db → Result Error Db
assign_locked t assigned_by now locked db = do
  raise_if (has_uncancelled_invoice locked db) has_live_invoice
  db' ←
      transition locked (assigned t (some now) Status.waiting) locked.status Status.waiting
        assigned_by db
  ok (notify (Notice.order_assigned locked.pk t.technician_id) db')

-- `OrderAssignService.assign`
unfoldable pub assign : Order → Technician → Option ℕ → ℕ → Db → Result Error Db
assign order t assigned_by now db = do
  raise_if (not (order.company == t.company)) foreign_technician
  raise_if (not t.is_available) technician_not_available
  locked ← get_locked order.pk db
  raise_if (not (is_assignable locked.status)) wrong_status
  if same_key locked.technician (some t.technician_id)
      then ok db
      else assign_locked t assigned_by now locked db

-- `OrderUnassignService.unassign`
unfoldable pub unassign : Order → Option ℕ → Db → Result Error Db
unassign order unassigned_by db = do
  raise_if (not (same_status order.status Status.waiting)) wrong_status
  raise_if (has_uncancelled_invoice order db) has_live_invoice
  db' ←
      transition order
        (λ row. record row { technician = none; status = Status.new; accepted_at = none })
        Status.waiting Status.new unassigned_by db
  ok (notify (Notice.order_available order.pk) db')

-- `ASSIGNABLE_STATUSES` of the edit page
abbrev pub is_edit_assignable : Status → Bool
is_edit_assignable Status.pending_review = true
is_edit_assignable Status.new = true
is_edit_assignable Status.waiting = true
is_edit_assignable _ = false

-- `Technician.objects.filter(id=..., company=..., is_available=True).first()`
unfoldable pub find_available : Env → ℕ → ℕ → Option Technician
find_available env id company = elim (lookup id env.technicians) [
  | none ↦ none
  | some t ↦ if t.company == company && t.is_available then some t else none
]

abbrev pub status_after_edit : Status → Status
status_after_edit s = if is_assignable s then Status.waiting else s

abbrev pub or_now : Option ℕ → ℕ → Option ℕ
or_now none now = some now
or_now (some t) now = some t

-- The rest of `handle_assignment`, once the locked order is assignable to another technician.
unfoldable pub reassign_locked : Env → ℕ → ℕ → Option ℕ → ℕ → Order → Db → Result Error Db
reassign_locked env technician_id company assigned_by now locked db = do
  t ← or_raise (find_available env technician_id company) invalid_technician
  raise_if (has_uncancelled_invoice locked db) has_live_invoice
  let target = status_after_edit locked.status
  db' ←
      transition locked (assigned t (or_now locked.accepted_at now) target) locked.status target
        assigned_by db
  ok (notify (Notice.order_assigned locked.pk t.technician_id) db')

-- `OrderEditAssignService.handle_assignment`
unfoldable pub handle_assignment : Env → Order → Option ℕ → ℕ → Option ℕ → ℕ → Db → Result Error Db
handle_assignment env order none company assigned_by now db = ok db
handle_assignment env order (some technician_id) company assigned_by now db = do
  locked ← get_locked order.pk db
  if same_key locked.technician (some technician_id) || not (is_edit_assignable locked.status)
      then ok db
      else reassign_locked env technician_id company assigned_by now locked db
