-- ===== src/Orders/Tests.antt =====
-- A company with two orders, one technician and one category, for the tests of the order services.
mod Histories
mod Calls
use rasti_kiro_gpt.Common.{
  ℕ, suc, ◌+◌, ◌/◌, ◌%◌, ◌<◌, ◌≡◌, ◌⊎◌, refl, Bool, true, false, ◌&&◌, Option, none, some, List, [],
  ◌∷◌, ◌==◌, arith, is_some, inr,
}
use rasti_kiro_gpt.Common.Table.{Table, lookup, save}
use rasti_kiro_gpt.Common.Result.{Result, ok, err, ◌>>=◌, ◌>>◌, raise_if, succeeds}
use rasti_kiro_gpt.Orders.Model.{
  Status, Priority, Details, Order, Db, Env, Settings, Technician, Category, SubCategory, StatusLog,
  is_terminal, log_for, get_locked, save_fields, transition, any_invoice, has_uncancelled_invoice,
  wrong_status,
}
use rasti_kiro_gpt.Orders.Eligibility.{
  is_order_visible_to_technician, is_order_accept_allowed_by_service_date,
  active_order_limit_reached, get_active_order_count, is_delayed, is_future_order_visible,
  get_order_service_date,
}
use rasti_kiro_gpt.Orders.Assignment.{
  accept, assign, assigned, check_skill, check_dates, assign_locked, handle_assignment,
  reassign_locked, find_available, is_edit_assignable, status_after_edit,
}
use rasti_kiro_gpt.Orders.Recycling.{
  recycle, return_to_cycle, insert_order, copy_item_values, recycled_details, may_return,
}
use rasti_kiro_gpt.Orders.Cancellation.{request_cancel, reject, force_cancel, is_cancellable}
use rasti_kiro_gpt.Orders.Completion.{complete, has_active_invoice, create_invoice_placeholder}
use rasti_kiro_gpt.Orders.Machine.{IsFresh, AreKeyed, moved_db-Moved}
use rasti_kiro_gpt.Orders.Steps.{Moves, complete-Moves}
use rasti_kiro_gpt.Orders.Accepting.{Accepted}
use rasti_kiro_gpt.Orders.Locked.{
  accept-Accepted, Assigned, assign-Assigned, handle_assignment-Moves,
}
use rasti_kiro_gpt.Orders.Stale.{complete_stale, force_cancel_stale}
use rasti_kiro_gpt.Orders.Idempotence.{assign_again}
use rasti_kiro_gpt.Orders.Replacing.{IsValid, Replaced, recycle-Replaced, return_to_cycle-Replaced}
use rasti_kiro_gpt.Orders.Effect.{IsAudited, last_status}
use rasti_kiro_gpt.Orders.History.{Step, Reach, begin, then, requests}
use rasti_kiro_gpt.Orders.Invariant.{Reach-keeps_finished, Reach-IsAudited, Reach-IsValid}
use rasti_kiro_gpt.Orders.Acceptance.{accept-succeeds}
use rasti_kiro_gpt.Orders.Restoring.{
  requested, requested_db, request_cancel_found, reject-request_cancel,
}

abbrev pub settings : Settings
settings = record {
  priority2_delay_minutes = 10;
  priority3_delay_minutes = 20;
  show_future_orders_to_technicians = true;
  future_orders_visible_after = none;
  max_active_orders_per_technician = 5;
  auto_recycle_cancel_request = false;
}

abbrev pub technician : Technician
technician = record { technician_id = 7; company = 1; is_available = true }

abbrev pub env : Env
env = record {
  settings = λ _. settings;
  technicians = (7, technician) ∷ [];
  categories =
      (3, record { category_company = 1; category_active = true; category_title = [] }) ∷ [];
  subcategories = [];
  category_priority = λ t c. some 1;
  has_skill = λ t s. false;
  rates = [];
  full_clean = λ o. true;
  local_date = λ t. t / 86400;
  local_time = λ t. t % 86400;
}

abbrev pub details : Details
details = record {
  customer = none;
  customer_name = [];
  customer_phone = [];
  title = 65 ∷ [];
  description = [];
  address = [];
  service_date = none;
  scheduled_for = none;
  priority = Priority.normal;
  price_estimate = 500000;
  extra_payment = 0;
  wage_deduction = 0;
  required_skill = [];
  service_category = some 3;
  service_subcategory = none;
  notes = [];
  internal_note = [];
}

abbrev pub order_with : ℕ → Status → Option ℕ → Order
order_with pk status technician = record {
  pk = pk;
  company = 1;
  details = details;
  technician = technician;
  status = status;
  final_price = 0;
  priority2_visible_at = none;
  priority3_visible_at = none;
  accepted_at = none;
  completed_at = none;
}

-- A finished order 1, and order 2 with the given status and technician.
abbrev pub db_with : Status → Option ℕ → Db
db_with status technician = record {
  orders = (1, order_with 1 Status.done (some 7)) ∷ (2, order_with 2 status technician) ∷ [];
  next_order = 3;
  logs =
      log_for (order_with 2 status technician) none status none
      ∷ log_for (order_with 1 Status.done (some 7)) (some Status.in_progress) Status.done none
      ∷ [];
  invoices = [];
  ledger = [];
  item_values = [];
  customers = [];
  next_customer = 1;
  notices = [];
}

abbrev pub new_order : Order
new_order = order_with 2 Status.new none

abbrev pub new_db : Db
new_db = db_with Status.new none

pub new_db-IsValid : IsValid new_db
unfolding lookup
new_db-IsValid k o h = ground arith

pub new_db-IsAudited : IsAudited new_db
unfolding lookup last_status
new_db-IsAudited k o h = ground arith

pub new_order-IsFresh : IsFresh new_order new_db
unfolding lookup
new_order-IsFresh = refl

pub done_found : lookup 1 new_db.orders ≡ some (order_with 1 Status.done (some 7))
unfolding lookup
done_found = refl
