-- ===== src/Orders/Model.antt =====
-- apps/orders/models.py, and the part of the database that the order services read and write.
-- A call gets an order as the object that the caller holds, which may be older than the row; `save`
-- writes the named fields of the row alone. Notes of log entries and payloads are left out.
use rasti_kiro_gpt.Common.{
  ℕ, Bool, true, false, ◌&&◌, ◌||◌, not, Option, some, List, [], ◌∷◌, ◌==◌, same_key,
}
use rasti_kiro_gpt.Common.Table.{Table, lookup, save}
use rasti_kiro_gpt.Common.Result.{Result, ok, ◌>>=◌, or_raise}
use rasti_kiro_gpt.Invoice.Status.{Status as InvoiceStatus, is_cancelled}
use rasti_kiro_gpt.Payouts.Ledger.Entry.{Ledger}
use rasti_kiro_gpt.Payouts.Ledger.Posting.{ItemValue, Rate}

-- A text, by its code points.
abbrev pub Text : Type 0
Text = List ℕ

-- `Order.Status`
pub data Status : Type 0 where
  pending_review new waiting in_progress done cancel_requested cancelled : Status

-- `Order.Priority`
pub data Priority : Type 0 where
  low normal high urgent : Priority

-- The business data of an order. Dates are day numbers and datetimes are seconds.
pub record Details : Type 0 where
  pub customer : Option ℕ
  pub customer_name : Text
  pub customer_phone : Text
  pub title : Text
  pub description : Text
  pub address : Text
  pub service_date : Option ℕ
  pub scheduled_for : Option ℕ
  pub priority : Priority
  pub price_estimate : ℕ
  pub extra_payment : ℕ
  pub wage_deduction : ℕ
  pub required_skill : Text
  pub service_category : Option ℕ
  pub service_subcategory : Option ℕ
  pub notes : Text
  pub internal_note : Text

-- `Order`
pub record Order : Type 0 where
  pub pk : ℕ
  pub company : ℕ
  pub details : Details
  pub open details use *
  pub technician : Option ℕ
  pub status : Status
  pub final_price : ℕ
  pub priority2_visible_at : Option ℕ
  pub priority3_visible_at : Option ℕ
  pub accepted_at : Option ℕ
  pub completed_at : Option ℕ

-- `OrderStatusLog`; the empty old status of a first entry is `none`.
pub record StatusLog : Type 0 where
  pub order : ℕ
  pub company : ℕ
  pub old_status : Option Status
  pub new_status : Status
  pub changed_by : Option ℕ

pub record InvoiceRow : Type 0 where
  pub company : ℕ
  pub order : Option ℕ
  pub status : InvoiceStatus

-- `Customer`
pub record Customer : Type 0 where
  pub company : ℕ
  pub first_name : Text
  pub last_name : Text
  pub phone : Text
  pub address : Text

-- The notification events that the services emit. Emitting one never raises.
pub data Notice : Type 0 where
  order_created_admin order_created_customer order_available : ℕ → Notice
  order_assigned : ℕ → ℕ → Notice
  order_accepted_customer order_started order_completed_customer : ℕ → Notice
  survey_request_customer order_cancelled cancel_requested_customer : ℕ → Notice
  cancel_requested cancel_approved cancel_rejected : ℕ → Notice

-- The tables that change. Logs, invoices and notices are newest first.
pub record Db : Type 0 where
  pub orders : Table Order
  pub next_order : ℕ
  pub logs : List StatusLog
  pub invoices : List InvoiceRow
  pub ledger : Ledger
  pub item_values : Table (List ItemValue)
  pub customers : Table Customer
  pub next_customer : ℕ
  pub notices : List Notice

-- `Technician`
pub record Technician : Type 0 where
  pub technician_id : ℕ
  pub company : ℕ
  pub is_available : Bool

-- `CompanySettings`
pub record Settings : Type 0 where
  pub priority2_delay_minutes : ℕ
  pub priority3_delay_minutes : ℕ
  pub show_future_orders_to_technicians : Bool
  pub future_orders_visible_after : Option ℕ
  pub max_active_orders_per_technician : ℕ
  pub auto_recycle_cancel_request : Bool

-- `CompanyServiceCategory` and `CompanyServiceSubCategory`
pub record Category : Type 0 where
  pub category_company : ℕ
  pub category_active : Bool
  pub category_title : Text

pub record SubCategory : Type 0 where
  pub sub_company : ℕ
  pub parent : ℕ

-- What the services read and do not change, and what Django does for them: the model validation,
-- and the local date and time of day of an instant. `category_priority technician category` is the
-- priority of the technician's skill.
pub record Env : Type 0 where
  pub settings : ℕ → Settings
  pub technicians : Table Technician
  pub categories : Table Category
  pub subcategories : Table SubCategory
  pub category_priority : ℕ → ℕ → Option ℕ
  pub has_skill : ℕ → Text → Bool
  pub rates : List Rate
  pub full_clean : Order → Bool
  pub local_date : ℕ → ℕ
  pub local_time : ℕ → ℕ

-- The exceptions of the services, by the rule that is broken.
pub data Error : Type 0 where
  does_not_exist validation_error : Error
  foreign_customer foreign_technician technician_not_available : Error
  wrong_status already_assigned has_live_invoice no_category no_category_skill : Error
  too_many_active_orders not_visible_yet future_order_hidden before_service_date : Error
  invalid_technician not_assigned_to_you access_denied : Error
  invalid_status terminal_write customer_name_required customer_phone_required : Error
  wrong_subcategory : Error

abbrev pub is_terminal : Status → Bool
is_terminal Status.done = true
is_terminal Status.cancelled = true
is_terminal _ = false

abbrev pub same_status : Status → Status → Bool
same_status Status.pending_review Status.pending_review = true
same_status Status.new Status.new = true
same_status Status.waiting Status.waiting = true
same_status Status.in_progress Status.in_progress = true
same_status Status.done Status.done = true
same_status Status.cancel_requested Status.cancel_requested = true
same_status Status.cancelled Status.cancelled = true
same_status _ _ = false

-- `select_for_update().get(pk=pk)`
unfoldable pub get_locked : ℕ → Db → Result Error Order
get_locked pk db = or_raise (lookup pk db.orders) does_not_exist

-- `order.save(update_fields=...)`: `write` sets the fields in the row.
unfoldable pub save_fields : ℕ → (Order → Order) → Db → Result Error Db
unfolding get_locked
save_fields pk write db = do
  row ← get_locked pk db
  ok (record db { orders = save pk (write row) db.orders })

-- `OrderStatusLog.objects.create`
abbrev pub log_for : Order → Option Status → Status → Option ℕ → StatusLog
log_for order old target by = record {
  order = order.pk;
  company = order.company;
  old_status = old;
  new_status = target;
  changed_by = by;
}

abbrev pub add_log : StatusLog → Db → Db
add_log log db = record db { logs = log ∷ db.logs }

abbrev pub notify : Notice → Db → Db
notify n db = record db { notices = n ∷ db.notices }

-- The frame that the services share: save the fields, log the change of status, and emit a notice.
unfoldable pub transition :
    Order → (Order → Order) → Status → Status → Option ℕ → Db → Result Error Db
unfolding save_fields
transition order write old target by db = do
  db' ← save_fields order.pk write db
  ok (add_log (log_for order (some old) target by) db')

unfoldable pub any_invoice : (InvoiceStatus → Bool) → ℕ → ℕ → List InvoiceRow → Bool
any_invoice counts company order [] = false
any_invoice counts company order (i ∷ invoices) =
    (i.company == company && same_key i.order (some order) && counts i.status)
    || any_invoice counts company order invoices

-- Whether the order has an invoice that is not cancelled.
unfoldable pub has_uncancelled_invoice : Order → Db → Bool
unfolding any_invoice
has_uncancelled_invoice order db =
    any_invoice (λ s. not (is_cancelled s)) order.company order.pk db.invoices
