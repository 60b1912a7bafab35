-- ===== src/Orders/Editing.antt =====
-- `OrderUpdateService` of apps/orders/services.py: edits by the staff.
use rasti_kiro_gpt.Common.{
  ℕ, Bool, true, false, ◌&&◌, Option, none, some, List, [], ◌∷◌, ◌==◌, if◌then◌else◌,
}
use rasti_kiro_gpt.Common.Table.{lookup}
use rasti_kiro_gpt.Common.Result.{Result, ok, err, ◌>>=◌, ◌>>◌, raise_if}
use rasti_kiro_gpt.Orders.Model.{
  Text, Status, Details, Order, Notice, Db, Env, Error, transition, notify, same_status,
  is_terminal, wrong_status, invalid_status, terminal_write, validation_error,
}

-- The editable fields, by the kind of their value.
pub data TextField : Type 0 where
  title description address customer_name customer_phone : TextField
  required_skill internal_note notes : TextField

pub data DateField : Type 0 where
  service_date scheduled_for : DateField

pub data AmountField : Type 0 where
  extra_payment wage_deduction price_estimate final_price : AmountField

-- One entry of `data` for an editable field. A value of `None` is `none`.
pub data Edit : Type 0 where
  text : TextField → Option Text → Edit
  date : DateField → Option ℕ → Edit
  amount : AmountField → Option ℕ → Edit

-- `data`: the entries for editable fields, and the keys that are treated on their own. The outer
-- `none` is a key that is not there; a status that is no choice is `some none`.
pub record Data : Type 0 where
  pub edits : List Edit
  pub customer_id : Option ℕ
  pub service_category_id : Option (Option ℕ)
  pub service_subcategory_id : Option (Option ℕ)
  pub status : Option (Option Status)

abbrev pub text_or_empty : Option Text → Text
text_or_empty none = []
text_or_empty (some t) = t

abbrev pub set_text : TextField → Text → Details → Details
set_text TextField.title v d = record d { title = v }
set_text TextField.description v d = record d { description = v }
set_text TextField.address v d = record d { address = v }
set_text TextField.customer_name v d = record d { customer_name = v }
set_text TextField.customer_phone v d = record d { customer_phone = v }
set_text TextField.required_skill v d = record d { required_skill = v }
set_text TextField.internal_note v d = record d { internal_note = v }
set_text TextField.notes v d = record d { notes = v }

abbrev pub set_date : DateField → Option ℕ → Details → Details
set_date DateField.service_date v d = record d { service_date = v }
set_date DateField.scheduled_for v d = record d { scheduled_for = v }

abbrev pub set_amount : AmountField → ℕ → Order → Order
set_amount AmountField.extra_payment v o = record o {
  details = record o.details { extra_payment = v };
}
set_amount AmountField.wage_deduction v o = record o {
  details = record o.details { wage_deduction = v };
}
set_amount AmountField.price_estimate v o = record o {
  details = record o.details { price_estimate = v };
}
set_amount AmountField.final_price v o = record o { final_price = v }

-- An empty text in an amount field is refused when the row is saved.
abbrev pub amount_missing : Edit → Bool
amount_missing (amount f none) = true
amount_missing _ = false

unfoldable pub any_amount_missing : List Edit → Bool
any_amount_missing [] = false
any_amount_missing (e ∷ es) = if amount_missing e then true else any_amount_missing es

abbrev pub apply_edit : Edit → Order → Order
apply_edit (text f v) o = record o { details = set_text f (text_or_empty v) o.details }
apply_edit (date f v) o = record o { details = set_date f v o.details }
apply_edit (amount f none) o = o
apply_edit (amount f (some v)) o = set_amount f v o

unfoldable pub apply_edits : List Edit → Order → Order
apply_edits [] o = o
apply_edits (e ∷ es) o = apply_edits es (apply_edit e o)

-- `Customer.objects.filter(id=..., company=...).first()`, and the order keeps its customer if there
-- is none
unfoldable pub apply_customer : Option ℕ → Db → Order → Order
apply_customer none db o = o
apply_customer (some id) db o = elim (lookup id db.customers) [
  | none ↦ o
  | some c ↦
      if c.company == o.company
      then record o { details = record o.details { customer = some id } }
      else o
]

-- A category of the company; any other id empties the field.
unfoldable pub category_of : Env → ℕ → Option ℕ → Option ℕ
category_of env company none = none
category_of env company (some id) = elim (lookup id env.categories) [
  | none ↦ none
  | some c ↦ if c.category_company == company then some id else none
]

unfoldable pub subcategory_of : Env → ℕ → Option ℕ → Option ℕ
subcategory_of env company none = none
subcategory_of env company (some id) = elim (lookup id env.subcategories) [
  | none ↦ none
  | some c ↦ if c.sub_company == company then some id else none
]

abbrev pub apply_category : Env → Option (Option ℕ) → Order → Order
apply_category env none o = o
apply_category env (some id) o = record o {
  details = record o.details { service_category = category_of env o.company id };
}

abbrev pub apply_subcategory : Env → Option (Option ℕ) → Order → Order
apply_subcategory env none o = o
apply_subcategory env (some id) o = record o {
  details = record o.details { service_subcategory = subcategory_of env o.company id };
}

-- The status that the order gets: its own, if none is asked for.
abbrev pub checked_status : Option (Option Status) → Status → Result Error Status
checked_status none old = ok old
checked_status (some none) old = err invalid_status
checked_status (some (some s)) old = if is_terminal s then err terminal_write else ok s

-- The status is written only if one is asked for.
abbrev pub write_status : Option (Option Status) → Order → Order
write_status (some (some s)) o = record o { status = s }
write_status _ o = o

unfoldable pub write_data : Env → Data → Db → Order → Order
write_data env d db o = write_status d.status (
    apply_edits d.edits (
      apply_subcategory env d.service_subcategory_id
        (apply_category env d.service_category_id (apply_customer d.customer_id db o))))

-- After approval of a public request the technicians are told.
abbrev pub approval_notice : Order → Status → Db → Db
approval_notice order target db =
    if same_status order.status Status.pending_review && same_status target Status.new
    then notify (Notice.order_available order.pk) db
    else db

-- `OrderUpdateService.update`. The row gets what the caller's object gets, in the fields of `d`.
unfoldable pub update : Env → Order → Data → Option ℕ → Db → Result Error Db
update env order d updated_by db = do
  raise_if (is_terminal order.status) wrong_status
  target ← checked_status d.status order.status
  raise_if (any_amount_missing d.edits) validation_error
  db' ← transition order (write_data env d db) order.status target updated_by db
  ok (approval_notice order target db')
