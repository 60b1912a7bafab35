-- ===== src/Orders/Creation.antt =====
-- `OrderCreateService` and `OrderCreateByAdminService` of apps/orders/services.py.
use rasti_kiro_gpt.Common.{
  ℕ, suc, ◌&&◌, not, Option, none, some, [], ◌∷◌, ◌++◌, ◌==◌, if◌then◌else◌,
}
use rasti_kiro_gpt.Common.Table.{Table, lookup, save}
use rasti_kiro_gpt.Common.Text.{strip, same_text}
use rasti_kiro_gpt.Common.Result.{Result, ok, err, ◌>>=◌, ◌>>◌, raise_if, or_raise}
use rasti_kiro_gpt.Orders.Model.{
  Text, Status, Details, Order, Notice, Customer, Category, SubCategory, Technician, Db, Env, Error,
  notify, foreign_customer, customer_name_required, customer_phone_required, no_category,
  wrong_subcategory,
}
use rasti_kiro_gpt.Orders.Eligibility.{set_missing_priority_visibility_times, is_empty}
use rasti_kiro_gpt.Orders.Assignment.{find_available}
use rasti_kiro_gpt.Orders.Recycling.{insert_order}

-- `first or second`
abbrev pub or_text : Text → Text → Text
or_text [] second = second
or_text (c ∷ cs) second = c ∷ cs

abbrev pub new_order : ℕ → ℕ → Details → Status → Order
new_order pk company details status = record {
  pk = pk;
  company = company;
  details = details;
  technician = none;
  status = status;
  final_price = 0;
  priority2_visible_at = none;
  priority3_visible_at = none;
  accepted_at = none;
  completed_at = none;
}

-- The customer's name and phone on the order, where the request leaves them out.
abbrev pub with_customer : ℕ → Customer → Details → Details
with_customer id c d = record d {
  customer = some id;
  customer_name = or_text d.customer_name (strip (c.first_name ++ 0x20 ∷ c.last_name));
  customer_phone = or_text d.customer_phone c.phone;
}

abbrev pub notify_created : ℕ → Db → Db
notify_created pk db =
    notify (Notice.order_created_customer pk) (notify (Notice.order_created_admin pk) db)

-- `OrderCreateService.create`: the new order's key, and the database
unfoldable pub create : Env → ℕ → ℕ → Customer → Details → Option ℕ → ℕ → Db → Result Error (ℕ × Db)
create env company customer_id customer details created_by now db = do
  raise_if (not (customer.company == company)) foreign_customer
  let pk = db.next_order
  let order =
      set_missing_priority_visibility_times env now
        (new_order pk company (with_customer customer_id customer details) Status.new)
  db' ← insert_order env order created_by db
  ok (pk, notify (Notice.order_available pk) (notify_created pk db'))

-- `text.split(" ", 1)`: what stands before the first space, and after it
unfoldable pub split_name : Text → Text × Text
split_name [] = ([], [])
split_name (c ∷ cs) =
    let (first, last) = split_name cs in if c == 0x20 then ([], cs) else (c ∷ first, last)

-- `Customer.objects.filter(company=..., phone=...).first()`
unfoldable pub find_customer : ℕ → Text → Table Customer → Option (ℕ × Customer)
unfolding same_text
find_customer company phone [] = none
find_customer company phone ((id, c) ∷ customers) =
    if c.company == company && same_text c.phone phone
    then some (id, c)
    else find_customer company phone customers

-- An existing customer keeps what it has: only an empty name or address is filled in.
unfoldable pub improved : Text → Text → Customer → Customer
unfolding split_name
improved name address c =
    let (first, last) = split_name name in
    let named =
      (if is_empty c.first_name then record c { first_name = first; last_name = last } else c) in
    if is_empty c.address then record named { address = or_text address c.address } else named

abbrev pub save_customer : ℕ → Customer → Db → Db
save_customer id c db = record db { customers = save id c db.customers }

-- The customer of the request, found by phone or new.
unfoldable pub customer_by_phone : ℕ → Text → Text → Text → Db → (ℕ × Customer) × Db
unfolding find_customer improved split_name
customer_by_phone company name phone address db = elim (find_customer company phone db.customers) [
  | some (id, c) ↦ let c' = improved name address c in ((id, c'), save_customer id c' db)
  | none ↦
      let (first, last) = split_name name in
      let c : Customer = record {
        company = company;
        first_name = first;
        last_name = last;
        phone = phone;
        address = address;
      } in
      let id = db.next_customer in
      ((id, c), record (save_customer id c db) { next_customer = suc id })
]

unfoldable pub resolve_customer :
    ℕ → Option (ℕ × Customer) → Text → Text → Text → Db → Result Error ((ℕ × Customer) × Db)
resolve_customer company (some (id, c)) name phone address db = do
  raise_if (not (c.company == company)) foreign_customer
  ok ((id, c), db)
resolve_customer company none name phone address db = do
  raise_if (is_empty name) customer_name_required
  raise_if (is_empty phone) customer_phone_required
  ok (customer_by_phone company name phone address db)

-- `CompanyServiceCategory.objects.filter(id=..., company=..., is_active=True).first()`
unfoldable pub find_category : Env → ℕ → Option ℕ → Option (ℕ × Category)
find_category env company none = none
find_category env company (some id) = elim (lookup id env.categories) [
  | none ↦ none
  | some c ↦ if c.category_company == company && c.category_active then some (id, c) else none
]

unfoldable pub find_subcategory : Env → ℕ → Option ℕ → Option (ℕ × SubCategory)
find_subcategory env company none = none
find_subcategory env company (some id) = elim (lookup id env.subcategories) [
  | none ↦ none
  | some c ↦ if c.sub_company == company then some (id, c) else none
]

abbrev pub check_parent : Option (ℕ × SubCategory) → ℕ → Result Error (Option ℕ)
check_parent none category = ok none
check_parent (some (id, c)) category =
    if c.parent == category then ok (some id) else err wrong_subcategory

unfoldable pub find_technician : Env → ℕ → Option ℕ → Option Technician
find_technician env company none = none
find_technician env company (some id) = find_available env id company

-- "New order", in Persian.
abbrev pub default_title : Text
default_title = 0x633 ∷ 0x641 ∷ 0x627 ∷ 0x631 ∷ 0x634 ∷ 0x20 ∷ 0x62c ∷ 0x62f ∷ 0x6cc ∷ 0x62f ∷ []

-- The title of the request, or one made of the category's and the customer's name.
abbrev pub title_for : Text → Text → Text → Text
title_for (c ∷ cs) category name = c ∷ cs
title_for [] category [] = or_text category default_title
title_for [] category (c ∷ cs) = category ++ 0x20 ∷ 0x2d ∷ 0x20 ∷ c ∷ cs

abbrev pub status_or_new : Option Status → Status
status_or_new none = Status.new
status_or_new (some s) = s

-- The order enters WAITING at once if a technician is given.
abbrev pub assign_new : Option Technician → ℕ → Order → Order
assign_new none now o = o
assign_new (some t) now o = record o {
  technician = some t.technician_id;
  status = Status.waiting;
  accepted_at = some now;
}

abbrev pub notify_new : ℕ → Option Technician → Db → Db
notify_new pk none db = notify (Notice.order_available pk) db
notify_new pk (some t) db = notify (Notice.order_assigned pk t.technician_id) db

-- What the form gives: business data, with the customer's name and phone as they were typed, and
-- a status whose text may be no choice (`none`).
pub record AdminRequest : Type 0 where
  pub customer : Option (ℕ × Customer)
  pub details : Details
  pub status : Option Status
  pub category_id : Option ℕ
  pub subcategory_id : Option ℕ
  pub technician_id : Option ℕ

-- The business data of the order, once customer and category are known.
abbrev pub admin_details : AdminRequest → ℕ × Customer → ℕ × Category → Option ℕ → Details
admin_details r (id, c) (category, k) subcategory =
    let name = strip r.details.customer_name in
    let phone = strip r.details.customer_phone in
    record r.details {
      customer = some id;
      customer_name = name;
      customer_phone = or_text phone c.phone;
      title = title_for r.details.title k.category_title name;
      address = or_text (strip r.details.address) c.address;
      service_category = some category;
      service_subcategory = subcategory;
    }

-- `OrderCreateByAdminService.create`
unfoldable pub create_by_admin : Env → ℕ → AdminRequest → Option ℕ → ℕ → Db → Result Error (ℕ × Db)
create_by_admin env company r created_by now db = do
  resolved ←
      resolve_customer company r.customer (strip r.details.customer_name)
        (strip r.details.customer_phone) (strip r.details.address) db
  category ← or_raise (find_category env company r.category_id) no_category
  subcategory ← check_parent (find_subcategory env company r.subcategory_id) category.0
  let t = find_technician env company r.technician_id
  let pk = db.next_order
  let details = admin_details r resolved.0 category subcategory
  let order = assign_new t now (
      set_missing_priority_visibility_times env now
        (new_order pk company details (status_or_new r.status)))
  db' ← insert_order env order created_by resolved.1
  ok (pk, notify_new pk t (notify_created pk db'))
