-- ===== src/Orders/Renewal.antt =====
-- The order that `OrderRecycleService` and `OrderReturnToCycleService` put in the place of another
-- (apps/orders/recycle_service.py), field by field.
use rasti_kiro_gpt.Common.{
  ℕ, suc, ◌+◌, ◌*◌, ◌≡◌, ◌≢◌, ◌⊎◌, inl, inr, refl, false, true, none, some, Option, [], ◌∷◌, arith,
}
use rasti_kiro_gpt.Common.Table.{lookup}
use rasti_kiro_gpt.Common.Result.{ok}
use rasti_kiro_gpt.Orders.Model.{
  Status, Details, Order, Db, Env, is_terminal, has_uncancelled_invoice,
}
use rasti_kiro_gpt.Orders.Eligibility.{calculate_priority_visibility_times}
use rasti_kiro_gpt.Orders.Completion.{values_of}
use rasti_kiro_gpt.Orders.Recycling.{
  recycle, return_to_cycle, replacement, recycled_details, may_return,
}
use rasti_kiro_gpt.Orders.Replacing.{IsValid, Replaced, recycle-Replaced, return_to_cycle-Replaced}

-- A recycled order's business data: the customer and the work stay, the order's own name and phone
-- of the customer, the service date and the two amounts do not.
pub record IsRecycled (old new : Details) : Type 0 where
  pub customer : new.customer ≡ old.customer
  pub customer_name : new.customer_name ≡ []
  pub customer_phone : new.customer_phone ≡ []
  pub title : new.title ≡ old.title
  pub description : new.description ≡ old.description
  pub address : new.address ≡ old.address
  pub service_date : new.service_date ≡ none
  pub scheduled_for : new.scheduled_for ≡ old.scheduled_for
  pub priority : new.priority ≡ old.priority
  pub price_estimate : new.price_estimate ≡ old.price_estimate
  pub extra_payment : new.extra_payment ≡ 0
  pub wage_deduction : new.wage_deduction ≡ 0
  pub required_skill : new.required_skill ≡ old.required_skill
  pub service_category : new.service_category ≡ old.service_category
  pub service_subcategory : new.service_subcategory ≡ old.service_subcategory
  pub notes : new.notes ≡ old.notes
  pub internal_note : new.internal_note ≡ old.internal_note

-- The row `locked` of order `pk` is now the row `closed`, and a new order with business data
-- `details` stands under the key that was next: NEW, nobody's, neither accepted nor completed, its
-- price open, and visible to the second and third priority after the company's delays.
pub record Renewed (env : Env) (pk : ℕ) (locked closed : Order) (details : Details) (now : ℕ)
    (by : Option ℕ) (db : Db) (new_pk : ℕ) (out : Db) : Type 0 where
  pub found : lookup pk db.orders ≡ some locked
  pub next : new_pk ≡ db.next_order
  pub next_after : out.next_order ≡ suc db.next_order
  pub old_row : lookup pk out.orders ≡ some closed
  pub row : Order
  pub new_row : lookup new_pk out.orders ≡ some row
  pub own_key : row.pk ≡ new_pk
  pub company : row.company ≡ locked.company
  pub business_data : row.details ≡ details
  pub nobody : row.technician ≡ none
  pub is_new : row.status ≡ Status.new
  pub final_price : row.final_price ≡ 0
  pub second :
      row.priority2_visible_at
      ≡ some (now + 60 * (env.settings locked.company).priority2_delay_minutes)
  pub third :
      row.priority3_visible_at
      ≡ some (now + 60 * (env.settings locked.company).priority3_delay_minutes)
  pub accepted_at : row.accepted_at ≡ none
  pub completed_at : row.completed_at ≡ none
  pub others : (j : ℕ) → j ≢ pk → j ≢ new_pk → lookup j out.orders ≡ lookup j db.orders
  pub item_values : values_of row out ≡ values_of locked db
  pub logged :
      out.logs
      ≡ record {
        order = new_pk;
        company = locked.company;
        old_status = none;
        new_status = Status.new;
        changed_by = by;
      }
        ∷ record {
          order = locked.pk;
          company = locked.company;
          old_status = some locked.status;
          new_status = Status.cancelled;
          changed_by = by;
        }
        ∷ db.logs

Replaced-Renewed :
    (env : Env) (pk : ℕ) (locked closed : Order) (details : Details) (now : ℕ) (by : Option ℕ)
    (db : Db) (new_pk : ℕ) (out : Db)
    → Replaced env pk locked closed details now by db new_pk out
    → Renewed env pk locked closed details now by db new_pk out
unfolding replacement calculate_priority_visibility_times
Replaced-Renewed env pk locked closed details now by db new_pk out r = record {
  found = r.found;
  next = r.next;
  next_after = r.next_after;
  old_row = r.old_row;
  row = replacement env locked details new_pk now;
  new_row = r.new_row;
  own_key = refl;
  company = refl;
  business_data = refl;
  nobody = refl;
  is_new = refl;
  final_price = refl;
  second = refl;
  third = refl;
  accepted_at = refl;
  completed_at = refl;
  others = r.others;
  item_values = r.values;
  logged = r.logged;
}

recycled_details-IsRecycled : (d : Details) → IsRecycled d (recycled_details d)
recycled_details-IsRecycled d = record {
  customer = refl;
  customer_name = refl;
  customer_phone = refl;
  title = refl;
  description = refl;
  address = refl;
  service_date = refl;
  scheduled_for = refl;
  priority = refl;
  price_estimate = refl;
  extra_payment = refl;
  wage_deduction = refl;
  required_skill = refl;
  service_category = refl;
  service_subcategory = refl;
  notes = refl;
  internal_note = refl;
}

-- The statuses that an order may be returned to the cycle from.
abbrev pub IsReturnable : Status → Type 0
IsReturnable s =
    (s ≡ Status.cancel_requested)
    ⊎ ((s ≡ Status.new) ⊎ ((s ≡ Status.waiting) ⊎ (s ≡ Status.in_progress)))

may_return-IsReturnable : (s : Status) → may_return s ≡ true → IsReturnable s
may_return-IsReturnable Status.pending_review h = absurd (cc)
may_return-IsReturnable Status.new h = inr (inl refl)
may_return-IsReturnable Status.waiting h = inr (inr (inl refl))
may_return-IsReturnable Status.in_progress h = inr (inr (inr refl))
may_return-IsReturnable Status.done h = absurd (cc)
may_return-IsReturnable Status.cancel_requested h = inl refl
may_return-IsReturnable Status.cancelled h = absurd (cc)

not_finished : (s : Status) → is_terminal s ≡ false → (s ≢ Status.done) × (s ≢ Status.cancelled)
not_finished s h = (λ e. ground arith, λ e. ground arith)

-- Recycling that succeeds, on an order table in order, was of a locked row that is not DONE or
-- CANCELLED; that row is then CANCELLED with nobody assigned and otherwise as before. Under the next
-- key stands an order of the company that is NEW and nobody's, neither accepted nor completed, with
-- price 0 and the delays of the priorities counted from now; its business data is the old order's
-- but for the customer's name and phone, the service date and the two amounts, which are empty; its
-- item values are the old order's. Every other row is as before, and both changes are logged.
pub recycle-Renewed :
    (env : Env) (order : Order) (by : Option ℕ) (now : ℕ) (db out : Db) (new_pk : ℕ)
    → IsValid db
    → recycle env order by now db ≡ ok (new_pk, out)
    → (locked : Order) × (details : Details) × (locked.status ≢ Status.done)
      × (locked.status ≢ Status.cancelled)
      × IsRecycled locked.details details
      × Renewed env order.pk locked
          (record locked { status = Status.cancelled; technician = none })
          details
          now
          by
          db
          new_pk
          out
recycle-Renewed env order by now db out new_pk valid h =
    let (locked, live, r) = recycle-Replaced env order by now db out new_pk valid h in
    (
      locked,
      recycled_details locked.details,
      (not_finished locked.status live).0,
      (not_finished locked.status live).1,
      recycled_details-IsRecycled locked.details,
      Replaced-Renewed env order.pk locked _ _ now by db new_pk out r,
    )

-- A return to the cycle that succeeds, on an order table in order, was of a locked row without an
-- uncancelled invoice that is CANCEL_REQUESTED, NEW, WAITING or IN_PROGRESS; that row is then
-- CANCELLED and otherwise as before. Under the next key stands an order of the company that is NEW
-- and nobody's, neither accepted nor completed, with price 0 and the delays of the priorities counted
-- from now; all its business data and its item values are the old order's. Every other row is as
-- before, and both changes are logged.
pub return_to_cycle-Renewed :
    (env : Env) (order : Order) (by : Option ℕ) (now : ℕ) (db out : Db) (new_pk : ℕ)
    → IsValid db
    → return_to_cycle env order by now db ≡ ok (new_pk, out)
    → (locked : Order) × IsReturnable locked.status
      × (has_uncancelled_invoice locked db ≡ false)
      × Renewed env order.pk locked
          (record locked { status = Status.cancelled })
          locked.details
          now
          by
          db
          new_pk
          out
return_to_cycle-Renewed env order by now db out new_pk valid h =
    let (locked, may, no_invoice, r) =
      return_to_cycle-Replaced env order by now db out new_pk valid h in
    (
      locked,
      may_return-IsReturnable locked.status may,
      no_invoice,
      Replaced-Renewed env order.pk locked _ _ now by db new_pk out r,
    )
