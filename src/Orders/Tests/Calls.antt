-- ===== src/Orders/Tests/Calls.antt =====
-- The theorems on single calls, at the test orders.
use rasti_kiro_gpt.Common.{◌≡◌, ◌≢◌, refl, false, none, some}
use rasti_kiro_gpt.Common.Table.{lookup, save}
use rasti_kiro_gpt.Common.Result.{Result, ok, err}
use rasti_kiro_gpt.Orders.Model.{
  Status, Details, Order, Db, get_locked, save_fields, transition, any_invoice,
  has_uncancelled_invoice,
}
use rasti_kiro_gpt.Orders.Eligibility.{
  is_order_accept_allowed_by_service_date, active_order_limit_reached, get_active_order_count,
  is_delayed, is_future_order_visible, get_order_service_date,
}
use rasti_kiro_gpt.Orders.Assignment.{
  accept, assign, assigned, check_skill, check_dates, assign_locked,
}
use rasti_kiro_gpt.Orders.Recycling.{recycle, return_to_cycle, insert_order, copy_item_values}
use rasti_kiro_gpt.Orders.Completion.{complete, create_invoice_placeholder}
use rasti_kiro_gpt.Orders.Machine.{IsFresh, AreKeyed, moved_db-Moved}
use rasti_kiro_gpt.Orders.Steps.{Moves}
use rasti_kiro_gpt.Orders.Accepting.{Accepted}
use rasti_kiro_gpt.Orders.Locked.{accept-Accepted}
use rasti_kiro_gpt.Orders.Stale.{complete_stale}
use rasti_kiro_gpt.Orders.Renewal.{
  IsRecycled, IsReturnable, Renewed, recycle-Renewed, return_to_cycle-Renewed,
}
use rasti_kiro_gpt.Orders.Tests.{
  technician, env, order_with, db_with, new_order, new_db, new_db-IsValid,
}

-- The value that a call returns, or the first argument.
abbrev value_or {ε ℓ} : {E : Type ε} {A : Type ℓ} → A → Result E A → A
value_or a (ok b) = b
value_or a (err e) = a

new_db-AreKeyed : AreKeyed new_db.orders
new_db-AreKeyed k o h = (new_db-IsValid k o h).0

abbrev accepted_db : Db
accepted_db = value_or new_db (accept env new_order technician (some 4) 100 new_db)

accept_returns : accept env new_order technician (some 4) 100 new_db ≡ ok accepted_db
unfolding accept check_skill check_dates get_locked save_fields transition lookup save
    active_order_limit_reached get_active_order_count is_delayed is_future_order_visible
    is_order_accept_allowed_by_service_date get_order_service_date
accept_returns = refl

accept-Accepted_example : Accepted env new_order technician 100 new_db accepted_db
accept-Accepted_example =
    accept-Accepted env new_order technician (some 4) 100 new_db accepted_db new_db-AreKeyed
      accept_returns

abbrev assigned_db : Db
assigned_db = value_or new_db (assign new_order technician (some 4) 100 new_db)

assign_returns : assign new_order technician (some 4) 100 new_db ≡ ok assigned_db
unfolding assign assign_locked get_locked save_fields transition lookup save any_invoice
    has_uncancelled_invoice
assign_returns = refl

new_found : lookup 2 new_db.orders ≡ some new_order
unfolding lookup
new_found = refl

assigned_found :
    lookup 2 assigned_db.orders ≡ some (assigned technician (some 100) Status.waiting new_order)
unfolding assign assign_locked get_locked save_fields transition lookup save any_invoice
    has_uncancelled_invoice
assigned_found = refl

assigned-Moves : Moves 2 Status.new Status.waiting new_db assigned_db
unfolding assign assign_locked get_locked save_fields transition lookup any_invoice
    has_uncancelled_invoice
assigned-Moves =
    moved_db-Moved new_order new_order (assigned technician (some 100) Status.waiting) Status.new
      Status.waiting (some 4) new_db new_found refl refl refl

no_invoice : has_uncancelled_invoice new_order new_db ≡ false
unfolding any_invoice has_uncancelled_invoice
no_invoice = refl

abbrev recycled_db : Db
recycled_db = (value_or (0, new_db) (recycle env new_order (some 4) 100 new_db)).1

recycle_returns : recycle env new_order (some 4) 100 new_db ≡ ok (3, recycled_db)
unfolding recycle insert_order get_locked save_fields transition lookup save copy_item_values
recycle_returns = refl

recycle-Renewed_example :
    (locked : Order) × (details : Details) × (locked.status ≢ Status.done)
    × (locked.status ≢ Status.cancelled)
    × IsRecycled locked.details details
    × Renewed env 2 locked
        (record locked { status = Status.cancelled; technician = none })
        details
        100
        (some 4)
        new_db
        3
        recycled_db
recycle-Renewed_example =
    recycle-Renewed env new_order (some 4) 100 new_db recycled_db 3 new_db-IsValid recycle_returns

abbrev returned_db : Db
returned_db = (value_or (0, new_db) (return_to_cycle env new_order (some 4) 100 new_db)).1

return_returns : return_to_cycle env new_order (some 4) 100 new_db ≡ ok (3, returned_db)
unfolding return_to_cycle insert_order get_locked save_fields transition lookup save
    copy_item_values any_invoice has_uncancelled_invoice
return_returns = refl

return_to_cycle-Renewed_example :
    (locked : Order) × IsReturnable locked.status
    × (has_uncancelled_invoice locked new_db ≡ false)
    × Renewed env 2 locked
        (record locked { status = Status.cancelled })
        locked.details
        100
        (some 4)
        new_db
        3
        returned_db
return_to_cycle-Renewed_example =
    return_to_cycle-Renewed env new_order (some 4) 100 new_db returned_db 3 new_db-IsValid
      return_returns

-- Order 2 as a technician's page loaded it, and the row after it was cancelled.
abbrev stale_order : Order
stale_order = order_with 2 Status.in_progress (some 7)

abbrev cancelled_row : Order
cancelled_row = order_with 2 Status.cancelled none

cancelled_found : lookup 2 (db_with Status.cancelled none).orders ≡ some cancelled_row
unfolding lookup
cancelled_found = refl

complete_stale_example :
    (out : Db) × (complete env stale_order (some 4) none 100 (db_with Status.cancelled none)
      ≡ ok out)
    × (lookup 2 out.orders
        ≡ some (record cancelled_row {
          status = Status.done;
          completed_at = some 100;
          final_price = 500000;
        }))
complete_stale_example =
    complete_stale env stale_order cancelled_row (some 4) none 100 (db_with Status.cancelled none)
      cancelled_found refl

done_row_found :
    lookup 2 (db_with Status.done (some 7)).orders ≡ some (order_with 2 Status.done (some 7))
unfolding lookup
done_row_found = refl

abbrev running_db : Db
running_db = db_with Status.in_progress (some 7)

stale_order-IsFresh : IsFresh stale_order running_db
unfolding lookup
stale_order-IsFresh = refl

abbrev completed_db : Db
completed_db = value_or new_db (complete env stale_order (some 4) none 100 running_db)

complete_returns : complete env stale_order (some 4) none 100 running_db ≡ ok completed_db
unfolding complete get_locked save_fields transition lookup save any_invoice
    create_invoice_placeholder
complete_returns = refl
