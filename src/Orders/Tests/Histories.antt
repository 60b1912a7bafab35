-- ===== src/Orders/Tests/Histories.antt =====
-- The theorems on histories, acceptance and restoring, at the test orders.
use rasti_kiro_gpt.Common.{◌≡◌, refl, ◌&&◌, some, is_some}
use rasti_kiro_gpt.Common.Table.{lookup}
use rasti_kiro_gpt.Common.Result.{ok, ◌>>=◌, succeeds}
use rasti_kiro_gpt.Orders.Model.{Status, Db}
use rasti_kiro_gpt.Orders.Eligibility.{
  is_order_visible_to_technician, is_order_accept_allowed_by_service_date,
}
use rasti_kiro_gpt.Orders.Assignment.{accept}
use rasti_kiro_gpt.Orders.Cancellation.{request_cancel, reject}
use rasti_kiro_gpt.Orders.Effect.{IsAudited}
use rasti_kiro_gpt.Orders.History.{Reach, begin, then, requests}
use rasti_kiro_gpt.Orders.Invariant.{Reach-keeps_finished, Reach-IsAudited}
use rasti_kiro_gpt.Orders.Acceptance.{accept-succeeds}
use rasti_kiro_gpt.Orders.Restoring.{
  requested, requested_db, request_cancel_found, reject-request_cancel,
}
use rasti_kiro_gpt.Orders.Tests.{
  settings, technician, env, order_with, new_order, new_db, new_db-IsValid, new_db-IsAudited,
  new_order-IsFresh, done_found,
}

history : Reach env new_db (requested_db new_order (some 4) new_db)
history = then begin (
    requests new_order (some 4) new_order-IsFresh
      (request_cancel_found new_order (some 4) new_db new_order-IsFresh refl))

Reach-keeps_finished_example :
    lookup 1 (requested_db new_order (some 4) new_db).orders
    ≡ some (order_with 1 Status.done (some 7))
Reach-keeps_finished_example =
    Reach-keeps_finished env new_db (requested_db new_order (some 4) new_db) history new_db-IsValid
      1 (order_with 1 Status.done (some 7)) done_found refl

Reach-IsAudited_example : IsAudited (requested_db new_order (some 4) new_db)
Reach-IsAudited_example =
    Reach-IsAudited env new_db (requested_db new_order (some 4) new_db) history new_db-IsValid
      new_db-IsAudited

accept-succeeds_example : succeeds (accept env new_order technician (some 4) 100 new_db) ≡ (
    is_order_visible_to_technician env new_order (some technician) 100 new_db
    && is_some new_order.service_category
    && is_order_accept_allowed_by_service_date env new_order settings 100)
accept-succeeds_example =
    accept-succeeds env new_order technician (some 4) 100 new_db new_order-IsFresh

reject-request_cancel_example :
    (out : Db) × ((request_cancel new_order (some 4) new_db >>= λ db'.
    reject (requested new_order) 5 1 db')
      ≡ ok out)
    × (lookup 2 out.orders ≡ some new_order)
reject-request_cancel_example =
    reject-request_cancel new_order (some 4) 5 new_db new_order-IsFresh refl
