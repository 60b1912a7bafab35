-- ===== src/Orders/Completion.antt =====
-- `OrderCompleteService` of apps/orders/services.py, with the invoice placeholder that it makes.
use rasti_kiro_gpt.Common.{ℕ, Bool, not, Option, none, some, List, [], ◌∷◌, ◌==◌, if◌then◌else◌}
use rasti_kiro_gpt.Common.Table.{lookup}
use rasti_kiro_gpt.Common.Result.{Result, ok, ◌>>=◌, ◌>>◌, raise_if}
use rasti_kiro_gpt.Invoice.Status.{Status as InvoiceStatus, is_open}
use rasti_kiro_gpt.Payouts.Ledger.Posting.{ItemValue, OrderInfo, post_for_order}
use rasti_kiro_gpt.Orders.Model.{
  Status, Order, Notice, Db, Env, Error, any_invoice, transition, notify, same_status, wrong_status,
}

-- `InvoiceDuplicateGuard.has_active_for_order`
unfoldable pub has_active_invoice : Order → Db → Bool
unfolding any_invoice
has_active_invoice order db = any_invoice is_open order.company order.pk db.invoices

-- `_create_invoice_placeholder`, through `InvoiceCreateService.create_from_order`: a draft invoice,
-- unless the order has an open one
unfoldable pub create_invoice_placeholder : Order → Db → Db
create_invoice_placeholder order db = if has_active_invoice order db then db else record db {
  invoices =
      record { company = order.company; order = some order.pk; status = InvoiceStatus.draft }
      ∷ db.invoices;
}

abbrev pub values_of : Order → Db → List ItemValue
values_of order db = elim (lookup order.pk db.item_values) [ none ↦ [] | some vs ↦ vs ]

abbrev pub order_info : Order → Db → OrderInfo
order_info order db = record {
  order_id = order.pk;
  company = order.company;
  technician = order.technician;
  item_values = values_of order db;
}

-- `TechnicianWagePostingService.post_for_order(order=order)`
unfoldable pub post_wage : Env → Order → Db → Db
post_wage env order db = record db {
  ledger = (post_for_order env.rates (order_info order db) db.ledger).1;
}

abbrev pub completion_price : Order → Option ℕ → ℕ
completion_price order (some price) = price
completion_price order none =
    if order.final_price == 0 then order.price_estimate else order.final_price

-- `OrderCompleteService.complete`
unfoldable pub complete : Env → Order → Option ℕ → Option ℕ → ℕ → Db → Result Error Db
complete env order completed_by final_price now db = do
  raise_if (not (same_status order.status Status.in_progress)) wrong_status
  let price = completion_price order final_price
  db' ←
      transition order
        (λ row. record row { status = Status.done; completed_at = some now; final_price = price })
        order.status Status.done completed_by db
  let posted = create_invoice_placeholder order (post_wage env order db')
  ok (
      notify (Notice.survey_request_customer order.pk)
        (notify (Notice.order_completed_customer order.pk) posted))
