-- ===== src/Invoice/Tests/Paying.antt =====
-- The theorems on paying and on cancellation requests, at an issued invoice.
use rasti_kiro_gpt.Common.{◌≡◌, refl, arith, true, false, none, some, [], ◌∷◌}
use rasti_kiro_gpt.Common.Int.{pos, ◌+ℤ◌, ◌-ℤ◌}
use rasti_kiro_gpt.Common.Table.{lookup, save}
use rasti_kiro_gpt.Common.Result.{ok}
use rasti_kiro_gpt.Invoice.Status.{Status, is_issued}
use rasti_kiro_gpt.Invoice.Wage.Defs.{
  DiscountPolicy, RowType, Invoice, calculate_policy_aware_wage, collect_category_totals, add_items,
  add_item, get_wage_percentages, divide, gross_wage, net_total, round_half_up, allocate_discount,
  absorbed_by,
}
use rasti_kiro_gpt.Payouts.Ledger.Entry.{get_balance, has_key}
use rasti_kiro_gpt.Payouts.Ledger.Write.{payment_collected_by_technician}
use rasti_kiro_gpt.Invoice.MarkPaid.Defs.{
  Policy, Settlement, Bill, Payment, World, check_payment, method_of, settle, post_paid, mark_paid,
}
use rasti_kiro_gpt.Invoice.MarkPaid.Laws.{
  AreNumbered, Matches, preview_wage, settled_bill, mark_paid-settles, mark_paid-balance,
}
use rasti_kiro_gpt.Invoice.Cancelling.{Desk, pending, request, has_pending_request, pending_count}
use rasti_kiro_gpt.Invoice.Cancelling.Requests.{IsValid, call, requests, call-IsValid}
use rasti_kiro_gpt.Invoice.Tests.{percents}

abbrev policy : Policy
policy = record {
  campaign_discount_policy = DiscountPolicy.company;
  extra_discount_policy = DiscountPolicy.technician;
  platform_fee_percent = 250;
}

abbrev issued_invoice : Invoice
issued_invoice = record {
  status = Status.issued;
  items = record { row_type = RowType.service; description = "repair"; total_price = 1000000 } ∷ [];
  snapshot = percents;
  technician = some percents;
  extra_discount_amount = pos 0;
  campaign_discount_amount = pos 0;
}

abbrev bill : Bill
bill = record {
  invoice_id = 11;
  company = 1;
  order = some 21;
  technician = some 7;
  wage_data = issued_invoice;
  total_amount = 1000000;
  settlement = none;
  paid_at = none;
}

abbrev world : World
world = record {
  bills = (11, bill) ∷ [];
  ledger = [];
  escrows = record { rows = []; next_pk = 1 };
  fees = [];
  tasks = [];
}

-- The technician took the cash for the invoice.
abbrev cash : Payment
cash = record {
  payment_id = 31;
  company = 1;
  invoice = some 11;
  amount = 1000000;
  gateway = none;
  is_paid = true;
  method = [];
  cash_received = true;
  technician_id = some 7;
}

world-AreNumbered : AreNumbered world.bills
unfolding lookup
world-AreNumbered k b h = ground arith

abbrev paid_world : World
paid_world =
    post_paid policy (settled_bill policy (method_of (some cash) []) 100 bill) (some cash) 100 world

pay_returns : mark_paid policy 11 (some cash) [] 100 world ≡ ok paid_world
unfolding mark_paid settle check_payment lookup
pay_returns = refl

bill_found : lookup 11 world.bills ≡ some bill
unfolding lookup
bill_found = refl

mark_paid-settles_example :
    (before : Bill) × (paid : Bill) × (s : Settlement) × (lookup 11 world.bills ≡ some before)
    × (is_issued before.wage_data.status ≡ true)
    × (before.settlement ≡ none)
    × Matches before (some cash)
    × (lookup 11 paid_world.bills ≡ some paid)
    × (paid.wage_data.status ≡ Status.paid)
    × (paid.paid_at ≡ some 100)
    × (paid.settlement ≡ some s)
    × (s.settled_at ≡ 100)
    × (s.result
        ≡ calculate_policy_aware_wage before.wage_data false DiscountPolicy.company
            DiscountPolicy.technician)
mark_paid-settles_example =
    mark_paid-settles policy 11 (some cash) [] 100 world paid_world world-AreNumbered pay_returns

mark_paid-balance_example :
    get_balance 1 7 paid_world.ledger
    ≡ get_balance 1 7 [] +ℤ pos (preview_wage policy bill) -ℤ pos 1000000
unfolding has_key payment_collected_by_technician calculate_policy_aware_wage
    collect_category_totals add_items add_item get_wage_percentages divide gross_wage net_total
    round_half_up allocate_discount absorbed_by
mark_paid-balance_example =
    mark_paid-balance policy 11 (some cash) [] 100 world paid_world bill 7 1 7 pay_returns
      bill_found refl refl refl

abbrev desk : Desk
desk = record { invoices = (11, Status.issued) ∷ []; requests = []; next_request = 1 }

desk-IsValid : IsValid desk
unfolding pending_count lookup
desk-IsValid = record { one = λ invoice. omega arith; free = λ k r h. ground arith }

abbrev requested_desk : Desk
requested_desk = record desk {
  requests = (1, record { invoice = 11; status = pending }) ∷ [];
  next_request = 2;
}

request_returns : call (requests 11) desk ≡ ok requested_desk
unfolding call request has_pending_request pending_count lookup save
request_returns = refl

call-IsValid_example : IsValid requested_desk
call-IsValid_example = call-IsValid (requests 11) desk requested_desk request_returns desk-IsValid
