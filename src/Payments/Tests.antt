-- ===== src/Payments/Tests.antt =====
-- The theorems on payments, at a pending payment of an issued invoice.
use rasti_kiro_gpt.Common.{
  ℕ, ◌≤◌, ◌⊎◌, ◌≡◌, refl, arith, Bool, true, false, none, some, [], ◌∷◌, inl,
}
use rasti_kiro_gpt.Common.Int.{pos}
use rasti_kiro_gpt.Common.Table.{Table, lookup, save}
use rasti_kiro_gpt.Common.Text.{strip, strip_front, is_space, same_text, codes}
use rasti_kiro_gpt.Common.Result.{Result, ok, err}
use rasti_kiro_gpt.Invoice.Status.{Status as InvoiceStatus}
use rasti_kiro_gpt.Invoice.Wage.Defs.{DiscountPolicy, RowType}
use rasti_kiro_gpt.Invoice.MarkPaid.Defs.{Bill, Gateway, Error, mark_paid, check_payment, settle}
use rasti_kiro_gpt.Invoice.MarkPaid.Laws.{AreNumbered}
use rasti_kiro_gpt.Payouts.Split.{PayoutStrategy, OwnerType}
use rasti_kiro_gpt.Payments.Defs.{
  Status, PaymentRow, Env, Bank, verify, verify_pending, on_response, confirm, pay_invoice,
  is_payment_expired, is_paid, is_pending,
}
use rasti_kiro_gpt.Payments.Laws.{Verified, verify-Verified}
use rasti_kiro_gpt.Payments.Paid.{verify_pays}
use rasti_kiro_gpt.Payments.Start.{
  PaymentMode, ActivationStatus, GatewayRow, Site, Error as StartError, start, check_settings,
  check_gateway, get_default_for_company, is_gateway_enabled, all_filled,
}
use rasti_kiro_gpt.Payments.Opened.{Started}
use rasti_kiro_gpt.Payments.Started.{start-Started, start_pays}
use rasti_kiro_gpt.Payouts.Escrow.Machine.{length}
use rasti_kiro_gpt.Payments.Expiration.{
  Counts, old_payments, insert_by_age, expire_old_pending_payments,
}
use rasti_kiro_gpt.Payments.Expired.{GivenUp}
use rasti_kiro_gpt.Payments.Cleanup.{expire-GivenUp}
use rasti_kiro_gpt.Payments.Clears.{expire_clears}
use rasti_kiro_gpt.Payments.Reconciliation.{
  ProviderReportRow, Scope, reconcile, build_map, put, find_duplicates, match_rows, find_payment,
  tally, compare_row, normalize_provider_status, status_map, find_missing, is_unreported,
  has_reference, has_id, has_issues, is_paid_there, is_failed_there,
}
use rasti_kiro_gpt.Payments.Reconciled.{reconcile-agrees}

abbrev gateway : Gateway
gateway = record { gateway_type = []; owner_type = OwnerType.platform }

abbrev env : Env
env = record {
  policy = record {
    campaign_discount_policy = DiscountPolicy.company;
    extra_discount_policy = DiscountPolicy.technician;
    platform_fee_percent = 250;
  };
  payout_strategy = PayoutStrategy.direct_to_company;
  verify_payment =
      λ g reference amount. some (record { success = true; verified_amount = some amount });
  order_link = λ invoice. none;
  technician_info = λ invoice. none;
}

abbrev pending_payment : PaymentRow
pending_payment = record {
  company = 1;
  invoice = some 11;
  gateway = some gateway;
  amount = 1000000;
  status = Status.pending;
  reference_id = 65 ∷ [];
  created_at = 0;
  paid_at = none;
}

abbrev bill : Bill
bill = record {
  invoice_id = 11;
  company = 1;
  order = none;
  technician = none;
  wage_data = record {
    status = InvoiceStatus.issued;
    items =
        record { row_type = RowType.service; description = "repair"; total_price = 1000000 } ∷ [];
    snapshot = record { service_pct = 4000; goods_pct = 0; travel_pct = 0 };
    technician = none;
    extra_discount_amount = pos 0;
    campaign_discount_amount = pos 0;
  };
  total_amount = 1000000;
  settlement = none;
  paid_at = none;
}

abbrev bank : Bank
bank = record {
  payments = (5, pending_payment) ∷ [];
  attempts = [];
  snapshots = [];
  world = record {
    bills = (11, bill) ∷ [];
    ledger = [];
    escrows = record { rows = []; next_pk = 1 };
    fees = [];
    tasks = [];
  };
}

abbrev bank_after : Result Error (Bool × Bank) → Bank
bank_after (ok (answer, b)) = b
bank_after (err e) = bank

abbrev verified_bank : Bank
verified_bank = bank_after (verify env 5 100 bank)

verify_returns : verify env 5 100 bank ≡ ok (true, verified_bank)
unfolding verify verify_pending on_response confirm pay_invoice is_payment_expired lookup mark_paid
    check_payment settle
verify_returns = refl

bank-AreNumbered : AreNumbered bank.world.bills
unfolding lookup
bank-AreNumbered k b h = ground arith

payment_found : lookup 5 bank.payments ≡ some pending_payment
unfolding lookup
payment_found = refl

bill_found : lookup 11 bank.world.bills ≡ some bill
unfolding lookup
bill_found = refl

verify_pays_example :
    (paid : Bill) × (lookup 11 verified_bank.world.bills ≡ some paid)
    × (paid.wage_data.status ≡ InvoiceStatus.paid)
verify_pays_example =
    verify_pays env 5 100 11 pending_payment bill bank verified_bank bank-AreNumbered payment_found
      refl refl bill_found refl verify_returns

verify-Verified_example : Verified env 5 100 bank true verified_bank
verify-Verified_example = verify-Verified env 5 100 bank true verified_bank verify_returns

abbrev gateway_row : GatewayRow
gateway_row = record { company = 1; gateway = gateway; is_active = true; is_default = true }

abbrev site : Site
site = record {
  settings = λ company. record {
    payment_mode = PaymentMode.platform_gateway;
    gateway_activation_status = ActivationStatus.active;
    is_online_payment_enabled = true;
  };
  company_is_active = λ company. true;
  merchant_profile = λ company. some (record {
    is_approved = true;
    required_fields = (65 ∷ []) ∷ [];
    has_national_card_image = true;
  });
  gateways = gateway_row ∷ [];
  initiate_payment = λ g amount. some (record { success = true; reference_id = 66 ∷ [] });
}

abbrev empty_bank : Bank
empty_bank = record bank { payments = [] }

abbrev bank_of : Result StartError Bank → Bank
bank_of (ok b) = b
bank_of (err e) = empty_bank

abbrev started_bank : Bank
started_bank = bank_of (start site bill none 5 50 empty_bank)

start_returns : start site bill none 5 50 empty_bank ≡ ok started_bank
unfolding start check_settings check_gateway get_default_for_company is_gateway_enabled all_filled
    strip
start_returns = refl

start-Started_example : Started site bill none 5 50 empty_bank started_bank
start-Started_example = start-Started site bill none 5 50 empty_bank started_bank start_returns

abbrev paid_bank : Bank
paid_bank = bank_after (verify env 5 100 started_bank)

started_verified : verify env 5 100 started_bank ≡ ok (true, paid_bank)
unfolding start check_settings check_gateway get_default_for_company is_gateway_enabled all_filled
    strip verify verify_pending on_response confirm pay_invoice is_payment_expired lookup mark_paid
    check_payment settle save
started_verified = refl

start_pays_example :
    (paid : Bill) × (lookup 11 paid_bank.world.bills ≡ some paid)
    × (paid.wage_data.status ≡ InvoiceStatus.paid)
start_pays_example =
    start_pays site env bill none 5 50 100 empty_bank started_bank paid_bank bank-AreNumbered
      bill_found start_returns started_verified

-- The pending payment is old at 10000 seconds.
expire-GivenUp_example :
    (c : Counts) × (out : Bank) × (expire_old_pending_payments 10000 none none 5 false bank
      ≡ ok (c, out))
    × (out ≡ record bank { payments = out.payments })
    × ((k : ℕ)
        → (lookup k out.payments ≡ lookup k bank.payments)
          ⊎ (GivenUp k bank out × ((later : ℕ) → verify env k later out ≡ ok (false, out))))
expire-GivenUp_example = expire-GivenUp env 10000 none none 5 false bank

old_fits : length (old_payments 10000 none none bank.payments) ≤ 5
unfolding old_payments insert_by_age
old_fits = omega arith

old_stored : lookup 5 bank.payments ≡ some pending_payment
unfolding lookup
old_stored = refl

expire_clears_example :
    (c : Counts) × (out : Bank) × (expire_old_pending_payments 10000 none none 5 false bank
      ≡ ok (c, out))
    × GivenUp 5 bank out
expire_clears_example =
    expire_clears 10000 none none 5 5 pending_payment bank old_fits old_stored refl

abbrev report_row : ProviderReportRow
report_row = record {
  provider_reference = 32 ∷ 65 ∷ [];
  amount = pos 1000000;
  status = codes " Success";
}

abbrev paid_payments : Table PaymentRow
paid_payments = (5, record pending_payment { status = Status.paid }) ∷ []

abbrev everywhere : Scope
everywhere = record { company = none; gateway_type = none }

report_agrees : has_issues (reconcile (report_row ∷ []) everywhere 5000 paid_payments) ≡ false
unfolding reconcile build_map put find_duplicates match_rows find_payment tally compare_row
    normalize_provider_status status_map same_text strip strip_front is_space find_missing
    is_unreported has_reference has_id has_issues
report_agrees = refl

reconcile-agrees_example :
    (pk : ℕ) × (p : PaymentRow) × (find_payment everywhere
        (strip report_row.provider_reference)
        paid_payments
      ≡ some (pk, p))
    × (report_row.amount ≡ pos p.amount)
    × (is_paid_there (normalize_provider_status report_row.status) ≡ true → is_paid p.status ≡ true)
    × (is_failed_there (normalize_provider_status report_row.status) ≡ true
        → is_pending p.status ≡ false)
reconcile-agrees_example =
    reconcile-agrees (report_row ∷ []) everywhere 5000 paid_payments report_row report_agrees
      (inl refl)
