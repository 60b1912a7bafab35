-- ===== src/Invoice/MarkPaid/Defs.antt =====
-- The rows, the checks and the steps of `mark_paid`. Text fields that no decision reads are left
-- out, and so is the payment's reference; the payment method is kept, as the ledger reads it.
use rasti_kiro_gpt.Common.{
  ℕ, Bool, true, false, not, ◌||◌, Option, none, some, List, [], ◌∷◌, ◌==◌, same_key, is_some,
  if◌then◌else◌,
}
use rasti_kiro_gpt.Common.Text.{codes}
use rasti_kiro_gpt.Common.Table.{Table, lookup, save}
use rasti_kiro_gpt.Common.Result.{Result, ok, err, ◌>>=◌, ◌>>◌, raise_if, or_raise}
use rasti_kiro_gpt.Invoice.Status.{Status, is_issued}
use rasti_kiro_gpt.Invoice.Wage.Defs.{
  DiscountPolicy, Invoice, WageResult, calculate_policy_aware_wage,
}
use rasti_kiro_gpt.Payouts.Split.{OwnerType}
use rasti_kiro_gpt.Payouts.Ledger.Entry.{Ledger}
use rasti_kiro_gpt.Payouts.Ledger.Write.{PaymentInfo, InvoiceInfo, create_invoice_entries}
use rasti_kiro_gpt.Payouts.Escrow.Defs.{Escrows}
use rasti_kiro_gpt.Payouts.Escrow.Distribution.{
  InvoiceInfo as EscrowInvoice, Outcome, reserve_and_distribute,
}
use rasti_kiro_gpt.Payouts.Fees.{Fees, FeePayment, record_invoice_fee}

-- The company's `CompanyFinancialPolicy`
pub record Policy : Type 0 where
  pub campaign_discount_policy : DiscountPolicy
  pub extra_discount_policy : DiscountPolicy
  pub platform_fee_percent : ℕ

-- The `settled_*` fields, which are written together.
pub record Settlement : Type 0 where
  pub result : WageResult
  pub campaign_policy : DiscountPolicy
  pub extra_policy : DiscountPolicy
  pub payment_method : List ℕ
  pub settled_at : ℕ

-- The row of an invoice; `wage_data` is what the wage calculation reads of it, its status included,
-- and `technician` is that of its order.
pub record Bill : Type 0 where
  pub invoice_id : ℕ
  pub company : ℕ
  pub order : Option ℕ
  pub technician : Option ℕ
  pub wage_data : Invoice
  pub total_amount : ℕ
  pub settlement : Option Settlement
  pub paid_at : Option ℕ

pub record Gateway : Type 0 where
  pub gateway_type : List ℕ
  pub owner_type : OwnerType

-- What is read of a payment; `method`, `cash_received` and `technician_id` come from its metadata.
pub record Payment : Type 0 where
  pub payment_id : ℕ
  pub company : ℕ
  pub invoice : Option ℕ
  pub amount : ℕ
  pub gateway : Option Gateway
  pub is_paid : Bool
  pub method : List ℕ
  pub cash_received : Bool
  pub technician_id : Option ℕ

-- The active task that asks for a failed escrow transition to be made later, by the invoice's id.
pub data Task : Type 0 where
  escrow_record : ℕ → Task

pub record World : Type 0 where
  pub bills : Table Bill
  pub ledger : Ledger
  pub escrows : Escrows
  pub fees : Fees
  pub tasks : List Task

pub data Error : Type 0 where
  does_not_exist only_issued already_settled : Error
  foreign_payment other_invoice amount_differs : Error

-- The checks on a payment.
unfoldable pub check_payment : Bill → Option Payment → Result Error (Unit {0})
check_payment bill none = ok tt
check_payment bill (some p) = do
  raise_if (not (p.company == bill.company)) foreign_payment
  raise_if (not (same_key p.invoice (some bill.invoice_id))) other_invoice
  raise_if (not (p.amount == bill.total_amount)) amount_differs

-- `first or second`
abbrev pub or_text : List ℕ → List ℕ → List ℕ
or_text [] second = second
or_text (c ∷ cs) second = c ∷ cs

abbrev pub gateway_type_of : Option Gateway → List ℕ
gateway_type_of none = []
gateway_type_of (some g) = g.gateway_type

unfoldable pub method_of : Option Payment → List ℕ → List ℕ
method_of none given = or_text given (codes "cash")
method_of (some p) given =
    or_text (gateway_type_of p.gateway) (or_text p.method (or_text given (codes "online")))

-- `InvoiceSettlementService.settle`
unfoldable pub settle : Policy → List ℕ → ℕ → Bill → Result Error Bill
settle policy method now bill = do
  raise_if (is_some bill.settlement) already_settled
  ok (record bill {
    settlement = some (record {
      result =
          calculate_policy_aware_wage bill.wage_data true policy.campaign_discount_policy
            policy.extra_discount_policy;
      campaign_policy = policy.campaign_discount_policy;
      extra_policy = policy.extra_discount_policy;
      payment_method = method;
      settled_at = now;
    });
  })

abbrev pub wage_of : Option Settlement → ℕ
wage_of none = 0
wage_of (some s) = s.result.final_technician_wage

abbrev pub method_text : Option Settlement → List ℕ
method_text none = []
method_text (some s) = s.payment_method

abbrev pub ledger_invoice : Bill → InvoiceInfo
ledger_invoice bill = record {
  invoice_id = bill.invoice_id;
  company = bill.company;
  order = bill.order;
  technician = bill.technician;
  settled_technician_wage = wage_of bill.settlement;
  settled_payment_method = method_text bill.settlement;
  total_amount = bill.total_amount;
}

abbrev pub ledger_payment : Option Payment → Option PaymentInfo
ledger_payment none = none
ledger_payment (some p) = some (record {
  payment_id = p.payment_id;
  cash_received = p.cash_received;
  technician_id = p.technician_id;
})

abbrev pub payment_key : Option Payment → Option ℕ
payment_key none = none
payment_key (some p) = some p.payment_id

abbrev pub escrow_invoice : Policy → Bill → EscrowInvoice
escrow_invoice policy bill = record {
  invoice_id = bill.invoice_id;
  total_amount = bill.total_amount;
  settled_technician_wage = wage_of bill.settlement;
  platform_fee_percent = policy.platform_fee_percent;
}

abbrev pub owner_of : Option Gateway → Option OwnerType
owner_of none = none
owner_of (some g) = some g.owner_type

abbrev pub fee_payment : Option Payment → Option FeePayment
fee_payment none = none
fee_payment (some p) = some (record { gateway = owner_of p.gateway; is_paid = p.is_paid })

unfoldable pub has_task : ℕ → List Task → Bool
has_task invoice [] = false
has_task invoice (Task.escrow_record i ∷ tasks) = i == invoice || has_task invoice tasks

-- `FinancialBackfillService.create_task`: an invoice has one active task of the kind at most.
unfoldable pub create_task : ℕ → List Task → List Task
create_task invoice tasks =
    if has_task invoice tasks then tasks else Task.escrow_record invoice ∷ tasks

abbrev pub tasks_after : ℕ → Outcome → List Task → List Task
tasks_after invoice (ok _, _) tasks = tasks
tasks_after invoice (err e, _) tasks = create_task invoice tasks

abbrev pub paid_bill : ℕ → Bill → Bill
paid_bill now bill = record bill {
  wage_data = record bill.wage_data { status = Status.paid };
  paid_at = some now;
}

-- What follows once the invoice is saved as PAID. A failure of the escrow transition does not stop
-- it, and leaves a task.
unfoldable pub post_paid : Policy → Bill → Option Payment → ℕ → World → World
post_paid policy bill payment now w =
    let outcome =
      reserve_and_distribute (escrow_invoice policy bill) (payment_key payment) now w.escrows in
    record {
      bills = save bill.invoice_id bill w.bills;
      ledger = (create_invoice_entries (ledger_invoice bill) (ledger_payment payment) w.ledger).1;
      escrows = outcome.1;
      fees =
          record_invoice_fee bill.invoice_id bill.company bill.total_amount
            policy.platform_fee_percent (fee_payment payment) w.fees;
      tasks = tasks_after bill.invoice_id outcome w.tasks;
    }

-- `InvoiceMarkPaidService.mark_paid`
unfoldable pub mark_paid : Policy → ℕ → Option Payment → List ℕ → ℕ → World → Result Error World
mark_paid policy pk payment payment_method now w = do
  bill ← or_raise (lookup pk w.bills) does_not_exist
  raise_if (not (is_issued bill.wage_data.status)) only_issued
  raise_if (is_some bill.settlement) already_settled
  check_payment bill payment
  settled ← settle policy (method_of payment payment_method) now bill
  ok (post_paid policy (paid_bill now settled) payment now w)
