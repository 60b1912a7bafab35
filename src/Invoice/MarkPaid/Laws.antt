-- ===== src/Invoice/MarkPaid/Laws.antt =====
-- What paying an invoice settles and posts (InvoiceMarkPaidService), the first time and again.
use rasti_kiro_gpt.Common.{
  ℕ, ◌≡◌, ◌≢◌, refl, sym, ap, ◌∙◌, Bool, true, false, not, ◌&&◌, Option, none, some, List, ◌==◌,
  ltb, same_key, is_some, if◌then◌else◌, arith, Option-cases, inl, inr,
}
use rasti_kiro_gpt.Common.Int.{pos, ◌+ℤ◌, ◌-ℤ◌}
use rasti_kiro_gpt.Common.Table.{Table, lookup, lookup-save_self}
use rasti_kiro_gpt.Common.Result.{Result, ok, err, ◌>>◌, raise_if}
use rasti_kiro_gpt.Invoice.Status.{Status, is_issued}
use rasti_kiro_gpt.Invoice.Wage.Defs.{calculate_policy_aware_wage}
use rasti_kiro_gpt.Invoice.Wage.Split.{preview-settlement}
use rasti_kiro_gpt.Payouts.Ledger.Entry.{Key, get_balance, has_key}
use rasti_kiro_gpt.Payouts.Ledger.Write.{payment_collected_by_technician}
use rasti_kiro_gpt.Payouts.Ledger.Invoices.{create_invoice_entries-balance_any}
use rasti_kiro_gpt.Invoice.MarkPaid.Defs.{
  Policy, Settlement, Bill, Payment, World, Error, check_payment, method_of, settle, post_paid,
  paid_bill, mark_paid, ledger_invoice, ledger_payment, only_issued, already_settled,
}

-- A step that succeeds after a check passed the check.
raise_if-passed {κ} :
    {B : Type κ} (b : Bool) (e : Error) (k : Result Error B) {out : B}
    → (raise_if b e >> k) ≡ ok out
    → (b ≡ false) × (k ≡ ok out)
raise_if-passed true e k h = cc
raise_if-passed false e k h = (refl, h)

checked {κ} :
    {B : Type κ} (m : Result Error (Unit {0})) (k : Result Error B) {out : B}
    → (m >> k) ≡ ok out
    → (m ≡ ok tt) × (k ≡ ok out)
checked (ok u) k h = (refl, h)
checked (err e) k h = cc

-- Each invoice is stored under its own id.
abbrev pub AreNumbered : Table Bill → Type 0
AreNumbered bills = (k : ℕ) (b : Bill) → lookup k bills ≡ some b → b.invoice_id ≡ k

abbrev pub settled_bill : Policy → List ℕ → ℕ → Bill → Bill
settled_bill policy method now bill = paid_bill now (record bill {
  settlement = some (record {
    result =
        calculate_policy_aware_wage bill.wage_data true policy.campaign_discount_policy
          policy.extra_discount_policy;
    campaign_policy = policy.campaign_discount_policy;
    extra_policy = policy.extra_discount_policy;
    payment_method = method;
    settled_at = now;
  });
})

-- Invoice `bill` was issued, not settled, and matched the payment; and it has been paid.
pub data Pays (policy : Policy) (pk : ℕ) (payment : Option Payment) (given : List ℕ) (now : ℕ)
    (w out : World) : Type 0 where
  pays :
      (bill : Bill)
      → lookup pk w.bills ≡ some bill
      → is_issued bill.wage_data.status ≡ true
      → bill.settlement ≡ none
      → check_payment bill payment ≡ ok tt
      → out
        ≡ post_paid policy (settled_bill policy (method_of payment given) now bill) payment now w
      → Pays policy pk payment given now w out

none_if : (o : Option Settlement) → is_some o ≡ false → o ≡ none
none_if none h = refl
none_if (some s) h = cc

result-injective : {a b : World} → ◌≡◌ {A = Result Error World} (ok a) (ok b) → b ≡ a
result-injective h = cc

pub mark_paid-Pays :
    (policy : Policy) (pk : ℕ) (payment : Option Payment) (given : List ℕ) (now : ℕ) (w out : World)
    → mark_paid policy pk payment given now w ≡ ok out
    → Pays policy pk payment given now w out
unfolding mark_paid settle
mark_paid-Pays policy pk payment given now w out h = elim (Option-cases (lookup pk w.bills)) [
  | inl e ↦ absurd (let x = rw e at h in cc x)
  | inr (bill, found) ↦
      let h₁ = rw found at h in
      let (issued, h₂) = raise_if-passed (not (is_issued bill.wage_data.status)) only_issued _ h₁ in
      let (open_, h₃) = raise_if-passed (is_some bill.settlement) already_settled _ h₂ in
      let (fits, h₄) = checked (check_payment bill payment) _ h₃ in
      pays bill found (ground arith) (none_if bill.settlement open_) fits
        (result-injective (rw open_ at h₄))
]

-- A payment that is given belongs to the invoice, to its company, and has its amount.
abbrev pub Matches : Bill → Option Payment → Type 0
Matches bill none = Unit {0}
Matches bill (some p) =
    (p.company ≡ bill.company) × (p.invoice ≡ some bill.invoice_id) × (p.amount ≡ bill.total_amount)

same_key-eq : (o : Option ℕ) (n : ℕ) → same_key o (some n) ≡ true → o ≡ some n
same_key-eq none n h = absurd (cc)
same_key-eq (some m) n h = ap (λ k. some k) (ground arith)

check_payment-Matches :
    (bill : Bill) (payment : Option Payment)
    → check_payment bill payment ≡ ok tt
    → Matches bill payment
unfolding check_payment
check_payment-Matches bill none h = tt
check_payment-Matches bill (some p) h =
    (ground arith, same_key-eq p.invoice bill.invoice_id (ground arith), ground arith)

bill-injective : {a b : Bill} → ◌≡◌ {A = Option Bill} (some a) (some b) → a ≡ b
bill-injective h = cc

not_draft : (s : Status) → is_issued s ≡ true → s ≢ Status.draft
not_draft s h e = ground arith

-- A payment that succeeds, in a table of invoices under their own ids, is of an invoice that was
-- ISSUED and not settled; a payment that is given is of this invoice and of its company, with the
-- invoice's total as its amount. The invoice is then PAID at that time, and its settlement, made at
-- that time, is the division that the preview of the issued invoice shows.
pub mark_paid-settles :
    (policy : Policy) (pk : ℕ) (payment : Option Payment) (given : List ℕ) (now : ℕ) (w out : World)
    → AreNumbered w.bills
    → mark_paid policy pk payment given now w ≡ ok out
    → (bill : Bill) × (paid : Bill) × (s : Settlement) × (lookup pk w.bills ≡ some bill)
      × (is_issued bill.wage_data.status ≡ true)
      × (bill.settlement ≡ none)
      × Matches bill payment
      × (lookup pk out.bills ≡ some paid)
      × (paid.wage_data.status ≡ Status.paid)
      × (paid.paid_at ≡ some now)
      × (paid.settlement ≡ some s)
      × (s.settled_at ≡ now)
      × (s.result
          ≡ calculate_policy_aware_wage bill.wage_data false policy.campaign_discount_policy
              policy.extra_discount_policy)
unfolding post_paid
mark_paid-settles policy pk payment given now w out numbered h =
    elim (mark_paid-Pays policy pk payment given now w out h) [
      | pays bill found issued unsettled fits e ↦
          let paid = settled_bill policy (method_of payment given) now bill in
          let saved : lookup pk out.bills ≡ some paid =
            rw (e, ← numbered pk bill found) (lookup-save_self bill.invoice_id paid w.bills) in
          (
            bill,
            paid,
            _,
            found,
            issued,
            unsettled,
            check_payment-Matches bill payment fits,
            saved,
            refl,
            refl,
            refl,
            refl,
            sym (
                preview-settlement bill.wage_data policy.campaign_discount_policy
                  policy.extra_discount_policy (not_draft bill.wage_data.status issued)),
          )
    ]

-- An invoice is paid once: after a payment that succeeds, every other payment of it is refused.
pub mark_paid_again :
    (policy : Policy) (pk : ℕ) (payment payment' : Option Payment) (given given' : List ℕ)
    (now later : ℕ) (w out : World)
    → AreNumbered w.bills
    → mark_paid policy pk payment given now w ≡ ok out
    → mark_paid policy pk payment' given' later out ≡ err only_issued
unfolding mark_paid
mark_paid_again policy pk payment payment' given given' now later w out numbered h =
    let (bill, paid, s, found, issued, unsettled, fits, saved, is_paid, x, y, z, rest) =
      mark_paid-settles policy pk payment given now w out numbered h in
    rw (saved, is_paid) refl

-- The wage that the preview of the invoice shows.
abbrev pub preview_wage : Policy → Bill → ℕ
preview_wage policy bill =
    (calculate_policy_aware_wage bill.wage_data false policy.campaign_discount_policy
      policy.extra_discount_policy).final_technician_wage

posted_balance :
    (policy : Policy) (payment : Option Payment) (method : List ℕ) (now : ℕ) (w : World)
    (bill : Bill) (t c o : ℕ)
    → is_issued bill.wage_data.status ≡ true
    → bill.technician ≡ some t
    → has_key (Key.technician_credit bill.invoice_id) w.ledger ≡ false
    → has_key (Key.cash_received_by_technician bill.invoice_id) w.ledger ≡ false
    → get_balance c o (post_paid policy (settled_bill policy method now bill) payment now w).ledger
      ≡ (if bill.company == c && t == o && ltb 0 (preview_wage policy bill)
          then get_balance c o w.ledger
            +ℤ pos (preview_wage policy bill)
            -ℤ pos (
                if payment_collected_by_technician (ledger_payment payment)
                then bill.total_amount
                else 0)
          else get_balance c o w.ledger)
unfolding post_paid
posted_balance policy payment method now w bill t c o issued has =
    rw
      (
        preview_wage,
        preview-settlement bill.wage_data policy.campaign_discount_policy
            policy.extra_discount_policy (not_draft bill.wage_data.status issued),
      )
      (λ k1 k2.
        create_invoice_entries-balance_any (ledger_invoice (settled_bill policy method now bill))
          (ledger_payment payment) t c o w.ledger has k1 k2)

-- A payment that succeeds, of an invoice with a technician and none of its two keys in the ledger:
-- if the wage that the preview of the issued invoice shows is positive, the technician is credited
-- with it, and debited with the invoice's total if the technician took the cash; if that wage is
-- zero, nothing is credited and nothing debited, cash included. No other balance moves.
pub mark_paid-balance :
    (policy : Policy) (pk : ℕ) (payment : Option Payment) (given : List ℕ) (now : ℕ) (w out : World)
    (bill : Bill) (t c o : ℕ)
    → mark_paid policy pk payment given now w ≡ ok out
    → lookup pk w.bills ≡ some bill
    → bill.technician ≡ some t
    → has_key (Key.technician_credit bill.invoice_id) w.ledger ≡ false
    → has_key (Key.cash_received_by_technician bill.invoice_id) w.ledger ≡ false
    → get_balance c o out.ledger ≡ (
        if bill.company == c && t == o && ltb 0 (preview_wage policy bill)
        then get_balance c o w.ledger
          +ℤ pos (preview_wage policy bill)
          -ℤ pos (
              if payment_collected_by_technician (ledger_payment payment)
              then bill.total_amount
              else 0)
        else get_balance c o w.ledger)
unfolding post_paid
mark_paid-balance policy pk payment given now w out bill t c o h at_ has k1 k2 =
    elim (mark_paid-Pays policy pk payment given now w out h) [
      | pays row found issued unsettled fits e ↦
          let same : row ≡ bill = bill-injective (◌∙◌ (sym found) at_) in
          let e' = ◌∙◌ e (
            ap
              (λ b.
                post_paid policy (settled_bill policy (method_of payment given) now b) payment now
                  w)
              same) in
          let live : is_issued bill.wage_data.status ≡ true =
            ◌∙◌ (ap (λ b. is_issued b.wage_data.status) (sym same)) issued in
          rw e' (
            posted_balance policy payment (method_of payment given) now w bill t c o live has k1 k2)
    ]
