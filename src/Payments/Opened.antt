-- ===== src/Payments/Opened.antt =====
-- The payment that `PaymentStartService.start` (apps/payments/services.py) opens, and the tests that it
-- has passed.
use rasti_kiro_gpt.Common.{
  ℕ, ◌≡◌, ◌≢◌, refl, ◌⊎◌, [], ◌∷◌, Bool, true, false, not, Option, none, some, arith, Bool-cases,
  inl, inr,
}
use rasti_kiro_gpt.Common.Table.{lookup}
use rasti_kiro_gpt.Common.Result.{Result, ok, ◌>>=◌, ◌>>◌, raise_if, or_raise}
use rasti_kiro_gpt.Invoice.Status.{is_issued}
use rasti_kiro_gpt.Invoice.MarkPaid.Defs.{Bill}
use rasti_kiro_gpt.Payments.Defs.{Bank, PaymentRow, Status as PaymentStatus}
use rasti_kiro_gpt.Payments.Start.{
  PaymentMode, ActivationStatus, Site, GatewayRow, InitResponse, Error, started_row, or_default,
  get_default_for_company, is_gateway_enabled, is_disabled, is_active_status,
}

-- A test that has not raised.
pub passed : (c : Bool) (e : Error) → raise_if c e ≡ ok tt → c ≡ false
passed true e h = absurd (cc)
passed false e h = refl

-- A chain of tests that has not raised.
pub both_passed :
    (c : Bool) (e : Error) (rest : Result Error (Unit {0}))
    → (raise_if c e >> rest) ≡ ok tt
    → (c ≡ false) × (rest ≡ ok tt)
both_passed true e rest h = absurd (cc)
both_passed false e rest h = (refl, h)

-- A test before the rest of a call that succeeds.
pub test_passed :
    (c : Bool) (e : Error) (rest : Result Error Bank) {out : Bank}
    → (raise_if c e >> rest) ≡ ok out
    → (c ≡ false) × (rest ≡ ok out)
test_passed true e rest h = absurd (cc)
test_passed false e rest h = (refl, h)

pub data Found {A : Type 0} (o : Option A) (k : A → Result Error Bank) (out : Bank) : Type 0 where
  found : (a : A) → o ≡ some a → k a ≡ ok out → Found o k out

pub or_raise-Found :
    {A : Type 0} (o : Option A) (e : Error) (k : A → Result Error Bank) {out : Bank}
    → (or_raise o e >>= k) ≡ ok out
    → Found o k out
or_raise-Found none e k h = absurd (cc)
or_raise-Found (some a) e k h = found a refl h

pub false_of_not : (c : Bool) → not c ≡ false → c ≡ true
false_of_not c h = ground arith

-- The payment that a start leaves under its key: of the company, for the invoice and its total, at
-- the gateway, not paid; PENDING with the provider's reference if the provider took the request, and
-- FAILED without one if not.
pub record IsOpened (bill : Bill) (used : GatewayRow) (answer : InitResponse) (now : ℕ)
    (row : PaymentRow) : Type 0 where
  pub company : row.company ≡ bill.company
  pub invoice : row.invoice ≡ some bill.invoice_id
  pub gateway : row.gateway ≡ some used.gateway
  pub amount : row.amount ≡ bill.total_amount
  pub created_at : row.created_at ≡ now
  pub paid_at : row.paid_at ≡ none
  pub verdict :
      (answer.success ≡ true)
        × (row.status ≡ PaymentStatus.pending)
        × (row.reference_id ≡ answer.reference_id)
      ⊎ ((answer.success ≡ false) × (row.status ≡ PaymentStatus.failed) × (row.reference_id ≡ []))

pub started_row-IsOpened :
    (bill : Bill) (used : GatewayRow) (answer : InitResponse) (now : ℕ)
    → IsOpened bill used answer now (started_row bill used answer now)
started_row-IsOpened bill used answer now = record {
  company = refl;
  invoice = refl;
  gateway = refl;
  amount = refl;
  created_at = refl;
  paid_at = refl;
  verdict = elim (Bool-cases answer.success) [
    | inl e ↦ inl (e, rw e refl, rw e refl)
    | inr e ↦ inr (e, rw e refl, rw e refl)
  ];
}

-- A start that succeeds: the invoice is ISSUED; the company's online payment is on, ACTIVE and
-- flagged, and its profile is in order; the gateway is the given one, or the company's default if
-- none is given, and is active and the company's; and the payment.
pub record Started (site : Site) (bill : Bill) (gateway : Option GatewayRow) (pk now : ℕ)
    (b out : Bank) : Type 0 where
  pub used : GatewayRow
  pub answer : InitResponse
  pub issued : is_issued bill.wage_data.status ≡ true
  pub enabled : (site.settings bill.company).payment_mode ≢ PaymentMode.disabled
  pub activated : (site.settings bill.company).gateway_activation_status ≡ ActivationStatus.active
  pub online : (site.settings bill.company).is_online_payment_enabled ≡ true
  pub chosen :
      (gateway ≡ some used)
      ⊎ ((gateway ≡ none) × (get_default_for_company bill.company site.gateways ≡ some used))
  pub active : used.is_active ≡ true
  pub own : used.company ≡ bill.company
  pub eligible :
      is_gateway_enabled (site.company_is_active bill.company) (site.merchant_profile bill.company)
      ≡ true
  pub asked : site.initiate_payment used.gateway bill.total_amount ≡ some answer
  pub row : PaymentRow
  pub saved : lookup pk out.payments ≡ some row
  pub opened : IsOpened bill used answer now row
  pub others : (j : ℕ) → j ≢ pk → lookup j out.payments ≡ lookup j b.payments
  pub attempts : out.attempts ≡ (pk, answer.success) ∷ b.attempts
  pub world : out.world ≡ b.world

pub mode_on : (m : PaymentMode) → is_disabled m ≡ false → m ≢ PaymentMode.disabled
mode_on m h e = ground arith

pub status_active : (s : ActivationStatus) → is_active_status s ≡ true → s ≡ ActivationStatus.active
status_active s h = ground arith

pub chosen_from :
    (site : Site) (company : ℕ) (gateway : Option GatewayRow) (used : GatewayRow)
    → or_default site company gateway ≡ some used
    → (gateway ≡ some used)
      ⊎ ((gateway ≡ none) × (get_default_for_company company site.gateways ≡ some used))
chosen_from site company none used h = inr (refl, h)
chosen_from site company (some g) used h = inl h
