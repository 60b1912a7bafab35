-- ===== src/Payments/Start.antt =====
-- `PaymentStartService` of apps/payments/services.py, with the eligibility of the company of
-- apps/tenants/services_merchant_profile.py. What the provider answers is a parameter.
use rasti_kiro_gpt.Common.{
  ℕ, Bool, true, false, not, ◌&&◌, Option, none, some, List, [], ◌∷◌, ◌==◌, if◌then◌else◌,
}
use rasti_kiro_gpt.Common.Text.{strip}
use rasti_kiro_gpt.Common.Table.{save}
use rasti_kiro_gpt.Common.Result.{Result, ok, ◌>>=◌, ◌>>◌, raise_if, or_raise}
use rasti_kiro_gpt.Invoice.Status.{is_issued}
use rasti_kiro_gpt.Invoice.MarkPaid.Defs.{Gateway, Bill}
use rasti_kiro_gpt.Payments.Defs.{Status as PaymentStatus, PaymentRow, Bank, is_blank}

-- `CompanyPaymentSettings.PaymentMode`
pub data PaymentMode : Type 0 where
  disabled company_gateway platform_gateway : PaymentMode

abbrev pub is_disabled : PaymentMode → Bool
is_disabled PaymentMode.disabled = true
is_disabled _ = false

-- `CompanyPaymentSettings.ActivationStatus`
pub data ActivationStatus : Type 0 where
  inactive pending_review active suspended : ActivationStatus

abbrev pub is_active_status : ActivationStatus → Bool
is_active_status ActivationStatus.active = true
is_active_status _ = false

-- `CompanyPaymentSettings`; a company without a row reads the defaults.
pub record PaymentSettings : Type 0 where
  pub payment_mode : PaymentMode
  pub gateway_activation_status : ActivationStatus
  pub is_online_payment_enabled : Bool

-- `CompanyPaymentSettings.save`, which computes the flag from the other two fields
unfoldable pub save_settings : PaymentSettings → PaymentSettings
save_settings ps = record ps {
  is_online_payment_enabled =
      not (is_disabled ps.payment_mode) && is_active_status ps.gateway_activation_status;
}

-- What is read of a `CompanyMerchantProfile`: whether it is APPROVED, the texts of the required
-- fields, and whether the image of the national card is there.
pub record MerchantProfile : Type 0 where
  pub is_approved : Bool
  pub required_fields : List (List ℕ)
  pub has_national_card_image : Bool

unfoldable pub all_filled : List (List ℕ) → Bool
all_filled [] = true
all_filled (text ∷ texts) = not (is_blank (strip text)) && all_filled texts

-- `CompanyPaymentEligibilityService.is_gateway_enabled`
unfoldable pub is_gateway_enabled : Bool → Option MerchantProfile → Bool
is_gateway_enabled false profile = false
is_gateway_enabled true none = false
is_gateway_enabled true (some profile) =
    if not profile.is_approved
    then false
    else if not (all_filled profile.required_fields)
    then false
    else profile.has_national_card_image

pub record GatewayRow : Type 0 where
  pub company : ℕ
  pub gateway : Gateway
  pub is_active : Bool
  pub is_default : Bool

-- The provider's answer to a request.
pub record InitResponse : Type 0 where
  pub success : Bool
  pub reference_id : List ℕ

-- What a start reads: the settings, whether the company is active and its profile, the gateways, and
-- the provider's answer to an amount (`none` where the gateway's type has no provider).
pub record Site : Type 0 where
  pub settings : ℕ → PaymentSettings
  pub company_is_active : ℕ → Bool
  pub merchant_profile : ℕ → Option MerchantProfile
  pub gateways : List GatewayRow
  pub initiate_payment : Gateway → ℕ → Option InitResponse

pub data Error : Type 0 where
  not_payable payment_disabled gateway_not_activated online_not_enabled : Error
  no_gateway gateway_inactive foreign_gateway not_eligible no_provider : Error

-- `PaymentGatewaySelector.get_default_for_company`
unfoldable pub get_default_for_company : ℕ → List GatewayRow → Option GatewayRow
get_default_for_company company [] = none
get_default_for_company company (g ∷ gs) =
    if g.company == company && g.is_active && g.is_default
    then some g
    else get_default_for_company company gs

abbrev pub or_default : Site → ℕ → Option GatewayRow → Option GatewayRow
or_default site company (some g) = some g
or_default site company none = get_default_for_company company site.gateways

unfoldable pub check_settings : PaymentSettings → Result Error (Unit {0})
check_settings ps = do
  raise_if (is_disabled ps.payment_mode) payment_disabled
  raise_if (not (is_active_status ps.gateway_activation_status)) gateway_not_activated
  raise_if (not ps.is_online_payment_enabled) online_not_enabled

unfoldable pub check_gateway : ℕ → GatewayRow → Result Error (Unit {0})
check_gateway company g = do
  raise_if (not g.is_active) gateway_inactive
  raise_if (not (g.company == company)) foreign_gateway

-- The row that the provider's answer leaves, created as INITIATED and saved again.
abbrev pub started_row : Bill → GatewayRow → InitResponse → ℕ → PaymentRow
started_row bill g r now = record {
  company = bill.company;
  invoice = some bill.invoice_id;
  gateway = some g.gateway;
  amount = bill.total_amount;
  status = if r.success then PaymentStatus.pending else PaymentStatus.failed;
  reference_id = if r.success then r.reference_id else [];
  created_at = now;
  paid_at = none;
}

-- `PaymentStartService.start`; `pk` is the key that the database gives to the payment.
unfoldable pub start : Site → Bill → Option GatewayRow → ℕ → ℕ → Bank → Result Error Bank
start site bill gateway pk now b = do
  raise_if (not (is_issued bill.wage_data.status)) not_payable
  check_settings (site.settings bill.company)
  g ← or_raise (or_default site bill.company gateway) no_gateway
  check_gateway bill.company g
  raise_if
      (not (
        is_gateway_enabled (site.company_is_active bill.company)
          (site.merchant_profile bill.company)))
      not_eligible
  r ← or_raise (site.initiate_payment g.gateway bill.total_amount) no_provider
  ok (record b {
    payments = save pk (started_row bill g r now) b.payments;
    attempts = (pk, r.success) ∷ b.attempts;
  })
