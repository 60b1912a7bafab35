-- ===== src/Payouts/Split.antt =====
-- apps/payouts/services_split.py: the routing decision for the money of a payment.
-- Amounts are whole Rials and not negative; the fee percentage is its number of hundredths.
pub mod Conservation
use rasti_kiro_gpt.Common.{
  ℕ, zero, suc, ◌+◌, ◌-◌, ◌*◌, ◌/◌, String, Bool, true, false, ◌&&◌, not, Option, none, some, ltb,
  if◌then◌else◌, List, [], ◌∷◌,
}

-- `CompanyFinancialPolicy.PayoutStrategy`
pub data PayoutStrategy : Type 0 where
  direct_to_company split_with_technician : PayoutStrategy

-- `PaymentGateway.OwnerType`
pub data OwnerType : Type 0 where
  company platform : OwnerType

-- The texts that `reason` takes.
pub data Reason : Type 0 where
  split_with_verified_technician : Reason
  gateway_is_company_owned : Reason
  payout_strategy_is_direct_to_company : Reason
  technician_not_verified : Reason
  technician_has_no_sub_merchant_id : Reason
  technician_wage_is_zero : Reason
  fallback_to_company : Reason

-- What the decision reads of a technician.
pub record TechnicianInfo : Type 0 where
  pub shaba_verified : Bool
  pub sub_merchant_id : String

pub record Policy : Type 0 where
  pub payout_strategy : PayoutStrategy
  pub platform_fee_percent : ℕ

pub record Decision : Type 0 where
  pub should_split_with_technician : Bool
  pub reason : Reason
  pub total_amount : ℕ
  pub platform_fee_amount : ℕ
  pub company_deposit_amount : ℕ
  pub technician_direct_amount : ℕ
  pub technician_ledger_amount : ℕ

abbrev pub is_split : PayoutStrategy → Bool
is_split PayoutStrategy.split_with_technician = true
is_split PayoutStrategy.direct_to_company = false

abbrev pub is_platform : OwnerType → Bool
is_platform OwnerType.platform = true
is_platform OwnerType.company = false

-- `bool(text)`
abbrev pub non_empty : String → Bool
non_empty String.[] = false
non_empty (String.◌∷◌ _ _) = true

abbrev pub is_verified : Option TechnicianInfo → Bool
is_verified none = false
is_verified (some t) = t.shaba_verified

abbrev pub sub_merchant : Option TechnicianInfo → String
sub_merchant none = String.[]
sub_merchant (some t) = t.sub_merchant_id

-- `int((total * percent / 100).to_integral_value(rounding=ROUND_DOWN))`
unfoldable pub platform_fee : ℕ → ℕ → ℕ
platform_fee total percent = total * percent / 10000

-- The policy and KYC gates.
unfoldable pub passes_kyc : Policy → Option TechnicianInfo → ℕ → Bool
passes_kyc policy technician tech_wage =
    is_split policy.payout_strategy
    && is_verified technician
    && non_empty (sub_merchant technician)
    && ltb 0 tech_wage

-- The gateway gate: a payment stands for its gateway's owner, if it has a gateway.
unfoldable pub blocked_by_gateway : Option (Option OwnerType) → Bool
blocked_by_gateway (some (some owner)) = not (is_platform owner)
blocked_by_gateway _ = false

unfoldable pub refusal : Policy → Option TechnicianInfo → ℕ → Bool → Reason
refusal policy technician tech_wage gateway_blocks_split =
    if gateway_blocks_split
    then Reason.gateway_is_company_owned
    else if not (is_split policy.payout_strategy)
    then Reason.payout_strategy_is_direct_to_company
    else if not (is_verified technician)
    then Reason.technician_not_verified
    else if not (non_empty (sub_merchant technician))
    then Reason.technician_has_no_sub_merchant_id
    else if not (ltb 0 tech_wage)
    then Reason.technician_wage_is_zero
    else Reason.fallback_to_company

-- `PaymentSplitDecisionService.compute`
unfoldable pub compute :
    Policy → Option TechnicianInfo → ℕ → ℕ → Option (Option OwnerType) → Decision
unfolding platform_fee passes_kyc blocked_by_gateway refusal
compute policy technician total_amount tech_wage payment =
    let fee = platform_fee total_amount policy.platform_fee_percent in
    let kyc = passes_kyc policy technician tech_wage in
    let gateway_blocks_split = kyc && blocked_by_gateway payment in
    if kyc && not gateway_blocks_split
    then record {
      should_split_with_technician = true;
      reason = Reason.split_with_verified_technician;
      total_amount = total_amount;
      platform_fee_amount = fee;
      company_deposit_amount = total_amount - fee - tech_wage;
      technician_direct_amount = tech_wage;
      technician_ledger_amount = 0;
    }
    else record {
      should_split_with_technician = false;
      reason = refusal policy technician tech_wage gateway_blocks_split;
      total_amount = total_amount;
      platform_fee_amount = fee;
      company_deposit_amount = total_amount - fee;
      technician_direct_amount = 0;
      technician_ledger_amount = tech_wage;
    }
