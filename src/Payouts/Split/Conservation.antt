-- ===== src/Payouts/Split/Conservation.antt =====
-- The amounts of a split decision add up, and when a split is made at all.
use rasti_kiro_gpt.Common.{
  ℕ, ◌+◌, ◌≤◌, ◌<◌, ◌≡◌, ◌≢◌, max, true, Option, some, arith, ◌↔◌, inl, inr, ◌&&◌, not, Bool-cases,
}
use rasti_kiro_gpt.Payouts.Split.{
  PayoutStrategy, OwnerType, Reason, TechnicianInfo, Policy, compute, platform_fee, passes_kyc,
  blocked_by_gateway, is_verified, non_empty, sub_merchant,
}

platform_fee-le : (total pct : ℕ) → pct ≤ 10000 → platform_fee total pct ≤ total
unfolding platform_fee
platform_fee-le total pct h = grind arith

module _ (policy : Policy) (technician : Option TechnicianInfo) (total wage : ℕ)
    (payment : Option (Option OwnerType)) where
  -- For a fee percentage of at most 100: the technician's wage is either paid directly or booked in
  -- the ledger, whole; fee, direct amount and company deposit add up to the total, or to fee and direct
  -- amount where these two are more than the total; and the fee is at most the total.
  pub compute_conserves :
      policy.platform_fee_percent ≤ 10000
      → let d = compute policy technician total wage payment in
        (d.technician_direct_amount + d.technician_ledger_amount ≡ wage)
        × (d.platform_fee_amount + d.technician_direct_amount + d.company_deposit_amount
            ≡ max total (d.platform_fee_amount + d.technician_direct_amount))
        × (d.platform_fee_amount ≤ total)
  unfolding compute
  compute_conserves h =
      elim (Bool-cases (
        passes_kyc policy technician wage
        && not (passes_kyc policy technician wage && blocked_by_gateway payment))) [
          | inl e ↦ rw e (
            omega arith,
            omega arith,
            omega (arith, platform_fee-le total policy.platform_fee_percent h),
          )
          | inr e ↦ rw e (
            omega arith,
            omega arith,
            omega (arith, platform_fee-le total policy.platform_fee_percent h),
          )
        ]

  -- A split is made exactly when the company splits, the technician is verified and has a
  -- sub-merchant, the wage is positive, and the payment, if it has a gateway, has one that the
  -- platform owns.
  pub compute_splits_iff :
      ((compute policy technician total wage payment).should_split_with_technician ≡ true) ↔ (
        (policy.payout_strategy ≡ PayoutStrategy.split_with_technician)
        × (is_verified technician ≡ true)
        × (non_empty (sub_merchant technician) ≡ true)
        × (0 < wage)
        × (payment ≢ some (some OwnerType.company)))
  unfolding compute
  compute_splits_iff = (λ h. ground arith, λ h. ground arith)

  -- The reason says whether a split is made, and the branch "fallback_to_company" is never reached.
  pub compute-reason :
      let d = compute policy technician total wage payment in
      (d.reason ≢ Reason.fallback_to_company)
      × ((d.reason ≡ Reason.split_with_verified_technician)
          ↔ (d.should_split_with_technician ≡ true))
  unfolding compute
  compute-reason = ground arith

  -- A split pays the whole wage directly.
  pub compute_direct :
      (compute policy technician total wage payment).should_split_with_technician ≡ true
      → (compute policy technician total wage payment).technician_direct_amount ≡ wage
  unfolding compute
  compute_direct h = ground arith
