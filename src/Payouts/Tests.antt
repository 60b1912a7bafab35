-- ===== src/Payouts/Tests.antt =====
-- The theorems on splits, the ledger and escrow records, at one company and technician.
mod Ledgers
mod Escrows
use rasti_kiro_gpt.Common.{
  ℕ, ◌+◌, ◌<◌, ◌≡◌, ◌≢◌, ◌↔◌, refl, max, arith, ◌≤◌, Bool, true, false, Option, none, some,
}
use rasti_kiro_gpt.Payouts.Split.{
  PayoutStrategy, OwnerType, TechnicianInfo, Policy, Decision, compute, non_empty, is_verified,
  sub_merchant,
}
use rasti_kiro_gpt.Payouts.Split.Conservation.{compute_conserves, compute_splits_iff}

abbrev pub policy : Policy
policy = record {
  payout_strategy = PayoutStrategy.split_with_technician;
  platform_fee_percent = 250;
}

abbrev pub verified : TechnicianInfo
verified = record { shaba_verified = true; sub_merchant_id = "m-1" }

compute_conserves_example :
    let d = compute policy (some verified) 1000000 400000 (some (some OwnerType.platform)) in
    (d.technician_direct_amount + d.technician_ledger_amount ≡ 400000)
    × (d.platform_fee_amount + d.technician_direct_amount + d.company_deposit_amount
        ≡ max 1000000 (d.platform_fee_amount + d.technician_direct_amount))
    × (d.platform_fee_amount ≤ 1000000)
compute_conserves_example =
    compute_conserves policy (some verified) 1000000 400000 (some (some OwnerType.platform))
      (omega arith)
