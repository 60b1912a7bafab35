-- ===== src/Invoice/Tests.antt =====
-- The theorems on the division of an invoice, at one invoice of a company that shares discounts.
mod Paying
use rasti_kiro_gpt.Common.{◌+◌, ◌*◌, ◌≤◌, ◌<◌, ◌≡◌, refl, arith, true, false, some, [], ◌∷◌}
use rasti_kiro_gpt.Common.Int.{pos}
use rasti_kiro_gpt.Invoice.Status.{Status}
use rasti_kiro_gpt.Invoice.Wage.Defs.{
  DiscountPolicy, RowType, Percents, Totals, Invoice, divide, net_total, allocate_discount,
  collect_category_totals, calculate_policy_aware_wage, snapshot_wage_percentages_on_invoice,
  gross_wage, round_half_up, absorbed_by, proportional_absorbed,
}
use rasti_kiro_gpt.Invoice.Wage.Allocation.{proportional_share_fair}
use rasti_kiro_gpt.Invoice.Wage.Split.{
  AreShares, split_within_net, split_exact, collect-net, counted, preview-settlement,
  snapshot-settlement,
}

abbrev pub percents : Percents
percents = record { service_pct = 4000; goods_pct = 1000; travel_pct = 10000 }

abbrev totals : Totals
totals = record { service_total = 1000001; goods_total = 300000; travel_total = 50000 }

abbrev pub invoice_in : Status → Invoice
invoice_in status = record {
  status = status;
  items =
      record { row_type = RowType.service; description = "repair"; total_price = 1000001 }
      ∷ record { row_type = RowType.other; description = " visit "; total_price = 50000 }
      ∷ [];
  snapshot = record { service_pct = 0; goods_pct = 0; travel_pct = 0 };
  technician = some percents;
  extra_discount_amount = pos 1001;
  campaign_discount_amount = pos 2000;
}

percents-AreShares : AreShares percents
percents-AreShares = record {
  service_le = omega arith;
  goods_le = omega arith;
  travel_le = omega arith;
}

split_exact_example :
    let d =
      divide totals percents
        (pos 1001)
        (pos 2000)
        DiscountPolicy.half_half
        DiscountPolicy.proportional_share in
    d.final_technician_wage + d.final_company_share + 1001 + 2000 ≡ net_total totals
unfolding divide gross_wage round_half_up net_total allocate_discount absorbed_by
    proportional_absorbed
split_exact_example =
    split_exact totals percents (pos 1001) (pos 2000) DiscountPolicy.half_half
      DiscountPolicy.proportional_share percents-AreShares (omega arith) (omega arith)

proportional_share_fair_example :
    let (a, b) = allocate_discount (pos 1001) DiscountPolicy.proportional_share (pos 3) (pos 4) in
    (2 * (a * 7) ≤ 2 * (1001 * 3) + 7) × (2 * (1001 * 3) < 2 * (a * 7) + 7)
proportional_share_fair_example = proportional_share_fair 1001 3 4 (omega arith) (omega arith)
