-- ===== src/Invoice/Wage/Split.antt =====
-- How the net total of an invoice is divided, and that a preview and the settlement agree.
use rasti_kiro_gpt.Common.{
  ℕ, ◌+◌, ◌-◌, ◌*◌, ◌≤◌, ◌≡◌, ◌≢◌, refl, ap, Bool, true, false, List, [], ◌∷◌, arith, if◌then◌else◌,
  ◌||◌,
}
use rasti_kiro_gpt.Common.Int.{ℤ, pos}
use rasti_kiro_gpt.Common.Text.{codes, strip, same_text, contains}
use rasti_kiro_gpt.Invoice.Status.{Status}
use rasti_kiro_gpt.Invoice.Wage.Defs.{
  DiscountPolicy, RowType, InvoiceItem, Percents, Invoice, Totals, WageResult, floor_zero,
  category_wage, gross_wage, net_total, divide, add_item, add_legacy, add_items,
  collect_category_totals, calculate_policy_aware_wage, get_wage_percentages,
  get_snapshot_wage_percentages, snapshot_wage_percentages_on_invoice, zero_totals, coming, going,
  surplus_discount,
}
use rasti_kiro_gpt.Invoice.Wage.Allocation.{round_half_up-le, allocate_discount_conserves}

-- No percentage is above 100.
pub record AreShares (p : Percents) : Type 0 where
  pub service_le : p.service_pct ≤ 10000
  pub goods_le : p.goods_pct ≤ 10000
  pub travel_le : p.travel_pct ≤ 10000

category_wage-le : (total pct : ℕ) → pct ≤ 10000 → category_wage total pct ≤ total
category_wage-le total pct h =
    round_half_up-le (total * pct) 10000 total (omega arith) (grind arith)

pub gross_wage-le : (t : Totals) (p : Percents) → AreShares p → gross_wage t p ≤ net_total t
unfolding gross_wage net_total
gross_wage-le t p h = omega (
  arith,
  category_wage-le t.service_total p.service_pct h.service_le,
  category_wage-le t.goods_total p.goods_pct h.goods_le,
  category_wage-le t.travel_total p.travel_pct h.travel_le,
)

module _ (t : Totals) (p : Percents) (extra campaign : ℤ)
    (campaign_policy extra_policy : DiscountPolicy) where
  abbrev pub division : WageResult
  division = divide t p extra campaign campaign_policy extra_policy

  -- Where no percentage is above 100, the two gross shares add up to the net total, and the final
  -- shares never exceed it: the sanity check in `_run_settlement_calculation` does not fire.
  pub split_within_net :
      AreShares p
      → (division.technician_gross_share + division.company_gross_share ≡ net_total t)
        × (division.final_technician_wage + division.final_company_share ≤ net_total t)
  unfolding divide
  split_within_net h = (omega (arith, gross_wage-le t p h), omega (arith, gross_wage-le t p h))

  -- If neither absorbs more than its gross share, then the final shares and the positive parts of
  -- the two discounts together are the net total, where no percentage is above 100.
  pub split_exact :
      AreShares p
      → division.total_tech_absorbed ≤ division.technician_gross_share
      → division.total_comp_absorbed ≤ division.company_gross_share
      → division.final_technician_wage
          + division.final_company_share
          + floor_zero extra
          + floor_zero campaign
        ≡ net_total t
  unfolding divide
  split_exact h ht hc = omega (
    arith,
    gross_wage-le t p h,
    allocate_discount_conserves extra extra_policy (pos (gross_wage t p))
        (pos (net_total t - gross_wage t p)),
    allocate_discount_conserves campaign campaign_policy (pos (gross_wage t p))
        (pos (net_total t - gross_wage t p)),
  )

-- The rows that count: all but the pseudo-rows of old invoices for a surplus discount.
abbrev pub is_surplus : InvoiceItem → RowType → Bool
is_surplus item RowType.other =
    let desc = strip (codes item.description) in
    if contains coming desc || contains going desc then false else same_text desc surplus_discount
is_surplus item _ = false

pub counted : List InvoiceItem → ℕ
counted [] = 0
counted (item ∷ items) =
    (if is_surplus item item.row_type then 0 else item.total_price) + counted items

add_item-net :
    (item : InvoiceItem) (k : RowType) (t : Totals)
    → net_total (add_item item k t)
      ≡ net_total t + (if is_surplus item k then 0 else item.total_price)
unfolding add_item add_legacy net_total
add_item-net item RowType.travel t = omega arith
add_item-net item RowType.goods t = omega arith
add_item-net item RowType.service t = omega arith
add_item-net item RowType.other t = ground arith

add_items-net :
    (items : List InvoiceItem) (t : Totals)
    → net_total (add_items items t) ≡ net_total t + counted items
unfolding add_items counted
add_items-net [] t = omega arith
add_items-net (item ∷ items) t =
    omega (
      arith,
      add_items-net items (add_item item item.row_type t),
      add_item-net item item.row_type t,
    )

zero_net : net_total zero_totals ≡ 0
unfolding net_total
zero_net = refl

-- The category totals together are the sum of the rows' total prices, each row counted once and in
-- one category, with only the surplus pseudo-rows of old invoices left out.
pub collect-net : (inv : Invoice) → net_total (collect_category_totals inv) ≡ counted inv.items
unfolding collect_category_totals
collect-net inv = omega (arith, add_items-net inv.items zero_totals, zero_net)

percentages_frozen :
    (inv : Invoice)
    → inv.status ≢ Status.draft
    → get_wage_percentages inv ≡ get_snapshot_wage_percentages inv
unfolding get_wage_percentages get_snapshot_wage_percentages
percentages_frozen inv h = ground arith

percentages_snapshotted :
    (inv : Invoice)
    → inv.status ≡ Status.draft
    → get_snapshot_wage_percentages (snapshot_wage_percentages_on_invoice inv)
      ≡ get_wage_percentages inv
unfolding get_wage_percentages get_snapshot_wage_percentages snapshot_wage_percentages_on_invoice
percentages_snapshotted inv h = ground arith

-- The snapshot changes the percentages alone.
snapshot_rest :
    (inv : Invoice)
    → let out = snapshot_wage_percentages_on_invoice inv in
      (out.items ≡ inv.items)
      × (out.extra_discount_amount ≡ inv.extra_discount_amount)
      × (out.campaign_discount_amount ≡ inv.campaign_discount_amount)
unfolding snapshot_wage_percentages_on_invoice
snapshot_rest inv = ground arith

-- For an invoice that is no longer a draft the preview is the calculation that settlement makes:
-- neither reads the technician's current percentages.
pub preview-settlement :
    (inv : Invoice) (campaign_policy extra_policy : DiscountPolicy)
    → inv.status ≢ Status.draft
    → calculate_policy_aware_wage inv false campaign_policy extra_policy
      ≡ calculate_policy_aware_wage inv true campaign_policy extra_policy
unfolding calculate_policy_aware_wage
preview-settlement inv cp ep h =
    ap
      (λ p.
        divide (collect_category_totals inv) p inv.extra_discount_amount
          inv.campaign_discount_amount cp ep)
      (percentages_frozen inv h)

-- Issuing fixes the draft's preview: the settlement of the invoice whose percentages were
-- snapshotted gives what the preview of the draft showed.
pub snapshot-settlement :
    (inv : Invoice) (campaign_policy extra_policy : DiscountPolicy)
    → inv.status ≡ Status.draft
    → calculate_policy_aware_wage
        (snapshot_wage_percentages_on_invoice inv)
        true
        campaign_policy
        extra_policy
      ≡ calculate_policy_aware_wage inv false campaign_policy extra_policy
unfolding calculate_policy_aware_wage collect_category_totals
snapshot-settlement inv cp ep h =
    let r = snapshot_rest inv in cc (percentages_snapshotted inv h, r.0, r.1, r.2)
