-- ===== src/Invoice/Wage/Defs.antt =====
-- The calculation of apps/invoices/services_wage.py.
use rasti_kiro_gpt.Common.{
  ℕ, ◌+◌, ◌-◌, ◌*◌, ◌/◌, String, Bool, ◌&&◌, ◌||◌, not, Option, none, some, List, [], ◌∷◌, ◌==◌,
  if◌then◌else◌,
}
use rasti_kiro_gpt.Common.Int.{ℤ, pos, pos_part}
use rasti_kiro_gpt.Invoice.Status.{Status, is_draft}
use rasti_kiro_gpt.Common.Text.{codes, strip, same_text, contains}

-- `CompanyFinancialPolicy.DiscountPolicy`
pub data DiscountPolicy : Type 0 where
  company technician half_half proportional_share : DiscountPolicy

-- `InvoiceItem.RowType`; `other` is a row type that is none of these, as on rows of old invoices.
pub data RowType : Type 0 where
  service goods travel other : RowType

pub record InvoiceItem : Type 0 where
  pub row_type : RowType
  pub description : String
  pub total_price : ℕ

pub record Percents : Type 0 where
  pub service_pct : ℕ
  pub goods_pct : ℕ
  pub travel_pct : ℕ

-- What the calculation reads of an invoice; `technician` is the one of the invoice's order.
pub record Invoice : Type 0 where
  pub status : Status
  pub items : List InvoiceItem
  pub snapshot : Percents
  pub technician : Option Percents
  pub extra_discount_amount : ℤ
  pub campaign_discount_amount : ℤ

-- `quantize(Decimal("1"), rounding=ROUND_HALF_UP)` of n / d
unfoldable pub round_half_up : ℕ → ℕ → ℕ
round_half_up n d = (2 * n + d) / (2 * d)

-- `max(value, Decimal("0"))`
abbrev pub floor_zero : ℤ → ℕ
floor_zero = pos_part

abbrev pub no_percents : Percents → Bool
no_percents p = p.service_pct == 0 && p.goods_pct == 0 && p.travel_pct == 0

abbrev pub live_percents : Option Percents → Percents → Percents
live_percents none snapshot = snapshot
live_percents (some p) _ = p

-- `_get_wage_percentages`
unfoldable pub get_wage_percentages : Invoice → Percents
get_wage_percentages inv =
    if no_percents inv.snapshot && is_draft inv.status
    then live_percents inv.technician inv.snapshot
    else inv.snapshot

-- `_get_snapshot_wage_percentages`
unfoldable pub get_snapshot_wage_percentages : Invoice → Percents
get_snapshot_wage_percentages inv = inv.snapshot

-- `snapshot_wage_percentages_on_invoice`
unfoldable pub snapshot_wage_percentages_on_invoice : Invoice → Invoice
snapshot_wage_percentages_on_invoice inv =
    if not (no_percents inv.snapshot)
    then inv
    else record inv { snapshot = live_percents inv.technician inv.snapshot }

pub record Totals : Type 0 where
  pub service_total : ℕ
  pub goods_total : ℕ
  pub travel_total : ℕ

abbrev pub zero_totals : Totals
zero_totals = record { service_total = 0; goods_total = 0; travel_total = 0 }

abbrev add_service : ℕ → Totals → Totals
add_service net t = record t { service_total = t.service_total + net }

abbrev add_goods : ℕ → Totals → Totals
add_goods net t = record t { goods_total = t.goods_total + net }

abbrev add_travel : ℕ → Totals → Totals
add_travel net t = record t { travel_total = t.travel_total + net }

-- The texts that the descriptions are searched for: the two words of "travel to and from" and the
-- name of the pseudo-row for a surplus discount.
abbrev pub coming : List ℕ
coming = 0x627 ∷ 0x6cc ∷ 0x627 ∷ 0x628 ∷ []

abbrev pub going : List ℕ
going = 0x630 ∷ 0x647 ∷ 0x627 ∷ 0x628 ∷ []

abbrev pub surplus_discount : List ℕ
surplus_discount =
    0x62a ∷ 0x62e ∷ 0x641 ∷ 0x6cc ∷ 0x641 ∷ 0x20 ∷ 0x645 ∷ 0x627 ∷ 0x632 ∷ 0x627 ∷ 0x62f ∷ []

-- A row of an old invoice is told by its description.
unfoldable pub add_legacy : String → ℕ → Totals → Totals
unfolding contains strip same_text
add_legacy description net t =
    let desc = strip (codes description) in
    if contains coming desc || contains going desc
    then add_travel net t
    else if same_text desc surplus_discount
    then t
    else add_service net t

unfoldable pub add_item : InvoiceItem → RowType → Totals → Totals
unfolding add_legacy
add_item item RowType.travel t = add_travel item.total_price t
add_item item RowType.goods t = add_goods item.total_price t
add_item item RowType.service t = add_service item.total_price t
add_item item RowType.other t = add_legacy item.description item.total_price t

unfoldable pub add_items : List InvoiceItem → Totals → Totals
unfolding add_item
add_items [] t = t
add_items (item ∷ items) t = add_items items (add_item item item.row_type t)

-- `_collect_category_totals`
unfoldable pub collect_category_totals : Invoice → Totals
unfolding add_items
collect_category_totals inv = add_items inv.items zero_totals

unfoldable pub proportional_absorbed : ℕ → ℕ → ℕ → ℕ × ℕ
unfolding round_half_up
proportional_absorbed discount technician_gross company_gross =
    let total_gross = technician_gross + company_gross in
    if total_gross == 0
    then (0, discount)
    else let tech_absorbed = round_half_up (discount * technician_gross) total_gross in
      (tech_absorbed, discount - tech_absorbed)

unfoldable pub absorbed_by : DiscountPolicy → ℕ → ℕ → ℕ → ℕ × ℕ
unfolding proportional_absorbed round_half_up
absorbed_by DiscountPolicy.technician discount _ _ = (discount, 0)
absorbed_by DiscountPolicy.half_half discount _ _ =
    let tech_absorbed = round_half_up discount 2 in (tech_absorbed, discount - tech_absorbed)
absorbed_by DiscountPolicy.proportional_share discount tech comp =
    proportional_absorbed discount tech comp
absorbed_by DiscountPolicy.company discount _ _ = (0, discount)

-- `_allocate_discount`: what the technician and what the company absorbs
unfoldable pub allocate_discount : ℤ → DiscountPolicy → ℤ → ℤ → ℕ × ℕ
unfolding absorbed_by
allocate_discount discount policy technician_gross_share company_gross_share =
    if floor_zero discount == 0
    then (0, 0)
    else absorbed_by policy (floor_zero discount) (floor_zero technician_gross_share)
        (floor_zero company_gross_share)

pub record WageResult : Type 0 where
  pub totals : Totals
  pub percents : Percents
  pub extra_discount : ℤ
  pub campaign_discount : ℤ
  pub technician_gross_share : ℕ
  pub company_gross_share : ℕ
  pub total_tech_absorbed : ℕ
  pub total_comp_absorbed : ℕ
  pub final_technician_wage : ℕ
  pub final_company_share : ℕ

-- The wage of one category: `_money(total * pct / 100)`
abbrev pub category_wage : ℕ → ℕ → ℕ
category_wage total pct = round_half_up (total * pct) 10000

unfoldable pub gross_wage : Totals → Percents → ℕ
unfolding round_half_up
gross_wage t p =
    category_wage t.service_total p.service_pct
    + category_wage t.goods_total p.goods_pct
    + category_wage t.travel_total p.travel_pct

unfoldable pub net_total : Totals → ℕ
net_total t = t.service_total + t.goods_total + t.travel_total

-- The rest of `_calculate_policy_aware_wage`, from the category totals and the percentages on.
-- The subtractions that the code floors at zero are those of ℕ.
unfoldable pub divide : Totals → Percents → ℤ → ℤ → DiscountPolicy → DiscountPolicy → WageResult
unfolding gross_wage net_total allocate_discount
divide t p extra campaign campaign_policy extra_policy =
    let tech_gross = gross_wage t p in
    let comp_gross = net_total t - tech_gross in
    let (tech_extra, comp_extra) =
      allocate_discount extra extra_policy (pos tech_gross) (pos comp_gross) in
    let (tech_campaign, comp_campaign) =
      allocate_discount campaign campaign_policy (pos tech_gross) (pos comp_gross) in
    record {
      totals = t;
      percents = p;
      extra_discount = extra;
      campaign_discount = campaign;
      technician_gross_share = tech_gross;
      company_gross_share = comp_gross;
      total_tech_absorbed = tech_extra + tech_campaign;
      total_comp_absorbed = comp_extra + comp_campaign;
      final_technician_wage = tech_gross - (tech_extra + tech_campaign);
      final_company_share = comp_gross - (comp_extra + comp_campaign);
    }

-- `_calculate_policy_aware_wage`
unfoldable pub calculate_policy_aware_wage :
    Invoice → Bool → DiscountPolicy → DiscountPolicy → WageResult
unfolding collect_category_totals get_wage_percentages get_snapshot_wage_percentages divide
calculate_policy_aware_wage inv use_snapshot_percentages_only campaign_policy extra_policy =
    let percents =
      (if use_snapshot_percentages_only
        then get_snapshot_wage_percentages inv
        else get_wage_percentages inv) in
    divide (collect_category_totals inv) percents inv.extra_discount_amount
      inv.campaign_discount_amount campaign_policy extra_policy
