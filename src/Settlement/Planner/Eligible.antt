-- ===== src/Settlement/Planner/Eligible.antt =====
-- What it takes for an invoice to be eligible, and what the plan of a company is made of.
use rasti_kiro_gpt.Common.{
  ℕ, ◌≡◌, refl, true, false, ◌&&◌, Option, none, some, List, [], ◌∷◌, ◌==◌, is_some, arith,
  Bool-cases, Option-cases, inl, inr,
}
use rasti_kiro_gpt.Payouts.Escrow.Defs.{EscrowRecord}
use rasti_kiro_gpt.Settlement.Books.{Books, InvoiceRow, is_paid, exists}
use rasti_kiro_gpt.Settlement.Calculator.{
  latest_escrow, calculate_layer1, calculate_on, settled_result, is_undistributed,
}
use rasti_kiro_gpt.Settlement.Planner.{
  Layer1PlanningItem, claims_invoice, adjusts_invoice, is_unresolved_for, in_live_batch,
  refusal_layer1, judged_layer1, evaluate_layer1, plan_invoices,
}

-- The item of an invoice that is eligible, with its escrow record.
abbrev pub eligible_item : Books → InvoiceRow → ℕ → EscrowRecord → Layer1PlanningItem
eligible_item b inv pk e = judged_layer1 inv (some (pk, e)) (settled_result b inv e) none

-- An invoice is PAID, its newest escrow record is past RESERVED and in no live batch, no live item
-- claims it, and no adjustment or backfill is pending for it.
pub record IsEligible (b : Books) (inv : InvoiceRow) : Type 0 where
  pub pk : ℕ
  pub escrow : EscrowRecord
  pub paid : is_paid inv.status ≡ true
  pub found : latest_escrow inv.company inv.invoice_id b.escrows.rows ≡ some (pk, escrow)
  pub distributed : is_undistributed escrow ≡ false
  pub unlinked : in_live_batch b.batches (some (pk, escrow)) ≡ false
  pub unclaimed : exists (claims_invoice b.batches inv.company inv.invoice_id) b.items ≡ false
  pub unadjusted : exists (adjusts_invoice inv.company inv.invoice_id) b.adjustments ≡ false
  pub resolved : exists (is_unresolved_for inv.company inv.invoice_id) b.backfills ≡ false

abbrev pub item_of : {b : Books} {inv : InvoiceRow} → IsEligible b inv → Layer1PlanningItem
item_of {b} {inv} h = eligible_item b inv h.pk h.escrow

refusal_none :
    (b : Books) (inv : InvoiceRow) (escrow : Option (ℕ × EscrowRecord))
    → is_some (refusal_layer1 b inv escrow none) ≡ false
    → (in_live_batch b.batches escrow ≡ false)
      × (exists (claims_invoice b.batches inv.company inv.invoice_id) b.items ≡ false)
      × (exists (adjusts_invoice inv.company inv.invoice_id) b.adjustments ≡ false)
      × (exists (is_unresolved_for inv.company inv.invoice_id) b.backfills ≡ false)
unfolding refusal_layer1
refusal_none b inv escrow h = elim (Bool-cases (in_live_batch b.batches escrow)) [
  | inl e ↦ absurd (let x = rw e at h in cc x)
  | inr e ↦
      elim (Bool-cases (exists (claims_invoice b.batches inv.company inv.invoice_id) b.items)) [
        | inl f ↦ absurd (let x = rw (e, f) at h in cc x)
        | inr f ↦
            elim (Bool-cases (exists (adjusts_invoice inv.company inv.invoice_id) b.adjustments)) [
              | inl g ↦ absurd (let x = rw (e, f, g) at h in cc x)
              | inr g ↦
                  elim (Bool-cases
                    (exists (is_unresolved_for inv.company inv.invoice_id) b.backfills)) [
                      | inl k ↦ absurd (let x = rw (e, f, g, k) at h in cc x)
                      | inr k ↦ (e, f, g, k)
                    ]
            ]
      ]
]

refusal_passes :
    (b : Books) (inv : InvoiceRow) (h : IsEligible b inv)
    → refusal_layer1 b inv (some (h.pk, h.escrow)) none ≡ none
unfolding refusal_layer1
refusal_passes b inv h = rw (h.unlinked, h.unclaimed, h.unadjusted, h.resolved) refl

-- An eligible invoice gets its item.
pub IsEligible-evaluate :
    (b : Books) (inv : InvoiceRow) (h : IsEligible b inv) → evaluate_layer1 b inv ≡ item_of h
unfolding evaluate_layer1 calculate_layer1 calculate_on
IsEligible-evaluate b inv h = rw (h.paid, h.found, h.distributed, refusal_passes b inv h) refl

refused :
    (b : Books) (inv : InvoiceRow)
    → is_paid inv.status ≡ true
    → (evaluate_layer1 b inv).eligible ≡ true
    → is_some (
        refusal_layer1 b inv
          (latest_escrow inv.company inv.invoice_id b.escrows.rows)
          (calculate_layer1 b inv).blocked_reason)
      ≡ false
unfolding evaluate_layer1
refused b inv paid h = ground (arith, paid)

-- An invoice that the planner calls eligible is so.
pub evaluate-IsEligible :
    (b : Books) (inv : InvoiceRow) → (evaluate_layer1 b inv).eligible ≡ true → IsEligible b inv
unfolding evaluate_layer1 calculate_layer1 calculate_on refusal_layer1
evaluate-IsEligible b inv h = elim (Bool-cases (is_paid inv.status)) [
  | inr e ↦ absurd (let x = rw e at h in cc x)
  | inl paid ↦
      let free = refused b inv paid h in
      elim (Option-cases (latest_escrow inv.company inv.invoice_id b.escrows.rows)) [
        | inl e ↦ absurd (let x = rw e at free in cc x)
        | inr ((pk, escrow), found) ↦ elim (Bool-cases (is_undistributed escrow)) [
          | inl e ↦ absurd (let x = rw (found, e) at free in cc x)
          | inr e ↦
              let (x, y, z, w) = refusal_none b inv (some (pk, escrow)) (rw (found, e) at free) in
              record {
                pk = pk;
                escrow = escrow;
                paid = paid;
                found = found;
                distributed = e;
                unlinked = x;
                unclaimed = y;
                unadjusted = z;
                resolved = w;
              }
        ]
      ]
]

-- The eligible items of a list of invoices: those of the company that are eligible, in their order.
pub data ArePlanned (b : Books) (company : ℕ)
    : List InvoiceRow → List Layer1PlanningItem → Type 0 where
  end : ArePlanned b company [] []
  skip :
      {inv : InvoiceRow} {invs : List InvoiceRow} {xs : List Layer1PlanningItem}
      → (inv.company == company && (evaluate_layer1 b inv).eligible) ≡ false
      → ArePlanned b company invs xs
      → ArePlanned b company (inv ∷ invs) xs
  takes :
      {inv : InvoiceRow} {invs : List InvoiceRow} {xs : List Layer1PlanningItem}
      → (inv.company == company) ≡ true
      → (h : IsEligible b inv) → ArePlanned b company invs xs
      → ArePlanned b company (inv ∷ invs) (item_of h ∷ xs)

pub plan-ArePlanned :
    (b : Books) (company : ℕ) (invs : List InvoiceRow)
    → ArePlanned b company invs (plan_invoices b company invs).eligible_items
unfolding plan_invoices
plan-ArePlanned b company [] = end
plan-ArePlanned b company (inv ∷ invs) =
    let rest = plan-ArePlanned b company invs in
    elim (Bool-cases (inv.company == company)) [
      | inr e ↦ rw e (skip (rw e refl) rest)
      | inl e ↦ elim (Bool-cases (evaluate_layer1 b inv).eligible) [
        | inr f ↦ rw (e, f) (skip (rw (e, f) refl) rest)
        | inl f ↦
            let h = evaluate-IsEligible b inv f in
            rw (e, IsEligible-evaluate b inv h) (takes e h rest)
      ]
    ]
