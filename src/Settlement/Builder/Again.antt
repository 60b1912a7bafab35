-- ===== src/Settlement/Builder/Again.antt =====
-- The plan of a company after a build of its batch.
use rasti_kiro_gpt.Common.{
  ℕ, suc, ◌≡◌, refl, sym, ap, ◌∙◌, true, false, some, List, [], arith, Bool-cases, Option-cases,
  inl, inr,
}
use rasti_kiro_gpt.Common.Table.{save}
use rasti_kiro_gpt.Common.Result.{ok}
use rasti_kiro_gpt.Payouts.Escrow.Defs.{EscrowRecord, Escrows}
use rasti_kiro_gpt.Settlement.Books.{Books, Batch, InvoiceRow, exists, is_live, is_failed}
use rasti_kiro_gpt.Settlement.Planner.{
  Layer1PlanningItem, claims_invoice, in_live_batch, plan_layer1,
}
use rasti_kiro_gpt.Settlement.Planner.Eligible.{
  IsEligible, IsEligible-evaluate, ArePlanned, plan-ArePlanned, end, skip, takes,
}
use rasti_kiro_gpt.Settlement.Builder.{advance_escrows}
use rasti_kiro_gpt.Settlement.Builder.Closed.{items_added, next_added}
use rasti_kiro_gpt.Settlement.Builder.Stuck.{Stands}
use rasti_kiro_gpt.Settlement.Builder.Kept.{
  kept_claims, added_claims, live-save, same_claim, advance-latest, planned-in,
}

module _ (b : Books) (company : ℕ) (xs : List Layer1PlanningItem) (row : Batch) (escrows : Escrows)
    (working : is_failed row.status ≡ false)
    (moved : advance_escrows b.next_batch xs b.escrows ≡ ok escrows) where
  -- The books after the build.
  abbrev after : Books
  after = record b {
    escrows = escrows;
    batches = save b.next_batch row b.batches;
    next_batch = suc b.next_batch;
    items = items_added company b.next_batch xs b.next_item b.items;
    next_item = next_added xs b.next_item;
  }

  unlinked_before :
      (k : ℕ) (y : EscrowRecord)
      → in_live_batch after.batches (some (k, y)) ≡ false
      → in_live_batch b.batches (some (k, y)) ≡ false
  unlinked_before k y h = elim (Option-cases y.settlement_batch) [
    | inl e ↦ rw e refl
    | inr (batch, e) ↦
        let dead : is_live after.batches batch ≡ false = rw e at h in
        let dead' = ◌∙◌ (sym (live-save b.next_batch batch row b.batches working)) dead in
        rw e (ground arith)
  ]

  not_linked :
      (k : ℕ) (y : EscrowRecord)
      → in_live_batch after.batches (some (k, y)) ≡ false
      → y.settlement_batch ≡ some b.next_batch
      → ⊥
  not_linked k y h e =
      let dead : is_live after.batches b.next_batch ≡ false = rw e at h in
      let live = live-save b.next_batch b.next_batch row b.batches working in ground arith

  unclaimed_before :
      (inv : InvoiceRow)
      → exists (claims_invoice after.batches inv.company inv.invoice_id) after.items ≡ false
      → exists (claims_invoice b.batches inv.company inv.invoice_id) b.items ≡ false
  unclaimed_before inv h =
      elim (Bool-cases (exists (claims_invoice b.batches inv.company inv.invoice_id) b.items)) [
        | inr e ↦ e
        | inl e ↦
            let still =
              same_claim b.next_batch inv.company inv.invoice_id row b.batches b.items working e in
            let claimed =
              kept_claims after.batches company inv.company b.next_batch b.next_item inv.invoice_id
                xs b.items still in
            absurd (cc)
      ]

  -- Whatever is eligible after the build was so before.
  IsEligible-before : (inv : InvoiceRow) → IsEligible after inv → IsEligible b inv
  IsEligible-before inv h = record {
    pk = h.pk;
    escrow = h.escrow;
    paid = h.paid;
    found =
        elim (advance-latest b.next_batch inv.company inv.invoice_id h.pk h.escrow xs b.escrows
          escrows moved h.found) [
            | inl before ↦ before
            | inr linked ↦ absurd (not_linked h.pk h.escrow h.unlinked linked)
          ];
    distributed = h.distributed;
    unlinked = unlinked_before h.pk h.escrow h.unlinked;
    unclaimed = unclaimed_before inv h.unclaimed;
    unadjusted = h.unadjusted;
    resolved = h.resolved;
  }

  -- No invoice of the company is eligible after the build.
  none_eligible :
      (inv : InvoiceRow)
      → ArePlanned b company b.invoices xs
      → Stands inv b.invoices
      → inv.company ≡ company
      → IsEligible after inv
      → ⊥
  none_eligible inv planned stands own h =
      let before = ap (λ x. x.eligible) (IsEligible-evaluate b inv (IsEligible-before inv h)) in
      let taken = planned-in b company inv planned stands own before in
      let live : is_live after.batches b.next_batch ≡ true =
        ◌∙◌ (live-save b.next_batch b.next_batch row b.batches working) (ground arith) in
      let claimed =
        added_claims after.batches company b.next_batch b.next_item inv.invoice_id xs b.items live
          taken in
      let free = rw own at h.unclaimed in absurd (cc)

  nothing_left :
      {invs : List InvoiceRow} {ys : List Layer1PlanningItem}
      → ArePlanned after company invs ys
      → ((inv : InvoiceRow) → Stands inv invs → inv.company ≡ company → IsEligible after inv → ⊥)
      → ys ≡ []
  nothing_left end no_more = refl
  nothing_left (skip not_taken rest) no_more =
      nothing_left rest (λ inv stands. no_more inv (inr stands))
  nothing_left (takes {inv} own e rest) no_more = absurd (no_more inv (inl refl) (ground arith) e)

  pub plans_nothing :
      ArePlanned b company b.invoices xs → (plan_layer1 after company).eligible_items ≡ []
  unfolding plan_layer1
  plans_nothing planned =
      nothing_left (plan-ArePlanned after company b.invoices)
        (λ inv stands own h. none_eligible inv planned stands own h)
