-- ===== src/Settlement/Builder/Stuck.antt =====
-- Builds of a company with an eligible invoice whose escrow record is not DISTRIBUTED.
use rasti_kiro_gpt.Common.{
  ℕ, ◌≡◌, ◌⊎◌, refl, ap, Bool, true, false, ◌&&◌, some, List, [], ◌∷◌, ◌==◌, ltb, arith, inl, inr,
}
use rasti_kiro_gpt.Common.Table.{lookup}
use rasti_kiro_gpt.Common.Result.{succeeds}
use rasti_kiro_gpt.Payouts.Escrow.Defs.{EscrowRecord, Status as EscrowStatus, is_distributed}
use rasti_kiro_gpt.Payouts.Escrow.Table.{IsValid}
use rasti_kiro_gpt.Settlement.Books.{Books, Batch, InvoiceRow, exists, is_live, is_failed, is_paid}
use rasti_kiro_gpt.Settlement.Calculator.{latest_escrow}
use rasti_kiro_gpt.Settlement.Planner.{
  Layer1PlanningItem, plan_layer1, evaluate_layer1, claims_invoice, adjusts_invoice, in_live_batch,
  is_unresolved_for,
}
use rasti_kiro_gpt.Settlement.Planner.Eligible.{
  IsEligible, ArePlanned, plan-ArePlanned, end, skip, takes, IsEligible-evaluate,
}
use rasti_kiro_gpt.Settlement.Builder.{build_layer1}
use rasti_kiro_gpt.Settlement.Builder.Linked.{IsSound, all_distributed, latest-stored}
use rasti_kiro_gpt.Settlement.Builder.Success.{build_layer1-succeeds}

-- An invoice is one of the rows.
abbrev pub Stands : InvoiceRow → List InvoiceRow → Type 0
Stands inv [] = ⊥
Stands inv (x ∷ xs) = (x ≡ inv) ⊎ Stands inv xs

and_false : (a : Bool) → (a && false) ≡ false
and_false true = refl
and_false false = refl

moved_on :
    (b : Books) (company : ℕ) (inv : InvoiceRow) (pk : ℕ) (e : EscrowRecord)
    {invs : List InvoiceRow} {xs : List Layer1PlanningItem}
    → ArePlanned b company invs xs
    → IsValid b.escrows
    → Stands inv invs
    → inv.company ≡ company
    → (evaluate_layer1 b inv).eligible ≡ true
    → latest_escrow inv.company inv.invoice_id b.escrows.rows ≡ some (pk, e)
    → is_distributed e.status ≡ false
    → all_distributed xs b.escrows.rows ≡ false
unfolding all_distributed
moved_on b company inv pk e end v stands own h found status = absurd stands
moved_on b company inv pk e (skip {inv = x} not_taken rest) v stands own h found status =
    elim stands [
      | inl same ↦
          let refused : (inv.company == company && (evaluate_layer1 b inv).eligible) ≡ false =
            rw same at not_taken in
          absurd (ground (arith, own, h))
      | inr later ↦ moved_on b company inv pk e rest v later own h found status
    ]
moved_on b company inv pk e (takes {inv = x} {xs} of taken rest) v stands own h found status =
    let (stored, _, _) =
      latest-stored b.escrows.next_pk x.company x.invoice_id taken.pk taken.escrow b.escrows.rows v
        taken.found in
    elim stands [
      | inl same ↦
          let again : latest_escrow inv.company inv.invoice_id b.escrows.rows
              ≡ some (taken.pk, taken.escrow) =
            rw same at taken.found in
          let this : taken.escrow ≡ e = cc in
          let stuck : is_distributed taken.escrow.status ≡ false = rw this status in
          rw (stored, stuck) refl
      | inr later ↦
          let rest_stuck = moved_on b company inv pk e rest v later own h found status in
          rw (stored, rest_stuck) (and_false (is_distributed taken.escrow.status))
    ]

-- An eligible invoice whose record has left DISTRIBUTED stops every build.
pub stuck_stops_builds :
    (b : Books) (inv : InvoiceRow) (period_start period_end : ℕ)
    → IsSound b
    → Stands inv b.invoices
    → (h : IsEligible b inv) → is_distributed h.escrow.status ≡ false
    → succeeds (build_layer1 inv.company period_start period_end b) ≡ false
unfolding plan_layer1
stuck_stops_builds b inv period_start period_end v stands h moved =
    let judged = ap (λ x. x.eligible) (IsEligible-evaluate b inv h) in
    let stuck =
      moved_on b inv.company inv h.pk h.escrow (plan-ArePlanned b inv.company b.invoices) v.escrows
        stands refl judged h.found moved in
    rw (build_layer1-succeeds inv.company period_start period_end b v, stuck)
      (and_false (ltb period_start period_end))

-- A PAID invoice whose newest escrow record is PENDING_SETTLEMENT for a batch that has FAILED, and
-- that nothing else holds back, is eligible again; the builder then cannot move the record, and so
-- no build of the company succeeds, for any period, with all its other invoices.
pub failed_batch_stops_builds :
    (b : Books) (inv : InvoiceRow) (pk batch period_start period_end : ℕ) (e : EscrowRecord)
    (row : Batch)
    → IsSound b
    → Stands inv b.invoices
    → is_paid inv.status ≡ true
    → latest_escrow inv.company inv.invoice_id b.escrows.rows ≡ some (pk, e)
    → e.status ≡ EscrowStatus.pending_settlement
    → e.settlement_batch ≡ some batch
    → lookup batch b.batches ≡ some row
    → is_failed row.status ≡ true
    → exists (claims_invoice b.batches inv.company inv.invoice_id) b.items ≡ false
    → exists (adjusts_invoice inv.company inv.invoice_id) b.adjustments ≡ false
    → exists (is_unresolved_for inv.company inv.invoice_id) b.backfills ≡ false
    → succeeds (build_layer1 inv.company period_start period_end b) ≡ false
unfolding is_live
failed_batch_stops_builds b inv pk batch period_start period_end e row v stands paid found status
      linked there failed unclaimed unadjusted resolved =
    let unlinked : in_live_batch b.batches (some (pk, e)) ≡ false =
      ground (arith, linked, there, failed) in
    let eligible : IsEligible b inv = record {
      pk = pk;
      escrow = e;
      paid = paid;
      found = found;
      distributed = ground (arith, status);
      unlinked = unlinked;
      unclaimed = unclaimed;
      unadjusted = unadjusted;
      resolved = resolved;
    } in
    stuck_stops_builds b inv period_start period_end v stands eligible (ground (arith, status))
