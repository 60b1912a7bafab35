-- ===== src/Settlement/Builder/Success.antt =====
-- When a build of a Layer 1 batch succeeds.
use rasti_kiro_gpt.Common.{
  ℕ, ◌≡◌, ◌≢◌, refl, ◌∙◌, false, ◌&&◌, some, List, [], ◌∷◌, ◌==◌, ltb, arith, Bool-cases, inl, inr,
}
use rasti_kiro_gpt.Common.Table.{Table, lookup, save, lookup-save_ne}
use rasti_kiro_gpt.Common.Result.{Result, ok, err, ◌>>=◌, succeeds}
use rasti_kiro_gpt.Payouts.Escrow.Defs.{
  Status, EscrowRecord, Escrows, is_distributed, mark_pending_settlement, update, await_settlement,
}
use rasti_kiro_gpt.Settlement.Books.{Books, Error}
use rasti_kiro_gpt.Settlement.Planner.{Layer1PlanningItem, plan_layer1}
use rasti_kiro_gpt.Settlement.Planner.Eligible.{plan-ArePlanned}
use rasti_kiro_gpt.Settlement.Builder.{
  advance_escrows, batch_layer1, build_layer1, built, no_totals,
}
use rasti_kiro_gpt.Settlement.Builder.Closed.{
  AreBelow, AreSettleable, batch_layer1-eq, totals_of, with_batch,
}
use rasti_kiro_gpt.Settlement.Builder.Linked.{
  IsSound, has_item, all_distributed, IsLinked, AreLinked, planned-AreLinked, planned-AreSettleable,
}

other_row :
    (pk i : ℕ) (e f : EscrowRecord) (rows : Table EscrowRecord) (x : Layer1PlanningItem)
    → lookup pk rows ≡ some e
    → e.invoice ≡ some i
    → (x.invoice_id == i) ≡ false
    → (here : IsLinked rows x) → lookup here.pk (save pk f rows) ≡ some here.escrow
other_row pk i e f rows x stored of apart here =
    let differ : here.pk ≢ pk = λ q.
      let row : lookup pk rows ≡ some here.escrow = rw q at here.stored in
      let same : e ≡ here.escrow = cc in
      let of_invoice : here.escrow.invoice ≡ some i = rw same at of in
      let of_x : here.escrow.invoice ≡ some x.invoice_id = here.of_invoice in
      absurd (ground arith) in
    ◌∙◌ (lookup-save_ne here.pk pk f rows differ) here.stored

-- The other records stay when one is saved.
linked-save :
    (pk i : ℕ) (e f : EscrowRecord) (rows : Table EscrowRecord) (xs : List Layer1PlanningItem)
    → lookup pk rows ≡ some e
    → e.invoice ≡ some i
    → has_item i xs ≡ false
    → AreLinked rows xs
    → AreLinked (save pk f rows) xs
      × (all_distributed xs (save pk f rows) ≡ all_distributed xs rows)
unfolding all_distributed
linked-save pk i e f rows [] stored of apart l = (tt, refl)
linked-save pk i e f rows (x ∷ xs) stored of apart (here, alone, l) =
    let (l', same) = linked-save pk i e f rows xs stored of (ground arith) l in
    let kept = other_row pk i e f rows x stored of (ground arith) here in
    (
      (
        record {
          pk = here.pk;
          escrow = here.escrow;
          key = here.key;
          stored = kept;
          of_invoice = here.of_invoice;
        },
        alone,
        l',
      ),
      rw (here.key, kept, here.stored, same) refl,
    )

-- Changing the status of each record to PENDING_SETTLEMENT works exactly if all are DISTRIBUTED.
advance-succeeds :
    (batch : ℕ) (xs : List Layer1PlanningItem) (escrows : Escrows)
    → AreLinked escrows.rows xs
    → succeeds (advance_escrows batch xs escrows) ≡ all_distributed xs escrows.rows
unfolding advance_escrows all_distributed mark_pending_settlement update await_settlement
advance-succeeds batch [] escrows l = refl
advance-succeeds batch (x ∷ xs) escrows (here, alone, l) =
    elim (Bool-cases (is_distributed here.escrow.status)) [
      | inr e ↦ rw (here.key, here.stored, e) refl
      | inl e ↦
          let f = record here.escrow {
            settlement_batch = some batch;
            status = Status.pending_settlement;
          } in
          let rows = save here.pk f escrows.rows in
          let (l', same) =
            linked-save here.pk x.invoice_id here.escrow f escrows.rows xs here.stored
              here.of_invoice alone l in
          rw (here.key, here.stored, e)
            (◌∙◌ (advance-succeeds batch xs (record escrows { rows = rows }) l') same)
    ]

succeeds_then :
    {A B : Type 0} (m : Result Error A) (k : A → B) → succeeds (m >>= λ a. ok (k a)) ≡ succeeds m
succeeds_then (ok a) k = refl
succeeds_then (err e) k = refl

batch-succeeds :
    (company : ℕ) (xs : List Layer1PlanningItem) (b : Books)
    → AreBelow b.next_batch b.items
    → AreSettleable company xs
    → AreLinked b.escrows.rows xs
    → succeeds (batch_layer1 company xs b) ≡ all_distributed xs b.escrows.rows
unfolding batch_layer1 all_distributed
batch-succeeds company [] b below s l = refl
batch-succeeds company (x ∷ xs) b below s l = rw (batch_layer1-eq company x xs b below s) (
    ◌∙◌
      (succeeds_then (advance_escrows b.next_batch (x ∷ xs) b.escrows) (λ escrows. (
        built b.next_batch (totals_of (x ∷ xs) no_totals),
        record (with_batch company (x ∷ xs) b) { escrows = escrows },
      )))
      (advance-succeeds b.next_batch (x ∷ xs) b.escrows l))

-- On books in order, a build of a Layer 1 batch succeeds exactly when the period is one and the escrow
-- record of every eligible invoice of the company is still DISTRIBUTED; none of the builder's own
-- checks on amounts, companies and totals ever fails.
pub build_layer1-succeeds :
    (company period_start period_end : ℕ) (b : Books)
    → IsSound b
    → succeeds (build_layer1 company period_start period_end b) ≡ (
        ltb period_start period_end
        && all_distributed (plan_layer1 b company).eligible_items b.escrows.rows)
unfolding build_layer1 plan_layer1
build_layer1-succeeds company period_start period_end b v =
    let planned = plan-ArePlanned b company b.invoices in
    let xs = (plan_layer1 b company).eligible_items in
    let rest =
      batch-succeeds company xs b v.below (planned-AreSettleable b company planned)
        (planned-AreLinked b company planned v.escrows v.distinct) in
    elim (Bool-cases (ltb period_start period_end)) [ inl e ↦ rw e rest | inr e ↦ rw e refl ]
