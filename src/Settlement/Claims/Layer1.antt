-- ===== src/Settlement/Claims/Layer1.antt =====
-- Claims on invoices across the build of a Layer 1 batch.
use rasti_kiro_gpt.Common.{
  ℕ, suc, ◌≤◌, ◌<◌, ◌≡◌, refl, sym, ◌∙◌, not, none, List, [], ◌∷◌, ltb, arith, Option-cases, inl,
  inr,
}
use rasti_kiro_gpt.Common.Table.{Table, lookup, save, lookup-save_ne}
use rasti_kiro_gpt.Common.Result.{Result, ok, >>=-eq-ok, after_check, ok_pair}
use rasti_kiro_gpt.Payouts.Escrow.Defs.{EscrowRecord, Escrows, mark_pending_settlement}
use rasti_kiro_gpt.Payouts.Escrow.Machine.{call, awaits_settlement}
use rasti_kiro_gpt.Payouts.Escrow.Table.{IsValid, update-IsValid}
use rasti_kiro_gpt.Settlement.Books.{Books, Batch, Item, Error}
use rasti_kiro_gpt.Settlement.Planner.{Layer1PlanningItem, plan_layer1}
use rasti_kiro_gpt.Settlement.Planner.Eligible.{plan-ArePlanned}
use rasti_kiro_gpt.Settlement.Builder.{
  BuildResult, advance_escrows, lift_escrow, batch_layer1, build_layer1, built, no_totals,
  nothing_built,
}
use rasti_kiro_gpt.Settlement.Builder.Closed.{
  AreBelow, AreSettleable, items_added, item_for, with_batch, totals_of, batch_layer1-eq,
}
use rasti_kiro_gpt.Settlement.Builder.Linked.{IsSound, planned-AreLinked, planned-AreSettleable}
use rasti_kiro_gpt.Settlement.Execution.Completion.{lift_escrow-ok}
use rasti_kiro_gpt.Settlement.Claims.{IsExclusive, save-Weakens, fresh_live, build-exclusive}

-- Books in order where no invoice is claimed twice.
pub record IsGuarded (b : Books) : Type 0 where
  pub sound : IsSound b
  pub exclusive : IsExclusive b

pub AreBelow-mono : (n m : ℕ) (items : Table Item) → n ≤ m → AreBelow n items → AreBelow m items
AreBelow-mono n m [] h v = tt
AreBelow-mono n m ((k, item) ∷ items) h v = (omega arith, AreBelow-mono n m items h v.1)

items_added-AreBelow :
    (n company pk next : ℕ) (xs : List Layer1PlanningItem) (items : Table Item)
    → pk < n
    → AreBelow n items
    → AreBelow n (items_added company pk xs next items)
unfolding items_added
items_added-AreBelow n company pk next [] items h v = v
items_added-AreBelow n company pk next (x ∷ xs) items h v =
    items_added-AreBelow n company pk (suc next) xs ((next, item_for company pk x) ∷ items) h (h, v)

-- The keys from `n` on stay free when the row before is written.
pub fresh-save :
    (n pk : ℕ) (row : Batch) (t : Table Batch)
    → pk < n
    → ((k : ℕ) → n ≤ k → lookup k t ≡ none)
    → (k : ℕ) → n ≤ k
    → lookup k (save pk row t) ≡ none
fresh-save n pk row t h fresh k le =
    ◌∙◌ (lookup-save_ne k pk row t (λ e. absurd (omega arith))) (fresh k le)

advance-IsValid :
    (batch : ℕ) (xs : List Layer1PlanningItem) (escrows out : Escrows)
    → advance_escrows batch xs escrows ≡ ok out
    → IsValid escrows
    → IsValid out
unfolding advance_escrows mark_pending_settlement call
advance-IsValid batch [] escrows out h v = let e : escrows ≡ out = cc in rw e at v
advance-IsValid batch (x ∷ xs) escrows out h v = elim (Option-cases x.escrow_id) [
  | inl e ↦ advance-IsValid batch xs escrows out (rw e at h) v
  | inr (pk, e) ↦
      let next : EscrowRecord × Escrows → Result Error Escrows =
        λ step. advance_escrows batch xs step.1 in
      let moves = lift_escrow (mark_pending_settlement pk batch escrows) in
      let (step, first, rest) = >>=-eq-ok moves next (rw e at h) in
      let moved = lift_escrow-ok (mark_pending_settlement pk batch escrows) step first in
      advance-IsValid batch xs step.1 out rest
        (update-IsValid (awaits_settlement batch) pk escrows step.0 step.1 moved v)
]

-- A build of a Layer 1 batch that succeeds.
pub data Built1 (company : ℕ) (b : Books) : BuildResult → Books → Type 0 where
  nothing : (plan_layer1 b company).eligible_items ≡ [] → Built1 company b nothing_built b
  batched :
      (x : Layer1PlanningItem) (xs : List Layer1PlanningItem) (escrows : Escrows)
      → (plan_layer1 b company).eligible_items ≡ x ∷ xs
      → advance_escrows b.next_batch (x ∷ xs) b.escrows ≡ ok escrows
      → Built1 company b
          (built b.next_batch (totals_of (x ∷ xs) no_totals))
          (record (with_batch company (x ∷ xs) b) { escrows = escrows })

batch-Built1 :
    (company : ℕ) (xs : List Layer1PlanningItem) (b out : Books) (r : BuildResult)
    → (plan_layer1 b company).eligible_items ≡ xs
    → AreBelow b.next_batch b.items
    → AreSettleable company xs
    → batch_layer1 company xs b ≡ ok (r, out)
    → Built1 company b r out
unfolding batch_layer1
batch-Built1 company [] b out r e below s h = let (f, g) = ok_pair h in rw (← f, ← g) (nothing e)
batch-Built1 company (x ∷ xs) b out r e below s h =
    let closed = ◌∙◌ (sym (batch_layer1-eq company x xs b below s)) h in
    let finish : Escrows → Result Error (BuildResult × Books) = λ escrows. ok (
      built b.next_batch (totals_of (x ∷ xs) no_totals),
      record (with_batch company (x ∷ xs) b) { escrows = escrows },
    ) in
    let (escrows, first, rest) =
      >>=-eq-ok (advance_escrows b.next_batch (x ∷ xs) b.escrows) finish closed in
    let (f, g) = ok_pair rest in rw (← f, ← g) (batched x xs escrows e first)

pub build_layer1-Built1 :
    (company period_start period_end : ℕ) (b out : Books) (r : BuildResult)
    → IsSound b
    → build_layer1 company period_start period_end b ≡ ok (r, out)
    → Built1 company b r out
unfolding build_layer1 plan_layer1
build_layer1-Built1 company period_start period_end b out r v h =
    let xs = (plan_layer1 b company).eligible_items in
    let planned = plan-ArePlanned b company b.invoices in
    batch-Built1 company xs b out r refl v.below (planned-AreSettleable b company planned) (
      after_check (not (ltb period_start period_end)) Error.bad_period (batch_layer1 company xs b)
        h)

pub layer1-IsGuarded :
    (company : ℕ) (b out : Books) (r : BuildResult)
    → Built1 company b r out
    → IsGuarded b
    → IsGuarded out
unfolding plan_layer1
layer1-IsGuarded company b out r (nothing e) g = g
layer1-IsGuarded company b out r (batched x xs escrows e moved) g =
    let v = g.sound in
    let n = b.next_batch in
    let planned = rw e at (plan-ArePlanned b company b.invoices) in
    let linked = planned-AreLinked b company planned v.escrows v.distinct in
    let live = fresh_live n b.batches (v.fresh n (omega arith)) in
    record {
      sound = record {
        below =
            items_added-AreBelow (suc n) company n b.next_item (x ∷ xs) b.items (omega arith)
              (AreBelow-mono n (suc n) b.items (omega arith) v.below);
        fresh = fresh-save (suc n) n _ b.batches (omega arith) (λ k h. v.fresh k (omega arith));
        escrows = advance-IsValid n (x ∷ xs) b.escrows escrows moved v.escrows;
        distinct = v.distinct;
      };
      exclusive = λ c i.
          build-exclusive b _ company n b.next_item c i planned linked
            (save-Weakens n _ b.batches live) (g.exclusive c i);
    }
