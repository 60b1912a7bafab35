-- ===== src/Settlement/Builder/Kept.antt =====
-- What a build leaves of claims, batches and escrow records.
use rasti_kiro_gpt.Common.{
  ℕ, suc, ◌≡◌, ◌⊎◌, refl, sym, ◌∙◌, Bool, true, false, ◌&&◌, ◌||◌, none, some, List, [], ◌∷◌, ◌==◌,
  if◌then◌else◌, arith, Bool-cases, Option-cases, inl, inr,
}
use rasti_kiro_gpt.Common.Table.{Table, lookup, save, lookup-save}
use rasti_kiro_gpt.Common.Result.{Result, ok, >>=-eq-ok}
use rasti_kiro_gpt.Payouts.Escrow.Defs.{
  EscrowRecord, Escrows, mark_pending_settlement, await_settlement,
}
use rasti_kiro_gpt.Payouts.Escrow.Table.{update-eq-ok}
use rasti_kiro_gpt.Settlement.Books.{
  Books, Batch, Item, Error, InvoiceRow, exists, is_live, is_failed,
}
use rasti_kiro_gpt.Settlement.Calculator.{latest_escrow}
use rasti_kiro_gpt.Settlement.Planner.{Layer1PlanningItem, claims_invoice, evaluate_layer1}
use rasti_kiro_gpt.Settlement.Planner.Eligible.{ArePlanned, end, skip, takes}
use rasti_kiro_gpt.Settlement.Builder.{advance_escrows, lift_escrow}
use rasti_kiro_gpt.Settlement.Builder.Closed.{items_added, item_for}
use rasti_kiro_gpt.Settlement.Builder.Linked.{has_item}
use rasti_kiro_gpt.Settlement.Builder.Stuck.{Stands}
use rasti_kiro_gpt.Settlement.Execution.Completion.{lift_escrow-ok}

module _ (c i pk : ℕ) (e f : EscrowRecord) (p : f.company ≡ e.company)
    (q : f.invoice ≡ e.invoice) where
  latest-save-none :
      (rows : Table EscrowRecord)
      → lookup pk rows ≡ some e
      → latest_escrow c i (save pk f rows) ≡ none
      → latest_escrow c i rows ≡ none
  unfolding latest_escrow lookup save
  latest-save-none [] l h = refl
  latest-save-none ((j, x) ∷ rows) l h = elim (Bool-cases (pk == j)) [
    | inl here ↦ ground (arith, here)
    | inr there ↦ let rest = latest-save-none rows (rw there at l) in ground (arith, there, rest)
  ]

  -- A record that is saved with its company and invoice as they were stays where it is found.
  latest-save :
      (k : ℕ) (y : EscrowRecord) (rows : Table EscrowRecord)
      → lookup pk rows ≡ some e
      → latest_escrow c i (save pk f rows) ≡ some (k, y)
      → (latest_escrow c i rows ≡ some (k, y)) ⊎ (y ≡ f)
  unfolding latest_escrow lookup save
  latest-save k y [] l h = cc
  latest-save k y ((j, x) ∷ rows) l h = elim (Bool-cases (pk == j)) [
    | inl here ↦ elim (Option-cases (latest_escrow c i rows)) [
      | inr (later, e') ↦ let h' = rw (here, e') at h in inl (rw e' h')
      | inl e' ↦ let h' = rw (here, e') at h in inr (ground arith)
    ]
    | inr there ↦
        let l' = rw there at l in
        elim (Option-cases (latest_escrow c i (save pk f rows))) [
          | inr ((k', y'), e') ↦
              let h' = rw (there, e') at h in
              let rest = latest-save k' y' rows l' e' in
              elim rest [
                | inl was ↦ inl (rw was h')
                | inr new ↦ let same : y' ≡ y = cc h' in inr (◌∙◌ (sym same) new)
              ]
          | inl e' ↦
              let gone = latest-save-none rows l' e' in
              let h' = rw (there, e') at h in inl (rw gone h')
        ]
  ]

pub kept_claims :
    (t : Table Batch) (company c pk next i : ℕ) (xs : List Layer1PlanningItem) (items : Table Item)
    → exists (claims_invoice t c i) items ≡ true
    → exists (claims_invoice t c i) (items_added company pk xs next items) ≡ true
unfolding items_added exists
kept_claims t company c pk next i [] items h = h
kept_claims t company c pk next i (x ∷ xs) items h =
    kept_claims t company c pk (suc next) i xs ((next, item_for company pk x) ∷ items)
      (ground (arith, h))

-- What the rest of the plan has, it claims afterwards.
pub added_claims :
    (t : Table Batch) (company pk next i : ℕ) (xs : List Layer1PlanningItem) (items : Table Item)
    → is_live t pk ≡ true
    → has_item i xs ≡ true
    → exists (claims_invoice t company i) (items_added company pk xs next items) ≡ true
unfolding items_added exists
added_claims t company pk next i [] items live h = absurd (cc)
added_claims t company pk next i (x ∷ xs) items live h = elim (Bool-cases (x.invoice_id == i)) [
  | inl own ↦
      let ours : (company == company) ≡ true = ground arith in
      kept_claims t company company pk (suc next) i xs ((next, item_for company pk x) ∷ items)
        (rw (ours, own, live) refl)
  | inr other ↦
      added_claims t company pk (suc next) i xs ((next, item_for company pk x) ∷ items) live
        (rw other at h)
]

-- The batches after the build: the new one is live, and the others are as they were.
pub live-save :
    (n k : ℕ) (row : Batch) (t : Table Batch)
    → is_failed row.status ≡ false
    → is_live (save n row t) k ≡ (if k == n then true else is_live t k)
unfolding is_live
live-save n k row t h = ground (arith, lookup-save k n row t, h)

pub same_claim :
    (n c i : ℕ) (row : Batch) (t : Table Batch) (items : Table Item)
    → is_failed row.status ≡ false
    → exists (claims_invoice t c i) items ≡ true
    → exists (claims_invoice (save n row t) c i) items ≡ true
unfolding exists
same_claim n c i row t [] h e = e
same_claim n c i row t ((k, item) ∷ items) h e =
    ground (arith, live-save n item.batch row t h, same_claim n c i row t items h)

-- What awaiting a settlement does to a record.
awaits :
    (batch : ℕ) (e f : EscrowRecord)
    → await_settlement batch e ≡ ok f
    → (f.company ≡ e.company) × (f.invoice ≡ e.invoice) × (f.settlement_batch ≡ some batch)
unfolding await_settlement
awaits batch e f h = ground arith

-- The newest record of an invoice after the build is as before, or linked to the batch.
pub advance-latest :
    (batch c i k : ℕ) (y : EscrowRecord) (xs : List Layer1PlanningItem) (escrows out : Escrows)
    → advance_escrows batch xs escrows ≡ ok out
    → latest_escrow c i out.rows ≡ some (k, y)
    → (latest_escrow c i escrows.rows ≡ some (k, y)) ⊎ (y.settlement_batch ≡ some batch)
unfolding advance_escrows mark_pending_settlement
advance-latest batch c i k y [] escrows out h l = let e : escrows ≡ out = cc in inl (rw e l)
advance-latest batch c i k y (x ∷ xs) escrows out h l = elim (Option-cases x.escrow_id) [
  | inl e ↦ advance-latest batch c i k y xs escrows out (rw e at h) l
  | inr (pk, e) ↦
      let next : EscrowRecord × Escrows → Result Error Escrows =
        λ step. advance_escrows batch xs step.1 in
      let moves = lift_escrow (mark_pending_settlement pk batch escrows) in
      let (step, first, rest) = >>=-eq-ok moves next (rw e at h) in
      let moved = lift_escrow-ok (mark_pending_settlement pk batch escrows) step first in
      let (was, stored, done, saved) =
        update-eq-ok pk (await_settlement batch) escrows step.0 step.1 moved in
      let (company, invoice, linked) = awaits batch was step.0 done in
      elim (advance-latest batch c i k y xs step.1 out rest l) [
        | inr of_batch ↦ inr of_batch
        | inl before ↦
            let before' = rw saved at before in
            elim (latest-save c i pk was step.0 company invoice k y escrows.rows stored before') [
              | inl kept ↦ inl kept
              | inr new ↦ inr (rw new linked)
            ]
      ]
]

or_true : (a : Bool) → (a || true) ≡ true
or_true true = refl
or_true false = refl

-- An eligible invoice of the company is in the plan.
pub planned-in :
    (b : Books) (company : ℕ) (inv : InvoiceRow) {invs : List InvoiceRow}
    {xs : List Layer1PlanningItem}
    → ArePlanned b company invs xs
    → Stands inv invs
    → inv.company ≡ company
    → (evaluate_layer1 b inv).eligible ≡ true
    → has_item inv.invoice_id xs ≡ true
planned-in b company inv end stands own h = absurd stands
planned-in b company inv (skip {inv = x} not_taken rest) stands own h = elim stands [
  | inl same ↦
      let refused : (inv.company == company && (evaluate_layer1 b inv).eligible) ≡ false =
        rw same at not_taken in
      absurd (ground (arith, own, h))
  | inr later ↦ planned-in b company inv rest later own h
]
planned-in b company inv (takes {inv = x} {xs} of taken rest) stands own h = elim stands [
  | inl same ↦
      let hit : (x.invoice_id == inv.invoice_id) ≡ true = rw same (ground arith) in rw hit refl
  | inr later ↦
      let more = planned-in b company inv rest later own h in
      rw more (or_true (x.invoice_id == inv.invoice_id))
]
