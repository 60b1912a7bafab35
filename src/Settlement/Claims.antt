-- ===== src/Settlement/Claims.antt =====
-- How many live items claim an invoice: what the planner and the batch builder guard.
pub mod Layer1
pub mod Layer2
pub mod Steps
pub mod Again
use rasti_kiro_gpt.Common.{
  ℕ, suc, ◌+◌, ◌≤◌, ◌<◌, ◌≡◌, ◌⊎◌, refl, sym, ap, ◌∙◌, Bool, true, false, not, ◌&&◌, Option, none,
  some, List, [], ◌∷◌, ◌==◌, same_key, if◌then◌else◌, arith, Bool-cases, inl, inr,
}
use rasti_kiro_gpt.Common.Table.{Table, lookup, save, lookup-save}
use rasti_kiro_gpt.Payouts.Escrow.Defs.{EscrowRecord}
use rasti_kiro_gpt.Settlement.Books.{Books, InvoiceRow, Batch, Item, is_live, is_failed, exists}
use rasti_kiro_gpt.Settlement.Planner.{Layer1PlanningItem, claims_invoice}
use rasti_kiro_gpt.Settlement.Planner.Eligible.{IsEligible, ArePlanned, end, skip, takes, item_of}
use rasti_kiro_gpt.Settlement.Builder.Closed.{items_added, item_for}
use rasti_kiro_gpt.Settlement.Builder.Linked.{AreLinked, has_item}

-- The live items of a company for an invoice.
unfoldable pub count_claims : Table Batch → ℕ → ℕ → Table Item → ℕ
count_claims batches company invoice [] = 0
count_claims batches company invoice (x ∷ items) =
    (if claims_invoice batches company invoice x then 1 else 0)
    + count_claims batches company invoice items

-- No invoice is claimed twice.
abbrev pub IsExclusive : Books → Type 0
IsExclusive b = (company invoice : ℕ) → count_claims b.batches company invoice b.items ≤ 1

-- No batch comes to life.
abbrev pub Weakens : Table Batch → Table Batch → Type 0
Weakens t t' = (k : ℕ) → is_live t' k ≡ true → is_live t k ≡ true

pub save-Weakens :
    (n : ℕ) (row : Batch) (t : Table Batch) → is_live t n ≡ true → Weakens t (save n row t)
unfolding is_live
save-Weakens n row t h k l = ground (arith, lookup-save k n row t)

-- A batch that is not there yet counts as live.
pub fresh_live : (n : ℕ) (t : Table Batch) → lookup n t ≡ none → is_live t n ≡ true
unfolding is_live
fresh_live n t h = rw (h, is_live) refl

weaker_claim :
    (t t' : Table Batch) (c i : ℕ) (x : ℕ × Item)
    → Weakens t t'
    → claims_invoice t' c i x ≡ true
    → claims_invoice t c i x ≡ true
weaker_claim t t' c i (k, item) w h = ground (arith, w item.batch)

pub Weakens-count :
    (t t' : Table Batch) (c i : ℕ) (items : Table Item)
    → Weakens t t'
    → count_claims t' c i items ≤ count_claims t c i items
unfolding count_claims
Weakens-count t t' c i [] w = omega arith
Weakens-count t t' c i (x ∷ items) w =
    let rest = Weakens-count t t' c i items w in
    elim (Bool-cases (claims_invoice t' c i x)) [
      | inl e ↦ rw (e, weaker_claim t t' c i x w e) (omega arith)
      | inr e ↦ rw e (omega arith)
    ]

unclaimed_count :
    (t : Table Batch) (c i : ℕ) (items : Table Item)
    → exists (claims_invoice t c i) items ≡ false
    → count_claims t c i items ≡ 0
unfolding count_claims exists
unclaimed_count t c i [] h = refl
unclaimed_count t c i (x ∷ items) h = elim (Bool-cases (claims_invoice t c i x)) [
  | inl e ↦ absurd (let y = rw e at h in cc y)
  | inr e ↦ let rest = unclaimed_count t c i items (rw e at h) in rw e (omega arith)
]

-- How often an invoice is among the items of a plan.
unfoldable pub occurrences : ℕ → List Layer1PlanningItem → ℕ
occurrences i [] = 0
occurrences i (x ∷ xs) = (if x.invoice_id == i then 1 else 0) + occurrences i xs

occurrences-none :
    (i : ℕ) (xs : List Layer1PlanningItem) → has_item i xs ≡ false → occurrences i xs ≡ 0
unfolding occurrences
occurrences-none i [] h = refl
occurrences-none i (x ∷ xs) h = ground (arith, occurrences-none i xs)

linked_once :
    (rows : Table EscrowRecord) (i : ℕ) (xs : List Layer1PlanningItem)
    → AreLinked rows xs
    → occurrences i xs ≤ 1
unfolding occurrences
linked_once rows i [] l = omega arith
linked_once rows i (x ∷ xs) (here, alone, l) = elim (Bool-cases (x.invoice_id == i)) [
  | inl e ↦
      let same : x.invoice_id ≡ i = ground arith in
      let rest = occurrences-none i xs (rw same at alone) in rw e (omega arith)
  | inr e ↦ let rest = linked_once rows i xs l in rw e (omega arith)
]

items_added-count :
    (t : Table Batch) (c i company pk next : ℕ) (xs : List Layer1PlanningItem) (items : Table Item)
    → count_claims t c i (items_added company pk xs next items)
      ≤ count_claims t c i items + (if company == c then occurrences i xs else 0)
unfolding items_added occurrences count_claims
items_added-count t c i company pk next [] items = ground arith
items_added-count t c i company pk next (x ∷ xs) items =
    let rest =
      items_added-count t c i company pk (suc next) xs ((next, item_for company pk x) ∷ items) in
    ground arith

-- What a plan has of an invoice, no item claims yet.
planned_unclaimed :
    (b : Books) (company i : ℕ) {invs : List InvoiceRow} {xs : List Layer1PlanningItem}
    → ArePlanned b company invs xs
    → (occurrences i xs ≡ 0) ⊎ (count_claims b.batches company i b.items ≡ 0)
unfolding occurrences
planned_unclaimed b company i end = inl refl
planned_unclaimed b company i (skip not_taken rest) = planned_unclaimed b company i rest
planned_unclaimed b company i (takes {inv} own e rest) = elim (Bool-cases (inv.invoice_id == i)) [
  | inl same ↦
      let at : inv.invoice_id ≡ i = ground arith in
      let of : inv.company ≡ company = ground arith in
      inr
        (rw (at, of) at (unclaimed_count b.batches inv.company inv.invoice_id b.items e.unclaimed))
  | inr other ↦ elim (planned_unclaimed b company i rest) [
    | inl absent ↦ inl (rw other (omega arith))
    | inr unclaimed ↦ inr unclaimed
  ]
]

-- A new batch of planned items leaves every invoice with one claim at most.
pub build-exclusive :
    (b : Books) (t' : Table Batch) (company pk next c i : ℕ) {invs : List InvoiceRow}
    {xs : List Layer1PlanningItem}
    → ArePlanned b company invs xs
    → AreLinked b.escrows.rows xs
    → Weakens b.batches t'
    → count_claims b.batches c i b.items ≤ 1
    → count_claims t' c i (items_added company pk xs next b.items) ≤ 1
build-exclusive b t' company pk next c i {xs} p l w once =
    let grown = items_added-count t' c i company pk next xs b.items in
    let less = Weakens-count b.batches t' c i b.items w in
    let single = linked_once b.escrows.rows i xs l in
    elim (Bool-cases (company == c)) [
      | inr e ↦ let g = rw e at grown in omega arith
      | inl e ↦
          let g = rw e at grown in
          elim (planned_unclaimed b company i p) [
            | inl absent ↦ omega arith
            | inr unclaimed ↦
                let same : company ≡ c = ground arith in let u = rw same at unclaimed in omega arith
          ]
    ]
