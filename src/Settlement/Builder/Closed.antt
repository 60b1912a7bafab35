-- ===== src/Settlement/Builder/Closed.antt =====
-- The closed form of `build_layer1_batch` on books in order.
use rasti_kiro_gpt.Common.{
  ℕ, suc, ◌<◌, ◌≡◌, refl, sym, ap, ◌∙◌, true, false, none, some, List, [], ◌∷◌, ◌==◌, arith,
}
use rasti_kiro_gpt.Common.Int.{ℤ, pos, negsuc, ◌+ℤ◌, ◌-ℤ◌, same_ℤ, int_laws}
use rasti_kiro_gpt.Common.Table.{Table, lookup, save, lookup-save_self, save-save}
use rasti_kiro_gpt.Common.Result.{ok, ◌>>=◌}
use rasti_kiro_gpt.Settlement.Books.{Books, Batch, Item, Level, Status, is_calculating}
use rasti_kiro_gpt.Settlement.Calculator.{Layer1Result}
use rasti_kiro_gpt.Settlement.Planner.{Layer1PlanningItem}
use rasti_kiro_gpt.Settlement.Batches.{
  new_batch, create_batch, transition, mark_ready, add_invoice_item, with_item,
}
use rasti_kiro_gpt.Settlement.Builder.{
  Totals, no_totals, add_amount, net_of, is_receivable, sum_of_batch, add_layer1_item,
  add_layer1_items, save_totals, finish_batch, advance_escrows, batch_layer1, built,
}

-- An item that the builder's own checks let pass.
pub record IsSettleable (company : ℕ) (item : Layer1PlanningItem) : Type 0 where
  pub result : Layer1Result
  pub calculated : item.calculation ≡ some result
  pub own : (result.company == company) ≡ true
  pub positive : is_receivable result.position ≡ false

abbrev pub AreSettleable : ℕ → List Layer1PlanningItem → Type 0
AreSettleable company [] = Unit {0}
AreSettleable company (x ∷ xs) = IsSettleable company x × AreSettleable company xs

abbrev pub amount_of : Layer1PlanningItem → ℤ
amount_of x = elim x.calculation [ none ↦ pos 0 | some result ↦ result.net_position_rial ]

abbrev pub item_for : ℕ → ℕ → Layer1PlanningItem → Item
item_for company pk x = record {
  company = company;
  batch = pk;
  invoice = some x.invoice_id;
  ledger_entry = none;
  platform_fee_entry = none;
  amount_rial = amount_of x;
}

-- The items of a list, on top of those that are there, and the next key.
unfoldable pub items_added : ℕ → ℕ → List Layer1PlanningItem → ℕ → Table Item → Table Item
items_added company pk [] next items = items
items_added company pk (x ∷ xs) next items =
    items_added company pk xs (suc next) ((next, item_for company pk x) ∷ items)

unfoldable pub next_added : List Layer1PlanningItem → ℕ → ℕ
next_added [] next = next
next_added (x ∷ xs) next = next_added xs (suc next)

abbrev pub added : ℕ → ℕ → List Layer1PlanningItem → Books → Books
added company pk xs b = record b {
  items = items_added company pk xs b.next_item b.items;
  next_item = next_added xs b.next_item;
}

unfoldable pub totals_of : List Layer1PlanningItem → Totals → Totals
totals_of [] t = t
totals_of (x ∷ xs) t = totals_of xs (add_amount (amount_of x) t)

add_layer1_item-eq :
    (company pk : ℕ) (x : Layer1PlanningItem) (t : Totals) (b : Books) (row : Batch)
    → IsSettleable company x
    → lookup pk b.batches ≡ some row
    → is_calculating row.status ≡ true
    → row.company ≡ company
    → add_layer1_item company pk x t b
      ≡ ok (add_amount (amount_of x) t, with_item (item_for company pk x) b)
unfolding add_layer1_item add_invoice_item
add_layer1_item-eq company pk x t b row s found open_ own =
    ground (arith, s.calculated, s.own, s.positive)

add_layer1_items-eq :
    (company pk : ℕ) (xs : List Layer1PlanningItem) (t : Totals) (b : Books) (row : Batch)
    → AreSettleable company xs
    → lookup pk b.batches ≡ some row
    → is_calculating row.status ≡ true
    → row.company ≡ company
    → add_layer1_items company pk xs t b ≡ ok (totals_of xs t, added company pk xs b)
unfolding add_layer1_items totals_of items_added next_added
add_layer1_items-eq company pk [] t b row s found open_ own = refl
add_layer1_items-eq company pk (x ∷ xs) t b row (s, ss) found open_ own =
    rw (add_layer1_item-eq company pk x t b row s found open_ own) (
      add_layer1_items-eq company pk xs (add_amount (amount_of x) t)
        (with_item (item_for company pk x) b) row ss found open_ own)

unfoldable pub amounts : List Layer1PlanningItem → ℤ
amounts [] = pos 0
amounts (x ∷ xs) = amount_of x +ℤ amounts xs

sum_own :
    (company pk next : ℕ) (x : Layer1PlanningItem) (items : Table Item)
    → sum_of_batch pk ((next, item_for company pk x) ∷ items) ≡ amount_of x +ℤ sum_of_batch pk items
unfolding sum_of_batch
sum_own company pk next x items = ground arith

pub net_add : (z : ℤ) (t : Totals) → net_of (add_amount z t) ≡ net_of t +ℤ z
net_add (pos n) t = omega int_laws
net_add (negsuc n) t = omega int_laws

sum_items_added :
    (company pk : ℕ) (xs : List Layer1PlanningItem) (next : ℕ) (items : Table Item)
    → sum_of_batch pk (items_added company pk xs next items) ≡ sum_of_batch pk items +ℤ amounts xs
unfolding items_added amounts
sum_items_added company pk [] next items = omega int_laws
sum_items_added company pk (x ∷ xs) next items =
    let item = item_for company pk x in
    let rest = sum_items_added company pk xs (suc next) ((next, item) ∷ items) in
    let own = sum_own company pk next x items in
    ◌∙◌ rest (◌∙◌ (ap (λ z. z +ℤ amounts xs) own) (omega int_laws))

net_totals :
    (xs : List Layer1PlanningItem) (t : Totals) → net_of (totals_of xs t) ≡ net_of t +ℤ amounts xs
unfolding totals_of amounts
net_totals [] t = omega int_laws
net_totals (x ∷ xs) t =
    ◌∙◌ (net_totals xs (add_amount (amount_of x) t))
      (◌∙◌ (ap (λ z. z +ℤ amounts xs) (net_add (amount_of x) t)) (omega int_laws))

same_ℤ_refl : (z : ℤ) → same_ℤ z z ≡ true
same_ℤ_refl (pos n) = ground arith
same_ℤ_refl (negsuc n) = ground arith

-- No item is of a batch from `n` on.
abbrev pub AreBelow : ℕ → Table Item → Type 0
AreBelow n [] = Unit {0}
AreBelow n ((_, item) ∷ items) = (item.batch < n) × AreBelow n items

pub sum_of_new : (n : ℕ) (items : Table Item) → AreBelow n items → sum_of_batch n items ≡ pos 0
unfolding sum_of_batch
sum_of_new n [] h = refl
sum_of_new n ((k, item) ∷ items) h =
    let here : (item.batch == n) ≡ false = ground arith in
    let rest = sum_of_new n items h.1 in rw (here, rest) (omega int_laws)

-- The row of the batch when it is READY.
abbrev pub ready_batch : ℕ → Level → Totals → Batch
ready_batch company level t = record {
  company = company;
  level = level;
  status = Status.ready;
  net_amount_rial = net_of t;
  total_credits = t.credits;
  total_debits = t.debits;
  items_count = t.count;
  executed_at = none;
}

-- A batch that has its items: the check of the totals passes if they are the sum of the items.
pub finish_batch-eq :
    (company pk : ℕ) (level : Level) (t : Totals) (b : Books)
    → lookup pk b.batches ≡ some (new_batch company level)
    → sum_of_batch pk b.items ≡ net_of t
    → finish_batch pk t b
      ≡ ok (record b { batches = save pk (ready_batch company level t) b.batches })
unfolding finish_batch save_totals mark_ready transition
finish_batch-eq company pk level t b found sum =
    let totals : Batch = record (new_batch company level) {
      net_amount_rial = net_of t;
      total_credits = t.credits;
      total_debits = t.debits;
      items_count = t.count;
    } in
    rw (
      found,
      sum,
      same_ℤ_refl (net_of t),
      lookup-save_self pk totals b.batches,
      save-save pk (ready_batch company level t) totals b.batches,
    )

-- The books with the new batch and its items, and what its escrow records are by then.
abbrev pub with_batch : ℕ → List Layer1PlanningItem → Books → Books
with_batch company xs b = record b {
  batches =
      save b.next_batch (ready_batch company Level.platform_to_org (totals_of xs no_totals))
        b.batches;
  next_batch = suc b.next_batch;
  items = items_added company b.next_batch xs b.next_item b.items;
  next_item = next_added xs b.next_item;
}

-- On books where no item is of a later batch, the builder makes the batch of the items and leaves only
-- the escrow records to decide.
pub batch_layer1-eq :
    (company : ℕ) (x : Layer1PlanningItem) (xs : List Layer1PlanningItem) (b : Books)
    → AreBelow b.next_batch b.items
    → AreSettleable company (x ∷ xs)
    → batch_layer1 company (x ∷ xs) b ≡ (
        advance_escrows b.next_batch (x ∷ xs) b.escrows >>= λ escrows. ok (
          built b.next_batch (totals_of (x ∷ xs) no_totals),
          record (with_batch company (x ∷ xs) b) { escrows = escrows },
        ))
unfolding batch_layer1 create_batch ◌+ℤ◌ ◌-ℤ◌
batch_layer1-eq company x xs b below s =
    let pk = b.next_batch in
    let row = new_batch company Level.platform_to_org in
    let b' = create_batch company Level.platform_to_org b in
    let found = lookup-save_self pk row b.batches in
    let t = totals_of (x ∷ xs) no_totals in
    let zeroed = ap (λ z. z +ℤ amounts (x ∷ xs)) (sum_of_new pk b.items below) in
    let sum =
      ◌∙◌ (sum_items_added company pk (x ∷ xs) b.next_item b.items)
        (◌∙◌ zeroed (sym (net_totals (x ∷ xs) no_totals))) in
    rw
      (
        add_layer1_items-eq company pk (x ∷ xs) no_totals b' row s found refl refl,
        finish_batch-eq company pk Level.platform_to_org t (added company pk (x ∷ xs) b') found sum,
        save-save pk (ready_batch company Level.platform_to_org t) row b.batches,
      )
      refl
