-- ===== src/Settlement/Builder/Linked.antt =====
-- The items of a plan, with the stored escrow records of their invoices.
use rasti_kiro_gpt.Common.{
  ℕ, ◌+◌, ◌≤◌, ◌≡◌, refl, Bool, true, false, ◌&&◌, ◌||◌, Option, none, some, List, [], ◌∷◌, ◌==◌,
  same_key, arith,
}
use rasti_kiro_gpt.Common.Int.{pos, ◌-ℤ◌}
use rasti_kiro_gpt.Common.Table.{Table, lookup}
use rasti_kiro_gpt.Payouts.Escrow.Defs.{EscrowRecord, is_distributed}
use rasti_kiro_gpt.Payouts.Escrow.Table.{AreRows, IsValid}
use rasti_kiro_gpt.Settlement.Books.{Books, InvoiceRow}
use rasti_kiro_gpt.Settlement.Calculator.{latest_escrow, classify, settled_result}
use rasti_kiro_gpt.Settlement.Planner.{Layer1PlanningItem}
use rasti_kiro_gpt.Settlement.Planner.Eligible.{ArePlanned, end, skip, takes}
use rasti_kiro_gpt.Settlement.Builder.{is_receivable}
use rasti_kiro_gpt.Settlement.Builder.Closed.{AreBelow, AreSettleable}

abbrev pub has_invoice : ℕ → List InvoiceRow → Bool
has_invoice i [] = false
has_invoice i (inv ∷ invs) = inv.invoice_id == i || has_invoice i invs

-- No two rows have one primary key.
abbrev pub AreDistinct : List InvoiceRow → Type 0
AreDistinct [] = Unit {0}
AreDistinct (inv ∷ invs) = (has_invoice inv.invoice_id invs ≡ false) × AreDistinct invs

-- Books in order: primary keys are as the database keeps them.
pub record IsSound (b : Books) : Type 0 where
  pub below : AreBelow b.next_batch b.items
  pub fresh : (k : ℕ) → b.next_batch ≤ k → lookup k b.batches ≡ none
  pub escrows : IsValid b.escrows
  pub distinct : AreDistinct b.invoices

abbrev pub has_item : ℕ → List Layer1PlanningItem → Bool
has_item i [] = false
has_item i (x ∷ xs) = x.invoice_id == i || has_item i xs

-- Whether the escrow record of each item is DISTRIBUTED.
unfoldable pub all_distributed : List Layer1PlanningItem → Table EscrowRecord → Bool
all_distributed [] rows = true
all_distributed (x ∷ xs) rows =
    elim x.escrow_id [
      | none ↦ true
      | some pk ↦ elim (lookup pk rows) [ none ↦ false | some e ↦ is_distributed e.status ]
    ]
    && all_distributed xs rows

-- An item with the stored escrow record of its invoice.
pub record IsLinked (rows : Table EscrowRecord) (x : Layer1PlanningItem) : Type 0 where
  pub pk : ℕ
  pub escrow : EscrowRecord
  pub key : x.escrow_id ≡ some pk
  pub stored : lookup pk rows ≡ some escrow
  pub of_invoice : escrow.invoice ≡ some x.invoice_id

abbrev pub AreLinked : Table EscrowRecord → List Layer1PlanningItem → Type 0
AreLinked rows [] = Unit {0}
AreLinked rows (x ∷ xs) = IsLinked rows x × (has_item x.invoice_id xs ≡ false) × AreLinked rows xs

same_key-some : (o : Option ℕ) (i : ℕ) → same_key o (some i) ≡ true → o ≡ some i
same_key-some o i h = ground arith

-- The newest record of an invoice is a stored one of it.
pub latest-stored :
    (n c i pk : ℕ) (e : EscrowRecord) (rows : Table EscrowRecord)
    → AreRows n rows
    → latest_escrow c i rows ≡ some (pk, e)
    → (lookup pk rows ≡ some e) × (e.invoice ≡ some i) × (e.company ≡ c)
unfolding latest_escrow lookup
latest-stored n c i pk e [] v h = cc
latest-stored n c i pk e ((k, x) ∷ rows) v h = ground (arith, latest-stored n c i pk e rows v.4)

-- `has_invoice` bounds what a plan has.
planned-has :
    (b : Books) (company i : ℕ) {invs : List InvoiceRow} {xs : List Layer1PlanningItem}
    → ArePlanned b company invs xs
    → has_invoice i invs ≡ false
    → has_item i xs ≡ false
planned-has b company i end h = refl
planned-has b company i (skip {inv} not_taken rest) h = planned-has b company i rest (ground arith)
planned-has b company i (takes {inv} own e rest) h =
    let more = planned-has b company i rest (ground arith) in ground arith

pub planned-AreLinked :
    (b : Books) (company : ℕ) {invs : List InvoiceRow} {xs : List Layer1PlanningItem}
    → ArePlanned b company invs xs
    → IsValid b.escrows
    → AreDistinct invs
    → AreLinked b.escrows.rows xs
planned-AreLinked b company end v d = tt
planned-AreLinked b company (skip not_taken rest) v d = planned-AreLinked b company rest v d.1
planned-AreLinked b company (takes {inv} own e rest) v d =
    let (stored, of_invoice, _) =
      latest-stored b.escrows.next_pk inv.company inv.invoice_id e.pk e.escrow b.escrows.rows v
        e.found in
    (
      record { pk = e.pk; escrow = e.escrow; key = refl; stored = stored; of_invoice = of_invoice },
      planned-has b company inv.invoice_id rest d.0,
      planned-AreLinked b company rest v d.1,
    )

never_receivable : (n : ℕ) → is_receivable (classify (pos n -ℤ pos 0)) ≡ false
unfolding classify ◌-ℤ◌
never_receivable n = ground arith

pub planned-AreSettleable :
    (b : Books) (company : ℕ) {invs : List InvoiceRow} {xs : List Layer1PlanningItem}
    → ArePlanned b company invs xs
    → AreSettleable company xs
planned-AreSettleable b company end = tt
planned-AreSettleable b company (skip not_taken rest) = planned-AreSettleable b company rest
planned-AreSettleable b company (takes {inv} own e rest) = (
  record {
    result = settled_result b inv e.escrow;
    calculated = refl;
    own = own;
    positive = never_receivable (e.escrow.organization_share_rial + 0);
  },
  planned-AreSettleable b company rest,
)
