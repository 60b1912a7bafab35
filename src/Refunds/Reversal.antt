-- ===== src/Refunds/Reversal.antt =====
-- What the reversal of an invoice's fee and wage does to the database.
use rasti_kiro_gpt.Common.{
  ℕ, ◌≡◌, ◌≢◌, refl, ap, ◌∙◌, true, false, none, some, ◌==◌, is_some, if◌then◌else◌, Bool-cases,
  Option-cases, inl, inr,
}
use rasti_kiro_gpt.Common.Table.{Table, lookup, save, lookup-save_self, lookup-save_ne}
use rasti_kiro_gpt.Payouts.Ledger.Entry.{Key, Ledger, has_key}
use rasti_kiro_gpt.Payouts.Ledger.Write.{create_debit, write_entry, create_entry}
use rasti_kiro_gpt.Payouts.Fees.{FeeKey, Fees, has_fee, record_manual_credit, write_fee}
use rasti_kiro_gpt.Settlement.Books.{AdjustmentDocument, InvoiceRow, Books}
use rasti_kiro_gpt.Refunds.Execution.{
  Progress, unmade, saved, find_fee_debit, reverse_platform_fee, reverse_technician_wage,
  wage_refund,
}

-- The ledgers after the reversal.
unfoldable pub fees_after : ℕ → InvoiceRow → ℕ → Fees → Fees
fees_after pk inv company fees = elim (find_fee_debit company inv.invoice_id fees) [
  | none ↦ fees
  | some original ↦ record_manual_credit company original.amount_rial (FeeKey.adjustment pk) fees
]

unfoldable pub ledger_after : ℕ → InvoiceRow → ℕ → Ledger → Ledger
ledger_after pk inv company l =
    if inv.settled_technician_wage == 0 then l else elim inv.technician [
      | none ↦ l
      | some technician ↦ (create_debit (wage_refund pk inv company technician) l).1
    ]

-- The document object and its row go together, and nothing else changes but the two ledgers.
pub record Reverses (pk : ℕ) (d : AdjustmentDocument) (b : Books) (p : Progress) (fees : Fees)
    (ledger : Ledger) : Type 0 where
  pub adjustments : Table AdjustmentDocument
  pub books : p.books ≡ record b { ledger = ledger; fees = fees; adjustments = adjustments }
  pub stored : lookup pk adjustments ≡ some p.document
  pub status : p.document.status ≡ d.status
  pub company : p.document.company ≡ d.company
  pub others : (k : ℕ) → k ≢ pk → lookup k adjustments ≡ lookup k b.adjustments

-- Nothing was written.
unmade-Reverses :
    (pk : ℕ) (d : AdjustmentDocument) (b : Books)
    → lookup pk b.adjustments ≡ some d
    → Reverses pk d b (unmade d b) b.fees b.ledger
unmade-Reverses pk d b h = record {
  adjustments = b.adjustments;
  books = refl;
  stored = h;
  status = refl;
  company = refl;
  others = λ k ne. refl;
}

-- The row was written with the entry.
saved-Reverses :
    (pk : ℕ) (d d' : AdjustmentDocument) (b : Books) (fees : Fees) (ledger : Ledger)
    → d'.status ≡ d.status
    → d'.company ≡ d.company
    → Reverses pk d b (saved pk d' (record b { ledger = ledger; fees = fees })) fees ledger
saved-Reverses pk d d' b fees ledger status company = record {
  adjustments = save pk d' b.adjustments;
  books = refl;
  stored = lookup-save_self pk d' b.adjustments;
  status = status;
  company = company;
  others = λ k ne. lookup-save_ne k pk d' b.adjustments ne;
}

used_fee :
    (company amount : ℕ) (key : FeeKey) (fees : Fees)
    → has_fee key fees ≡ true
    → record_manual_credit company amount key fees ≡ fees
unfolding record_manual_credit write_fee
used_fee company amount key fees h = rw h refl

pub fee-Reverses :
    (pk : ℕ) (inv : InvoiceRow) (d : AdjustmentDocument) (b : Books)
    → lookup pk b.adjustments ≡ some d
    → Reverses pk d b
        (reverse_platform_fee pk inv d b)
        (fees_after pk inv d.company b.fees)
        b.ledger
unfolding reverse_platform_fee fees_after
fee-Reverses pk inv d b h = elim (Option-cases (find_fee_debit d.company inv.invoice_id b.fees)) [
  | inl e ↦ rw (e, reverse_platform_fee, fees_after) (unmade-Reverses pk d b h)
  | inr (original, e) ↦ elim (Bool-cases (has_fee (FeeKey.adjustment pk) b.fees)) [
    | inl used ↦
        let same = used_fee d.company original.amount_rial (FeeKey.adjustment pk) b.fees used in
        rw (e, reverse_platform_fee, fees_after, used, same) (unmade-Reverses pk d b h)
    | inr free ↦
        rw (e, reverse_platform_fee, fees_after, free)
          (saved-Reverses pk d _ b
            (record_manual_credit d.company original.amount_rial (FeeKey.adjustment pk) b.fees)
            b.ledger refl refl)
  ]
]

module _ (pk : ℕ) (inv : InvoiceRow) (company technician : ℕ) (l : Ledger) where
  used_key :
      has_key (Key.adjustment_wage pk) l ≡ true
      → create_debit (wage_refund pk inv company technician) l ≡ (none, l)
  unfolding create_debit write_entry
  used_key h = rw h refl

  free_key :
      has_key (Key.adjustment_wage pk) l ≡ false
      → is_some (create_debit (wage_refund pk inv company technician) l).0 ≡ true
  unfolding create_debit write_entry create_entry
  free_key h = rw h refl

pub wage-Reverses :
    (pk : ℕ) (inv : InvoiceRow) (d : AdjustmentDocument) (b : Books)
    → lookup pk b.adjustments ≡ some d
    → Reverses pk d b
        (reverse_technician_wage pk inv d b)
        b.fees
        (ledger_after pk inv d.company b.ledger)
unfolding reverse_technician_wage ledger_after
wage-Reverses pk inv d b h = elim (Bool-cases (inv.settled_technician_wage == 0)) [
  | inl nothing ↦ rw nothing (unmade-Reverses pk d b h)
  | inr some_wage ↦ elim (Option-cases inv.technician) [
    | inl e ↦ rw (some_wage, e, reverse_technician_wage, ledger_after) (unmade-Reverses pk d b h)
    | inr (technician, e) ↦ elim (Bool-cases (has_key (Key.adjustment_wage pk) b.ledger)) [
      | inl used ↦
          let same = used_key pk inv d.company technician b.ledger used in
          rw (some_wage, e, reverse_technician_wage, ledger_after, same) (unmade-Reverses pk d b h)
      | inr free ↦
          let made = free_key pk inv d.company technician b.ledger free in
          rw (some_wage, e, reverse_technician_wage, ledger_after, made)
            (saved-Reverses pk d _ b b.fees
              (create_debit (wage_refund pk inv d.company technician) b.ledger).1 refl refl)
    ]
  ]
]

chain-Reverses :
    (pk : ℕ) (inv : InvoiceRow) (d : AdjustmentDocument) (b : Books) (p q : Progress) (fees : Fees)
    → Reverses pk d b p fees b.ledger
    → Reverses pk p.document p.books q p.books.fees
        (ledger_after pk inv p.document.company p.books.ledger)
    → Reverses pk d b q fees (ledger_after pk inv d.company b.ledger)
chain-Reverses pk inv d b p q fees f w =
    let write : Books → Books = λ x. record x {
      ledger = ledger_after pk inv p.document.company x.ledger;
      adjustments = w.adjustments;
    } in
    let of_company : ℕ → Books = λ c. record b {
      ledger = ledger_after pk inv c b.ledger;
      fees = fees;
      adjustments = w.adjustments;
    } in
    record {
      adjustments = w.adjustments;
      books = ◌∙◌ w.books (◌∙◌ (ap write f.books) (ap of_company f.company));
      stored = w.stored;
      status = ◌∙◌ w.status f.status;
      company = ◌∙◌ w.company f.company;
      others = λ k ne.
          ◌∙◌ (w.others k ne)
            (◌∙◌ (ap (λ (x : Books). lookup k x.adjustments) f.books) (f.others k ne));
    }

-- The two reversals in a row.
abbrev pub reversed : ℕ → InvoiceRow → AdjustmentDocument → Books → Progress
reversed pk inv d b =
    let fee = reverse_platform_fee pk inv d b in
    reverse_technician_wage pk inv fee.document fee.books

pub reversed-Reverses :
    (pk : ℕ) (inv : InvoiceRow) (d : AdjustmentDocument) (b : Books)
    → lookup pk b.adjustments ≡ some d
    → Reverses pk d b
        (reversed pk inv d b)
        (fees_after pk inv d.company b.fees)
        (ledger_after pk inv d.company b.ledger)
reversed-Reverses pk inv d b h =
    let fee = reverse_platform_fee pk inv d b in
    let f = fee-Reverses pk inv d b h in
    let kept : lookup pk fee.books.adjustments ≡ some fee.document =
      ◌∙◌ (ap (λ (x : Books). lookup pk x.adjustments) f.books) f.stored in
    chain-Reverses pk inv d b fee (reversed pk inv d b) (fees_after pk inv d.company b.fees) f
      (wage-Reverses pk inv fee.document fee.books kept)
