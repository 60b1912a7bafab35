-- ===== src/Refunds/Refunded.antt =====
-- When the refund of an approved document is made, and what it leaves.
use rasti_kiro_gpt.Common.{
  ℕ, ◌≡◌, ◌≢◌, refl, ap, ◌∙◌, Bool, true, false, not, ◌&&◌, none, some, List, [], ◌∷◌, arith,
  Bool-cases, inl, inr,
}
use rasti_kiro_gpt.Common.Table.{Table, lookup, save, lookup-save_self, lookup-save_ne}
use rasti_kiro_gpt.Common.Result.{ok, err}
use rasti_kiro_gpt.Payouts.Escrow.Defs.{
  Status as EscrowStatus, EscrowRecord, Escrows, close, close_row, update, may_close,
}
use rasti_kiro_gpt.Settlement.Books.{
  DocumentStatus, AdjustmentDocument, InvoiceRow, Books, is_applied,
}
use rasti_kiro_gpt.Settlement.Calculator.{latest_escrow}
use rasti_kiro_gpt.Refunds.Documents.{is_approved, mark_applied, change, blocked}
use rasti_kiro_gpt.Refunds.Execution.{
  RefundStatus, RefundResult, is_full_refund, is_closed, blocks, validate_safe_scope,
  reverse_platform_fee, close_escrow, find_invoice, reverse, execute,
}
use rasti_kiro_gpt.Refunds.Reversal.{reversed, reversed-Reverses, fees_after, ledger_after}

abbrev pub closed_record : ℕ → EscrowRecord → EscrowRecord
closed_record now e = record e { status = EscrowStatus.closed; closed_at = some now }

-- The escrow records of an invoice after a refund: none, or the newest is closed.
pub data Closing (company invoice now : ℕ) (escrows : Escrows) : Bool → Escrows → Type 0 where
  absent :
      latest_escrow company invoice escrows.rows ≡ none
      → Closing company invoice now escrows false escrows
  closes :
      (pk : ℕ) (e : EscrowRecord)
      → latest_escrow company invoice escrows.rows ≡ some (pk, e)
      → lookup pk escrows.rows ≡ some e
      → may_close e.status ≡ true
      → Closing company invoice now escrows true
          (record escrows { rows = save pk (closed_record now e) escrows.rows })

may_not_closed : (s : EscrowStatus) → may_close s ≡ true → is_closed s ≡ false
may_not_closed s h = ground arith

close_escrow-Closing :
    (company invoice now : ℕ) (b : Books) (escrows es : Escrows) (made : Bool)
    → b.escrows ≡ escrows
    → Closing company invoice now escrows made es
    → close_escrow company invoice now b ≡ ok (made, record b { escrows = es })
unfolding close_escrow close update close_row
close_escrow-Closing company invoice now b escrows es made e (absent a) =
    let there : latest_escrow company invoice b.escrows.rows ≡ none = rw e a in
    rw (there, close_escrow) (ap (λ (x : Escrows). ok (false, record b { escrows = x })) e)
close_escrow-Closing company invoice now b escrows es made e (closes pk row found stored open_) =
    let there : latest_escrow company invoice b.escrows.rows ≡ some (pk, row) = rw e found in
    let kept : lookup pk b.escrows.rows ≡ some row = rw e stored in
    rw (there, close_escrow, may_not_closed row.status open_, kept, open_)
      (ap
        (λ (x : Escrows).
          ok (
            true,
            record b { escrows = record x { rows = save pk (closed_record now row) x.rows } },
          ))
        e)

mark_applied-eq :
    (pk now : ℕ) (b : Books) (d : AdjustmentDocument)
    → lookup pk b.adjustments ≡ some d
    → is_approved d.status ≡ true
    → mark_applied now pk b
      ≡ ok (record b {
        adjustments =
            save pk
              (record d { status = DocumentStatus.applied; applied_at = some now })
              b.adjustments;
      })
unfolding mark_applied change
mark_applied-eq pk now b d h a = rw (h, a) refl

-- What a refund leaves: the document is APPLIED, the ledgers have the reversals, the escrow record is
-- closed, and the rest is as it was.
pub record Refunded (pk now : ℕ) (d : AdjustmentDocument) (inv : InvoiceRow) (b out : Books)
    : Type 0 where
  pub document : AdjustmentDocument
  pub adjustments : Table AdjustmentDocument
  pub escrows : Escrows
  pub closed : Bool
  pub frame : out ≡ record b {
    ledger = ledger_after pk inv d.company b.ledger;
    fees = fees_after pk inv d.company b.fees;
    adjustments = adjustments;
    escrows = escrows;
  }
  pub stored : lookup pk adjustments ≡ some document
  pub applied : document.status ≡ DocumentStatus.applied
  pub others : (k : ℕ) → k ≢ pk → lookup k adjustments ≡ lookup k b.adjustments
  pub closing : Closing d.company inv.invoice_id now b.escrows closed escrows

abbrev done : ℕ → AdjustmentDocument → AdjustmentDocument
done now d = record d { status = DocumentStatus.applied; applied_at = some now }

pub reverse-Refunded :
    (pk now : ℕ) (inv : InvoiceRow) (d : AdjustmentDocument) (b : Books) (made : Bool)
    (es : Escrows)
    → lookup pk b.adjustments ≡ some d
    → is_approved d.status ≡ true
    → Closing d.company inv.invoice_id now b.escrows made es
    → (r : RefundResult) × (out : Books) × (reverse pk inv d now b ≡ ok (r, out))
      × (r.status ≡ RefundStatus.applied)
      × Refunded pk now d inv b out
unfolding reverse
reverse-Refunded pk now inv d b made es h a c =
    let fee = reverse_platform_fee pk inv d b in
    let p = reversed pk inv d b in
    let w = reversed-Reverses pk inv d b h in
    let same : p.books.escrows ≡ b.escrows = ap (λ (x : Books). x.escrows) w.books in
    let shut = close_escrow-Closing d.company inv.invoice_id now p.books b.escrows es made same c in
    let kept : lookup pk p.books.adjustments ≡ some p.document =
      ◌∙◌ (ap (λ (x : Books). lookup pk x.adjustments) w.books) w.stored in
    let still : is_approved p.document.status ≡ true = rw w.status a in
    let marked = mark_applied-eq pk now (record p.books { escrows = es }) p.document kept still in
    let write : Books → Books =
      λ x. record x { escrows = es; adjustments = save pk (done now p.document) x.adjustments } in
    (
      record {
        status = RefundStatus.applied;
        platform_fee_entry_created = fee.made;
        technician_ledger_entry_created = p.made;
        escrow_closed = made;
      },
      write p.books,
      rw (shut, marked) refl,
      refl,
      record {
        document = done now p.document;
        adjustments = save pk (done now p.document) w.adjustments;
        escrows = es;
        closed = made;
        frame = ap write w.books;
        stored = lookup-save_self pk (done now p.document) w.adjustments;
        applied = refl;
        others = λ k ne.
            ◌∙◌ (lookup-save_ne k pk (done now p.document) w.adjustments ne) (w.others k ne);
        closing = c;
      },
    )

pub find_invoice-id :
    (i : ℕ) (invs : List InvoiceRow) (inv : InvoiceRow)
    → find_invoice i invs ≡ some inv
    → inv.invoice_id ≡ i
unfolding find_invoice
find_invoice-id i [] inv h = cc
find_invoice-id i (x ∷ invs) inv h = ground (arith, find_invoice-id i invs inv)

approved_open : (s : DocumentStatus) → is_approved s ≡ true → is_applied s ≡ false
approved_open s h = ground arith

module _ (pk now : ℕ) (d : AdjustmentDocument) (inv : InvoiceRow) (b : Books)
    (found : lookup pk b.adjustments ≡ some d) (approved : is_approved d.status ≡ true)
    (of : find_invoice d.original_invoice b.invoices ≡ some inv) where
  -- What the checks of an approved document let through.
  pub execute-eq :
      is_full_refund d.document_type ≡ true
      → blocks b.snapshots (latest_escrow d.company d.original_invoice b.escrows.rows) ≡ false
      → execute pk now b ≡ reverse pk inv d now b
  unfolding execute validate_safe_scope
  execute-eq full free = rw (found, approved_open d.status approved, approved, full, free, of) refl

  pub execute-blocked :
      (is_full_refund d.document_type
          && not (blocks b.snapshots (latest_escrow d.company d.original_invoice b.escrows.rows)))
        ≡ false
      → execute pk now b ≡ err blocked
  unfolding execute validate_safe_scope
  execute-blocked refused = elim (Bool-cases (is_full_refund d.document_type)) [
    | inr e ↦ rw (found, approved_open d.status approved, approved, e) refl
    | inl e ↦
        let stops : blocks b.snapshots (latest_escrow d.company d.original_invoice b.escrows.rows)
            ≡ true =
          let x = rw e at refused in ground arith in
        rw (found, approved_open d.status approved, approved, e, stops) refl
  ]
