-- ===== src/Refunds/Equivalence.antt =====
-- Which approved documents `RefundExecutionService.execute` refunds.
use rasti_kiro_gpt.Common.{
  ℕ, ◌≡◌, refl, sym, ap, ◌∙◌, Bool, true, false, not, ◌&&◌, ◌||◌, Option, none, some, arith,
  Bool-cases, Option-cases, inl, inr,
}
use rasti_kiro_gpt.Common.Table.{Table, lookup, save}
use rasti_kiro_gpt.Common.Result.{ok, err, succeeds}
use rasti_kiro_gpt.Payouts.Split.{Decision}
use rasti_kiro_gpt.Payouts.Escrow.Defs.{
  Status as EscrowStatus, Error as EscrowError, EscrowRecord, close, close_row, update, may_close,
  is_held, is_reserved, is_distributed,
}
use rasti_kiro_gpt.Payouts.Escrow.Table.{IsValid}
use rasti_kiro_gpt.Settlement.Books.{AdjustmentDocument, InvoiceRow, Books}
use rasti_kiro_gpt.Settlement.Calculator.{latest_escrow}
use rasti_kiro_gpt.Settlement.Builder.Linked.{latest-stored}
use rasti_kiro_gpt.Refunds.Documents.{Error, is_approved, escrow_failed}
use rasti_kiro_gpt.Refunds.Execution.{
  RefundStatus, RefundResult, is_full_refund, is_closed, is_over, blocks, was_split, close_escrow,
  find_invoice, reverse, execute,
}
use rasti_kiro_gpt.Refunds.Reversal.{reversed, reversed-Reverses}
use rasti_kiro_gpt.Refunds.Refunded.{
  absent, closes, Refunded, reverse-Refunded, find_invoice-id, execute-eq, execute-blocked,
  closed_record,
}

-- No escrow record, or one that is held, reserved or distributed, of a payment that was not split.
abbrev pub is_refundable : Table Decision → Option (ℕ × EscrowRecord) → Bool
is_refundable snapshots none = true
is_refundable snapshots (some (pk, e)) =
    (is_held e.status || is_reserved e.status || is_distributed e.status)
    && not (was_split e.payment snapshots)

closed_out :
    (s : EscrowStatus) (split : Bool)
    → ((is_held s || is_reserved s || is_distributed s) && not split) ≡ true
    → ((is_over s || split) ≡ false) × (may_close s ≡ true)
closed_out s split h = ground arith

stuck_or_blocked :
    (s : EscrowStatus) (split : Bool)
    → ((is_held s || is_reserved s || is_distributed s) && not split) ≡ false
    → (is_over s || split) ≡ false
    → (may_close s ≡ false) × (is_closed s ≡ false)
stuck_or_blocked s split h f = ground arith

close_escrow-stuck :
    (company invoice now k : ℕ) (e : EscrowRecord) (b b' : Books)
    → b'.escrows ≡ b.escrows
    → latest_escrow company invoice b.escrows.rows ≡ some (k, e)
    → lookup k b.escrows.rows ≡ some e
    → may_close e.status ≡ false
    → is_closed e.status ≡ false
    → (x : Error) × (close_escrow company invoice now b' ≡ err x)
unfolding close_escrow close update close_row
close_escrow-stuck company invoice now k e b b' same found stored shut open_ =
    let there : latest_escrow company invoice b'.escrows.rows ≡ some (k, e) = rw same found in
    let kept : lookup k b'.escrows.rows ≡ some e = rw same stored in
    (
      escrow_failed EscrowError.escrow_transition_error,
      rw (there, close_escrow, open_, kept, shut) refl,
    )

reverse-stuck :
    (pk now k : ℕ) (inv : InvoiceRow) (d : AdjustmentDocument) (e : EscrowRecord) (b : Books)
    → lookup pk b.adjustments ≡ some d
    → latest_escrow d.company inv.invoice_id b.escrows.rows ≡ some (k, e)
    → lookup k b.escrows.rows ≡ some e
    → may_close e.status ≡ false
    → is_closed e.status ≡ false
    → succeeds (reverse pk inv d now b) ≡ false
unfolding reverse
reverse-stuck pk now k inv d e b h found stored shut open_ =
    let w = reversed-Reverses pk inv d b h in
    let p = reversed pk inv d b in
    let (x, stops) =
      close_escrow-stuck d.company inv.invoice_id now k e b p.books
        (ap (λ (y : Books). y.escrows) w.books) found stored shut open_ in
    rw stops refl

module _ (pk now : ℕ) (d : AdjustmentDocument) (inv : InvoiceRow) (b : Books)
    (found : lookup pk b.adjustments ≡ some d) (approved : is_approved d.status ≡ true)
    (of : find_invoice d.original_invoice b.invoices ≡ some inv) (valid : IsValid b.escrows) where
  abbrev pub newest : Option (ℕ × EscrowRecord)
  newest = latest_escrow d.company d.original_invoice b.escrows.rows

  -- What a refundable document gets.
  pub refunds :
      is_full_refund d.document_type ≡ true
      → is_refundable b.snapshots newest ≡ true
      → (r : RefundResult) × (out : Books) × (execute pk now b ≡ ok (r, out))
        × (r.status ≡ RefundStatus.applied)
        × Refunded pk now d inv b out
  refunds full free =
      let id = find_invoice-id d.original_invoice b.invoices inv of in
      elim (Option-cases newest) [
        | inl e ↦
            let open_ : blocks b.snapshots newest ≡ false = rw e refl in
            let (r, out, ran, status, done) =
              reverse-Refunded pk now inv d b false b.escrows found approved (absent (rw id e)) in
            (r, out, ◌∙◌ (execute-eq pk now d inv b found approved of full open_) ran, status, done)
        | inr ((k, e), latest) ↦
            let (passes, may) =
              closed_out e.status (was_split e.payment b.snapshots) (rw latest at free) in
            let open_ : blocks b.snapshots newest ≡ false = rw latest passes in
            let (stored, _, _) =
              latest-stored b.escrows.next_pk d.company d.original_invoice k e b.escrows.rows valid
                latest in
            let (r, out, ran, status, done) =
              reverse-Refunded pk now inv d b true
                (record b.escrows { rows = save k (closed_record now e) b.escrows.rows }) found
                approved (closes k e (rw id latest) stored may) in
            (r, out, ◌∙◌ (execute-eq pk now d inv b found approved of full open_) ran, status, done)
      ]

  stops :
      (is_full_refund d.document_type && is_refundable b.snapshots newest) ≡ false
      → succeeds (execute pk now b) ≡ false
  stops refused =
      elim (Bool-cases (is_full_refund d.document_type && not (blocks b.snapshots newest))) [
        | inr e ↦ ap succeeds (execute-blocked pk now d inv b found approved of e)
        | inl e ↦
            let full : is_full_refund d.document_type ≡ true = ground arith in
            let free : blocks b.snapshots newest ≡ false = ground arith in
            elim (Option-cases newest) [
              | inl none_there ↦ absurd (let x = rw (full, none_there) at refused in cc x)
              | inr ((k, x), latest) ↦
                  let id = find_invoice-id d.original_invoice b.invoices inv of in
                  let (shut, open_) =
                    stuck_or_blocked x.status (was_split x.payment b.snapshots)
                      (rw (full, latest) at refused) (rw latest at free) in
                  let (stored, _, _) =
                    latest-stored b.escrows.next_pk d.company d.original_invoice k x b.escrows.rows
                      valid latest in
                  rw (execute-eq pk now d inv b found approved of full free)
                    (reverse-stuck pk now k inv d x b found (rw id latest) stored shut open_)
            ]
      ]

  -- The execution of an APPROVED document, on a table of escrow records in order, succeeds exactly for
  -- a full refund of an invoice whose newest escrow record, if there is one, is held, reserved or
  -- distributed and not of a payment that was split with the technician.
  pub execute-succeeds :
      succeeds (execute pk now b)
      ≡ (is_full_refund d.document_type && is_refundable b.snapshots newest)
  execute-succeeds =
      elim (Bool-cases (is_full_refund d.document_type && is_refundable b.snapshots newest)) [
        | inr e ↦ ◌∙◌ (stops e) (sym e)
        | inl e ↦
            let (r, out, ran, status, done) = refunds (ground arith) (ground arith) in
            ◌∙◌ (ap succeeds ran) (sym e)
      ]
