-- ===== src/Refunds/Builds.antt =====
-- What the settlement chain makes of an invoice that has been refunded.
use rasti_kiro_gpt.Common.{
  ℕ, ◌≡◌, refl, ap, ◌∙◌, Bool, true, false, none, some, List, [], ◌∷◌, ◌==◌, arith, Bool-cases,
  Option-cases, inl, inr,
}
use rasti_kiro_gpt.Common.Table.{Table, lookup, save}
use rasti_kiro_gpt.Common.Result.{ok, succeeds}
use rasti_kiro_gpt.Payouts.Escrow.Defs.{EscrowRecord, Escrows, close_row, may_close}
use rasti_kiro_gpt.Payouts.Escrow.Machine.{
  IsConsistent, call, closes as closes_call, call-IsConsistent,
}
use rasti_kiro_gpt.Payouts.Escrow.Table.{IsValid, AreRows, save-AreRows, rows-IsConsistent}
use rasti_kiro_gpt.Settlement.Books.{AdjustmentDocument, InvoiceRow, Books, exists, is_paid}
use rasti_kiro_gpt.Settlement.Calculator.{latest_escrow}
use rasti_kiro_gpt.Settlement.Planner.{claims_invoice, adjusts_invoice, is_unresolved_for}
use rasti_kiro_gpt.Settlement.Planner.Eligible.{IsEligible}
use rasti_kiro_gpt.Settlement.Builder.{build_layer1}
use rasti_kiro_gpt.Settlement.Builder.Linked.{IsSound, latest-stored}
use rasti_kiro_gpt.Settlement.Builder.Stuck.{Stands, stuck_stops_builds}
use rasti_kiro_gpt.Refunds.Documents.{is_approved}
use rasti_kiro_gpt.Refunds.Execution.{RefundResult, find_invoice, execute}
use rasti_kiro_gpt.Refunds.Refunded.{Closing, absent, closes, closed_record}
use rasti_kiro_gpt.Refunds.Effects.{execute-Refunded}

-- The newest record of an invoice stays the newest when it is saved.
latest-save_self :
    (n c i k : ℕ) (e f : EscrowRecord) (rows : Table EscrowRecord)
    → f.company ≡ e.company
    → f.invoice ≡ e.invoice
    → AreRows n rows
    → latest_escrow c i rows ≡ some (k, e)
    → latest_escrow c i (save k f rows) ≡ some (k, f)
unfolding latest_escrow save
latest-save_self n c i k e f [] company invoice v h = cc
latest-save_self n c i k e f ((j, x) ∷ rows) company invoice v h =
    elim (Option-cases (latest_escrow c i rows)) [
      | inr ((k', e'), later) ↦
          let h' = rw later at h in
          let same : k' ≡ k = cc h' in
          let row : e' ≡ e = cc h' in
          let later' : latest_escrow c i rows ≡ some (k, e) = rw (same, row) at later in
          let (stored, _, _) = latest-stored n c i k e rows v.4 later' in
          let apart : (k == j) ≡ false = elim (Bool-cases (k == j)) [
            | inr ne ↦ ne
            | inl eq ↦
                let at : k ≡ j = ground arith in
                let gone : lookup k rows ≡ none = rw at v.1 in absurd (cc)
          ] in
          let rest = latest-save_self n c i k e f rows company invoice v.4 later' in
          rw (apart, rest) refl
      | inl gone ↦ let h' = rw gone at h in ground (arith, gone, company, invoice)
    ]

closed-IsConsistent :
    (now : ℕ) (e : EscrowRecord)
    → may_close e.status ≡ true
    → IsConsistent e
    → IsConsistent (closed_record now e)
unfolding call close_row
closed-IsConsistent now e may v =
    let closed : call (closes_call now) e ≡ ok (closed_record now e) = rw may refl in
    (call-IsConsistent (closes_call now) e (closed_record now e) closed v).0

pub Closing-IsValid :
    (company invoice now : ℕ) (escrows es : Escrows) (made : Bool)
    → Closing company invoice now escrows made es
    → IsValid escrows
    → IsValid es
Closing-IsValid company invoice now escrows es made (absent gone) v = v
Closing-IsValid company invoice now escrows es made (closes pk e found stored may) v =
    save-AreRows escrows.next_pk pk e (closed_record now e) escrows.rows stored refl
      (closed-IsConsistent now e may (rows-IsConsistent escrows.next_pk pk e escrows.rows v stored))
      v

-- The newest record of the invoice, closed.
Closing-latest :
    (company invoice now k : ℕ) (e : EscrowRecord) (escrows es : Escrows) (made : Bool)
    → IsValid escrows
    → latest_escrow company invoice escrows.rows ≡ some (k, e)
    → Closing company invoice now escrows made es
    → latest_escrow company invoice es.rows ≡ some (k, closed_record now e)
Closing-latest company invoice now k e escrows es made v h (absent gone) = absurd (cc)
Closing-latest company invoice now k e escrows es made v h (closes pk row found stored may) =
    let same : pk ≡ k = cc in
    let that : row ≡ e = cc in
    rw (same, that)
      (latest-save_self escrows.next_pk company invoice k e (closed_record now e) escrows.rows refl
        refl v h)

find_invoice-Stands :
    (i : ℕ) (invs : List InvoiceRow) (inv : InvoiceRow)
    → find_invoice i invs ≡ some inv
    → Stands inv invs
unfolding find_invoice
find_invoice-Stands i [] inv h = cc
find_invoice-Stands i (x ∷ invs) inv h = elim (Bool-cases (x.invoice_id == i)) [
  | inl e ↦ let h' = rw e at h in inl (cc h')
  | inr e ↦ inr (find_invoice-Stands i invs inv (rw e at h))
]

-- The refund of a PAID invoice of the document's company that has an escrow record, in no batch and no
-- item of a live batch, makes the settlement of the company stop: the record is CLOSED, but as soon as
-- no document and no backfill task is open for the invoice, the planner calls it eligible, the builder
-- cannot move the record, and no build of the company succeeds, for any period.
pub refund_stops_builds :
    (pk now k : ℕ) (d : AdjustmentDocument) (inv : InvoiceRow) (e : EscrowRecord) (b out : Books)
    (r : RefundResult) (period_start period_end : ℕ)
    → IsSound b
    → lookup pk b.adjustments ≡ some d
    → is_approved d.status ≡ true
    → find_invoice d.original_invoice b.invoices ≡ some inv
    → inv.company ≡ d.company
    → is_paid inv.status ≡ true
    → latest_escrow inv.company inv.invoice_id b.escrows.rows ≡ some (k, e)
    → e.settlement_batch ≡ none
    → exists (claims_invoice b.batches inv.company inv.invoice_id) b.items ≡ false
    → execute pk now b ≡ ok (r, out)
    → exists (adjusts_invoice inv.company inv.invoice_id) out.adjustments ≡ false
    → exists (is_unresolved_for inv.company inv.invoice_id) b.backfills ≡ false
    → succeeds (build_layer1 inv.company period_start period_end out) ≡ false
refund_stops_builds pk now k d inv e b out r period_start period_end v found approved of own paid
      latest unlinked unclaimed ran unadjusted resolved =
    let done = (execute-Refunded pk now d inv b out r found approved of v.escrows ran).1 in
    let frame = done.frame in
    let latest' : latest_escrow d.company inv.invoice_id b.escrows.rows ≡ some (k, e) =
      rw own at latest in
    let valid =
      Closing-IsValid d.company inv.invoice_id now b.escrows done.escrows done.closed done.closing
        v.escrows in
    let newest =
      Closing-latest d.company inv.invoice_id now k e b.escrows done.escrows done.closed v.escrows
        latest' done.closing in
    let eligible : IsEligible out inv = record {
      pk = k;
      escrow = closed_record now e;
      paid = paid;
      found =
          ◌∙◌ (ap (λ (x : Books). latest_escrow inv.company inv.invoice_id x.escrows.rows) frame)
            (rw own newest);
      distributed = refl;
      unlinked = rw unlinked refl;
      unclaimed =
          ◌∙◌
            (ap
              (λ (x : Books). exists (claims_invoice x.batches inv.company inv.invoice_id) x.items)
              frame)
            unclaimed;
      unadjusted = unadjusted;
      resolved =
          ◌∙◌
            (ap (λ (x : Books). exists (is_unresolved_for inv.company inv.invoice_id) x.backfills)
              frame)
            resolved;
    } in
    let sound : IsSound out =
      rw frame
        (record { below = v.below; fresh = v.fresh; escrows = valid; distinct = v.distinct }) in
    let stands : Stands inv out.invoices =
      rw frame (find_invoice-Stands d.original_invoice b.invoices inv of) in
    stuck_stops_builds out inv period_start period_end sound stands eligible refl
