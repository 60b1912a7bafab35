-- ===== src/Refunds/Twice.antt =====
-- Two documents for one invoice.
use rasti_kiro_gpt.Common.{
  ℕ, ◌≡◌, ◌≢◌, refl, sym, ap, ◌∙◌, Bool, true, false, ◌&&◌, none, some, ◌==◌, same_key, arith,
  Bool-cases, Option-cases, inl, inr,
}
use rasti_kiro_gpt.Common.Int.{pos, ◌-ℤ◌}
use rasti_kiro_gpt.Common.Table.{lookup}
use rasti_kiro_gpt.Common.Result.{ok}
use rasti_kiro_gpt.Payouts.Escrow.Defs.{Escrows}
use rasti_kiro_gpt.Payouts.Escrow.Table.{IsValid}
use rasti_kiro_gpt.Payouts.Ledger.Entry.{
  Key, Request, Ledger, get_balance, has_key, same_idempotency_key,
}
use rasti_kiro_gpt.Payouts.Ledger.Write.{create_debit, write_entry, create_entry}
use rasti_kiro_gpt.Settlement.Books.{AdjustmentDocument, InvoiceRow, Books}
use rasti_kiro_gpt.Settlement.Calculator.{latest_escrow}
use rasti_kiro_gpt.Refunds.Documents.{is_approved}
use rasti_kiro_gpt.Refunds.Execution.{
  RefundResult, is_full_refund, find_invoice, execute, wage_refund,
}
use rasti_kiro_gpt.Refunds.Reversal.{ledger_after}
use rasti_kiro_gpt.Refunds.Refunded.{Closing, absent, closes, find_invoice-id}
use rasti_kiro_gpt.Refunds.Equivalence.{is_refundable, refunds}
use rasti_kiro_gpt.Refunds.Effects.{ledger_after-get_balance}

Closing-none :
    (company invoice now : ℕ) (escrows es : Escrows) (made : Bool)
    → Closing company invoice now escrows made es
    → latest_escrow company invoice escrows.rows ≡ none
    → es ≡ escrows
Closing-none company invoice now escrows es made (absent gone) h = refl
Closing-none company invoice now escrows es made (closes pk e found stored may) h = absurd (cc)

has_key-write_entry :
    (k : Key) (r : Request) (l : Ledger)
    → same_idempotency_key k r.idempotency_key ≡ false
    → has_key k l ≡ false
    → has_key k (write_entry r l).1 ≡ false
unfolding write_entry create_entry has_key
has_key-write_entry k r l other h = elim (Bool-cases (has_key r.idempotency_key l)) [
  | inl used ↦ rw used h
  | inr free ↦ rw (free, other) h
]

ledger_after-has_key :
    (pk later company : ℕ) (inv : InvoiceRow) (l : Ledger)
    → later ≢ pk
    → has_key (Key.adjustment_wage later) l ≡ false
    → has_key (Key.adjustment_wage later) (ledger_after pk inv company l) ≡ false
unfolding ledger_after create_debit
ledger_after-has_key pk later company inv l apart h =
    let other : (later == pk) ≡ false = ground arith in
    elim (Bool-cases (inv.settled_technician_wage == 0)) [
      | inl nothing ↦ rw nothing h
      | inr some_wage ↦ elim (Option-cases inv.technician) [
        | inl e ↦ rw (some_wage, e, ledger_after) h
        | inr (technician, e) ↦
            rw (some_wage, e, ledger_after)
              (has_key-write_entry (Key.adjustment_wage later)
                (wage_refund pk inv company technician) l other h)
      ]
    ]

-- Two APPROVED documents of one company order a full refund of one invoice that has no escrow record,
-- such as one that was paid in cash: executed one after the other, under unused keys, both are made,
-- and the technician of the invoice loses the wage twice.
pub refund_twice :
    (one two now later technician : ℕ) (d e : AdjustmentDocument) (inv : InvoiceRow) (b : Books)
    → one ≢ two
    → lookup one b.adjustments ≡ some d
    → lookup two b.adjustments ≡ some e
    → is_approved d.status ≡ true
    → is_approved e.status ≡ true
    → is_full_refund d.document_type ≡ true
    → is_full_refund e.document_type ≡ true
    → e.company ≡ d.company
    → e.original_invoice ≡ d.original_invoice
    → find_invoice d.original_invoice b.invoices ≡ some inv
    → inv.technician ≡ some technician
    → latest_escrow d.company d.original_invoice b.escrows.rows ≡ none
    → IsValid b.escrows
    → has_key (Key.adjustment_wage one) b.ledger ≡ false
    → has_key (Key.adjustment_wage two) b.ledger ≡ false
    → (r s : RefundResult) × (mid out : Books) × (execute one now b ≡ ok (r, mid))
      × (execute two later mid ≡ ok (s, out))
      × (get_balance d.company technician out.ledger
          ≡ get_balance d.company technician b.ledger
            -ℤ pos inv.settled_technician_wage
            -ℤ pos inv.settled_technician_wage)
refund_twice one two now later technician d e inv b apart found also approved approved' full full'
      company invoice of whose gone valid free free' =
    let open_ : is_refundable b.snapshots
          (latest_escrow d.company d.original_invoice b.escrows.rows)
        ≡ true =
      rw gone refl in
    let (r, mid, ran, _, done) = refunds one now d inv b found approved of valid full open_ in
    let frame = done.frame in
    let id = find_invoice-id d.original_invoice b.invoices inv of in
    let same : done.escrows ≡ b.escrows =
      Closing-none d.company inv.invoice_id now b.escrows done.escrows done.closed done.closing
        (rw id gone) in
    let escrows : mid.escrows ≡ b.escrows = ◌∙◌ (ap (λ (x : Books). x.escrows) frame) same in
    let invoices : mid.invoices ≡ b.invoices = ap (λ (x : Books). x.invoices) frame in
    let ledger : mid.ledger ≡ ledger_after one inv d.company b.ledger =
      ap (λ (x : Books). x.ledger) frame in
    let there : lookup two mid.adjustments ≡ some e =
      ◌∙◌ (ap (λ (x : Books). lookup two x.adjustments) frame)
        (◌∙◌ (done.others two (λ q. apart (sym q))) also) in
    let of' : find_invoice e.original_invoice mid.invoices ≡ some inv = rw (invoice, invoices) of in
    let valid' : IsValid mid.escrows = rw escrows valid in
    let gone' : latest_escrow e.company e.original_invoice mid.escrows.rows ≡ none =
      rw (company, invoice, escrows) gone in
    let open' : is_refundable mid.snapshots
          (latest_escrow e.company e.original_invoice mid.escrows.rows)
        ≡ true =
      rw gone' refl in
    let (s, out, ran', _, done') =
      refunds two later e inv mid there approved' of' valid' full' open' in
    let kept : has_key (Key.adjustment_wage two) mid.ledger ≡ false =
      rw ledger (ledger_after-has_key one two d.company inv b.ledger (λ q. apart (sym q)) free') in
    let ours : (d.company == d.company && same_key inv.technician (some technician)) ≡ true =
      rw whose (ground arith) in
    let once : get_balance d.company technician mid.ledger
        ≡ get_balance d.company technician b.ledger -ℤ pos inv.settled_technician_wage =
      rw ledger (
        ◌∙◌ (ledger_after-get_balance d.company technician one d.company inv b.ledger free)
          (rw ours refl)) in
    let again : get_balance d.company technician out.ledger
        ≡ get_balance d.company technician mid.ledger -ℤ pos inv.settled_technician_wage =
      ◌∙◌ (ap (λ (x : Books). get_balance d.company technician x.ledger) done'.frame) (
        rw company (
          ◌∙◌ (ledger_after-get_balance d.company technician two d.company inv mid.ledger kept)
            (rw ours refl))) in
    (r, s, mid, out, ran, ran', ◌∙◌ again (ap (λ z. z -ℤ pos inv.settled_technician_wage) once))
