-- ===== src/Refunds/Effects.antt =====
-- The balances after a refund, and a refund that is executed again.
use rasti_kiro_gpt.Common.{
  ℕ, ◌≡◌, refl, sym, ap, ◌∙◌, true, false, ◌&&◌, none, some, ◌==◌, same_key, if◌then◌else◌, arith,
  Bool-cases, Option-cases, inl, inr,
}
use rasti_kiro_gpt.Common.Int.{ℤ, pos, ◌-ℤ◌, int_laws}
use rasti_kiro_gpt.Common.Table.{lookup}
use rasti_kiro_gpt.Common.Result.{ok, succeeds, ok_pair}
use rasti_kiro_gpt.Payouts.Escrow.Table.{IsValid}
use rasti_kiro_gpt.Payouts.Ledger.Entry.{Key, Ledger, get_balance, has_key}
use rasti_kiro_gpt.Payouts.Ledger.Write.{create_debit, balance_with}
use rasti_kiro_gpt.Payouts.Ledger.Balance.{get_balance-write_entry}
use rasti_kiro_gpt.Payouts.Fees.{
  FeeKey, Fees, fee_balance, has_fee, record_manual_credit, fee_balance_after, fee_after,
}
use rasti_kiro_gpt.Settlement.Books.{
  DocumentStatus, AdjustmentDocument, InvoiceRow, Books, is_applied,
}
use rasti_kiro_gpt.Refunds.Documents.{is_approved}
use rasti_kiro_gpt.Refunds.Execution.{
  RefundStatus, RefundResult, is_full_refund, find_fee_debit, find_invoice, wage_refund, execute,
  nothing_refunded,
}
use rasti_kiro_gpt.Refunds.Reversal.{fees_after, ledger_after}
use rasti_kiro_gpt.Refunds.Refunded.{Refunded}
use rasti_kiro_gpt.Refunds.Equivalence.{is_refundable, newest, refunds, execute-succeeds}

minus_nothing : (a : ℤ) (n : ℕ) → n ≡ 0 → a -ℤ pos n ≡ a
minus_nothing a n h = grind int_laws

pub ledger_after-get_balance :
    (c t pk company : ℕ) (inv : InvoiceRow) (l : Ledger)
    → has_key (Key.adjustment_wage pk) l ≡ false
    → get_balance c t (ledger_after pk inv company l) ≡ (
        if company == c && same_key inv.technician (some t)
        then get_balance c t l -ℤ pos inv.settled_technician_wage
        else get_balance c t l)
unfolding ledger_after create_debit balance_with
ledger_after-get_balance c t pk company inv l h =
    elim (Bool-cases (inv.settled_technician_wage == 0)) [
      | inl nothing ↦
          let zero : inv.settled_technician_wage ≡ 0 = ground arith in
          let same = minus_nothing (get_balance c t l) inv.settled_technician_wage zero in
          rw nothing (ground (arith, same))
      | inr some_wage ↦ elim (Option-cases inv.technician) [
        | inl e ↦ rw (some_wage, e, ledger_after) (ground arith)
        | inr (technician, e) ↦
            rw (some_wage, e, ledger_after)
              (◌∙◌ (get_balance-write_entry c t (wage_refund pk inv company technician) l)
                (rw h refl))
      ]
    ]

-- What the company was charged for the invoice.
unfoldable pub fee_charged : ℕ → InvoiceRow → Fees → ℕ
fee_charged company inv fees = elim (find_fee_debit company inv.invoice_id fees) [
  | none ↦ 0
  | some original ↦ original.amount_rial
]

pub fees_after-fee_balance :
    (c pk company : ℕ) (inv : InvoiceRow) (fees : Fees)
    → has_fee (FeeKey.adjustment pk) fees ≡ false
    → fee_balance c (fees_after pk inv company fees) ≡ (
        if company == c
        then fee_balance c fees -ℤ pos (fee_charged company inv fees)
        else fee_balance c fees)
unfolding fees_after fee_charged record_manual_credit fee_after
fees_after-fee_balance c pk company inv fees h =
    elim (Option-cases (find_fee_debit company inv.invoice_id fees)) [
      | inl e ↦
          rw (e, fees_after, fee_charged)
            (ground (arith, minus_nothing (fee_balance c fees) 0 refl))
      | inr (original, e) ↦
          rw (e, fees_after, fee_charged)
            (fee_balance_after c company original.amount_rial _ (FeeKey.adjustment pk) none fees h)
    ]

module _ (pk now : ℕ) (d : AdjustmentDocument) (inv : InvoiceRow) (b out : Books) (r : RefundResult)
    (found : lookup pk b.adjustments ≡ some d) (approved : is_approved d.status ≡ true)
    (of : find_invoice d.original_invoice b.invoices ≡ some inv) (valid : IsValid b.escrows)
    (ran : execute pk now b ≡ ok (r, out)) where
  pub execute-Refunded : (r.status ≡ RefundStatus.applied) × Refunded pk now d inv b out
  execute-Refunded =
      let passes : (is_full_refund d.document_type
            && is_refundable b.snapshots (newest pk now d inv b found approved of valid))
          ≡ true =
        ◌∙◌ (sym (execute-succeeds pk now d inv b found approved of valid)) (ap succeeds ran) in
      let (r', out', ran', status, done) =
        refunds pk now d inv b found approved of valid (ground arith) (ground arith) in
      let (e, f) = ok_pair (◌∙◌ (sym ran') ran) in
      (◌∙◌ (ap (λ (x : RefundResult). x.status) (sym e)) status, rw f at done)

  -- The refund of an APPROVED document that is made, with keys that are not in the ledgers yet: the
  -- document is APPLIED, the technician of the invoice loses the settled wage and nobody else
  -- anything, and the company owes the platform what it was charged for the invoice less than before.
  pub execute-balances :
      has_key (Key.adjustment_wage pk) b.ledger ≡ false
      → has_fee (FeeKey.adjustment pk) b.fees ≡ false
      → (document : AdjustmentDocument) × (lookup pk out.adjustments ≡ some document)
        × (document.status ≡ DocumentStatus.applied)
        × ((c t : ℕ)
            → get_balance c t out.ledger ≡ (
                if d.company == c && same_key inv.technician (some t)
                then get_balance c t b.ledger -ℤ pos inv.settled_technician_wage
                else get_balance c t b.ledger))
        × ((c : ℕ)
            → fee_balance c out.fees ≡ (
                if d.company == c
                then fee_balance c b.fees -ℤ pos (fee_charged d.company inv b.fees)
                else fee_balance c b.fees))
  execute-balances free unused =
      let done = execute-Refunded.1 in
      (
        done.document,
        ◌∙◌ (ap (λ (x : Books). lookup pk x.adjustments) done.frame) done.stored,
        done.applied,
        λ c t. rw done.frame (ledger_after-get_balance c t pk d.company inv b.ledger free),
        λ c. rw done.frame (fees_after-fee_balance c pk d.company inv b.fees unused),
      )

  -- Executed once more, the document changes nothing and reports that it was applied before.
  pub execute_again : (later : ℕ) → execute pk later out ≡ ok (nothing_refunded, out)
  unfolding execute
  execute_again later =
      let done = execute-Refunded.1 in
      let there : lookup pk out.adjustments ≡ some done.document =
        ◌∙◌ (ap (λ (x : Books). lookup pk x.adjustments) done.frame) done.stored in
      let over : is_applied done.document.status ≡ true = rw done.applied refl in
      rw (there, over) refl
