-- ===== src/Refunds/Tests.antt =====
-- The theorems on refunds at one company with a cash invoice and an online one.
use rasti_kiro_gpt.Common.{
  ℕ, ◌≡◌, refl, true, false, ◌&&◌, none, some, [], ◌∷◌, ◌==◌, same_key, arith, if◌then◌else◌,
}
use rasti_kiro_gpt.Common.Int.{pos, negsuc, ◌-ℤ◌, ◌+ℤ◌}
use rasti_kiro_gpt.Common.Table.{lookup, save}
use rasti_kiro_gpt.Common.Result.{ok, succeeds}
use rasti_kiro_gpt.Invoice.Status.{Status as InvoiceStatus}
use rasti_kiro_gpt.Payouts.Escrow.Defs.{
  Status as EscrowStatus, EscrowRecord, find_by_payment, close, update, close_row,
}
use rasti_kiro_gpt.Payouts.Escrow.Table.{IsValid}
use rasti_kiro_gpt.Payouts.Ledger.Entry.{
  EntryType, Source, Key, Entry, get_balance, credits, debits, has_key,
}
use rasti_kiro_gpt.Payouts.Ledger.Write.{
  create_debit, write_entry, create_entry, entry_for, balance_with,
}
use rasti_kiro_gpt.Payouts.Fees.{
  FeeKey, FeeEntry, fee_balance, has_fee, record_manual_credit, write_fee, fee_after, fee_sum,
}
use rasti_kiro_gpt.Settlement.Books.{
  DocumentType, DocumentStatus, AdjustmentDocument, InvoiceRow, Books, exists,
}
use rasti_kiro_gpt.Settlement.Calculator.{latest_escrow}
use rasti_kiro_gpt.Settlement.Planner.{claims_invoice, adjusts_invoice, is_unresolved_for}
use rasti_kiro_gpt.Settlement.Builder.{build_layer1}
use rasti_kiro_gpt.Settlement.Builder.Linked.{IsSound}
use rasti_kiro_gpt.Refunds.Documents.{mark_applied, change}
use rasti_kiro_gpt.Refunds.Execution.{
  RefundStatus, RefundResult, is_full_refund, find_invoice, find_fee_debit, execute,
  validate_safe_scope, was_split, reverse, reverse_platform_fee, reverse_technician_wage,
  close_escrow,
}
use rasti_kiro_gpt.Refunds.Machine.{Moves, call, applies, call-Moves}
use rasti_kiro_gpt.Refunds.Equivalence.{is_refundable, execute-succeeds}
use rasti_kiro_gpt.Refunds.Effects.{fee_charged, execute-balances}
use rasti_kiro_gpt.Refunds.Builds.{refund_stops_builds}
use rasti_kiro_gpt.Refunds.Twice.{refund_twice}

abbrev paid_invoice : ℕ → InvoiceRow
paid_invoice i = record {
  invoice_id = i;
  company = 1;
  status = InvoiceStatus.paid;
  total_amount = 1000;
  settled_technician_wage = 400;
  technician = some 7;
}

abbrev escrow : EscrowRecord
escrow = record {
  company = 1;
  payment = 30;
  invoice = some 10;
  amount_rial = 1000;
  platform_commission_rial = 50;
  organization_share_rial = 550;
  provider_share_rial = 400;
  status = EscrowStatus.distributed;
  distributed_at = some 5;
  settled_at = none;
  closed_at = none;
  settlement_batch = none;
}

abbrev refund_of : ℕ → AdjustmentDocument
refund_of invoice = record {
  company = 1;
  document_type = DocumentType.full_refund;
  status = DocumentStatus.approved;
  original_invoice = invoice;
  amount_rial = 1000;
  approved_by = some 2;
  approved_at = some 6;
  applied_at = none;
  technician_wage_reversal = none;
  platform_fee_reversal = none;
  company_share_reversal = none;
  technician_ledger_entry = none;
  platform_fee_entry = none;
}

abbrev fee_entry : FeeEntry
fee_entry = record {
  company = 1;
  entry_type = EntryType.debit;
  amount_rial = 50;
  idempotency_key = FeeKey.platform_fee 10;
  invoice = some 10;
  balance_after = pos 50;
}

-- Invoice 10 was paid online, invoice 11 in cash; document 0 refunds the first, 1 and 2 the second.
abbrev books : Books
books = record {
  invoices = paid_invoice 10 ∷ paid_invoice 11 ∷ [];
  technicians = [];
  escrows = record { rows = (0, escrow) ∷ []; next_pk = 1 };
  snapshots = [];
  ledger = [];
  fees = fee_entry ∷ [];
  adjustments = (0, refund_of 10) ∷ (1, refund_of 11) ∷ (2, refund_of 11) ∷ [];
  backfills = [];
  batches = [];
  items = [];
  next_batch = 0;
  next_item = 0;
  next_adjustment = 3;
}

escrows-IsValid : IsValid books.escrows
unfolding lookup find_by_payment
escrows-IsValid = (omega arith, refl, refl, ground arith, tt)

books-IsSound : IsSound books
unfolding lookup
books-IsSound = record {
  below = tt;
  fresh = λ k h. refl;
  escrows = escrows-IsValid;
  distinct = (refl, (refl, tt));
}

document_zero : lookup 0 books.adjustments ≡ some (refund_of 10)
unfolding lookup
document_zero = refl

document_one : lookup 1 books.adjustments ≡ some (refund_of 11)
unfolding lookup
document_one = refl

document_two : lookup 2 books.adjustments ≡ some (refund_of 11)
unfolding lookup
document_two = refl

online_invoice : find_invoice 10 books.invoices ≡ some (paid_invoice 10)
unfolding find_invoice
online_invoice = refl

cash_invoice : find_invoice 11 books.invoices ≡ some (paid_invoice 11)
unfolding find_invoice
cash_invoice = refl

online_escrow : latest_escrow 1 10 books.escrows.rows ≡ some (0, escrow)
unfolding latest_escrow
online_escrow = refl

cash_escrow : latest_escrow 1 11 books.escrows.rows ≡ none
unfolding latest_escrow
cash_escrow = refl

no_key : (pk : ℕ) → has_key (Key.adjustment_wage pk) books.ledger ≡ false
unfolding has_key
no_key pk = refl

no_fee : has_fee (FeeKey.adjustment 0) books.fees ≡ false
unfolding has_fee
no_fee = refl

execute-succeeds_example : succeeds (execute 0 50 books) ≡ (
    is_full_refund (refund_of 10).document_type
    && is_refundable books.snapshots (latest_escrow 1 10 books.escrows.rows))
execute-succeeds_example =
    execute-succeeds 0 50 (refund_of 10) (paid_invoice 10) books document_zero refl online_invoice
      escrows-IsValid

abbrev result : RefundResult
result = record {
  status = RefundStatus.applied;
  platform_fee_entry_created = true;
  technician_ledger_entry_created = true;
  escrow_closed = true;
}

abbrev wage_debit : Entry
wage_debit = record {
  request = record {
    company = 1;
    technician = 7;
    entry_type = EntryType.debit;
    source = Source.refund;
    amount_rial = 400;
    idempotency_key = Key.adjustment_wage 0;
    invoice = some 10;
    payment = none;
    order = none;
  };
  balance_after = negsuc 399;
}

abbrev refunded : Books
refunded = record books {
  escrows = record {
    rows = (0, record escrow { status = EscrowStatus.closed; closed_at = some 50 }) ∷ [];
    next_pk = 1;
  };
  ledger = wage_debit ∷ [];
  fees =
      record {
        company = 1;
        entry_type = EntryType.credit;
        amount_rial = 50;
        idempotency_key = FeeKey.adjustment 0;
        invoice = none;
        balance_after = pos 0;
      }
      ∷ fee_entry
      ∷ [];
  adjustments =
      (
        0,
        record (refund_of 10) {
          status = DocumentStatus.applied;
          applied_at = some 50;
          technician_wage_reversal = some (pos 400);
          platform_fee_reversal = some (pos 50);
          technician_ledger_entry = some (Key.adjustment_wage 0);
          platform_fee_entry = some (FeeKey.adjustment 0);
        },
      )
      ∷ (1, refund_of 11)
      ∷ (2, refund_of 11)
      ∷ [];
}

refunds_online : execute 0 50 books ≡ ok (result, refunded)
unfolding execute lookup save validate_safe_scope latest_escrow was_split find_invoice reverse
    close_escrow reverse_technician_wage create_debit write_entry has_key reverse_platform_fee
    find_fee_debit has_fee close update close_row mark_applied change fee_after fee_balance fee_sum
    record_manual_credit write_fee credits debits get_balance balance_with create_entry entry_for
    ◌+ℤ◌ ◌-ℤ◌
refunds_online = refl

execute-balances_example :
    (document : AdjustmentDocument) × (lookup 0 refunded.adjustments ≡ some document)
    × (document.status ≡ DocumentStatus.applied)
    × ((c t : ℕ)
        → get_balance c t refunded.ledger ≡ (
            if 1 == c && same_key (some 7) (some t)
            then get_balance c t books.ledger -ℤ pos 400
            else get_balance c t books.ledger))
    × ((c : ℕ)
        → fee_balance c refunded.fees ≡ (
            if 1 == c
            then fee_balance c books.fees -ℤ pos (fee_charged 1 (paid_invoice 10) books.fees)
            else fee_balance c books.fees))
execute-balances_example =
    execute-balances 0 50 (refund_of 10) (paid_invoice 10) books refunded result document_zero refl
      online_invoice escrows-IsValid refunds_online (no_key 0) no_fee

no_claim : exists (claims_invoice books.batches 1 10) books.items ≡ false
unfolding exists
no_claim = refl

no_adjustment : exists (adjusts_invoice 1 10) refunded.adjustments ≡ false
unfolding exists
no_adjustment = refl

no_backfill : exists (is_unresolved_for 1 10) books.backfills ≡ false
unfolding exists
no_backfill = refl

refund_stops_builds_example : succeeds (build_layer1 1 60 70 refunded) ≡ false
refund_stops_builds_example =
    refund_stops_builds 0 50 0 (refund_of 10) (paid_invoice 10) escrow books refunded result 60 70
      books-IsSound document_zero refl online_invoice refl refl online_escrow refl no_claim
      refunds_online no_adjustment no_backfill

refund_twice_example :
    (r s : RefundResult) × (mid out : Books) × (execute 1 50 books ≡ ok (r, mid))
    × (execute 2 60 mid ≡ ok (s, out))
    × (get_balance 1 7 out.ledger ≡ get_balance 1 7 books.ledger -ℤ pos 400 -ℤ pos 400)
refund_twice_example =
    refund_twice 1 2 50 60 7 (refund_of 11) (refund_of 11) (paid_invoice 11) books (ground arith)
      document_one document_two refl refl refl refl refl refl cash_invoice refl cash_escrow
      escrows-IsValid (no_key 1) (no_key 2)

abbrev marked : Books
marked = record books {
  adjustments =
      (0, record (refund_of 10) { status = DocumentStatus.applied; applied_at = some 50 })
      ∷ (1, refund_of 11)
      ∷ (2, refund_of 11)
      ∷ [];
}

marks : call (applies 50) 0 books ≡ ok marked
unfolding call mark_applied change lookup save
marks = refl

call-Moves_example : Moves 0 books marked
call-Moves_example = call-Moves (applies 50) 0 books marked marks
