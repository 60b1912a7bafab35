-- ===== src/Payouts/Ledger/Invoices.antt =====
-- The entries of a paid invoice.
use rasti_kiro_gpt.Common.{
  ℕ, ◌<◌, ◌≡◌, refl, Bool, true, false, ◌&&◌, Option, some, [], ◌==◌, ltb, leb, if◌then◌else◌,
  arith, Bool-cases, Option-cases, inl, inr,
}
use rasti_kiro_gpt.Common.Int.{pos, ◌+ℤ◌, ◌-ℤ◌, int_laws}
use rasti_kiro_gpt.Payouts.Ledger.Entry.{
  Key, Request, Ledger, get_balance, has_key, same_idempotency_key,
}
use rasti_kiro_gpt.Payouts.Ledger.Write.{
  balance_with, write_entry, create_credit, create_debit, InvoiceInfo, PaymentInfo,
  create_invoice_entries, invoice_entries_for, payment_collected_by_technician, wage_request,
  cash_request, credit_source,
}
use rasti_kiro_gpt.Payouts.Ledger.Balance.{
  IsValid, write_entry-IsValid, has_key-write_entry, has_key-write_entry_mono,
  has_key-write_entry_ne, write_entry_again, get_balance-write_entry,
}

-- The two calls of `invoice_entries_for`, with `write_entry` in place of its wrappers.
module _ (inv : InvoiceInfo) (t : ℕ) (p : Option PaymentInfo) where
  abbrev credit_of : Request
  credit_of = wage_request inv t (credit_source inv p) p

  abbrev debit_of : Request
  debit_of = cash_request inv t p

  pub takes_cash : Bool
  takes_cash = payment_collected_by_technician p && ltb 0 inv.total_amount

  after_entries : Ledger → Ledger
  after_entries l =
      if takes_cash
      then (write_entry debit_of (write_entry credit_of l).1).1
      else (write_entry credit_of l).1

  entries-ledger : (l : Ledger) → (invoice_entries_for inv t p l).1 ≡ after_entries l
  unfolding invoice_entries_for create_credit create_debit takes_cash after_entries
  entries-ledger l = ground arith

  entries_known :
      (l : Ledger)
      → has_key credit_of.idempotency_key l ≡ true
      → (takes_cash ≡ true → has_key debit_of.idempotency_key l ≡ true)
      → invoice_entries_for inv t p l ≡ ([], l)
  unfolding invoice_entries_for create_credit create_debit takes_cash
  entries_known l hc hd =
      ground (arith, hd, write_entry_again credit_of l hc, write_entry_again debit_of l)

  entries_again :
      (l : Ledger)
      → invoice_entries_for inv t p (invoice_entries_for inv t p l).1
        ≡ ([], (invoice_entries_for inv t p l).1)
  unfolding after_entries
  entries_again l = rw (entries-ledger l) (
      entries_known (after_entries l)
        (ground (
          arith,
          has_key-write_entry credit_of l,
          has_key-write_entry_mono credit_of.idempotency_key debit_of (write_entry credit_of l).1,
        ))
        (λ h. ground (arith, has_key-write_entry debit_of (write_entry credit_of l).1)))

  entries-IsValid : (l : Ledger) → IsValid l → IsValid (invoice_entries_for inv t p l).1
  unfolding after_entries
  entries-IsValid l v =
      let first = write_entry-IsValid credit_of l v in
      rw (entries-ledger l)
        (ground (arith, first, write_entry-IsValid debit_of (write_entry credit_of l).1 first))

  entries-balance :
      (c o : ℕ) (l : Ledger)
      → has_key credit_of.idempotency_key l ≡ false
      → has_key debit_of.idempotency_key l ≡ false
      → get_balance c o (invoice_entries_for inv t p l).1 ≡ (
          if inv.company == c && t == o
          then get_balance c o l
            +ℤ pos inv.settled_technician_wage
            -ℤ pos (if payment_collected_by_technician p then inv.total_amount else 0)
          else get_balance c o l)
  unfolding after_entries takes_cash balance_with
  entries-balance c o l hc hd = rw (entries-ledger l) (
      grind (
        int_laws,
        get_balance-write_entry c o credit_of l,
        get_balance-write_entry c o debit_of (write_entry credit_of l).1,
        has_key-write_entry_ne debit_of.idempotency_key credit_of l refl,
      ))

  entries-other_keys :
      (k : Key) (l : Ledger)
      → same_idempotency_key k credit_of.idempotency_key ≡ false
      → same_idempotency_key k debit_of.idempotency_key ≡ false
      → has_key k (invoice_entries_for inv t p l).1 ≡ has_key k l
  unfolding after_entries
  entries-other_keys k l hc hd = rw (entries-ledger l) (
      ground (
        arith,
        has_key-write_entry_ne k credit_of l hc,
        has_key-write_entry_ne k debit_of (write_entry credit_of l).1 hd,
      ))

-- Posting the entries of an invoice a second time, to whatever the first posting left, creates
-- nothing and changes nothing.
pub create_invoice_entries_again :
    (inv : InvoiceInfo) (p : Option PaymentInfo) (l : Ledger)
    → create_invoice_entries inv p (create_invoice_entries inv p l).1
      ≡ ([], (create_invoice_entries inv p l).1)
unfolding create_invoice_entries
create_invoice_entries_again inv p l = elim (Option-cases inv.technician) [
  | inl e ↦ ground arith
  | inr (t, e) ↦ elim (Bool-cases (leb inv.settled_technician_wage 0)) [
    | inl z ↦ ground arith
    | inr z ↦ ground (arith, entries_again inv t p l)
  ]
]

-- Every posting keeps the keys unique and the running balances right.
pub create_invoice_entries-IsValid :
    (inv : InvoiceInfo) (p : Option PaymentInfo) (l : Ledger)
    → IsValid l
    → IsValid (create_invoice_entries inv p l).1
unfolding create_invoice_entries
create_invoice_entries-IsValid inv p l v = elim (Option-cases inv.technician) [
  | inl e ↦ ground arith
  | inr (t, e) ↦ ground (arith, entries-IsValid inv t p l v)
]

-- The first posting for an invoice credits its technician with the wage and, if the technician took
-- the cash, debits the invoice's total; no other balance moves.
pub create_invoice_entries-balance :
    (inv : InvoiceInfo) (p : Option PaymentInfo) (t c o : ℕ) (l : Ledger)
    → inv.technician ≡ some t
    → 0 < inv.settled_technician_wage
    → has_key (Key.technician_credit inv.invoice_id) l ≡ false
    → has_key (Key.cash_received_by_technician inv.invoice_id) l ≡ false
    → get_balance c o (create_invoice_entries inv p l).1 ≡ (
        if inv.company == c && t == o
        then get_balance c o l
          +ℤ pos inv.settled_technician_wage
          -ℤ pos (if payment_collected_by_technician p then inv.total_amount else 0)
        else get_balance c o l)
unfolding create_invoice_entries
create_invoice_entries-balance inv p t c o l e w hc hd =
    ground (arith, entries-balance inv t p c o l hc hd)

-- Whatever the wage: without one, nothing is posted, the cash that the technician took included.
pub create_invoice_entries-balance_any :
    (inv : InvoiceInfo) (p : Option PaymentInfo) (t c o : ℕ) (l : Ledger)
    → inv.technician ≡ some t
    → has_key (Key.technician_credit inv.invoice_id) l ≡ false
    → has_key (Key.cash_received_by_technician inv.invoice_id) l ≡ false
    → get_balance c o (create_invoice_entries inv p l).1 ≡ (
        if inv.company == c && t == o && ltb 0 inv.settled_technician_wage
        then get_balance c o l
          +ℤ pos inv.settled_technician_wage
          -ℤ pos (if payment_collected_by_technician p then inv.total_amount else 0)
        else get_balance c o l)
unfolding create_invoice_entries
create_invoice_entries-balance_any inv p t c o l e hc hd =
    ground (arith, entries-balance inv t p c o l hc hd)

-- No other key comes into the ledger.
pub create_invoice_entries-other_keys :
    (inv : InvoiceInfo) (p : Option PaymentInfo) (k : Key) (l : Ledger)
    → same_idempotency_key k (Key.technician_credit inv.invoice_id) ≡ false
    → same_idempotency_key k (Key.cash_received_by_technician inv.invoice_id) ≡ false
    → has_key k (create_invoice_entries inv p l).1 ≡ has_key k l
unfolding create_invoice_entries
create_invoice_entries-other_keys inv p k l hc hd = elim (Option-cases inv.technician) [
  | inl e ↦ ground arith
  | inr (t, e) ↦ ground (arith, entries-other_keys inv t p k l hc hd)
]
