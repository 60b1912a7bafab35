-- ===== src/Payouts/Ledger/Write.antt =====
-- The writes of `TechnicianLedgerService`.
use rasti_kiro_gpt.Common.{
  ℕ, ◌+◌, Bool, false, ◌&&◌, ◌||◌, Option, none, some, List, [], ◌∷◌, ◌++◌, ◌==◌, ltb, leb, map,
  if◌then◌else◌,
}
use rasti_kiro_gpt.Common.Int.{ℤ, pos, ◌+ℤ◌, ◌-ℤ◌, ltb_ℤ, pos_part}
use rasti_kiro_gpt.Common.Result.{Result, ok, err, ◌>>=◌}
use rasti_kiro_gpt.Common.Text.{strip, same_text, codes}
use rasti_kiro_gpt.Payouts.Ledger.Entry.{
  EntryType, Source, Key, Request, Entry, Ledger, is_credit, get_balance, has_key, find_key,
}

-- The balance after an entry that changes `balance` as `r` asks.
unfoldable pub balance_with : Request → ℤ → ℤ
balance_with r balance =
    if is_credit r.entry_type then balance +ℤ pos r.amount_rial else balance -ℤ pos r.amount_rial

unfoldable pub entry_for : Request → ℤ → Entry
unfolding balance_with
entry_for r balance = record { request = r; balance_after = balance_with r balance }

-- The insert in its savepoint. If another writer has committed the key since it was checked, the
-- unique column refuses the row, and the row that is there is returned.
unfoldable pub create_entry : Request → ℤ → Ledger → Option Entry × Ledger
unfolding entry_for find_key
create_entry r balance l =
    if has_key r.idempotency_key l
    then (find_key r.idempotency_key l, l)
    else let e = entry_for r balance in (some e, e ∷ l)

-- `_write_entry` where no other writer comes between the check of the key and the insert: the entry
-- that it creates, or `none` if the key is there, and the ledger.
unfoldable pub write_entry : Request → Ledger → Option Entry × Ledger
unfolding create_entry
write_entry r l =
    if has_key r.idempotency_key l
    then (none, l)
    else create_entry r (get_balance r.company r.technician l) l

-- `create_credit` and `create_debit`
unfoldable pub create_credit : Request → Ledger → Option Entry × Ledger
create_credit r = write_entry (record r { entry_type = EntryType.credit })

unfoldable pub create_debit : Request → Ledger → Option Entry × Ledger
create_debit r = write_entry (record r { entry_type = EntryType.debit })

-- `created_entries.append(entry)` if there is one
abbrev pub to_list {ℓ} : {A : Type ℓ} → Option A → List A
to_list none = []
to_list (some a) = a ∷ []

-- What the ledger reads of a payment's metadata: whether `payment_source` is
-- "CASH_RECEIVED_BY_TECHNICIAN", and whether there is a `technician_id`.
pub record PaymentInfo : Type 0 where
  pub payment_id : ℕ
  pub cash_received : Bool
  pub technician_id : Option ℕ

abbrev pub given : Option ℕ → Bool
given none = false
given (some n) = ltb 0 n

-- `_payment_collected_by_technician`
unfoldable pub payment_collected_by_technician : Option PaymentInfo → Bool
payment_collected_by_technician none = false
payment_collected_by_technician (some p) = p.cash_received || given p.technician_id

-- What the ledger reads of a paid invoice; `technician` is that of its order.
pub record InvoiceInfo : Type 0 where
  pub invoice_id : ℕ
  pub company : ℕ
  pub order : Option ℕ
  pub technician : Option ℕ
  pub settled_technician_wage : ℕ
  pub settled_payment_method : List ℕ
  pub total_amount : ℕ

-- `str.lower` of one code point, as far as its result can be an ASCII letter.
abbrev pub lower : ℕ → ℕ
lower c = if leb b'A' c && leb c b'Z' then c + 32 else if c == 0x212a then b'k' else c

-- `_ONLINE_GATEWAY_TYPES`
unfoldable pub is_online_type : List ℕ → Bool
unfolding same_text
is_online_type m =
    same_text m (codes "zarinpal")
    || same_text m (codes "idpay")
    || same_text m (codes "nextpay")
    || same_text m (codes "fake")

unfoldable pub is_online : InvoiceInfo → Bool
unfolding is_online_type strip
is_online inv = is_online_type (strip (map lower inv.settled_payment_method))

unfoldable pub credit_source : InvoiceInfo → Option PaymentInfo → Source
unfolding is_online payment_collected_by_technician
credit_source inv payment =
    if is_online inv
    then Source.online_gateway
    else if payment_collected_by_technician payment
    then Source.cash_from_customer
    else Source.manual_payment

abbrev pub payment_key : Option PaymentInfo → Option ℕ
payment_key none = none
payment_key (some p) = some p.payment_id

abbrev pub wage_request : InvoiceInfo → ℕ → Source → Option PaymentInfo → Request
wage_request inv technician source payment = record {
  company = inv.company;
  technician = technician;
  entry_type = EntryType.credit;
  source = source;
  amount_rial = inv.settled_technician_wage;
  idempotency_key = Key.technician_credit inv.invoice_id;
  invoice = some inv.invoice_id;
  payment = payment_key payment;
  order = inv.order;
}

abbrev pub cash_request : InvoiceInfo → ℕ → Option PaymentInfo → Request
cash_request inv technician payment = record {
  company = inv.company;
  technician = technician;
  entry_type = EntryType.debit;
  source = Source.cash_from_customer;
  amount_rial = inv.total_amount;
  idempotency_key = Key.cash_received_by_technician inv.invoice_id;
  invoice = some inv.invoice_id;
  payment = payment_key payment;
  order = inv.order;
}

unfoldable pub invoice_entries_for :
    InvoiceInfo → ℕ → Option PaymentInfo → Ledger → List Entry × Ledger
invoice_entries_for inv technician payment l =
    let (entry, l') =
      create_credit (wage_request inv technician (credit_source inv payment) payment) l in
    if payment_collected_by_technician payment && ltb 0 inv.total_amount
    then (let (debit_entry, l'') = create_debit (cash_request inv technician payment) l' in
        (to_list entry ++ to_list debit_entry, l''))
    else (to_list entry, l')

-- `TechnicianLedgerService.create_invoice_entries`
unfoldable pub create_invoice_entries :
    InvoiceInfo → Option PaymentInfo → Ledger → List Entry × Ledger
create_invoice_entries inv payment l = elim inv.technician [
  | none ↦ ([], l)
  | some technician ↦
      if leb inv.settled_technician_wage 0
      then ([], l)
      else invoice_entries_for inv technician payment l
]

-- The directions of a manual settlement; `unknown` is any other text.
pub data Direction : Type 0 where
  company_paid_technician technician_paid_company : Direction
  adjustment_credit adjustment_debit unknown : Direction

-- `ValueError`s of the service.
pub data Error : Type 0 where
  amount_must_be_positive unknown_direction : Error

abbrev pub direction_type : Direction → Result Error EntryType
direction_type Direction.company_paid_technician = ok EntryType.debit
direction_type Direction.technician_paid_company = ok EntryType.credit
direction_type Direction.adjustment_credit = ok EntryType.credit
direction_type Direction.adjustment_debit = ok EntryType.debit
direction_type Direction.unknown = err Error.unknown_direction

abbrev pub direction_source : Direction → Source
direction_source Direction.adjustment_credit = Source.adjustment
direction_source Direction.adjustment_debit = Source.adjustment
direction_source _ = Source.manual_settlement

abbrev pub key_or_fresh : Option Key → ℕ → Key
key_or_fresh none fresh = Key.other fresh
key_or_fresh (some key) _ = key

abbrev pub manual_request : ℕ → ℕ → ℤ → Direction → EntryType → Key → Request
manual_request company technician amount direction entry_type key = record {
  company = company;
  technician = technician;
  entry_type = entry_type;
  source = direction_source direction;
  amount_rial = pos_part amount;
  idempotency_key = key;
  invoice = none;
  payment = none;
  order = none;
}

-- `TechnicianLedgerService.record_manual_settlement`. `fresh` numbers the key made from a new uuid,
-- which serves when the caller gives none.
unfoldable pub record_manual_settlement :
    ℕ → ℕ → ℤ → Direction → Option Key → ℕ → Ledger → Result Error (Option Entry × Ledger)
record_manual_settlement company technician amount direction key fresh l =
    if ltb_ℤ amount (pos 1) then err Error.amount_must_be_positive else do
      entry_type ← direction_type direction
      let request =
          manual_request company technician amount direction entry_type (key_or_fresh key fresh)
      ok (write_entry request l)
