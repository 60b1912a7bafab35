-- ===== src/Payments/Expiration.antt =====
-- `PaymentExpirationService` of apps/payments/services_expiration.py. A company is given by its key.
-- The query runs before the loop, and each payment is locked and read again in a transaction of its
-- own, so that the rows of the query may be older than the rows in the table.
use rasti_kiro_gpt.Common.{
  ℕ, zero, suc, ◌+◌, ◌*◌, Bool, true, false, not, ◌&&◌, Option, none, some, [], ◌∷◌, ◌==◌, ltb,
  is_some, if◌then◌else◌,
}
use rasti_kiro_gpt.Common.Table.{Table, lookup}
use rasti_kiro_gpt.Common.Result.{Result, ok, ◌>>=◌, or_raise}
use rasti_kiro_gpt.Invoice.MarkPaid.Defs.{Error, does_not_exist}
use rasti_kiro_gpt.Payments.Defs.{Status, PaymentRow, Bank, is_paid, set_status}
use rasti_kiro_gpt.Payments.Reconciliation.{of_company}

-- PENDING or INITIATED
abbrev pub is_waiting : Status → Bool
is_waiting Status.initiated = true
is_waiting Status.pending = true
is_waiting _ = false

-- `minutes or PAYMENT_EXPIRATION_MINUTES`, with the default of that setting
abbrev pub threshold_minutes : Option ℕ → ℕ
threshold_minutes none = 30
threshold_minutes (some minutes) = if minutes == 0 then 30 else minutes

-- The filter of the query; `now - timedelta` is compared on the other side.
abbrev pub is_old : ℕ → Option ℕ → Option ℕ → PaymentRow → Bool
is_old now minutes company p =
    is_waiting p.status
    && ltb (p.created_at + 60 * threshold_minutes minutes) now
    && is_some p.gateway
    && of_company company p.company

-- `order_by("created_at")`
unfoldable pub insert_by_age : ℕ × PaymentRow → Table PaymentRow → Table PaymentRow
insert_by_age x [] = x ∷ []
insert_by_age x (y ∷ rows) =
    let rest = insert_by_age x rows in
    if ltb y.1.created_at x.1.created_at then y ∷ rest else x ∷ y ∷ rows

unfoldable pub old_payments : ℕ → Option ℕ → Option ℕ → Table PaymentRow → Table PaymentRow
old_payments now minutes company [] = []
old_payments now minutes company ((pk, p) ∷ payments) =
    let rest = old_payments now minutes company payments in
    if is_old now minutes company p then insert_by_age (pk, p) rest else rest

unfoldable pub take : ℕ → Table PaymentRow → Table PaymentRow
take n [] = []
take zero (x ∷ rows) = []
take (suc n) (x ∷ rows) = x ∷ take n rows

-- The counts of the result.
pub record Counts : Type 0 where
  pub scanned : ℕ
  pub expired : ℕ
  pub skipped_paid : ℕ
  pub skipped_no_gateway : ℕ

abbrev pub no_counts : Counts
no_counts = record { scanned = 0; expired = 0; skipped_paid = 0; skipped_no_gateway = 0 }

-- The locked part, for the key of a row
unfoldable pub expire_locked : ℕ → Counts → Bank → Result Error (Counts × Bank)
expire_locked pk c b = do
  locked ← or_raise (lookup pk b.payments) does_not_exist
  if is_paid locked.status
      then ok (record c { skipped_paid = suc c.skipped_paid }, b)
      else if not (is_waiting locked.status)
      then ok (c, b)
      else ok
          (record c { expired = suc c.expired }, set_status pk locked Status.needs_reconciliation b)

-- One row of the query
unfoldable pub expire_row : Bool → ℕ × PaymentRow → Counts → Bank → Result Error (Counts × Bank)
expire_row dry_run (pk, p) counts b =
    let c = record counts { scanned = suc counts.scanned } in
    if is_paid p.status
    then ok (record c { skipped_paid = suc c.skipped_paid }, b)
    else if not (is_some p.gateway)
    then ok (record c { skipped_no_gateway = suc c.skipped_no_gateway }, b)
    else if dry_run
    then ok (record c { expired = suc c.expired }, b)
    else expire_locked pk c b

unfoldable pub expire_rows : Bool → Table PaymentRow → Counts → Bank → Result Error (Counts × Bank)
expire_rows dry_run [] c b = ok (c, b)
expire_rows dry_run (row ∷ rows) c b = do
  step ← expire_row dry_run row c b
  expire_rows dry_run rows step.0 step.1

-- `expire_old_pending_payments`
unfoldable pub expire_old_pending_payments :
    ℕ → Option ℕ → Option ℕ → ℕ → Bool → Bank → Result Error (Counts × Bank)
expire_old_pending_payments now minutes company limit dry_run b =
    expire_rows dry_run (take limit (old_payments now minutes company b.payments)) no_counts b
