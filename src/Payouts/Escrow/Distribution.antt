-- ===== src/Payouts/Escrow/Distribution.antt =====
-- `reserve_and_distribute_escrow_for_invoice` of apps/invoices/services.py, with
-- `PlatformFeeService.compute_fee_for_invoice`. It runs in savepoints whose effects stay when a
-- later step raises, so it returns the table in both cases.
use rasti_kiro_gpt.Common.{
  ℕ, ◌+◌, ◌-◌, ◌*◌, ◌/◌, ◌≤◌, ◌<◌, ◌≡◌, ◌≢◌, refl, not, Option, none, some, ◌==◌, ltb, arith,
  if◌then◌else◌,
}
use rasti_kiro_gpt.Common.Table.{lookup, save}
use rasti_kiro_gpt.Common.Result.{Result, ok, err}
use rasti_kiro_gpt.Payouts.Escrow.Defs.{
  Status, EscrowRecord, Error, Escrows, update, find_by_payment, reserve_for_invoice,
  mark_distributed, reserve, distribute, is_held, is_reserved, value_error,
}
use rasti_kiro_gpt.Payouts.Escrow.Machine.{reserves, call}
use rasti_kiro_gpt.Payouts.Escrow.Table.{IsValid, find-lookup, find-save, update-IsValid}

-- What is read of the invoice and of its company's policy.
pub record InvoiceInfo : Type 0 where
  pub invoice_id : ℕ
  pub total_amount : ℕ
  pub settled_technician_wage : ℕ
  pub platform_fee_percent : ℕ

-- `int(total_amount * fee_pct / 100)`, and 0 without a percentage
unfoldable pub compute_fee_for_invoice : InvoiceInfo → ℕ
compute_fee_for_invoice inv =
    if inv.platform_fee_percent == 0 then 0 else inv.total_amount * inv.platform_fee_percent / 10000

abbrev pub Outcome : Type 0
Outcome = Result Error (Unit {0}) × Escrows

-- The outcome of a call in its savepoint, on a table that it leaves alone if it raises.
abbrev pub saved : Escrows → Result Error (EscrowRecord × Escrows) → Outcome
saved db (ok (_, db')) = (ok tt, db')
saved db (err e) = (err e, db)

-- RESERVED -> DISTRIBUTED, the organization taking what commission and provider leave.
unfoldable pub distribute_reserved : InvoiceInfo → ℕ → ℕ → EscrowRecord → Escrows → Outcome
distribute_reserved inv now pk e db =
    let commission = compute_fee_for_invoice inv in
    let provider = inv.settled_technician_wage in
    if not (is_reserved e.status)
    then (ok tt, db)
    else if ltb e.amount_rial (commission + provider)
    then (err value_error, db)
    else saved db
        (mark_distributed pk commission (e.amount_rial - commission - provider) provider now db)

unfoldable pub reserve_then_distribute : InvoiceInfo → ℕ → ℕ → EscrowRecord → Escrows → Outcome
reserve_then_distribute inv now pk e db =
    if is_held e.status
    then elim (reserve_for_invoice pk inv.invoice_id db) [
      | ok (reserved, db') ↦ distribute_reserved inv now pk reserved db'
      | err x ↦ (err x, db)
    ]
    else distribute_reserved inv now pk e db

-- `reserve_and_distribute_escrow_for_invoice(invoice, payment)`
unfoldable pub reserve_and_distribute : InvoiceInfo → Option ℕ → ℕ → Escrows → Outcome
reserve_and_distribute inv none now db = (ok tt, db)
reserve_and_distribute inv (some payment) now db = elim (find_by_payment payment db.rows) [
  | none ↦ (ok tt, db)
  | some (pk, e) ↦ reserve_then_distribute inv now pk e db
]

module _ (inv : InvoiceInfo) (now pk : ℕ) where
  abbrev reserved_row : EscrowRecord → EscrowRecord
  reserved_row e = record e { invoice = some inv.invoice_id; status = Status.reserved }

  abbrev distributed_row : EscrowRecord → EscrowRecord
  distributed_row e = record e {
    platform_commission_rial = compute_fee_for_invoice inv;
    organization_share_rial =
        e.amount_rial - compute_fee_for_invoice inv - inv.settled_technician_wage;
    provider_share_rial = inv.settled_technician_wage;
    status = Status.distributed;
    distributed_at = some now;
  }

  abbrev with_row : EscrowRecord → Escrows → Escrows
  with_row e db = record db { rows = save pk e db.rows }

  reserve_held :
      (e : EscrowRecord) (db : Escrows)
      → lookup pk db.rows ≡ some e
      → e.status ≡ Status.held
      → reserve_for_invoice pk inv.invoice_id db ≡ ok (reserved_row e, with_row (reserved_row e) db)
  unfolding reserve_for_invoice update reserve
  reserve_held e db l h = ground arith

  distribute_fits :
      (e : EscrowRecord) (db : Escrows)
      → lookup pk db.rows ≡ some e
      → e.status ≡ Status.reserved
      → compute_fee_for_invoice inv + inv.settled_technician_wage ≤ e.amount_rial
      → distribute_reserved inv now pk e db ≡ (ok tt, with_row (distributed_row e) db)
  unfolding distribute_reserved mark_distributed update distribute
  distribute_fits e db l h le = ground arith

  distribute_overflows :
      (e : EscrowRecord) (db : Escrows)
      → e.status ≡ Status.reserved
      → e.amount_rial < compute_fee_for_invoice inv + inv.settled_technician_wage
      → distribute_reserved inv now pk e db ≡ (err value_error, db)
  unfolding distribute_reserved
  distribute_overflows e db h lt = ground arith

  -- The record of a payment that is held in full: its row, in a valid table.
  pub record IsHeldFor (payment : ℕ) (e : EscrowRecord) (db : Escrows) : Type 0 where
    pub valid : IsValid db
    pub found : find_by_payment payment db.rows ≡ some (pk, e)
    pub held : e.status ≡ Status.held

  reserved_again :
      (payment : ℕ) (e : EscrowRecord) (db : Escrows)
      → find_by_payment payment db.rows ≡ some (pk, e)
      → e.status ≡ Status.reserved
      → e.amount_rial < compute_fee_for_invoice inv + inv.settled_technician_wage
      → reserve_and_distribute inv (some payment) now db ≡ (err value_error, db)
  unfolding reserve_and_distribute reserve_then_distribute
  reserved_again payment e db f h lt = ground (arith, f, distribute_overflows e db h lt)

  held_step :
      (payment : ℕ) (e : EscrowRecord) (db : Escrows)
      → IsHeldFor payment e db
      → reserve_and_distribute inv (some payment) now db
        ≡ distribute_reserved inv now pk (reserved_row e) (with_row (reserved_row e) db)
  unfolding reserve_and_distribute reserve_then_distribute
  held_step payment e db v = ground (
    arith,
    v.found,
    reserve_held e db (find-lookup db.next_pk payment pk e db.rows v.valid v.found).0 v.held,
  )

  reserved-IsValid :
      (payment : ℕ) (e : EscrowRecord) (db : Escrows)
      → IsHeldFor payment e db
      → IsValid (with_row (reserved_row e) db)
  unfolding reserve_for_invoice call
  reserved-IsValid payment e db v =
      update-IsValid (reserves inv.invoice_id) pk db (reserved_row e) (with_row (reserved_row e) db)
        (reserve_held e db (find-lookup db.next_pk payment pk e db.rows v.valid v.found).0 v.held)
        v.valid

  reserved_found :
      (payment : ℕ) (e : EscrowRecord) (db : Escrows)
      → IsHeldFor payment e db
      → find_by_payment payment (with_row (reserved_row e) db).rows ≡ some (pk, reserved_row e)
  reserved_found payment e db v =
      find-save db.next_pk payment pk e (reserved_row e) db.rows v.valid v.found refl

  -- Where commission and technician's wage fit into the amount, a held record of the payment is
  -- distributed: the payment then finds it with the commission, the wage, and the rest for the
  -- organization, linked to the invoice, and the shares are the amount.
  pub reserve_and_distribute_fits :
      (payment : ℕ) (e : EscrowRecord) (db : Escrows)
      → IsHeldFor payment e db
      → compute_fee_for_invoice inv + inv.settled_technician_wage ≤ e.amount_rial
      → let (r, db') = reserve_and_distribute inv (some payment) now db in
        (r ≡ ok tt)
        × (find_by_payment payment db'.rows ≡ some (pk, distributed_row (reserved_row e)))
        × ((distributed_row e).platform_commission_rial
              + (distributed_row e).organization_share_rial
              + (distributed_row e).provider_share_rial
            ≡ e.amount_rial)
  reserve_and_distribute_fits payment e db v le =
      let db₁ = with_row (reserved_row e) db in
      let valid₁ = reserved-IsValid payment e db v in
      let found₁ = reserved_found payment e db v in
      rw
        (
          held_step payment e db v,
          distribute_fits (reserved_row e) db₁
              (find-lookup db.next_pk payment pk (reserved_row e) db₁.rows valid₁ found₁).0 refl le,
        )
        (
          refl,
          find-save db.next_pk payment pk (reserved_row e) (distributed_row (reserved_row e))
              db₁.rows valid₁ found₁ refl,
          omega arith,
        )

  -- Where they do not fit, the call raises, the record stays reserved for the invoice, and no share
  -- is written; and the same call made again raises again and changes nothing.
  pub reserve_and_distribute_overflows :
      (payment : ℕ) (e : EscrowRecord) (db : Escrows)
      → IsHeldFor payment e db
      → e.amount_rial < compute_fee_for_invoice inv + inv.settled_technician_wage
      → let (r, db') = reserve_and_distribute inv (some payment) now db in
        (r ≡ err value_error)
        × (find_by_payment payment db'.rows ≡ some (pk, reserved_row e))
        × (reserve_and_distribute inv (some payment) now db' ≡ (err value_error, db'))
  reserve_and_distribute_overflows payment e db v lt =
      rw
        (
          held_step payment e db v,
          distribute_overflows (reserved_row e) (with_row (reserved_row e) db) refl lt,
        )
        (
          refl,
          reserved_found payment e db v,
          reserved_again payment (reserved_row e) (with_row (reserved_row e) db)
              (reserved_found payment e db v) refl lt,
        )

-- Once a record is neither held nor reserved, the call changes nothing: made a second time after it
-- has distributed, it does nothing, whatever the invoice then says.
pub reserve_and_distribute_done :
    (inv : InvoiceInfo) (payment now pk : ℕ) (e : EscrowRecord) (db : Escrows)
    → find_by_payment payment db.rows ≡ some (pk, e)
    → e.status ≢ Status.held
    → e.status ≢ Status.reserved
    → reserve_and_distribute inv (some payment) now db ≡ (ok tt, db)
unfolding reserve_and_distribute reserve_then_distribute distribute_reserved
reserve_and_distribute_done inv payment now pk e db f h r = ground arith
