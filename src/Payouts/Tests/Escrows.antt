-- ===== src/Payouts/Tests/Escrows.antt =====
-- The theorems on escrow records at one record.
use rasti_kiro_gpt.Common.{ℕ, ◌+◌, ◌≤◌, ◌≡◌, refl, arith, none, some, List, [], ◌∷◌}
use rasti_kiro_gpt.Common.Table.{lookup}
use rasti_kiro_gpt.Common.Result.{ok}
use rasti_kiro_gpt.Payouts.Split.{OwnerType}
use rasti_kiro_gpt.Payouts.Escrow.Defs.{
  Status, EscrowRecord, Escrows, PaymentInfo, reserve, distribute, await_settlement, settle,
  close_row, find_by_payment,
}
use rasti_kiro_gpt.Payouts.Escrow.Machine.{
  Call, call, reserves, distributes, awaits_settlement, settles, closes, IsConsistent, IsLinked,
  run, run-IsConsistent, run_bounded, steps_left, length,
}
use rasti_kiro_gpt.Payouts.Escrow.Table.{IsValid}
use rasti_kiro_gpt.Payouts.Escrow.Distribution.{
  InvoiceInfo, IsHeldFor, reserve_and_distribute, compute_fee_for_invoice,
  reserve_and_distribute_fits,
}

abbrev escrow : Status → EscrowRecord
escrow status = record {
  company = 1;
  payment = 31;
  invoice = none;
  amount_rial = 1000000;
  platform_commission_rial = 0;
  organization_share_rial = 0;
  provider_share_rial = 0;
  status = status;
  distributed_at = none;
  settled_at = none;
  closed_at = none;
  settlement_batch = none;
}

abbrev reserved_escrow : EscrowRecord
reserved_escrow = record (escrow Status.reserved) { invoice = some 11 }

held-IsConsistent : IsConsistent (escrow Status.held)
held-IsConsistent = ground arith

held-IsLinked : IsLinked (escrow Status.held)
held-IsLinked = ground arith

-- The whole life of a record: reserved, distributed, put into a batch, settled and closed.
abbrev life : List Call
life =
    reserves 11
    ∷ distributes 25000 575000 400000 100
    ∷ awaits_settlement 3
    ∷ settles none 200
    ∷ closes 300
    ∷ []

abbrev closed_escrow : EscrowRecord
closed_escrow = record (escrow Status.closed) {
  invoice = some 11;
  platform_commission_rial = 25000;
  organization_share_rial = 575000;
  provider_share_rial = 400000;
  distributed_at = some 100;
  settled_at = some 200;
  closed_at = some 300;
  settlement_batch = some 3;
}

life_returns : run life (escrow Status.held) ≡ ok closed_escrow
unfolding run call reserve distribute await_settlement settle close_row
life_returns = refl

run-IsConsistent_example :
    IsConsistent closed_escrow
    × IsLinked closed_escrow
    × (closed_escrow.company ≡ 1)
    × (closed_escrow.payment ≡ 31)
    × (closed_escrow.amount_rial ≡ 1000000)
run-IsConsistent_example =
    run-IsConsistent life (escrow Status.held) closed_escrow held-IsConsistent held-IsLinked
      life_returns

run_bounded_example : length life + steps_left closed_escrow.status ≤ steps_left Status.held
run_bounded_example = run_bounded life (escrow Status.held) closed_escrow life_returns

abbrev held_db : Escrows
held_db = record { rows = (1, escrow Status.held) ∷ []; next_pk = 2 }

held_db-IsValid : IsValid held_db
unfolding lookup find_by_payment
held_db-IsValid = (omega arith, refl, refl, held-IsConsistent, tt)

abbrev reserved_db : Escrows
reserved_db = record { rows = (1, reserved_escrow) ∷ []; next_pk = 2 }

abbrev platform_payment : PaymentInfo
platform_payment = record {
  payment_id = 32;
  company = 1;
  gateway = some OwnerType.platform;
  invoice = some 12;
  amount = 700000;
}

abbrev invoice_with : ℕ → InvoiceInfo
invoice_with wage = record {
  invoice_id = 11;
  total_amount = 1000000;
  settled_technician_wage = wage;
  platform_fee_percent = 250;
}

held_db-IsHeldFor : (wage : ℕ) → IsHeldFor (invoice_with wage) 100 1 31 (escrow Status.held) held_db
unfolding find_by_payment
held_db-IsHeldFor wage = record { valid = held_db-IsValid; found = refl; held = refl }

reserve_and_distribute_fits_example :
    let (r, db') = reserve_and_distribute (invoice_with 400000) (some 31) 100 held_db in
    (r ≡ ok tt)
    × (find_by_payment 31 db'.rows
        ≡ some (
          1,
          record reserved_escrow {
            platform_commission_rial = 25000;
            organization_share_rial = 575000;
            provider_share_rial = 400000;
            status = Status.distributed;
            distributed_at = some 100;
          },
        ))
    × (25000 + 575000 + 400000 ≡ 1000000)
unfolding compute_fee_for_invoice
reserve_and_distribute_fits_example =
    reserve_and_distribute_fits (invoice_with 400000) 100 1 31 (escrow Status.held) held_db
      (held_db-IsHeldFor 400000) (omega arith)
