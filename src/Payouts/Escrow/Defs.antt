-- ===== src/Payouts/Escrow/Defs.antt =====
-- `EscrowRecord` and `EscrowRecordService`. An operation locks its row, tests its status, and saves
-- it; `update` is that frame, and a function on the row stands for each operation's body.
-- The amounts are PositiveBigIntegerFields. `now` is an argument of what reads the clock.
use rasti_kiro_gpt.Common.{
  ℕ, suc, ◌+◌, Bool, true, false, not, Option, none, some, [], ◌∷◌, ◌==◌, if◌then◌else◌,
}
use rasti_kiro_gpt.Common.Table.{Table, lookup, save}
use rasti_kiro_gpt.Common.Result.{Result, ok, ◌>>=◌, ◌>>◌, raise_if, or_raise}
use rasti_kiro_gpt.Payouts.Split.{OwnerType, is_platform}

-- `EscrowRecord.Status`
pub data Status : Type 0 where
  held reserved distributed pending_settlement settled closed : Status

pub record EscrowRecord : Type 0 where
  pub company : ℕ
  pub payment : ℕ
  pub invoice : Option ℕ
  pub amount_rial : ℕ
  pub platform_commission_rial : ℕ
  pub organization_share_rial : ℕ
  pub provider_share_rial : ℕ
  pub status : Status
  pub distributed_at : Option ℕ
  pub settled_at : Option ℕ
  pub closed_at : Option ℕ
  pub settlement_batch : Option ℕ

-- `EscrowTransitionError`, `ValueError`, and `EscrowRecord.DoesNotExist`
pub data Error : Type 0 where
  escrow_transition_error value_error does_not_exist : Error

abbrev pub is_held : Status → Bool
is_held Status.held = true
is_held _ = false

abbrev pub is_reserved : Status → Bool
is_reserved Status.reserved = true
is_reserved _ = false

abbrev pub is_distributed : Status → Bool
is_distributed Status.distributed = true
is_distributed _ = false

abbrev pub is_pending_settlement : Status → Bool
is_pending_settlement Status.pending_settlement = true
is_pending_settlement _ = false

-- `allowed_from` of `close`
abbrev pub may_close : Status → Bool
may_close Status.held = true
may_close Status.reserved = true
may_close Status.distributed = true
may_close Status.settled = true
may_close _ = false

-- The body of `reserve_for_invoice`
unfoldable pub reserve : ℕ → EscrowRecord → Result Error EscrowRecord
reserve invoice e = do
  raise_if (not (is_held e.status)) escrow_transition_error
  ok (record e { invoice = some invoice; status = Status.reserved })

-- The body of `mark_distributed`
unfoldable pub distribute : ℕ → ℕ → ℕ → ℕ → EscrowRecord → Result Error EscrowRecord
distribute commission organization provider now e = do
  raise_if (not (is_reserved e.status)) escrow_transition_error
  raise_if (not (commission + organization + provider == e.amount_rial)) value_error
  ok (record e {
    platform_commission_rial = commission;
    organization_share_rial = organization;
    provider_share_rial = provider;
    status = Status.distributed;
    distributed_at = some now;
  })

-- The body of `mark_pending_settlement`
unfoldable pub await_settlement : ℕ → EscrowRecord → Result Error EscrowRecord
await_settlement settlement_batch e = do
  raise_if (not (is_distributed e.status)) escrow_transition_error
  ok (record e { settlement_batch = some settlement_batch; status = Status.pending_settlement })

abbrev pub or_old : Option ℕ → Option ℕ → Option ℕ
or_old none old = old
or_old (some b) _ = some b

-- The body of `mark_settled`
unfoldable pub settle : Option ℕ → ℕ → EscrowRecord → Result Error EscrowRecord
settle settlement_batch now e = do
  raise_if (not (is_pending_settlement e.status)) escrow_transition_error
  ok (record e {
    settlement_batch = or_old settlement_batch e.settlement_batch;
    status = Status.settled;
    settled_at = some now;
  })

-- The body of `close`
unfoldable pub close_row : ℕ → EscrowRecord → Result Error EscrowRecord
close_row now e = do
  raise_if (not (may_close e.status)) escrow_transition_error
  ok (record e { status = Status.closed; closed_at = some now })

-- The table with the next primary key.
pub record Escrows : Type 0 where
  pub rows : Table EscrowRecord
  pub next_pk : ℕ

-- `select_for_update().get(pk=pk)`, the body, and `save`
unfoldable pub update :
    ℕ → (EscrowRecord → Result Error EscrowRecord) → Escrows → Result Error (EscrowRecord × Escrows)
update pk body db = do
  locked ← or_raise (lookup pk db.rows) does_not_exist
  e ← body locked
  ok (e, record db { rows = save pk e db.rows })

unfoldable pub reserve_for_invoice : ℕ → ℕ → Escrows → Result Error (EscrowRecord × Escrows)
reserve_for_invoice pk invoice = update pk (reserve invoice)

unfoldable pub mark_distributed :
    ℕ → ℕ → ℕ → ℕ → ℕ → Escrows → Result Error (EscrowRecord × Escrows)
mark_distributed pk commission organization provider now =
    update pk (distribute commission organization provider now)

unfoldable pub mark_pending_settlement : ℕ → ℕ → Escrows → Result Error (EscrowRecord × Escrows)
mark_pending_settlement pk settlement_batch = update pk (await_settlement settlement_batch)

unfoldable pub mark_settled : ℕ → Option ℕ → ℕ → Escrows → Result Error (EscrowRecord × Escrows)
mark_settled pk settlement_batch now = update pk (settle settlement_batch now)

unfoldable pub close : ℕ → ℕ → Escrows → Result Error (EscrowRecord × Escrows)
close pk now = update pk (close_row now)

-- What is read of a payment; its gateway stands for the gateway's owner.
pub record PaymentInfo : Type 0 where
  pub payment_id : ℕ
  pub company : ℕ
  pub gateway : Option OwnerType
  pub invoice : Option ℕ
  pub amount : ℕ

-- `is_eligible_for_escrow`
unfoldable pub is_eligible_for_escrow : PaymentInfo → Bool
is_eligible_for_escrow p = elim p.gateway [ none ↦ false | some owner ↦ is_platform owner ]

-- `EscrowRecord.objects.filter(payment=payment).first()`, with its primary key
unfoldable pub find_by_payment : ℕ → Table EscrowRecord → Option (ℕ × EscrowRecord)
find_by_payment payment [] = none
find_by_payment payment ((pk, e) ∷ rows) =
    if e.payment == payment then some (pk, e) else find_by_payment payment rows

unfoldable pub new_record : PaymentInfo → Option ℕ → EscrowRecord
new_record p invoice = record {
  company = p.company;
  payment = p.payment_id;
  invoice = or_old invoice p.invoice;
  amount_rial = p.amount;
  platform_commission_rial = 0;
  organization_share_rial = 0;
  provider_share_rial = 0;
  status = Status.held;
  distributed_at = none;
  settled_at = none;
  closed_at = none;
  settlement_batch = none;
}

-- `create_for_payment`: the record of the payment, if it is eligible for one
unfoldable pub create_for_payment :
    PaymentInfo → Option ℕ → Escrows → Option (ℕ × EscrowRecord) × Escrows
create_for_payment p invoice db = elim (find_by_payment p.payment_id db.rows) [
  | some existing ↦ (some existing, db)
  | none ↦
      if not (is_eligible_for_escrow p)
      then (none, db)
      else let e = new_record p invoice in
        (
          some (db.next_pk, e),
          record { rows = save db.next_pk e db.rows; next_pk = suc db.next_pk },
        )
]
