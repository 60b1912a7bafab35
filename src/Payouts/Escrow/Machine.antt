-- ===== src/Payouts/Escrow/Machine.antt =====
-- The life of one escrow record (apps/payouts/services_escrow.py): which calls follow each other, and
-- its shares.
use rasti_kiro_gpt.Common.{
  ℕ, suc, ◌+◌, ◌≤◌, ◌<◌, ◌≡◌, refl, true, Option, none, some, List, [], ◌∷◌, arith, ◌⊎◌, is_some,
}
use rasti_kiro_gpt.Common.Result.{Result, ok, ◌>>=◌, >>=-eq-ok}
use rasti_kiro_gpt.Payouts.Escrow.Defs.{
  Status, EscrowRecord, Error, reserve, distribute, await_settlement, settle, close_row, may_close,
  or_old,
}

-- The transitions that the docstring of `EscrowRecordService` lists. The preconditions that
-- docs/13_Financial_Core/target_architecture/25_FINANCIAL_STATE_MACHINE_SPECIFICATION.md adds (the
-- invoice is PAID, the settlement delay is over, no adjustment is open) are not the service's.
pub data Allowed : Status → Status → Type 0 where
  held_reserved : Allowed Status.held Status.reserved
  reserved_distributed : Allowed Status.reserved Status.distributed
  distributed_pending : Allowed Status.distributed Status.pending_settlement
  pending_settled : Allowed Status.pending_settlement Status.settled
  settled_closed : Allowed Status.settled Status.closed
  held_refunded : Allowed Status.held Status.closed
  reserved_refunded : Allowed Status.reserved Status.closed
  distributed_refunded : Allowed Status.distributed Status.closed

-- One call of the service on a record.
pub data Call : Type 0 where
  reserves : ℕ → Call
  distributes : ℕ → ℕ → ℕ → ℕ → Call
  awaits_settlement : ℕ → Call
  settles : Option ℕ → ℕ → Call
  closes : ℕ → Call

unfoldable pub call : Call → EscrowRecord → Result Error EscrowRecord
call (reserves invoice) = reserve invoice
call (distributes c o p now) = distribute c o p now
call (awaits_settlement batch) = await_settlement batch
call (settles batch now) = settle batch now
call (closes now) = close_row now

-- The shares of a record: none yet, or the whole amount; the whole amount from the distribution on.
pub record IsConsistent (e : EscrowRecord) : Type 0 where
  pub shares :
      (e.platform_commission_rial + e.organization_share_rial + e.provider_share_rial ≡ 0)
      ⊎ (e.platform_commission_rial + e.organization_share_rial + e.provider_share_rial
          ≡ e.amount_rial)
  pub distributed :
      e.status ≡ Status.distributed
      → e.platform_commission_rial + e.organization_share_rial + e.provider_share_rial
        ≡ e.amount_rial
  pub pending :
      e.status ≡ Status.pending_settlement
      → e.platform_commission_rial + e.organization_share_rial + e.provider_share_rial
        ≡ e.amount_rial
  pub settled :
      e.status ≡ Status.settled
      → e.platform_commission_rial + e.organization_share_rial + e.provider_share_rial
        ≡ e.amount_rial

close_step : (s o : Status) → may_close s ≡ true → o ≡ Status.closed → Allowed s o
close_step Status.held o h e = rw e held_refunded
close_step Status.reserved o h e = rw e reserved_refunded
close_step Status.distributed o h e = rw e distributed_refunded
close_step Status.pending_settlement o h e = absurd (ground arith)
close_step Status.settled o h e = rw e settled_closed
close_step Status.closed o h e = absurd (ground arith)

-- Every call that succeeds makes a transition that the docstring lists.
pub call-Allowed :
    (c : Call) (e out : EscrowRecord) → call c e ≡ ok out → Allowed e.status out.status
unfolding call reserve distribute await_settlement settle close_row
call-Allowed (reserves invoice) e out h =
    let from : e.status ≡ Status.held = ground arith in
    let to : out.status ≡ Status.reserved = ground arith in rw (from, to) held_reserved
call-Allowed (distributes c o p now) e out h =
    let from : e.status ≡ Status.reserved = ground arith in
    let to : out.status ≡ Status.distributed = ground arith in rw (from, to) reserved_distributed
call-Allowed (awaits_settlement batch) e out h =
    let from : e.status ≡ Status.distributed = ground arith in
    let to : out.status ≡ Status.pending_settlement = ground arith in
    rw (from, to) distributed_pending
call-Allowed (settles batch now) e out h =
    let from : e.status ≡ Status.pending_settlement = ground arith in
    let to : out.status ≡ Status.settled = ground arith in rw (from, to) pending_settled
call-Allowed (closes now) e out h = close_step e.status out.status (ground arith) (ground arith)

distribute_all :
    (e : EscrowRecord)
    → e.status ≡ Status.reserved
    → (out : EscrowRecord) × (distribute e.amount_rial 0 0 0 e ≡ ok out)
      × (out.status ≡ Status.distributed)
unfolding distribute
distribute_all e h = (
  record e {
    platform_commission_rial = e.amount_rial;
    organization_share_rial = 0;
    provider_share_rial = 0;
    status = Status.distributed;
    distributed_at = some 0;
  },
  ground arith,
  refl,
)

-- Every transition that the docstring lists can be made: some call takes a record in the one status, whatever its
-- amount, to the other.
pub Allowed-call :
    {s t : Status} (e : EscrowRecord)
    → Allowed s t
    → e.status ≡ s
    → (c : Call) × (out : EscrowRecord) × (call c e ≡ ok out) × (out.status ≡ t)
unfolding call reserve distribute await_settlement settle close_row
Allowed-call e held_reserved h =
    (reserves 0, record e { invoice = some 0; status = Status.reserved }, rw h refl, refl)
Allowed-call e reserved_distributed h =
    let all = distribute_all e h in (distributes e.amount_rial 0 0 0, all.0, all.1, all.2)
Allowed-call e distributed_pending h = (
  awaits_settlement 0,
  record e { settlement_batch = some 0; status = Status.pending_settlement },
  rw h refl,
  refl,
)
Allowed-call e pending_settled h =
    (settles none 0, record e { status = Status.settled; settled_at = some 0 }, rw h refl, refl)
Allowed-call e settled_closed h =
    (closes 0, record e { status = Status.closed; closed_at = some 0 }, rw h refl, refl)
Allowed-call e held_refunded h =
    (closes 0, record e { status = Status.closed; closed_at = some 0 }, rw h refl, refl)
Allowed-call e reserved_refunded h =
    (closes 0, record e { status = Status.closed; closed_at = some 0 }, rw h refl, refl)
Allowed-call e distributed_refunded h =
    (closes 0, record e { status = Status.closed; closed_at = some 0 }, rw h refl, refl)

-- A call keeps the shares consistent, and never changes company, payment or amount.
pub call-IsConsistent :
    (c : Call) (e out : EscrowRecord)
    → call c e ≡ ok out
    → IsConsistent e
    → IsConsistent out
      × (out.company ≡ e.company)
      × (out.payment ≡ e.payment)
      × (out.amount_rial ≡ e.amount_rial)
unfolding call reserve distribute await_settlement settle close_row
call-IsConsistent (reserves invoice) e out h v = ground arith
call-IsConsistent (distributes c o p now) e out h v = ground arith
call-IsConsistent (awaits_settlement batch) e out h v = ground arith
call-IsConsistent (settles batch now) e out h v = ground arith
call-IsConsistent (closes now) e out h v = ground arith

-- How far a record is from the end of its life.
abbrev pub steps_left : Status → ℕ
steps_left Status.held = 5
steps_left Status.reserved = 4
steps_left Status.distributed = 3
steps_left Status.pending_settlement = 2
steps_left Status.settled = 1
steps_left Status.closed = 0

-- Calls in a row, up to the first that fails.
unfoldable pub run : List Call → EscrowRecord → Result Error EscrowRecord
run [] e = ok e
run (c ∷ cs) e = call c e >>= run cs

abbrev pub length {ℓ} : {A : Type ℓ} → List A → ℕ
length [] = 0
length (x ∷ xs) = suc (length xs)

Allowed-falls : {s t : Status} → Allowed s t → steps_left t < steps_left s
Allowed-falls held_reserved = omega arith
Allowed-falls reserved_distributed = omega arith
Allowed-falls distributed_pending = omega arith
Allowed-falls pending_settled = omega arith
Allowed-falls settled_closed = omega arith
Allowed-falls held_refunded = omega arith
Allowed-falls reserved_refunded = omega arith
Allowed-falls distributed_refunded = omega arith

-- A record that waits for its settlement, or is settled, has its batch.
pub record IsLinked (e : EscrowRecord) : Type 0 where
  pub pending : e.status ≡ Status.pending_settlement → is_some e.settlement_batch ≡ true
  pub settled : e.status ≡ Status.settled → is_some e.settlement_batch ≡ true

or_old_linked : (b old : Option ℕ) → is_some old ≡ true → is_some (or_old b old) ≡ true
or_old_linked none old h = h
or_old_linked (some n) old h = refl

call-IsLinked : (c : Call) (e out : EscrowRecord) → call c e ≡ ok out → IsLinked e → IsLinked out
unfolding call reserve distribute await_settlement settle close_row
call-IsLinked (reserves invoice) e out h v = ground arith
call-IsLinked (distributes c o p now) e out h v = ground arith
call-IsLinked (awaits_settlement batch) e out h v = ground arith
call-IsLinked (settles batch now) e out h v =
    let from : e.status ≡ Status.pending_settlement = ground arith in
    let linked = or_old_linked batch e.settlement_batch (v.pending from) in
    let kept : is_some out.settlement_batch ≡ true = ground arith in
    record { pending = λ s. kept; settled = λ s. kept }
call-IsLinked (closes now) e out h v = ground arith

-- Whatever calls are made on a record one after the other, if all succeed: its three shares stay none
-- or the whole amount, and are the whole amount while it is DISTRIBUTED, PENDING_SETTLEMENT or
-- SETTLED; it has its batch while it is PENDING_SETTLEMENT or SETTLED; and its company, its payment
-- and its amount never change.
pub run-IsConsistent :
    (cs : List Call) (e out : EscrowRecord)
    → IsConsistent e
    → IsLinked e
    → run cs e ≡ ok out
    → IsConsistent out
      × IsLinked out
      × (out.company ≡ e.company)
      × (out.payment ≡ e.payment)
      × (out.amount_rial ≡ e.amount_rial)
unfolding run
run-IsConsistent [] e out v l h =
    let same : e ≡ out = cc in (rw (← same) v, rw (← same) l, cc, cc, cc)
run-IsConsistent (c ∷ cs) e out v l h =
    let (mid, first, rest) = >>=-eq-ok (call c e) (run cs) h in
    let (v', company, payment, amount) = call-IsConsistent c e mid first v in
    let (v'', l'', company', payment', amount') =
      run-IsConsistent cs mid out v' (call-IsLinked c e mid first l) rest in
    (v'', l'', cc, cc, cc)

-- No record makes more calls that succeed than its status has steps left: at most five in its life,
-- and none once it is closed.
pub run_bounded :
    (cs : List Call) (e out : EscrowRecord)
    → run cs e ≡ ok out
    → length cs + steps_left out.status ≤ steps_left e.status
unfolding run
run_bounded [] e out h = ground arith
run_bounded (c ∷ cs) e out h =
    let (mid, first, rest) = >>=-eq-ok (call c e) (run cs) h in
    omega (arith, Allowed-falls (call-Allowed c e mid first), run_bounded cs mid out rest)
