-- ===== src/Orders/Steps.antt =====
-- Each service call that succeeds moves its order as the workflow has it. A service that does not
-- lock the row is held to a caller's object that is the row.
use rasti_kiro_gpt.Common.{ℕ, ◌≡◌, refl, true, false, not, Option, none, some, ◌==◌, arith}
use rasti_kiro_gpt.Common.Result.{ok}
use rasti_kiro_gpt.Orders.Model.{
  Status, Order, Db, Env, same_status, is_terminal, wrong_status, access_denied, has_live_invoice,
  has_uncancelled_invoice,
}
use rasti_kiro_gpt.Orders.Cancellation.{
  is_cancellable, request_cancel, force_cancel, approve, reject, determine_restore_status,
}
use rasti_kiro_gpt.Orders.Completion.{
  complete, completion_price, post_wage, create_invoice_placeholder,
}
use rasti_kiro_gpt.Orders.Assignment.{unassign}
use rasti_kiro_gpt.Orders.Machine.{
  Moved, IsFresh, moved_db-Moved, transition_then, raise_if-eq-ok, same_status_eq, ok-injective,
}

abbrev pub Moves : ℕ → Status → Status → Db → Db → Type 0
Moves pk old target db db' =
    Moved pk old target db.orders db.logs db.next_order db'.orders db'.logs db'.next_order

-- A request to cancel takes a NEW, WAITING or IN_PROGRESS order to CANCEL_REQUESTED.
pub request_cancel-Moves :
    (order : Order) (by : Option ℕ) (db out : Db)
    → IsFresh order db
    → request_cancel order by db ≡ ok out
    → (is_cancellable order.status ≡ true)
      × Moves order.pk order.status Status.cancel_requested db out
unfolding request_cancel
request_cancel-Moves order by db out fresh h =
    let write = λ (row : Order). record row { status = Status.cancel_requested } in
    let (passed, rest) = raise_if-eq-ok (not (is_cancellable order.status)) wrong_status _ h in
    let e =
      ok-injective (
        transition_then order order write order.status Status.cancel_requested by db _ fresh
          rest) in
    (
      ground arith,
      rw (← e) (
          moved_db-Moved order order write order.status Status.cancel_requested by db fresh refl
            refl refl),
    )

-- A forced cancellation takes an order that is not DONE or CANCELLED to CANCELLED, with nobody
-- assigned.
pub force_cancel-Moves :
    (order : Order) (by : Option ℕ) (db out : Db)
    → IsFresh order db
    → force_cancel order by db ≡ ok out
    → (is_terminal order.status ≡ false) × Moves order.pk order.status Status.cancelled db out
unfolding force_cancel
force_cancel-Moves order by db out fresh h =
    let write = λ (row : Order). record row { status = Status.cancelled; technician = none } in
    let (passed, rest) = raise_if-eq-ok (is_terminal order.status) wrong_status _ h in
    let e =
      ok-injective
        (transition_then order order write order.status Status.cancelled by db _ fresh rest) in
    (
      passed,
      rw (← e) (
          moved_db-Moved order order write order.status Status.cancelled by db fresh refl refl
            refl),
    )

pub create_invoice_placeholder-orders :
    (order : Order) (db : Db) → (create_invoice_placeholder order db).orders ≡ db.orders
unfolding create_invoice_placeholder
create_invoice_placeholder-orders order db = ground arith

create_invoice_placeholder-logs :
    (order : Order) (db : Db) → (create_invoice_placeholder order db).logs ≡ db.logs
unfolding create_invoice_placeholder
create_invoice_placeholder-logs order db = ground arith

create_invoice_placeholder-next :
    (order : Order) (db : Db) → (create_invoice_placeholder order db).next_order ≡ db.next_order
unfolding create_invoice_placeholder
create_invoice_placeholder-next order db = ground arith

-- Completing takes an IN_PROGRESS order to DONE.
pub complete-Moves :
    (env : Env) (order : Order) (by price : Option ℕ) (now : ℕ) (db out : Db)
    → IsFresh order db
    → complete env order by price now db ≡ ok out
    → (order.status ≡ Status.in_progress) × Moves order.pk order.status Status.done db out
unfolding complete post_wage
complete-Moves env order by price now db out fresh h =
    let write = λ (row : Order). record row {
      status = Status.done;
      completed_at = some now;
      final_price = completion_price order price;
    } in
    let (passed, rest) =
      raise_if-eq-ok (not (same_status order.status Status.in_progress)) wrong_status _ h in
    let e =
      ok-injective
        (transition_then order order write order.status Status.done by db _ fresh rest) in
    let start =
      moved_db-Moved order order write order.status Status.done by db fresh refl refl refl in
    (
      same_status_eq order.status Status.in_progress (ground arith),
      rw
          (
            ← e,
            create_invoice_placeholder-orders,
            create_invoice_placeholder-logs,
            create_invoice_placeholder-next,
          )
          start,
    )

-- Approving takes a CANCEL_REQUESTED order to CANCELLED.
pub approve-Moves :
    (order : Order) (by company : ℕ) (db out : Db)
    → IsFresh order db
    → approve order by company db ≡ ok out
    → (order.status ≡ Status.cancel_requested) × Moves order.pk order.status Status.cancelled db out
unfolding approve
approve-Moves order by company db out fresh h =
    let write = λ (row : Order). record row { status = Status.cancelled } in
    let (mine, next) = raise_if-eq-ok (not (order.company == company)) access_denied _ h in
    let (passed, rest) =
      raise_if-eq-ok (not (same_status order.status Status.cancel_requested)) wrong_status _ next in
    let e =
      ok-injective (
        transition_then order order write order.status Status.cancelled (some by) db _ fresh
          rest) in
    (
      same_status_eq order.status Status.cancel_requested (ground arith),
      rw (← e) (
          moved_db-Moved order order write order.status Status.cancelled (some by) db fresh refl
            refl refl),
    )

-- Rejecting takes a CANCEL_REQUESTED order back to the status to restore.
pub reject-Moves :
    (order : Order) (by company : ℕ) (db out : Db)
    → IsFresh order db
    → reject order by company db ≡ ok out
    → (order.status ≡ Status.cancel_requested)
      × Moves order.pk order.status (determine_restore_status order db) db out
unfolding reject
reject-Moves order by company db out fresh h =
    let target = determine_restore_status order db in
    let write = λ (row : Order). record row { status = target } in
    let (mine, next) = raise_if-eq-ok (not (order.company == company)) access_denied _ h in
    let (passed, rest) =
      raise_if-eq-ok (not (same_status order.status Status.cancel_requested)) wrong_status _ next in
    let e =
      ok-injective
        (transition_then order order write order.status target (some by) db _ fresh rest) in
    (
      same_status_eq order.status Status.cancel_requested (ground arith),
      rw (← e)
          (moved_db-Moved order order write order.status target (some by) db fresh refl refl refl),
    )

-- Unassigning takes a WAITING order back to NEW.
pub unassign-Moves :
    (order : Order) (by : Option ℕ) (db out : Db)
    → IsFresh order db
    → unassign order by db ≡ ok out
    → (order.status ≡ Status.waiting)
      × (has_uncancelled_invoice order db ≡ false)
      × Moves order.pk order.status Status.new db out
unfolding unassign
unassign-Moves order by db out fresh h =
    let write =
      λ (row : Order). record row { technician = none; status = Status.new; accepted_at = none } in
    let (passed, next) =
      raise_if-eq-ok (not (same_status order.status Status.waiting)) wrong_status _ h in
    let (no_invoice, rest) =
      raise_if-eq-ok (has_uncancelled_invoice order db) has_live_invoice _ next in
    let e =
      ok-injective
        (transition_then order order write Status.waiting Status.new by db _ fresh rest) in
    let was = same_status_eq order.status Status.waiting (ground arith) in
    (
      was,
      no_invoice,
      rw (← e, was)
          (moved_db-Moved order order write Status.waiting Status.new by db fresh was refl refl),
    )
