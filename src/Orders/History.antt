-- ===== src/Orders/History.antt =====
-- Histories of the services that assign, complete, cancel, review and replace orders, each call a
-- step. A service that does not lock the row is called with an object that is the row.
use rasti_kiro_gpt.Common.{ℕ, ◌≡◌, refl, true, false, Option, none, some, arith, inl, inr}
use rasti_kiro_gpt.Common.Result.{ok}
use rasti_kiro_gpt.Orders.Model.{Status, Order, Db, Env, Technician, is_terminal}
use rasti_kiro_gpt.Orders.Assignment.{
  accept, assign, unassign, handle_assignment, is_assignable, is_edit_assignable,
}
use rasti_kiro_gpt.Orders.Cancellation.{
  is_cancellable, request_cancel, force_cancel, approve, reject,
}
use rasti_kiro_gpt.Orders.Completion.{complete}
use rasti_kiro_gpt.Orders.Recycling.{recycle, return_to_cycle, may_return, recycled_details}
use rasti_kiro_gpt.Orders.Machine.{AreKeyed, IsFresh}
use rasti_kiro_gpt.Orders.Steps.{
  request_cancel-Moves, force_cancel-Moves, complete-Moves, approve-Moves, reject-Moves,
  unassign-Moves,
}
use rasti_kiro_gpt.Orders.Locked.{accept-Accepted, assign-Assigned, handle_assignment-Moves}
use rasti_kiro_gpt.Orders.Replacing.{IsValid, recycle-Replaced, return_to_cycle-Replaced}
use rasti_kiro_gpt.Orders.Effect.{Effect, unchanged, moves, replaces}

-- One successful call.
pub data Step (env : Env) : Db → Db → Type 0 where
  accepts :
      (order : Order) (t : Technician) (by : Option ℕ) (now : ℕ) {db out : Db}
      → accept env order t by now db ≡ ok out
      → Step env db out
  assigns :
      (order : Order) (t : Technician) (by : Option ℕ) (now : ℕ) {db out : Db}
      → assign order t by now db ≡ ok out
      → Step env db out
  reassigns :
      (order : Order) (technician_id company : ℕ) (by : Option ℕ) (now : ℕ) {db out : Db}
      → handle_assignment env order (some technician_id) company by now db ≡ ok out
      → Step env db out
  unassigns :
      (order : Order) (by : Option ℕ) {db out : Db}
      → IsFresh order db
      → unassign order by db ≡ ok out
      → Step env db out
  completes :
      (order : Order) (by price : Option ℕ) (now : ℕ) {db out : Db}
      → IsFresh order db
      → complete env order by price now db ≡ ok out
      → Step env db out
  requests :
      (order : Order) (by : Option ℕ) {db out : Db}
      → IsFresh order db
      → request_cancel order by db ≡ ok out
      → Step env db out
  cancels :
      (order : Order) (by : Option ℕ) {db out : Db}
      → IsFresh order db
      → force_cancel order by db ≡ ok out
      → Step env db out
  approves :
      (order : Order) (by company : ℕ) {db out : Db}
      → IsFresh order db
      → approve order by company db ≡ ok out
      → Step env db out
  rejects :
      (order : Order) (by company : ℕ) {db out : Db}
      → IsFresh order db
      → reject order by company db ≡ ok out
      → Step env db out
  recycles :
      (order : Order) (by : Option ℕ) (now : ℕ) {db out : Db} (new_pk : ℕ)
      → recycle env order by now db ≡ ok (new_pk, out)
      → Step env db out
  returns :
      (order : Order) (by : Option ℕ) (now : ℕ) {db out : Db} (new_pk : ℕ)
      → return_to_cycle env order by now db ≡ ok (new_pk, out)
      → Step env db out

-- Any number of calls.
pub data Reach (env : Env) (start : Db) : Db → Type 0 where
  begin : Reach env start start
  then : {db out : Db} → Reach env start db → Step env db out → Reach env start out

keyed : (db : Db) → IsValid db → AreKeyed db.orders
keyed db valid k o h = (valid k o h).0

live_if : (s t : Status) → s ≡ t → is_terminal t ≡ false → is_terminal s ≡ false
live_if s t e h = cc

assignable_live : (s : Status) → is_assignable s ≡ true → is_terminal s ≡ false
assignable_live s h = ground arith

edit_assignable_live : (s : Status) → is_edit_assignable s ≡ true → is_terminal s ≡ false
edit_assignable_live s h = ground arith

cancellable_live : (s : Status) → is_cancellable s ≡ true → is_terminal s ≡ false
cancellable_live s h = ground arith

may_return_live : (s : Status) → may_return s ≡ true → is_terminal s ≡ false
may_return_live s h = ground arith

pub Step-Effect : (env : Env) (db out : Db) → IsValid db → Step env db out → Effect db out
Step-Effect env db out valid (accepts order t by now h) =
    moves order.pk Status.new Status.waiting refl
      (accept-Accepted env order t by now db out (keyed db valid) h).moves
Step-Effect env db out valid (assigns order t by now h) =
    elim (assign-Assigned order t by now db out (keyed db valid) h) [
      | inl e ↦ unchanged e
      | inr a ↦
          moves order.pk a.locked.status Status.waiting (assignable_live _ a.was_assignable) a.moves
    ]
Step-Effect env db out valid (reassigns order id company by now h) =
    elim (handle_assignment-Moves env order id company by now db out (keyed db valid) h) [
      | inl e ↦ unchanged e
      | inr (locked, found, may, no_invoice, m) ↦
          moves order.pk locked.status _ (edit_assignable_live _ may) m
    ]
Step-Effect env db out valid (unassigns order by fresh h) =
    let (was, no_invoice, m) = unassign-Moves order by db out fresh h in
    moves order.pk order.status Status.new (live_if _ _ was refl) m
Step-Effect env db out valid (completes order by price now fresh h) =
    let (was, m) = complete-Moves env order by price now db out fresh h in
    moves order.pk order.status Status.done (live_if _ _ was refl) m
Step-Effect env db out valid (requests order by fresh h) =
    let (may, m) = request_cancel-Moves order by db out fresh h in
    moves order.pk order.status Status.cancel_requested (cancellable_live _ may) m
Step-Effect env db out valid (cancels order by fresh h) =
    let (may, m) = force_cancel-Moves order by db out fresh h in
    moves order.pk order.status Status.cancelled may m
Step-Effect env db out valid (approves order by company fresh h) =
    let (was, m) = approve-Moves order by company db out fresh h in
    moves order.pk order.status Status.cancelled (live_if _ _ was refl) m
Step-Effect env db out valid (rejects order by company fresh h) =
    let (was, m) = reject-Moves order by company db out fresh h in
    moves order.pk order.status _ (live_if _ _ was refl) m
Step-Effect env db out valid (recycles order by now new_pk h) =
    let (locked, live, r) = recycle-Replaced env order by now db out new_pk valid h in
    replaces env order.pk locked (record locked { status = Status.cancelled; technician = none })
      (recycled_details locked.details) now by new_pk live refl refl r
Step-Effect env db out valid (returns order by now new_pk h) =
    let (locked, may, no_invoice, r) =
      return_to_cycle-Replaced env order by now db out new_pk valid h in
    replaces env order.pk locked (record locked { status = Status.cancelled }) locked.details now by
      new_pk (may_return_live _ may) refl refl r
