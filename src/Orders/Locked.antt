-- ===== src/Orders/Locked.antt =====
-- The services of apps/orders/services.py that lock the row and check it: a call that succeeds moves
-- the row as it is in the table, whatever the caller's object says.
use rasti_kiro_gpt.Common.{
  ℕ, ◌≡◌, ◌⊎◌, refl, sym, true, false, ◌||◌, not, Option, some, ◌==◌, arith, same_key, is_some,
  Bool-cases, inl, inr,
}
use rasti_kiro_gpt.Common.Table.{lookup}
use rasti_kiro_gpt.Common.Result.{ok}
use rasti_kiro_gpt.Orders.Model.{
  Status, Order, Db, Env, Technician, same_status, wrong_status, has_live_invoice,
  has_uncancelled_invoice, foreign_technician, already_assigned, technician_not_available,
  invalid_technician,
}
use rasti_kiro_gpt.Orders.Assignment.{
  accept, check_skill, check_dates, assigned, assign, assign_locked, is_assignable,
  handle_assignment, reassign_locked, is_edit_assignable, status_after_edit, or_now, find_available,
}
use rasti_kiro_gpt.Orders.Machine.{
  AreKeyed, raise_if-eq-ok, check-eq-ok, get_locked-Lock, locks, same_status_eq, ok-injective,
}
use rasti_kiro_gpt.Orders.Steps.{Moves}
use rasti_kiro_gpt.Orders.Accepting.{
  is_fit, available, Accepted, locked-Moves, or_raise-found, check_skill-IsFit, check_dates-passed,
  nobody,
}

-- An acceptance that succeeds, on a table whose rows are under their own keys, was of an order whose
-- locked row was NEW and nobody's, by an available technician of the order's company who has the
-- skill of its category and room for an order, once the delay has passed and the service date lets
-- it be seen and accepted. The row then has the technician, the status WAITING and the time of the
-- acceptance, and nothing else of it changes; every other row is as before, and the change is logged.
pub accept-Accepted :
    (env : Env) (order : Order) (t : Technician) (by : Option ℕ) (now : ℕ) (db out : Db)
    → AreKeyed db.orders
    → accept env order t by now db ≡ ok out
    → Accepted env order t now db out
unfolding accept
accept-Accepted env order t by now db out keyed h =
    let (mine, h₁) = raise_if-eq-ok (not (order.company == t.company)) foreign_technician _ h in
    elim (get_locked-Lock order.pk db _ h₁) [
      | locks locked found h₂ ↦
          let (passed, h₃) =
            raise_if-eq-ok (not (same_status locked.status Status.new)) wrong_status _ h₂ in
          let (free, h₄) = raise_if-eq-ok (is_some locked.technician) already_assigned _ h₃ in
          let (skill, h₅) = check-eq-ok (check_skill env t now locked db) _ h₄ in
          let (dates, h₆) = check-eq-ok (check_dates env now locked) _ h₅ in
          let was = same_status_eq locked.status Status.new (ground arith) in
          let (saved, moves) =
            locked-Moves order.pk locked (assigned t (some now) Status.waiting) Status.new
              Status.waiting by db _ found (keyed order.pk locked found) was refl refl h₆ in
          let (visible, due) = check_dates-passed env now locked dates in
          elim (check_skill-IsFit env t now locked db skill) [
            | is_fit category priority of_category is_free has_skill has_room in_time ↦ record {
              locked = locked;
              found = found;
              own = ground arith;
              was_new = was;
              was_free = nobody locked.technician free;
              available = is_free;
              category = category;
              of_category = of_category;
              priority = priority;
              has_skill = has_skill;
              has_room = has_room;
              in_time = in_time;
              visible = visible;
              due = due;
              saved = saved;
              moves = moves;
            }
          ]
    ]

-- What another technician gets when an order is assigned.
pub record Assigned (pk : ℕ) (t : Technician) (now : ℕ) (db out : Db) : Type 0 where
  pub locked : Order
  pub found : lookup pk db.orders ≡ some locked
  pub was_assignable : is_assignable locked.status ≡ true
  pub no_invoice : has_uncancelled_invoice locked db ≡ false
  pub saved : lookup pk out.orders ≡ some (assigned t (some now) Status.waiting locked)
  pub moves : Moves pk locked.status Status.waiting db out

-- An assignment that succeeds, on a table whose rows are under their own keys, either changes nothing
-- or was of a NEW or PENDING_REVIEW row without an uncancelled invoice; the row is then the
-- technician's and WAITING, every other row is as before, and the change is logged.
pub assign-Assigned :
    (order : Order) (t : Technician) (by : Option ℕ) (now : ℕ) (db out : Db)
    → AreKeyed db.orders
    → assign order t by now db ≡ ok out
    → (out ≡ db) ⊎ Assigned order.pk t now db out
unfolding assign assign_locked
assign-Assigned order t by now db out keyed h =
    let (mine, h₁) = raise_if-eq-ok (not (order.company == t.company)) foreign_technician _ h in
    let (free, h₂) = raise_if-eq-ok (not t.is_available) technician_not_available _ h₁ in
    elim (get_locked-Lock order.pk db _ h₂) [
      | locks locked found h₃ ↦
          let (passed, h₄) = raise_if-eq-ok (not (is_assignable locked.status)) wrong_status _ h₃ in
          elim (Bool-cases (same_key locked.technician (some t.technician_id))) [
            | inl e ↦ inl (sym (ok-injective (rw e at h₄)))
            | inr e ↦
                let (no_invoice, h₅) =
                  raise_if-eq-ok (has_uncancelled_invoice locked db) has_live_invoice _
                    (rw e at h₄) in
                let (saved, moves) =
                  locked-Moves order.pk locked (assigned t (some now) Status.waiting) locked.status
                    Status.waiting by db _ found (keyed order.pk locked found) refl refl refl h₅ in
                inr (record {
                  locked = locked;
                  found = found;
                  was_assignable = ground arith;
                  no_invoice = no_invoice;
                  saved = saved;
                  moves = moves;
                })
          ]
    ]

-- An assignment from the edit page that succeeds, on a table whose rows are under their own keys,
-- either changes nothing or takes a PENDING_REVIEW, NEW or WAITING row without an uncancelled invoice
-- to WAITING, leaves every other row, and logs the change.
pub handle_assignment-Moves :
    (env : Env) (order : Order) (technician_id : ℕ) (company : ℕ) (by : Option ℕ) (now : ℕ)
    (db out : Db)
    → AreKeyed db.orders
    → handle_assignment env order (some technician_id) company by now db ≡ ok out
    → (out ≡ db)
      ⊎ ((locked : Order) × (lookup order.pk db.orders ≡ some locked)
          × (is_edit_assignable locked.status ≡ true)
          × (has_uncancelled_invoice locked db ≡ false)
          × Moves order.pk locked.status (status_after_edit locked.status) db out)
unfolding handle_assignment reassign_locked
handle_assignment-Moves env order technician_id company by now db out keyed h =
    elim (get_locked-Lock order.pk db _ h) [
      | locks locked found h₁ ↦
          elim (Bool-cases (
            same_key locked.technician (some technician_id)
            || not (is_edit_assignable locked.status))) [
              | inl e ↦ inl (sym (ok-injective (rw e at h₁)))
              | inr e ↦
                  elim (or_raise-found (find_available env technician_id company) invalid_technician
                    _ (rw e at h₁)) [
                      | available t h₂ ↦
                          let (no_invoice, h₃) =
                            raise_if-eq-ok (has_uncancelled_invoice locked db) has_live_invoice _
                              h₂ in
                          let target = status_after_edit locked.status in
                          let (saved, moves) =
                            locked-Moves order.pk locked
                              (assigned t (or_now locked.accepted_at now) target) locked.status
                              target by db _ found (keyed order.pk locked found) refl refl refl
                              h₃ in
                          inr (locked, found, ground arith, no_invoice, moves)
                    ]
            ]
    ]
