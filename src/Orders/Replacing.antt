-- ===== src/Orders/Replacing.antt =====
-- `OrderRecycleService` and `OrderReturnToCycleService`: the order is cancelled and a NEW one with
-- nobody assigned stands in for it, in one step.
use rasti_kiro_gpt.Common.{
  ℕ, suc, ◌<◌, ◌≡◌, ◌≢◌, refl, sym, ◌∙◌, ap, true, false, not, Option, none, some, [], ◌∷◌, arith,
  Bool-cases, inl, inr,
}
use rasti_kiro_gpt.Common.Table.{lookup, save, lookup-save_self, lookup-save_ne}
use rasti_kiro_gpt.Common.Result.{Result, ok, ◌>>=◌}
use rasti_kiro_gpt.Orders.Model.{
  Status, Details, Order, Db, Env, Error, log_for, add_log, is_terminal, notify, Notice,
  wrong_status, has_live_invoice, has_uncancelled_invoice,
}
use rasti_kiro_gpt.Orders.Recycling.{
  recycle, return_to_cycle, insert_order, copy_item_values, replacement, recycled_details,
  may_return,
}
use rasti_kiro_gpt.Orders.Completion.{values_of}
use rasti_kiro_gpt.Orders.Machine.{
  moved_db, transition_then, raise_if-eq-ok, get_locked-Lock, locks, ok-injective,
}

-- Each row is stored under its own key, and the next key is above them all.
abbrev pub IsValid : Db → Type 0
IsValid db = (k : ℕ) (o : Order) → lookup k db.orders ≡ some o → (o.pk ≡ k) × (k < db.next_order)

-- Order `pk`, which is `locked`, is cancelled in the row `closed`, and a new order with business data
-- `details` takes its place.
pub record Replaced (env : Env) (pk : ℕ) (locked closed : Order) (details : Details) (now : ℕ)
    (by : Option ℕ) (db : Db) (new_pk : ℕ) (out : Db) : Type 0 where
  pub found : lookup pk db.orders ≡ some locked
  pub next : new_pk ≡ db.next_order
  pub next_after : out.next_order ≡ suc db.next_order
  pub old_row : lookup pk out.orders ≡ some closed
  pub new_row : lookup new_pk out.orders ≡ some (replacement env locked details new_pk now)
  pub others : (j : ℕ) → j ≢ pk → j ≢ new_pk → lookup j out.orders ≡ lookup j db.orders
  pub values : values_of (replacement env locked details new_pk now) out ≡ values_of locked db
  pub logged :
      out.logs
      ≡ log_for (replacement env locked details new_pk now) none Status.new by
        ∷ log_for locked (some locked.status) Status.cancelled by
        ∷ db.logs

notice-Replaced :
    (env : Env) (pk : ℕ) (locked closed : Order) (details : Details) (now : ℕ) (by : Option ℕ)
    (db : Db) (new_pk : ℕ) (out : Db) (n : Notice)
    → Replaced env pk locked closed details now by db new_pk out
    → Replaced env pk locked closed details now by db new_pk (notify n out)
notice-Replaced env pk locked closed details now by db new_pk out n r = record {
  found = r.found;
  next = r.next;
  next_after = r.next_after;
  old_row = r.old_row;
  new_row = r.new_row;
  others = r.others;
  values = r.values;
  logged = r.logged;
}

copy-values :
    (source target : Order) (db : Db)
    → values_of target (copy_item_values source target.pk db) ≡ values_of source db
unfolding copy_item_values
copy-values source target db =
    ap (λ o. elim o [ none ↦ [] | some vs ↦ vs ])
      (lookup-save_self target.pk (values_of source db) db.item_values)

-- The new order's row, log entry and item values, on top of the database with the old order closed.
abbrev inserted_db : Env → Order → Details → ℕ → Option ℕ → Db → Db → Db
inserted_db env locked details now by db db₁ =
    let new_order = replacement env locked details db.next_order now in
    copy_item_values locked db.next_order (
      add_log (log_for new_order none new_order.status by) (record db₁ {
        orders = save db₁.next_order new_order db₁.orders;
        next_order = suc db₁.next_order;
      }))

inserted_db-Replaced :
    (env : Env) (pk : ℕ) (locked : Order) (write : Order → Order) (details : Details) (now : ℕ)
    (by : Option ℕ) (db : Db)
    → IsValid db
    → lookup pk db.orders ≡ some locked
    → locked.pk ≡ pk
    → Replaced env pk locked (write locked) details now by db db.next_order (
        inserted_db env locked details now by db
          (moved_db locked write locked locked.status Status.cancelled by db))
unfolding copy_item_values replacement
inserted_db-Replaced env pk locked write details now by db valid found key =
    let (own, below) = valid pk locked found in
    let db₁ = moved_db locked write locked locked.status Status.cancelled by db in
    let closed = save locked.pk (write locked) db.orders in
    let new_order = replacement env locked details db.next_order now in
    record {
      found = found;
      next = refl;
      next_after = refl;
      old_row = ◌∙◌ (lookup-save_ne pk db.next_order new_order closed (ground arith)) (
          ◌∙◌ (ap (λ k. lookup k closed) (sym key))
            (lookup-save_self locked.pk (write locked) db.orders));
      new_row = lookup-save_self db.next_order new_order closed;
      others = λ j ne ne'.
          ◌∙◌ (lookup-save_ne j db.next_order new_order closed ne')
            (lookup-save_ne j locked.pk (write locked) db.orders (λ e. ne (◌∙◌ e key)));
      values = copy-values locked new_order (
          add_log (log_for new_order none new_order.status by) (record db₁ {
            orders = save db₁.next_order new_order db₁.orders;
            next_order = suc db₁.next_order;
          }));
      logged = refl;
    }

-- A step that inserts has passed the model validation.
insert_order-eq-ok :
    (env : Env) (order : Order) (by : Option ℕ) (db : Db) (k : Db → Result Error (ℕ × Db))
    {out : ℕ × Db}
    → (insert_order env order by db >>= k) ≡ ok out
    → k (
        add_log (log_for order none order.status by) (record db {
          orders = save db.next_order order db.orders;
          next_order = suc db.next_order;
        }))
      ≡ ok out
unfolding insert_order
insert_order-eq-ok env order by db k h = elim (Bool-cases (env.full_clean order)) [
  | inl e ↦ rw e at h
  | inr e ↦ absurd (ground arith)
]

-- Recycling that succeeds, on an order table in order, was of a locked row that is not DONE or
-- CANCELLED; that row is then CANCELLED with nobody assigned, a NEW order with nobody assigned and the
-- recycled business data and item values stands under the next key, every other row is as before, and
-- both changes are logged.
pub recycle-Replaced :
    (env : Env) (order : Order) (by : Option ℕ) (now : ℕ) (db out : Db) (new_pk : ℕ)
    → IsValid db
    → recycle env order by now db ≡ ok (new_pk, out)
    → (locked : Order) × (is_terminal locked.status ≡ false)
      × Replaced env order.pk locked
          (record locked { status = Status.cancelled; technician = none })
          (recycled_details locked.details)
          now
          by
          db
          new_pk
          out
unfolding recycle
recycle-Replaced env order by now db out new_pk valid h = elim (get_locked-Lock order.pk db _ h) [
  | locks locked found h₁ ↦
      let (passed, h₂) = raise_if-eq-ok (is_terminal locked.status) wrong_status _ h₁ in
      let (own, below) = valid order.pk locked found in
      let here = ◌∙◌ (ap (λ k. lookup k db.orders) own) found in
      let write = λ (row : Order). record row { status = Status.cancelled; technician = none } in
      let h₃ = transition_then locked locked write locked.status Status.cancelled by db _ here h₂ in
      let e = ok-injective (insert_order-eq-ok env _ by _ _ h₃) in
      (
        locked,
        passed,
        rw (← ap (λ r. r.0) e, ← ap (λ r. r.1) e)
            (inserted_db-Replaced env order.pk locked write (recycled_details locked.details) now by
              db valid found own),
      )
]

-- A return to the cycle that succeeds, on an order table in order, was of a locked row without an
-- uncancelled invoice that is CANCEL_REQUESTED, NEW, WAITING or IN_PROGRESS; that row is then
-- CANCELLED, a NEW order with nobody assigned and all its business data and item values stands under
-- the next key, every other row is as before, and both changes are logged.
pub return_to_cycle-Replaced :
    (env : Env) (order : Order) (by : Option ℕ) (now : ℕ) (db out : Db) (new_pk : ℕ)
    → IsValid db
    → return_to_cycle env order by now db ≡ ok (new_pk, out)
    → (locked : Order) × (may_return locked.status ≡ true)
      × (has_uncancelled_invoice locked db ≡ false)
      × Replaced env order.pk locked
          (record locked { status = Status.cancelled })
          locked.details
          now
          by
          db
          new_pk
          out
unfolding return_to_cycle
return_to_cycle-Replaced env order by now db out new_pk valid h =
    elim (get_locked-Lock order.pk db _ h) [
      | locks locked found h₀ ↦
          let (no_invoice, h₁) =
            raise_if-eq-ok (has_uncancelled_invoice locked db) has_live_invoice _ h₀ in
          let (passed, h₂) = raise_if-eq-ok (not (may_return locked.status)) wrong_status _ h₁ in
          let (own, below) = valid order.pk locked found in
          let here = ◌∙◌ (ap (λ k. lookup k db.orders) own) found in
          let write = λ (row : Order). record row { status = Status.cancelled } in
          let h₃ =
            transition_then locked locked write locked.status Status.cancelled by db _ here h₂ in
          let e = ok-injective (insert_order-eq-ok env _ by _ _ h₃) in
          (
            locked,
            ground arith,
            no_invoice,
            rw (← ap (λ r. r.0) e, ← ap (λ r. r.1) e)
                (notice-Replaced env order.pk locked _ locked.details now by db _ _ _ (
                  inserted_db-Replaced env order.pk locked write locked.details now by db valid
                    found own)),
          )
    ]
