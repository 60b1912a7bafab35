-- ===== src/Orders/Accepting.antt =====
-- What `TechnicianAcceptService.accept` (apps/orders/services.py) asks and leaves, and the move of a
-- locked row.
use rasti_kiro_gpt.Common.{
  ℕ, ◌≡◌, refl, sym, ◌∙◌, ap, true, false, Option, none, some, arith, is_some, Option-cases, inl,
  inr,
}
use rasti_kiro_gpt.Common.Table.{lookup, save, lookup-save_self}
use rasti_kiro_gpt.Common.Result.{Result, ok, ◌>>=◌, or_raise}
use rasti_kiro_gpt.Orders.Model.{
  Status, Order, Db, Env, Error, Technician, transition, notify, Notice,
}
use rasti_kiro_gpt.Orders.Eligibility.{
  active_order_limit_reached, is_delayed, is_future_order_visible,
  is_order_accept_allowed_by_service_date,
}
use rasti_kiro_gpt.Orders.Assignment.{check_skill, check_dates}
use rasti_kiro_gpt.Orders.Machine.{moved_db, moved_db-Moved, transition_then, ok-injective}
use rasti_kiro_gpt.Orders.Steps.{Moves}

-- An order `locked` that is accepted: it was NEW and nobody's, and the technician's company's;
-- the technician is available, has the skill of its category and has not reached the
-- limit of active orders; the delay of that priority has passed; and the service date lets it be
-- seen and accepted. It is the technician's and WAITING now.
pub record Accepted (env : Env) (order : Order) (t : Technician) (now : ℕ) (db out : Db)
    : Type 0 where
  pub locked : Order
  pub found : lookup order.pk db.orders ≡ some locked
  pub own : order.company ≡ t.company
  pub was_new : locked.status ≡ Status.new
  pub was_free : locked.technician ≡ none
  pub available : t.is_available ≡ true
  pub category : ℕ
  pub of_category : locked.service_category ≡ some category
  pub priority : ℕ
  pub has_skill : env.category_priority t.technician_id category ≡ some priority
  pub has_room :
      active_order_limit_reached t (env.settings locked.company).max_active_orders_per_technician db
      ≡ false
  pub in_time : is_delayed locked priority now ≡ false
  pub visible : is_future_order_visible env locked (env.settings locked.company) now ≡ true
  pub due :
      is_order_accept_allowed_by_service_date env locked (env.settings locked.company) now ≡ true
  pub saved :
      lookup order.pk out.orders
      ≡ some (record locked {
        technician = some t.technician_id;
        status = Status.waiting;
        accepted_at = some now;
      })
  pub moves : Moves order.pk Status.new Status.waiting db out

moved_at :
    (pk pk' : ℕ) (old target : Status) (db db' : Db)
    → pk ≡ pk'
    → Moves pk old target db db'
    → Moves pk' old target db db'
moved_at pk pk' old target db db' e m = rw e at m

-- A row that is locked under key `pk`, moved, with a notice.
pub locked-Moves :
    (pk : ℕ) (row : Order) (write : Order → Order) (old target : Status) (by : Option ℕ) (db : Db)
    (n : Notice) {out : Db}
    → lookup pk db.orders ≡ some row
    → row.pk ≡ pk
    → row.status ≡ old
    → (write row).status ≡ target
    → (write row).pk ≡ row.pk
    → (transition row write row.status target by db >>= λ db'. ok (notify n db')) ≡ ok out
    → (lookup pk out.orders ≡ some (write row)) × Moves pk old target db out
locked-Moves pk row write old target by db n found key was becomes same h =
    let here = ◌∙◌ (ap (λ k. lookup k db.orders) key) found in
    let moved = moved_db row write row row.status target by db in
    let moves = moved_db-Moved row row write row.status target by db here refl becomes same in
    let e = ok-injective (transition_then row row write row.status target by db _ here h) in
    let saved =
      ◌∙◌ (ap (λ k. lookup k (save row.pk (write row) db.orders)) (sym key))
        (lookup-save_self row.pk (write row) db.orders) in
    (rw (← e) saved, rw (← e, ← was) (moved_at row.pk pk row.status target db moved key moves))

-- The object that a step has found, and the rest of the step.
pub data Available {ℓ} {A : Type ℓ} (k : A → Result Error Db) (out : Db) : Type ℓ where
  available : (a : A) → k a ≡ ok out → Available k out

pub or_raise-found {ℓ} :
    {A : Type ℓ} (o : Option A) (e : Error) (k : A → Result Error Db) {out : Db}
    → (or_raise o e >>= k) ≡ ok out
    → Available k out
or_raise-found none e k h = absurd (cc)
or_raise-found (some a) e k h = available a h

-- What the rules on skill, workload and delay ask.
pub data IsFit (env : Env) (t : Technician) (now : ℕ) (locked : Order) (db : Db) : Type 0 where
  is_fit :
      (category priority : ℕ)
      → locked.service_category ≡ some category
      → t.is_available ≡ true
      → env.category_priority t.technician_id category ≡ some priority
      → active_order_limit_reached t
          (env.settings locked.company).max_active_orders_per_technician
          db
        ≡ false
      → is_delayed locked priority now ≡ false
      → IsFit env t now locked db

pub check_skill-IsFit :
    (env : Env) (t : Technician) (now : ℕ) (locked : Order) (db : Db)
    → check_skill env t now locked db ≡ ok tt
    → IsFit env t now locked db
unfolding check_skill
check_skill-IsFit env t now locked db h = elim (Option-cases locked.service_category) [
  | inl e ↦ absurd (let x = rw e at h in cc x)
  | inr (category, e) ↦ elim (Option-cases (env.category_priority t.technician_id category)) [
    | inl f ↦ absurd (ground (arith, e, f))
    | inr (priority, f) ↦
        is_fit category priority e (ground (arith, e, f)) f (ground (arith, e, f))
          (ground (arith, e, f))
  ]
]

pub check_dates-passed :
    (env : Env) (now : ℕ) (locked : Order)
    → check_dates env now locked ≡ ok tt
    → (is_future_order_visible env locked (env.settings locked.company) now ≡ true)
      × (is_order_accept_allowed_by_service_date env locked (env.settings locked.company) now
          ≡ true)
unfolding check_dates
check_dates-passed env now locked h = ground arith

pub nobody : (o : Option ℕ) → is_some o ≡ false → o ≡ none
nobody none h = refl
nobody (some n) h = absurd (cc)
