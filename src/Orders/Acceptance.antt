-- ===== src/Orders/Acceptance.antt =====
-- apps/orders/eligibility.py against apps/orders/services.py: which technicians see an order, and
-- whose acceptance succeeds.
use rasti_kiro_gpt.Common.{
  ℕ, ◌≡◌, refl, Bool, true, false, ◌&&◌, not, Option, some, ◌==◌, arith, is_some, Option-cases, inl,
  inr,
}
use rasti_kiro_gpt.Common.Result.{Result, ok, err, ◌>>◌, raise_if, succeeds}
use rasti_kiro_gpt.Orders.Model.{
  Status, Order, Db, Env, Technician, get_locked, same_status, foreign_technician, wrong_status,
  already_assigned,
}
use rasti_kiro_gpt.Orders.Eligibility.{
  is_order_visible_to_technician, is_category_order_visible, is_future_order_visible,
  is_order_accept_allowed_by_service_date,
}
use rasti_kiro_gpt.Orders.Assignment.{accept, check_skill, check_dates, assigned}
use rasti_kiro_gpt.Orders.Machine.{IsFresh, transition_found}

succeeds_chain {ε ℓ} :
    {E : Type ε} {B : Type ℓ} (a b c : Bool) (e₁ e₂ e₃ : E) (m n : Result E (Unit {0}))
    (k : Result E B)
    → succeeds k ≡ true
    → succeeds (raise_if (not a) e₁ >> (raise_if (not b) e₂ >> (raise_if c e₃ >> (m >> (n >> k)))))
      ≡ (a && b && not c && succeeds m && succeeds n)
succeeds_chain false b c e₁ e₂ e₃ m n k h = refl
succeeds_chain true false c e₁ e₂ e₃ m n k h = refl
succeeds_chain true true true e₁ e₂ e₃ m n k h = refl
succeeds_chain true true false e₁ e₂ e₃ (err e) n k h = refl
succeeds_chain true true false e₁ e₂ e₃ (ok u) (err e) k h = refl
succeeds_chain true true false e₁ e₂ e₃ (ok u) (ok v) k h = h

check_skill_iff :
    (env : Env) (t : Technician) (now : ℕ) (order : Order) (db : Db)
    → (succeeds (check_skill env t now order db)
        && is_future_order_visible env order (env.settings order.company) now)
      ≡ (is_some order.service_category
          && t.is_available
          && is_category_order_visible env order t now db)
unfolding check_skill is_category_order_visible
check_skill_iff env t now order db = elim (Option-cases order.service_category) [
  | inl e ↦ rw e refl
  | inr (category, e) ↦ elim (Option-cases (env.category_priority t.technician_id category)) [
    | inl f ↦ rw (e, f) (ground arith)
    | inr (priority, f) ↦ rw (e, f) (ground arith)
  ]
]

-- The acceptance of an order, apart from the writes.
accept-checks :
    (env : Env) (order : Order) (t : Technician) (by : Option ℕ) (now : ℕ) (db : Db)
    → IsFresh order db
    → succeeds (accept env order t by now db) ≡ (
        order.company == t.company
        && same_status order.status Status.new
        && not (is_some order.technician)
        && succeeds (check_skill env t now order db)
        && succeeds (check_dates env now order))
unfolding accept get_locked
accept-checks env order t by now db fresh =
    rw
      (
        fresh,
        transition_found order order (assigned t (some now) Status.waiting) order.status
            Status.waiting by db fresh,
      )
      (succeeds_chain (order.company == t.company) (same_status order.status Status.new)
        (is_some order.technician) foreign_technician wrong_status already_assigned
        (check_skill env t now order db) (check_dates env now order) _ refl)

-- For an order object that is the row, the technician's acceptance succeeds exactly when the order is
-- visible to the technician, has a category, and the service date allows it.
pub accept-succeeds :
    (env : Env) (order : Order) (t : Technician) (by : Option ℕ) (now : ℕ) (db : Db)
    → IsFresh order db
    → succeeds (accept env order t by now db) ≡ (
        is_order_visible_to_technician env order (some t) now db
        && is_some order.service_category
        && is_order_accept_allowed_by_service_date env order (env.settings order.company) now)
unfolding is_order_visible_to_technician check_dates
accept-succeeds env order t by now db fresh =
    rw (accept-checks env order t by now db fresh)
      (ground (arith, check_skill_iff env t now order db))
