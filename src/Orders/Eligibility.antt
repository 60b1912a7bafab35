-- ===== src/Orders/Eligibility.antt =====
-- apps/orders/eligibility.py, and the active-order counts of apps/orders/selectors.py.
use rasti_kiro_gpt.Common.{
  ℕ, ◌+◌, ◌*◌, Bool, true, false, ◌&&◌, ◌||◌, not, Option, none, some, [], ◌∷◌, ◌==◌, ltb, leb,
  same_key, is_some, if◌then◌else◌,
}
use rasti_kiro_gpt.Common.Table.{Table}
use rasti_kiro_gpt.Orders.Model.{Status, Text, Order, Technician, Settings, Env, Db, same_status}

-- `calculate_priority_visibility_times`
unfoldable pub calculate_priority_visibility_times : Env → ℕ → ℕ → ℕ × ℕ
calculate_priority_visibility_times env company base_time =
    let s = env.settings company in
    (base_time + 60 * s.priority2_delay_minutes, base_time + 60 * s.priority3_delay_minutes)

abbrev pub or_else {ℓ} : {A : Type ℓ} → Option A → A → Option A
or_else none a = some a
or_else (some b) _ = some b

-- `set_missing_priority_visibility_times`
unfoldable pub set_missing_priority_visibility_times : Env → ℕ → Order → Order
unfolding calculate_priority_visibility_times
set_missing_priority_visibility_times env now order =
    if not (same_status order.status Status.new)
    then order
    else (let (p2, p3) = calculate_priority_visibility_times env order.company now in
        record order {
          priority2_visible_at = or_else order.priority2_visible_at p2;
          priority3_visible_at = or_else order.priority3_visible_at p3;
        })

-- `get_order_service_date`, with `_as_local_date`
unfoldable pub get_order_service_date : Env → Order → Option ℕ
get_order_service_date env order = elim order.service_date [
  | some d ↦ some d
  | none ↦ elim order.scheduled_for [ none ↦ none | some t ↦ some (env.local_date t) ]
]

-- The daily gate: from when on, if at all.
abbrev pub gate_open : Env → Option ℕ → ℕ → Bool
gate_open env none now = true
gate_open env (some gate) now = leb gate (env.local_time now)

-- `is_future_order_visible`
unfoldable pub is_future_order_visible : Env → Order → Settings → ℕ → Bool
unfolding get_order_service_date
is_future_order_visible env order settings now = elim (get_order_service_date env order) [
  | none ↦ true
  | some scheduled_date ↦
      if leb scheduled_date (env.local_date now)
      then true
      else if not settings.show_future_orders_to_technicians
      then false
      else gate_open env settings.future_orders_visible_after now
]

-- `is_order_accept_allowed_by_service_date`
unfoldable pub is_order_accept_allowed_by_service_date : Env → Order → Settings → ℕ → Bool
unfolding get_order_service_date
is_order_accept_allowed_by_service_date env order settings now =
    elim (get_order_service_date env order) [
      | none ↦ true
      | some service_date ↦
          if ltb service_date (env.local_date now)
          then true
          else if ltb (env.local_date now) service_date
          then false
          else gate_open env settings.future_orders_visible_after now
    ]

-- `ACTIVE_TECHNICIAN_STATUSES`
abbrev pub is_active : Status → Bool
is_active Status.waiting = true
is_active Status.in_progress = true
is_active _ = false

-- An order that counts against the technician's workload.
abbrev pub is_load_of : Technician → Order → Bool
is_load_of t o =
    o.company == t.company && same_key o.technician (some t.technician_id) && is_active o.status

-- `TechnicianOrderVisibilitySelector.get_active_order_count`
unfoldable pub get_active_order_count : Technician → Table Order → ℕ
get_active_order_count t [] = 0
get_active_order_count t ((k, o) ∷ orders) =
    (if is_load_of t o then 1 else 0) + get_active_order_count t orders

-- `_active_order_limit_reached`, and the workload rule of the accept service
unfoldable pub active_order_limit_reached : Technician → ℕ → Db → Bool
unfolding get_active_order_count
active_order_limit_reached t limit db =
    ltb 0 limit && leb limit (get_active_order_count t db.orders)

-- `order.priorityN_visible_at is None or order.priorityN_visible_at > now`
abbrev pub not_yet : Option ℕ → ℕ → Bool
not_yet none now = true
not_yet (some t) now = ltb now t

-- Whether the delay for the technician's priority has still to pass.
unfoldable pub is_delayed : Order → ℕ → ℕ → Bool
is_delayed order priority now =
    (priority == 2 && not_yet order.priority2_visible_at now)
    || (priority == 3 && not_yet order.priority3_visible_at now)

-- `_is_category_order_visible_to_technician`
unfoldable pub is_category_order_visible : Env → Order → Technician → ℕ → Db → Bool
unfolding active_order_limit_reached is_delayed is_future_order_visible
is_category_order_visible env order t now db = elim order.service_category [
  | none ↦ false
  | some category ↦ elim (env.category_priority t.technician_id category) [
    | none ↦ false
    | some priority ↦
        not (
          active_order_limit_reached t (env.settings order.company).max_active_orders_per_technician
            db)
        && not (is_delayed order priority now)
        && is_future_order_visible env order (env.settings order.company) now
  ]
]

abbrev pub is_empty : Text → Bool
is_empty [] = true
is_empty (c ∷ cs) = false

-- `_is_legacy_skill_order_visible_to_technician`, with the default of its limit
unfoldable pub is_legacy_skill_order_visible : Env → Order → Technician → ℕ → Db → Bool
unfolding active_order_limit_reached is_future_order_visible
is_legacy_skill_order_visible env order t now db =
    not (active_order_limit_reached t 5 db)
    && (is_empty order.required_skill || env.has_skill t.technician_id order.required_skill)
    && is_future_order_visible env order (env.settings order.company) now

-- `is_order_visible_to_technician`
unfoldable pub is_order_visible_to_technician : Env → Order → Option Technician → ℕ → Db → Bool
unfolding is_category_order_visible is_legacy_skill_order_visible
is_order_visible_to_technician env order none now db = false
is_order_visible_to_technician env order (some t) now db =
    order.company == t.company
    && same_status order.status Status.new
    && not (is_some order.technician)
    && t.is_available
    && (if is_some order.service_category
        then is_category_order_visible env order t now db
        else is_legacy_skill_order_visible env order t now db)
