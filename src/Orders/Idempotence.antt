-- ===== src/Orders/Idempotence.antt =====
-- `OrderAssignService.assign` called twice for one technician.
use rasti_kiro_gpt.Common.{ℕ, ◌≡◌, refl, true, Option, ◌==◌}
use rasti_kiro_gpt.Common.Result.{err}
use rasti_kiro_gpt.Orders.Model.{Order, Db, Technician, get_locked, wrong_status}
use rasti_kiro_gpt.Orders.Assignment.{assign}
use rasti_kiro_gpt.Orders.Locked.{Assigned}

-- Once an assignment has given an order to an available technician of its company, the same
-- assignment made again is refused for the order's status.
pub assign_again :
    (order : Order) (t : Technician) (by : Option ℕ) (now later : ℕ) (db out : Db)
    → Assigned order.pk t now db out
    → (order.company == t.company) ≡ true
    → t.is_available ≡ true
    → assign order t by later out ≡ err wrong_status
unfolding assign get_locked
assign_again order t by now later db out a mine free = rw (mine, free, a.saved) refl
