-- ===== src/Invoice/Wage/Allocation.antt =====
-- What rounding does, and who absorbs a discount.
use rasti_kiro_gpt.Common.{ℕ, ◌+◌, ◌*◌, ◌≤◌, ◌<◌, ◌≡◌, arith}
use rasti_kiro_gpt.Common.Int.{ℤ, pos}
use rasti_kiro_gpt.Invoice.Wage.Defs.{
  DiscountPolicy, round_half_up, floor_zero, proportional_absorbed, absorbed_by, allocate_discount,
}

pub round_half_up-le : (n d m : ℕ) → 0 < d → n ≤ m * d → round_half_up n d ≤ m
unfolding round_half_up
round_half_up-le n d m h k = grind arith

pub round_half_up_near :
    (n d : ℕ)
    → 0 < d
    → (2 * (round_half_up n d * d) ≤ 2 * n + d) × (2 * n < 2 * (round_half_up n d * d) + d)
unfolding round_half_up
round_half_up_near n d h = (grind arith, grind arith)

proportional-le : (d t c : ℕ) → 0 < t + c → round_half_up (d * t) (t + c) ≤ d
proportional-le d t c h = round_half_up-le (d * t) (t + c) d h (grind arith)

half-le : (d : ℕ) → round_half_up d 2 ≤ d
unfolding round_half_up
half-le d = omega arith

proportional_conserves :
    (d t c : ℕ) → let (a, b) = proportional_absorbed d t c in (a + b ≡ d) × (a ≤ d)
unfolding proportional_absorbed
proportional_conserves d t c = ground (arith, proportional-le d t c)

absorbed_by_conserves :
    (p : DiscountPolicy) (d t c : ℕ) → let (a, b) = absorbed_by p d t c in a + b ≡ d
unfolding absorbed_by
absorbed_by_conserves DiscountPolicy.technician d t c = omega arith
absorbed_by_conserves DiscountPolicy.half_half d t c = omega (arith, half-le d)
absorbed_by_conserves DiscountPolicy.proportional_share d t c = (proportional_conserves d t c).0
absorbed_by_conserves DiscountPolicy.company d t c = omega arith

-- Whatever the policy, what the technician and the company absorb adds up to the discount, and to
-- nothing for a discount that is not positive.
pub allocate_discount_conserves :
    (discount : ℤ) (p : DiscountPolicy) (tech comp : ℤ)
    → let (a, b) = allocate_discount discount p tech comp in a + b ≡ floor_zero discount
unfolding allocate_discount
allocate_discount_conserves discount p tech comp =
    ground
      (arith, absorbed_by_conserves p (floor_zero discount) (floor_zero tech) (floor_zero comp))

-- Under the proportional policy the technician's part of a discount is within half a Rial of the
-- discount times the technician's part of the gross total (both sides multiplied by twice it).
pub proportional_share_fair :
    (d t c : ℕ)
    → 0 < d
    → 0 < t + c
    → let (a, b) = allocate_discount (pos d) DiscountPolicy.proportional_share (pos t) (pos c) in
      (2 * (a * (t + c)) ≤ 2 * (d * t) + (t + c)) × (2 * (d * t) < 2 * (a * (t + c)) + (t + c))
unfolding allocate_discount absorbed_by proportional_absorbed
proportional_share_fair d t c hd h = ground (arith, round_half_up_near (d * t) (t + c) h)
