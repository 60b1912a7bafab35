-- ===== src/Settlement/Claims/Again.antt =====
-- A second build of a company: `build_layer1_batch` after `build_layer1_batch`.
use rasti_kiro_gpt.Common.{ℕ, ◌≡◌, ◌<◌, refl, true, [], ◌∷◌, ltb, arith}
use rasti_kiro_gpt.Common.Result.{ok}
use rasti_kiro_gpt.Settlement.Books.{Books}
use rasti_kiro_gpt.Settlement.Planner.{plan_layer1}
use rasti_kiro_gpt.Settlement.Planner.Eligible.{plan-ArePlanned}
use rasti_kiro_gpt.Settlement.Builder.{BuildResult, build_layer1, batch_layer1, nothing_built}
use rasti_kiro_gpt.Settlement.Builder.Linked.{IsSound}
use rasti_kiro_gpt.Settlement.Builder.Again.{plans_nothing}
use rasti_kiro_gpt.Settlement.Claims.Layer1.{Built1, build_layer1-Built1}

builds_nothing :
    (company period_start period_end : ℕ) (b : Books)
    → ltb period_start period_end ≡ true
    → (plan_layer1 b company).eligible_items ≡ []
    → build_layer1 company period_start period_end b ≡ ok (nothing_built, b)
unfolding build_layer1 batch_layer1
builds_nothing company period_start period_end b period h = rw (period, h) refl

left_with_nothing :
    (company : ℕ) (b out : Books) (r : BuildResult)
    → Built1 company b r out
    → (plan_layer1 out company).eligible_items ≡ []
unfolding plan_layer1
left_with_nothing company b out r (Built1.nothing e) = e
left_with_nothing company b out r (Built1.batched x xs escrows e moved) =
    plans_nothing b company (x ∷ xs) _ escrows refl moved
      (rw e at (plan-ArePlanned b company b.invoices))

-- After a build of a Layer 1 batch that succeeds on books in order, a build of the same company for
-- any period that starts before it ends makes no batch and changes nothing.
pub build_layer1_again :
    (company period_start period_end : ℕ) (b out : Books) (r : BuildResult)
    (later_start later_end : ℕ)
    → IsSound b
    → build_layer1 company period_start period_end b ≡ ok (r, out)
    → later_start < later_end
    → build_layer1 company later_start later_end out ≡ ok (nothing_built, out)
build_layer1_again company period_start period_end b out r later_start later_end v h period =
    let made = build_layer1-Built1 company period_start period_end b out r v h in
    builds_nothing company later_start later_end out (ground arith)
      (left_with_nothing company b out r made)
