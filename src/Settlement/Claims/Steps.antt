-- ===== src/Settlement/Claims/Steps.antt =====
-- Histories of builds, executions and whatever else changes the database.
use rasti_kiro_gpt.Common.{ℕ, ◌≡◌, refl, ap, true, false, Option, arith}
use rasti_kiro_gpt.Common.Table.{save}
use rasti_kiro_gpt.Common.Result.{Result, ok, ok_pair}
use rasti_kiro_gpt.Payouts.Escrow.Table.{IsValid}
use rasti_kiro_gpt.Settlement.Books.{Books, Status, Error, TechnicianRow, is_failed, is_ready}
use rasti_kiro_gpt.Settlement.Builder.{BuildResult, build_layer2, build_layer1}
use rasti_kiro_gpt.Settlement.Builder.Linked.{AreDistinct}
use rasti_kiro_gpt.Settlement.Builder.Layer2.{build_layer2-Built2}
use rasti_kiro_gpt.Settlement.Execution.{ExecutionResult, execute_batch}
use rasti_kiro_gpt.Settlement.Execution.Completion.{
  completed_batch, complete_batch-Completion, with_status,
}
use rasti_kiro_gpt.Settlement.Execution.Outcome.{Outcome, execute_batch-Outcome}
use rasti_kiro_gpt.Settlement.Claims.Layer1.{IsGuarded, layer1-IsGuarded, build_layer1-Built1}
use rasti_kiro_gpt.Settlement.Claims.Layer2.{Rewrites, Rewrites-IsGuarded, layer2-IsGuarded}

ready_live : (s : Status) → is_ready s ≡ true → is_failed s ≡ false
ready_live s h = ground arith

executed-IsGuarded :
    (pk now : ℕ) (b out : Books) (r : ExecutionResult) {o : Result Error (ExecutionResult × Books)}
    → Outcome pk now b o
    → o ≡ ok (r, out)
    → IsGuarded b
    → IsGuarded out
executed-IsGuarded pk now b out r (Outcome.missing e) h g = absurd (cc)
executed-IsGuarded pk now b out r (Outcome.again batch found done) h g =
    let (x, y) = ok_pair h in rw y at g
executed-IsGuarded pk now b out r (Outcome.refused batch found open_ unready) h g = absurd (cc)
executed-IsGuarded pk now b out r (Outcome.completes batch n b' found ready done) h g =
    let (x, y) = ok_pair h in
    let c =
      complete_batch-Completion pk now n batch (with_status pk batch Status.executing b) b' done in
    let wrote : Rewrites b (record b' { batches = save pk (completed_batch now batch) b.batches }) =
      record {
        pk = pk;
        was = batch;
        row = completed_batch now batch;
        found = found;
        live = ready_live batch.status ready;
        batches = refl;
        items = ap (λ d. d.items) c.result;
        next = ap (λ d. d.next_batch) c.result;
        invoices = ap (λ d. d.invoices) c.result;
        valid = λ v. rw (ap (λ d. d.escrows) c.result) (c.valid v);
      } in
    rw y at (Rewrites-IsGuarded b _ wrote g)
executed-IsGuarded pk now b out r (Outcome.fails batch e found ready stopped) h g =
    let (x, y) = ok_pair h in
    let wrote : Rewrites b (with_status pk batch Status.failed b) = record {
      pk = pk;
      was = batch;
      row = record batch { status = Status.failed };
      found = found;
      live = ready_live batch.status ready;
      batches = refl;
      items = refl;
      next = refl;
      invoices = refl;
      valid = λ v. v;
    } in
    rw y at (Rewrites-IsGuarded b _ wrote g)

-- A step: a build or an execution that returns, or anything else that leaves batches and items alone
-- and keeps escrow records and invoices as the database does.
pub data Step (b : Books) : Books → Type 0 where
  builds1 :
      {out : Books} (company period_start period_end : ℕ) (r : BuildResult)
      → build_layer1 company period_start period_end b ≡ ok (r, out)
      → Step b out
  builds2 :
      {out : Books} (company period_start period_end : ℕ) (t : Option TechnicianRow)
      (r : BuildResult)
      → build_layer2 company period_start period_end t b ≡ ok (r, out)
      → Step b out
  executes :
      {out : Books} (pk now : ℕ) (r : ExecutionResult)
      → execute_batch pk now b ≡ ok (r, out)
      → Step b out
  elsewhere :
      {out : Books}
      → out.batches ≡ b.batches
      → out.items ≡ b.items
      → out.next_batch ≡ b.next_batch
      → IsValid out.escrows
      → AreDistinct out.invoices
      → Step b out

pub Step-IsGuarded : {b out : Books} → Step b out → IsGuarded b → IsGuarded out
Step-IsGuarded {b} {out} (builds1 company period_start period_end r h) g =
    layer1-IsGuarded company b out r
      (build_layer1-Built1 company period_start period_end b out r g.sound h) g
Step-IsGuarded {b} {out} (builds2 company period_start period_end t r h) g =
    layer2-IsGuarded company b out r
      (build_layer2-Built2 company period_start period_end t b out r h) g
Step-IsGuarded {b} {out} (executes pk now r h) g =
    executed-IsGuarded pk now b out r (execute_batch-Outcome pk now b) h g
Step-IsGuarded {b} {out} (elsewhere batches items next escrows distinct) g = record {
  sound = record {
    below = rw (items, next) g.sound.below;
    fresh = rw (next, batches) g.sound.fresh;
    escrows = escrows;
    distinct = distinct;
  };
  exclusive = λ c i. rw (items, batches) (g.exclusive c i);
}

pub data Reach (b : Books) : Books → Type 0 where
  begin : Reach b b
  then : {mid out : Books} → Reach b mid → Step mid out → Reach b out

-- However builds, executions and other changes follow one another, from books in order where no
-- invoice is claimed twice: the books stay in order, and no invoice is ever in two items of batches
-- that have not failed.
pub Reach-IsGuarded : {b out : Books} → Reach b out → IsGuarded b → IsGuarded out
Reach-IsGuarded begin g = g
Reach-IsGuarded (then r s) g = Step-IsGuarded s (Reach-IsGuarded r g)
