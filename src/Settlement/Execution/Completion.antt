-- ===== src/Settlement/Execution/Completion.antt =====
-- What completing a batch changes.
use rasti_kiro_gpt.Common.{ℕ, ◌≡◌, ◌⊎◌, refl, sym, ◌∙◌, some, [], ◌∷◌, arith, inl, inr}
use rasti_kiro_gpt.Common.Table.{Table, save}
use rasti_kiro_gpt.Common.Result.{Result, ok, err, >>=-eq-ok}
use rasti_kiro_gpt.Payouts.Escrow.Defs.{EscrowRecord, Escrows, Error as EscrowError, mark_settled}
use rasti_kiro_gpt.Payouts.Escrow.Machine.{call, settles}
use rasti_kiro_gpt.Payouts.Escrow.Table.{IsValid, update-IsValid}
use rasti_kiro_gpt.Payouts.Ledger.Entry.{Ledger}
use rasti_kiro_gpt.Payouts.Fees.{Fees}
use rasti_kiro_gpt.Settlement.Books.{Books, Batch, Status, Level, execution_error}
use rasti_kiro_gpt.Settlement.Builder.{lift_escrow}
use rasti_kiro_gpt.Settlement.Execution.{
  settle_escrows, complete_layer1, complete_layer2, complete_batch, escrows_of, total_commission,
  credit_fees, pay_items,
}

-- The books while the batch is executed, and with the batch as it is in the end.
abbrev pub with_status : ℕ → Batch → Status → Books → Books
with_status pk batch status b = record b {
  batches = save pk (record batch { status = status }) b.batches;
}

abbrev pub completed_batch : ℕ → Batch → Batch
completed_batch now batch = record batch { status = Status.completed; executed_at = some now }

-- What completing a batch may change: ledger, fees and escrow records.
pub record Completion (b b' : Books) : Type 0 where
  pub ledger : Ledger
  pub fees : Fees
  pub escrows : Escrows
  pub result : b' ≡ record b { ledger = ledger; fees = fees; escrows = escrows }
  pub valid : IsValid b.escrows → IsValid escrows

pub lift_escrow-ok :
    {A : Type 0} (r : Result EscrowError A) (a : A) → lift_escrow r ≡ ok a → r ≡ ok a
lift_escrow-ok (ok x) a h = cc
lift_escrow-ok (err e) a h = absurd (cc)

pub settle_escrows-IsValid :
    (batch now : ℕ) (rows : Table EscrowRecord) (escrows out : Escrows)
    → settle_escrows batch now rows escrows ≡ ok out
    → IsValid escrows
    → IsValid out
unfolding settle_escrows mark_settled call
settle_escrows-IsValid batch now [] escrows out h v = let e : escrows ≡ out = cc in rw e at v
settle_escrows-IsValid batch now ((pk, row) ∷ rows) escrows out h v =
    let (step, first, rest) =
      >>=-eq-ok (lift_escrow (mark_settled pk (some batch) now escrows))
        (λ (step : EscrowRecord × Escrows). settle_escrows batch now rows step.1) h in
    let moved = lift_escrow-ok (mark_settled pk (some batch) now escrows) step first in
    settle_escrows-IsValid batch now rows step.1 out rest
      (update-IsValid (settles (some batch) now) pk escrows step.0 step.1 moved v)

layer1-Completion :
    (pk now n : ℕ) (batch : Batch) (b b' : Books)
    → complete_layer1 pk batch now b ≡ ok (n, b')
    → Completion b b'
unfolding complete_layer1
layer1-Completion pk now n batch b b' h =
    let escrows = escrows_of batch.company pk b.escrows.rows in
    let fees = credit_fees batch.company pk (total_commission escrows) b.fees in
    let (settled, first, rest) =
      >>=-eq-ok (settle_escrows pk now escrows b.escrows)
        (λ (settled : Escrows). ok (fees.0, record b { fees = fees.1; escrows = settled })) h in
    record {
      ledger = b.ledger;
      fees = fees.1;
      escrows = settled;
      result = cc rest;
      valid = settle_escrows-IsValid pk now escrows b.escrows settled first;
    }

layer2-Completion :
    (pk n : ℕ) (batch : Batch) (b b' : Books)
    → complete_layer2 pk batch b ≡ ok (n, b')
    → Completion b b'
unfolding complete_layer2
layer2-Completion pk n batch b b' h =
    let (paid, first, rest) =
      >>=-eq-ok (pay_items batch.company pk b.items b.ledger)
        (λ (paid : ℕ × Ledger). ok (paid.0, record b { ledger = paid.1 })) h in
    record { ledger = paid.1; fees = b.fees; escrows = b.escrows; result = cc rest; valid = λ v. v }

Level-cases :
    (l : Level) → (l ≡ Level.platform_to_org) ⊎ ((l ≡ Level.org_to_provider) ⊎ (l ≡ Level.unknown))
Level-cases Level.platform_to_org = inl refl
Level-cases Level.org_to_provider = inr (inl refl)
Level-cases Level.unknown = inr (inr refl)

pub complete_batch-layer1 :
    (pk now : ℕ) (batch : Batch) (b : Books)
    → batch.level ≡ Level.platform_to_org
    → complete_batch pk batch now b ≡ complete_layer1 pk batch now b
unfolding complete_batch
complete_batch-layer1 pk now batch b e = ground (arith, e)

pub complete_batch-layer2 :
    (pk now : ℕ) (batch : Batch) (b : Books)
    → batch.level ≡ Level.org_to_provider
    → complete_batch pk batch now b ≡ complete_layer2 pk batch b
unfolding complete_batch
complete_batch-layer2 pk now batch b e = ground (arith, e)

-- A batch whose level is neither of the two is not executed.
complete_batch-unknown :
    (pk now : ℕ) (batch : Batch) (b : Books)
    → batch.level ≡ Level.unknown
    → complete_batch pk batch now b ≡ err execution_error
unfolding complete_batch
complete_batch-unknown pk now batch b e = ground (arith, e)

pub complete_batch-Completion :
    (pk now n : ℕ) (batch : Batch) (b b' : Books)
    → complete_batch pk batch now b ≡ ok (n, b')
    → Completion b b'
complete_batch-Completion pk now n batch b b' h = elim (Level-cases batch.level) [
  | inl e ↦
      layer1-Completion pk now n batch b b' (◌∙◌ (sym (complete_batch-layer1 pk now batch b e)) h)
  | inr (inl e) ↦
      layer2-Completion pk n batch b b' (◌∙◌ (sym (complete_batch-layer2 pk now batch b e)) h)
  | inr (inr e) ↦ absurd (let x = ◌∙◌ (sym (complete_batch-unknown pk now batch b e)) h in cc x)
]
