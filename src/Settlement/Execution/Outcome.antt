-- ===== src/Settlement/Execution/Outcome.antt =====
-- Every way that the execution of a batch can end.
use rasti_kiro_gpt.Common.{
  ℕ, ◌≡◌, refl, true, false, none, some, arith, Bool-cases, Option-cases, inl, inr,
}
use rasti_kiro_gpt.Common.Table.{lookup, save, lookup-save_self, save-save}
use rasti_kiro_gpt.Common.Result.{Result, ok, err, Result-cases}
use rasti_kiro_gpt.Settlement.Books.{
  Books, Batch, Status, Error, is_ready, is_completed, does_not_exist, batch_transition,
}
use rasti_kiro_gpt.Settlement.Batches.{transition, mark_executing, mark_completed, mark_failed}
use rasti_kiro_gpt.Settlement.Execution.{
  ExecutionStatus, ExecutionResult, outcome, complete_batch, complete, conclude, execute_batch,
}
use rasti_kiro_gpt.Settlement.Execution.Completion.{
  with_status, completed_batch, complete_batch-Completion,
}

-- How an execution ends.
pub data Outcome (pk now : ℕ) (b : Books) : Result Error (ExecutionResult × Books) → Type 0 where
  missing : lookup pk b.batches ≡ none → Outcome pk now b (err does_not_exist)
  again :
      (batch : Batch)
      → lookup pk b.batches ≡ some batch
      → is_completed batch.status ≡ true
      → Outcome pk now b (ok (outcome ExecutionStatus.already_completed 0, b))
  refused :
      (batch : Batch)
      → lookup pk b.batches ≡ some batch
      → is_completed batch.status ≡ false
      → is_ready batch.status ≡ false
      → Outcome pk now b (err batch_transition)
  completes :
      (batch : Batch) (n : ℕ) (b' : Books)
      → lookup pk b.batches ≡ some batch
      → is_ready batch.status ≡ true
      → complete_batch pk batch now (with_status pk batch Status.executing b) ≡ ok (n, b')
      → Outcome pk now b (
          ok (
            outcome ExecutionStatus.completed n,
            record b' { batches = save pk (completed_batch now batch) b.batches },
          ))
  fails :
      (batch : Batch) (e : Error)
      → lookup pk b.batches ≡ some batch
      → is_ready batch.status ≡ true
      → complete_batch pk batch now (with_status pk batch Status.executing b) ≡ err e
      → Outcome pk now b
          (ok (outcome ExecutionStatus.failed 0, with_status pk batch Status.failed b))

ready_open : (s : Status) → is_ready s ≡ true → is_completed s ≡ false
ready_open s h = ground arith

module _ (pk now : ℕ) (batch : Batch) (b : Books) (found : lookup pk b.batches ≡ some batch) where
  abbrev pub running : Books
  running = with_status pk batch Status.executing b

  starts : is_ready batch.status ≡ true → mark_executing pk b ≡ ok running
  unfolding mark_executing transition
  starts ready = rw (found, ready) refl

  fails_to :
      (e : Error)
      → complete pk batch now running ≡ err e
      → conclude pk running (complete pk batch now running)
        ≡ ok (outcome ExecutionStatus.failed 0, with_status pk batch Status.failed b)
  unfolding conclude mark_failed transition
  fails_to e h =
      let row = record batch { status = Status.executing } in
      rw
        (
          h,
          lookup-save_self pk row b.batches,
          save-save pk (record batch { status = Status.failed }) row b.batches,
        )
        refl

  completes_to :
      (n : ℕ) (b' : Books)
      → complete_batch pk batch now running ≡ ok (n, b')
      → complete pk batch now running
        ≡ ok (n, record b' { batches = save pk (completed_batch now batch) b.batches })
  unfolding complete mark_completed transition
  completes_to n b' h =
      let row = record batch { status = Status.executing } in
      let c = complete_batch-Completion pk now n batch running b' h in
      rw
        (
          h,
          c.result,
          lookup-save_self pk row b.batches,
          save-save pk (completed_batch now batch) row b.batches,
        )
        refl

  ends_failed :
      (e : Error)
      → is_ready batch.status ≡ true
      → complete_batch pk batch now running ≡ err e
      → execute_batch pk now b
        ≡ ok (outcome ExecutionStatus.failed 0, with_status pk batch Status.failed b)
  unfolding execute_batch
  ends_failed e ready h =
      let stopped : complete pk batch now running ≡ err e = unfold complete in rw h refl in
      rw (found, ready_open batch.status ready, starts ready) (fails_to e stopped)

  pub ends_completed :
      (n : ℕ) (b' : Books)
      → is_ready batch.status ≡ true
      → complete_batch pk batch now running ≡ ok (n, b')
      → execute_batch pk now b
        ≡ ok (
          outcome ExecutionStatus.completed n,
          record b' { batches = save pk (completed_batch now batch) b.batches },
        )
  unfolding execute_batch conclude
  ends_completed n b' ready h =
      rw (found, ready_open batch.status ready, starts ready, completes_to n b' h) refl

  ends_again :
      is_completed batch.status ≡ true
      → execute_batch pk now b ≡ ok (outcome ExecutionStatus.already_completed 0, b)
  unfolding execute_batch
  ends_again done = rw (found, done) refl

  ends_refused :
      is_completed batch.status ≡ false
      → is_ready batch.status ≡ false
      → execute_batch pk now b ≡ err batch_transition
  unfolding execute_batch mark_executing transition
  ends_refused open_ unready = rw (found, open_, unready) refl

  found-Outcome : Outcome pk now b (execute_batch pk now b)
  found-Outcome = elim (Bool-cases (is_ready batch.status)) [
    | inl ready ↦ elim (Result-cases (complete_batch pk batch now running)) [
      | inl ((n, b'), h) ↦ rw (ends_completed n b' ready h) (completes batch n b' found ready h)
      | inr (e, h) ↦ rw (ends_failed e ready h) (fails batch e found ready h)
    ]
    | inr unready ↦ elim (Bool-cases (is_completed batch.status)) [
      | inl done ↦ rw (ends_again done) (again batch found done)
      | inr open_ ↦ rw (ends_refused open_ unready) (refused batch found open_ unready)
    ]
  ]

-- An execution ends in one of five ways. A batch that is not there, and one that is neither READY nor
-- COMPLETED, is refused; a COMPLETED one is left with everything as it is; a READY one is always
-- decided: it is COMPLETED with what completing it wrote, or, if completing it raises, it is FAILED
-- and nothing else has changed.
pub execute_batch-Outcome : (pk now : ℕ) (b : Books) → Outcome pk now b (execute_batch pk now b)
unfolding execute_batch
execute_batch-Outcome pk now b = elim (Option-cases (lookup pk b.batches)) [
  | inl e ↦ rw e (missing e)
  | inr (batch, found) ↦ found-Outcome pk now batch b found
]
