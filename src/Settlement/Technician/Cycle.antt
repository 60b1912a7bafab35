-- ===== src/Settlement/Technician/Cycle.antt =====
-- The build of a Layer 2 batch for one eligible technician, and its execution, step by step.
use rasti_kiro_gpt.Common.{
  ℕ, suc, ◌≡◌, refl, sym, ◌∙◌, true, false, ◌&&◌, none, some, [], ◌∷◌, ◌==◌, ltb, arith,
}
use rasti_kiro_gpt.Common.Int.{pos, int_laws}
use rasti_kiro_gpt.Common.Table.{save, lookup-save_self, save-save}
use rasti_kiro_gpt.Common.Result.{ok}
use rasti_kiro_gpt.Payouts.Ledger.Entry.{Key, Entry, Ledger, get_balance, has_key, find_key}
use rasti_kiro_gpt.Payouts.Ledger.Write.{write_entry, balance_with}
use rasti_kiro_gpt.Payouts.Ledger.Balance.{HasUniqueKeys, get_balance-write_entry}
use rasti_kiro_gpt.Payouts.Ledger.Keys.{find_key-write_entry}
use rasti_kiro_gpt.Settlement.Books.{
  Books, Batch, Item, Level, Status, TechnicianRow, exists, is_live,
}
use rasti_kiro_gpt.Settlement.Calculator.{
  classify, net_layer2, layer2_result, calculate_layer2, entry_is_of,
}
use rasti_kiro_gpt.Settlement.Calculator.Balance.{net_layer2-get_balance}
use rasti_kiro_gpt.Settlement.Planner.{
  Layer2PlanningItem, refusal_layer2, judged_layer2, evaluate_layer2, plan_layer2, plan_technicians,
  claims_technician,
}
use rasti_kiro_gpt.Settlement.Batches.{new_batch, create_batch, add_ledger_item, with_item}
use rasti_kiro_gpt.Settlement.Builder.{
  Totals, no_totals, add_amount, net_of, sum_of_batch, most_recent_entry, add_layer2_item,
  add_layer2_items, batch_layer2, build_layer2, built,
}
use rasti_kiro_gpt.Settlement.Builder.Closed.{AreBelow, ready_batch, finish_batch-eq, sum_of_new}
use rasti_kiro_gpt.Settlement.Builder.Layer2.{ledger_item}
use rasti_kiro_gpt.Settlement.Execution.{
  ExecutionStatus, outcome, pay_items, pay_of, complete_layer2, execute_batch,
}
use rasti_kiro_gpt.Settlement.Execution.Completion.{
  with_status, completed_batch, complete_batch-layer2,
}
use rasti_kiro_gpt.Settlement.Execution.Outcome.{ends_completed}
use rasti_kiro_gpt.Settlement.Technician.{
  pay_items-others, pay_item-eq, settlement_debit, recent-find_key,
}

entry-is_of :
    (l : Ledger) (t : ℕ) (k : Key) (e : Entry)
    → find_key k l ≡ some e
    → entry_is_of l t (some k) ≡ (e.technician == t)
unfolding entry_is_of
entry-is_of l t k e h = rw (h, entry_is_of) refl

module _ (b : Books) (t : TechnicianRow) (m : ℕ) (e : Entry) where
  abbrev pub n : ℕ
  n = b.next_batch

  abbrev pub i : ℕ
  i = b.next_item

  abbrev pub claim : Item
  claim = ledger_item t.company n e.idempotency_key (pos (suc m))

  abbrev pub one_total : Totals
  one_total = add_amount (pos (suc m)) no_totals

  abbrev pub row : Batch
  row = ready_batch t.company Level.org_to_provider one_total

  -- The books once the batch of the one technician is READY.
  abbrev pub batched : Books
  batched = record b {
    batches = save n row b.batches;
    items = (i, claim) ∷ b.items;
    next_batch = suc n;
    next_item = suc i;
  }

  abbrev pub planned : Layer2PlanningItem
  planned = judged_layer2 t.company t (layer2_result b t.company t) none

  -- The books once it is executed.
  abbrev pub settled : ℕ → Books
  settled now = record batched {
    ledger = (write_entry (settlement_debit t.company n i m e) b.ledger).1;
    batches = save n (completed_batch now row) batched.batches;
  }

  module _ (net : net_layer2 t.company t.technician_id b.ledger ≡ pos (suc m))
      (recent : most_recent_entry t.company t.technician_id b.ledger ≡ some e) where
    plans :
        refusal_layer2 b t.company t.technician_id
            (classify (net_layer2 t.company t.technician_id b.ledger))
          ≡ none
        → plan_layer2 b t.company (some t)
          ≡ ok (record { eligible_items = planned ∷ []; blocked_items = [] })
    unfolding plan_layer2 plan_technicians evaluate_layer2 calculate_layer2
    plans passes = let own : (t.company == t.company) ≡ true = ground arith in rw (own, passes) refl

    adds_item :
        add_layer2_item t.company n planned no_totals
          (create_batch t.company Level.org_to_provider b)
        ≡ ok (one_total, with_item claim (create_batch t.company Level.org_to_provider b))
    unfolding add_layer2_item create_batch add_ledger_item classify
    adds_item =
        let own : (t.company == t.company) ≡ true = ground arith in
        let more : (suc m == 0) ≡ false = ground arith in
        let found = lookup-save_self n (new_batch t.company Level.org_to_provider) b.batches in
        rw (net, more, own, recent, found) refl

    sum_one : AreBelow n b.items → sum_of_batch n ((i, claim) ∷ b.items) ≡ net_of one_total
    unfolding sum_of_batch
    sum_one below =
        let own : (n == n) ≡ true = ground arith in
        rw (own, sum_of_new n b.items below) (omega int_laws)

    batches_one :
        AreBelow n b.items
        → batch_layer2 t.company (planned ∷ []) b ≡ ok (built n one_total, batched)
    unfolding batch_layer2 add_layer2_items create_batch
    batches_one below =
        let start = create_batch t.company Level.org_to_provider b in
        let new = new_batch t.company Level.org_to_provider in
        let found = lookup-save_self n new b.batches in
        rw
          (
            adds_item,
            finish_batch-eq t.company n Level.org_to_provider one_total (with_item claim start)
                found (sum_one below),
            save-save n row new b.batches,
          )
          refl

    -- The build makes a batch of the one item.
    pub builds_one :
        (period_start period_end : ℕ)
        → ltb period_start period_end ≡ true
        → AreBelow n b.items
        → refusal_layer2 b t.company t.technician_id
            (classify (net_layer2 t.company t.technician_id b.ledger))
          ≡ none
        → build_layer2 t.company period_start period_end (some t) b
          ≡ ok (built n one_total, batched)
    unfolding build_layer2
    builds_one period_start period_end period below passes =
        rw (period, plans passes) (batches_one below)

    module _ (unique : HasUniqueKeys b.ledger)
        (free : has_key (Key.settlement_item n i) b.ledger ≡ false)
        (below : AreBelow n b.items) where
      pays :
          pay_items t.company n ((i, claim) ∷ b.items) b.ledger
          ≡ ok (1, (write_entry (settlement_debit t.company n i m e) b.ledger).1)
      unfolding pay_items pay_of
      pays =
          let (found, own, known) =
            recent-find_key t.company t.technician_id b.ledger e unique recent in
          let ours : (t.company == t.company && n == n) ≡ true = ground arith in
          rw
            (
              pay_items-others t.company n b.items b.ledger below,
              ours,
              pay_item-eq t.company n i m claim e b.ledger found refl free,
            )
            refl

      -- The execution pays it.
      pub executes_one :
          (now : ℕ)
          → execute_batch n now batched ≡ ok (outcome ExecutionStatus.completed 1, settled now)
      unfolding complete_layer2
      executes_one now =
          let found = lookup-save_self n row b.batches in
          let run = with_status n row Status.executing batched in
          let b' : Books = record run {
            ledger = (write_entry (settlement_debit t.company n i m e) b.ledger).1;
          } in
          let paid : complete_layer2 n row run ≡ ok (1, b') = rw pays refl in
          let done = ◌∙◌ (complete_batch-layer2 n now row run refl) paid in
          ends_completed n now row batched found 1 b' refl done

      -- Nothing is owed afterwards.
      pub owes_nothing :
          (now : ℕ) → get_balance t.company t.technician_id (settled now).ledger ≡ pos 0
      unfolding balance_with
      owes_nothing now =
          let (found, own, known) =
            recent-find_key t.company t.technician_id b.ledger e unique recent in
          let of_t : e.technician ≡ t.technician_id = ground arith in
          let was = ◌∙◌ (sym (net_layer2-get_balance t.company t.technician_id b.ledger)) net in
          let r = settlement_debit t.company n i m e in
          let own_row : (t.company == t.company && e.technician == t.technician_id) ≡ true =
            ground arith in
          ◌∙◌ (get_balance-write_entry t.company t.technician_id r b.ledger)
            (rw (free, own_row, was) (omega int_laws))

      -- The technician is claimed by the batch.
      pub claims_one :
          (now : ℕ)
          → exists
              (claims_technician
                (settled now).batches
                (settled now).ledger
                t.company
                t.technician_id)
              (settled now).items
            ≡ true
      unfolding exists is_live
      claims_one now =
          let (found, own, known) =
            recent-find_key t.company t.technician_id b.ledger e unique recent in
          let of_t : (e.technician == t.technician_id) ≡ true = ground arith in
          let ours : (t.company == t.company) ≡ true = ground arith in
          let r = settlement_debit t.company n i m e in
          let kept = find_key-write_entry e.idempotency_key r b.ledger e found in
          let its : entry_is_of (write_entry r b.ledger).1 t.technician_id (some e.idempotency_key)
              ≡ true =
            ◌∙◌ (entry-is_of (write_entry r b.ledger).1 t.technician_id e.idempotency_key e kept)
              of_t in
          let done = lookup-save_self n (completed_batch now row) (save n row b.batches) in
          let live : is_live (settled now).batches n ≡ true = rw (done, is_live) refl in
          rw (ours, its, live) refl
