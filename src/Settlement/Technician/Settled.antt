-- ===== src/Settlement/Technician/Settled.antt =====
-- A technician who is settled, and what the planner says of the technician afterwards.
use rasti_kiro_gpt.Common.{
  ℕ, suc, ◌<◌, ◌≡◌, refl, sym, ap, ◌∙◌, true, false, Option, none, some, List, [], ◌∷◌, ◌==◌, ltb,
  is_some, arith, Option-cases, inl, inr,
}
use rasti_kiro_gpt.Common.Int.{pos}
use rasti_kiro_gpt.Common.Table.{Table}
use rasti_kiro_gpt.Common.Result.{ok}
use rasti_kiro_gpt.Payouts.Ledger.Entry.{
  Key, Request, Entry, Ledger, get_balance, has_key, find_key,
}
use rasti_kiro_gpt.Payouts.Ledger.Write.{write_entry}
use rasti_kiro_gpt.Payouts.Ledger.Balance.{HasUniqueKeys}
use rasti_kiro_gpt.Payouts.Ledger.Keys.{find_key-write_entry}
use rasti_kiro_gpt.Settlement.Books.{Books, Batch, Item, TechnicianRow, exists}
use rasti_kiro_gpt.Settlement.Calculator.{
  Reason, classify, net_layer2, layer2_result, calculate_layer2, entry_is_of,
}
use rasti_kiro_gpt.Settlement.Calculator.Balance.{net_layer2-get_balance}
use rasti_kiro_gpt.Settlement.Planner.{
  Layer2PlanningItem, refusal_layer2, judged_layer2, evaluate_layer2, claims_technician,
}
use rasti_kiro_gpt.Settlement.Builder.{most_recent_entry, build_layer2, built, BuildResult}
use rasti_kiro_gpt.Settlement.Builder.Linked.{IsSound}
use rasti_kiro_gpt.Settlement.Execution.{ExecutionStatus, outcome, execute_batch}
use rasti_kiro_gpt.Settlement.Technician.{payable_positive, eligible_payable, balance_none}
use rasti_kiro_gpt.Settlement.Technician.Cycle.{
  one_total, batched, settled, builds_one, executes_one, owes_nothing, claims_one,
}

not_refused :
    (b : Books) (t : TechnicianRow) (item : Layer2PlanningItem)
    → evaluate_layer2 b t.company t ≡ ok item
    → item.eligible ≡ true
    → is_some (
        refusal_layer2 b t.company t.technician_id
          (classify (net_layer2 t.company t.technician_id b.ledger)))
      ≡ false
unfolding evaluate_layer2 calculate_layer2
not_refused b t item judged eligible =
    let own : (t.company == t.company) ≡ true = ground arith in
    let same : judged_layer2 t.company t (layer2_result b t.company t) (
          refusal_layer2 b t.company t.technician_id
            (classify (net_layer2 t.company t.technician_id b.ledger)))
        ≡ item =
      let x = rw own at judged in cc x in
    let shown = ap (λ x. x.eligible) same in ground (arith, eligible, shown)

-- An eligible technician is settled: on books in order, where the key of the item is not in the
-- ledger yet, the build of a batch for the technician and its execution both succeed, the batch is
-- COMPLETED with one ledger entry, the technician's balance is nothing, and the batch claims the
-- technician.
pub settle_technician :
    (b : Books) (t : TechnicianRow) (period_start period_end now : ℕ) (item : Layer2PlanningItem)
    → IsSound b
    → HasUniqueKeys b.ledger
    → has_key (Key.settlement_item b.next_batch b.next_item) b.ledger ≡ false
    → period_start < period_end
    → evaluate_layer2 b t.company t ≡ ok item
    → item.eligible ≡ true
    → (r : BuildResult) × (mid : Books) × (out : Books) × (build_layer2 t.company period_start
          period_end
          (some t)
          b
        ≡ ok (r, mid))
      × (r.batch ≡ some b.next_batch)
      × (execute_batch b.next_batch now mid ≡ ok (outcome ExecutionStatus.completed 1, out))
      × (get_balance t.company t.technician_id out.ledger ≡ pos 0)
      × (exists (claims_technician out.batches out.ledger t.company t.technician_id) out.items
          ≡ true)
settle_technician b t period_start period_end now item v unique free period judged eligible =
    let refusal =
      refusal_layer2 b t.company t.technician_id
        (classify (net_layer2 t.company t.technician_id b.ledger)) in
    let lets : is_some refusal ≡ false = not_refused b t item judged eligible in
    let (payable, passes) =
      eligible_payable b t.company t.technician_id
        (classify (net_layer2 t.company t.technician_id b.ledger)) lets in
    let (m, net) = payable_positive (net_layer2 t.company t.technician_id b.ledger) payable in
    let before : ltb period_start period_end ≡ true = ground arith in
    elim (Option-cases (most_recent_entry t.company t.technician_id b.ledger)) [
      | inl e ↦
          let nothing = balance_none t.company t.technician_id b.ledger e in
          let was = net_layer2-get_balance t.company t.technician_id b.ledger in
          absurd (let x : pos (suc m) ≡ pos 0 = ◌∙◌ (sym net) (◌∙◌ was nothing) in cc x)
      | inr (e, recent) ↦ (
        built b.next_batch (one_total b t m e),
        batched b t m e,
        settled b t m e now,
        builds_one b t m e net recent period_start period_end before v.below passes,
        refl,
        executes_one b t m e net recent unique free v.below now,
        owes_nothing b t m e net recent unique free v.below now,
        claims_one b t m e net recent unique free v.below now,
      )
    ]

-- Postings to the ledger in a row.
unfoldable pub write_all : List Request → Ledger → Ledger
write_all [] l = l
write_all (r ∷ rs) l = write_all rs (write_entry r l).1

find_key-write_all :
    (k : Key) (rs : List Request) (l : Ledger) (e : Entry)
    → find_key k l ≡ some e
    → find_key k (write_all rs l) ≡ some e
unfolding write_all
find_key-write_all k [] l e h = h
find_key-write_all k (r ∷ rs) l e h =
    find_key-write_all k rs (write_entry r l).1 e (find_key-write_entry k r l e h)

entry_is_of-stays :
    (rs : List Request) (l : Ledger) (t : ℕ) (o : Option Key)
    → entry_is_of l t o ≡ true
    → entry_is_of (write_all rs l) t o ≡ true
unfolding entry_is_of
entry_is_of-stays rs l t none h = h
entry_is_of-stays rs l t (some k) h = elim (Option-cases (find_key k l)) [
  | inl e ↦ absurd (let x = rw (e, entry_is_of) at h in cc x)
  | inr (e, found) ↦
      rw (find_key-write_all k rs l e found, entry_is_of) (rw (found, entry_is_of) at h)
]

claim_stays :
    (rs : List Request) (l : Ledger) (c t : ℕ) (batches : Table Batch) (items : Table Item)
    → exists (claims_technician batches l c t) items ≡ true
    → exists (claims_technician batches (write_all rs l) c t) items ≡ true
unfolding exists
claim_stays rs l c t batches [] h = h
claim_stays rs l c t batches ((k, item) ∷ items) h =
    ground (arith, entry_is_of-stays rs l t item.ledger_entry, claim_stays rs l c t batches items)

-- A technician whom a batch that has not failed claims, a COMPLETED one included, stays blocked
-- whatever is posted to the ledger afterwards: the planner sees the new balance, and settles none
-- of it.
pub claimed_technician_blocked :
    (b : Books) (t : TechnicianRow) (rs : List Request)
    → exists (claims_technician b.batches b.ledger t.company t.technician_id) b.items ≡ true
    → let later = record b { ledger = write_all rs b.ledger } in
      (item : Layer2PlanningItem) × (evaluate_layer2 later t.company t ≡ ok item)
      × (item.eligible ≡ false)
      × (item.blocked_reason ≡ some Reason.item_in_batch)
      × (item.calculation.net_position_rial ≡ get_balance t.company t.technician_id later.ledger)
unfolding evaluate_layer2 calculate_layer2 refusal_layer2
claimed_technician_blocked b t rs h =
    let later = record b { ledger = write_all rs b.ledger } in
    let own : (t.company == t.company) ≡ true = ground arith in
    let claimed = claim_stays rs b.ledger t.company t.technician_id b.batches b.items h in
    (
      judged_layer2 t.company t (layer2_result later t.company t) (some Reason.item_in_batch),
      rw (own, claimed) refl,
      refl,
      refl,
      net_layer2-get_balance t.company t.technician_id later.ledger,
    )
