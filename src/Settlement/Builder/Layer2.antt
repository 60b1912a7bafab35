-- ===== src/Settlement/Builder/Layer2.antt =====
-- What a build of a Layer 2 batch writes: items for ledger entries, and one batch.
use rasti_kiro_gpt.Common.{
  ℕ, ◌≡◌, refl, sym, ◌∙◌, Bool, not, Option, none, some, List, [], ◌∷◌, ◌==◌, ltb, Bool-cases,
  Option-cases, inl, inr,
}
use rasti_kiro_gpt.Common.Int.{ℤ, same_ℤ}
use rasti_kiro_gpt.Common.Table.{lookup, save, save-save}
use rasti_kiro_gpt.Common.Result.{
  Result, ok, ◌>>=◌, ◌>>◌, raise_if, or_raise, >>=-eq-ok, after_check, ok_pair,
}
use rasti_kiro_gpt.Payouts.Ledger.Entry.{Key, Entry}
use rasti_kiro_gpt.Settlement.Books.{
  Books, Batch, Item, Level, Status, Error, TechnicianRow, is_calculating,
}
use rasti_kiro_gpt.Settlement.Planner.{Layer2PlanningItem, Report, plan_layer2}
use rasti_kiro_gpt.Settlement.Batches.{
  create_batch, transition, mark_ready, lock_calculating, add_ledger_item, with_item,
}
use rasti_kiro_gpt.Settlement.Builder.{
  Totals, no_totals, add_amount, is_payable, add_layer2_item, add_layer2_items, save_totals,
  finish_batch, batch_layer2, build_layer2, built, nothing_built, BuildResult, most_recent_entry,
  net_of, sum_of_batch,
}

-- The item of a ledger entry.
abbrev pub ledger_item : ℕ → ℕ → Key → ℤ → Item
ledger_item company pk key amount = record {
  company = company;
  batch = pk;
  invoice = none;
  ledger_entry = some key;
  platform_fee_entry = none;
  amount_rial = amount;
}

-- Books that have grown by items for ledger entries, of one batch.
pub data Grows (pk : ℕ) (b : Books) : Books → Type 0 where
  same : Grows pk b b
  adds :
      {b' : Books} (company : ℕ) (key : Key) (amount : ℤ)
      → Grows pk b b'
      → Grows pk b (with_item (ledger_item company pk key amount) b')

or_raise-eq-ok : {A : Type 0} (o : Option A) (e : Error) (a : A) → or_raise o e ≡ ok a → o ≡ some a
or_raise-eq-ok none e a h = absurd (cc)
or_raise-eq-ok (some x) e a h = cc

add_ledger_item-item :
    (pk : ℕ) (key : Key) (amount : ℤ) (b out : Books)
    → add_ledger_item pk key amount b ≡ ok out
    → (company : ℕ) × (out ≡ with_item (ledger_item company pk key amount) b)
unfolding add_ledger_item
add_ledger_item-item pk key amount b out h =
    let (row, first, rest) =
      >>=-eq-ok (lock_calculating pk b)
        (λ (batch : Batch). ok (with_item (ledger_item batch.company pk key amount) b)) h in
    (row.company, cc rest)

grown :
    (pk : ℕ) (key : Key) (amount : ℤ) (b mid out : Books)
    → Grows pk b mid
    → add_ledger_item pk key amount mid ≡ ok out
    → Grows pk b out
grown pk key amount b mid out g h =
    let (company, e) = add_ledger_item-item pk key amount mid out h in
    rw e (adds company key amount g)

item-Grows :
    (company pk : ℕ) (x : Layer2PlanningItem) (t t' : Totals) (b mid out : Books)
    → Grows pk b mid
    → add_layer2_item company pk x t mid ≡ ok (t', out)
    → Grows pk b out
unfolding add_layer2_item
item-Grows company pk x t t' b mid out g h =
    let amount = x.calculation.net_position_rial in
    let grows : Books → Result Error (Totals × Books) = λ b'. ok (add_amount amount t, b') in
    let attach : Entry → Result Error (Totals × Books) =
      λ entry. add_ledger_item pk entry.idempotency_key amount mid >>= grows in
    let entries =
      or_raise (most_recent_entry company x.technician_id mid.ledger) Error.no_entries in
    let own =
      raise_if (not (x.calculation.company == company)) Error.other_company
      >> (entries >>= attach) in
    let h₁ = after_check (not (is_payable x.calculation.position)) Error.not_payable own h in
    let h₂ =
      after_check (not (x.calculation.company == company)) Error.other_company (entries >>= attach)
        h₁ in
    let (entry, first, h₃) = >>=-eq-ok entries attach h₂ in
    let (b', second, h₄) =
      >>=-eq-ok (add_ledger_item pk entry.idempotency_key amount mid) grows h₃ in
    let last : b' ≡ out = cc h₄ in
    rw last at (grown pk entry.idempotency_key amount b mid b' g second)

items-Grows :
    (company pk : ℕ) (xs : List Layer2PlanningItem) (t t' : Totals) (b mid out : Books)
    → Grows pk b mid
    → add_layer2_items company pk xs t mid ≡ ok (t', out)
    → Grows pk b out
unfolding add_layer2_items
items-Grows company pk [] t t' b mid out g h = let e : mid ≡ out = cc in rw e at g
items-Grows company pk (x ∷ xs) t t' b mid out g h =
    let (step, first, rest) = >>=-eq-ok (add_layer2_item company pk x t mid) _ h in
    items-Grows company pk xs step.0 t' b step.1 out
      (item-Grows company pk x t step.0 b mid step.1 g first) rest

-- A write of the row of a batch.
abbrev pub Writes : ℕ → Books → Books → Type 0
Writes pk b out = (row : Batch) × (out ≡ record b { batches = save pk row b.batches })

save_totals-Writes :
    (pk : ℕ) (t : Totals) (b out : Books) → save_totals pk t b ≡ ok out → Writes pk b out
unfolding save_totals
save_totals-Writes pk t b out h = elim (Option-cases (lookup pk b.batches)) [
  | inl e ↦ absurd (let x = rw e at h in cc x)
  | inr (row, e) ↦ (
    record row {
      net_amount_rial = net_of t;
      total_credits = t.credits;
      total_debits = t.debits;
      items_count = t.count;
    },
    sym (let x = rw e at h in cc x),
  )
]

transition-Writes :
    (from : Status → Bool) (write : Batch → Batch) (pk : ℕ) (b out : Books)
    → transition from write pk b ≡ ok out
    → Writes pk b out
unfolding transition
transition-Writes from write pk b out h = elim (Option-cases (lookup pk b.batches)) [
  | inl e ↦ absurd (let x = rw e at h in cc x)
  | inr (row, e) ↦ elim (Bool-cases (from row.status)) [
    | inl f ↦ (write row, sym (let x = rw (e, f) at h in cc x))
    | inr f ↦ absurd (let x = rw (e, f) at h in cc x)
  ]
]

Writes-trans : (pk : ℕ) (b mid out : Books) → Writes pk b mid → Writes pk mid out → Writes pk b out
Writes-trans pk b mid out (r, e) (q, f) = (q, ◌∙◌ f (rw e (rw (save-save pk q r b.batches) refl)))

-- Finishing a batch writes its row.
pub finish_batch-Writes :
    (pk : ℕ) (t : Totals) (b out : Books) → finish_batch pk t b ≡ ok out → Writes pk b out
unfolding finish_batch mark_ready
finish_batch-Writes pk t b out h =
    let checked : Books → Result Error Books = λ b'.
      raise_if (not (same_ℤ (sum_of_batch pk b'.items) (net_of t))) Error.totals_differ
      >> mark_ready pk b' in
    let (mid, first, rest) = >>=-eq-ok (save_totals pk t b) checked h in
    let ready =
      after_check (not (same_ℤ (sum_of_batch pk mid.items) (net_of t))) Error.totals_differ
        (mark_ready pk mid) rest in
    Writes-trans pk b mid out (save_totals-Writes pk t b mid first) (
      transition-Writes is_calculating (λ batch. record batch { status = Status.ready }) pk mid out
        ready)

-- A build of a Layer 2 batch that succeeds leaves the books as they are, or adds a batch with items for
-- ledger entries.
pub data Built2 (company : ℕ) (b : Books) : BuildResult → Books → Type 0 where
  nothing : Built2 company b nothing_built b
  batched :
      {r : BuildResult} {mid out : Books}
      → Grows b.next_batch (create_batch company Level.org_to_provider b) mid
      → Writes b.next_batch mid out
      → Built2 company b r out

batch-Built2 :
    (company : ℕ) (xs : List Layer2PlanningItem) (b out : Books) (r : BuildResult)
    → batch_layer2 company xs b ≡ ok (r, out)
    → Built2 company b r out
unfolding batch_layer2
batch-Built2 company [] b out r h = let (e, f) = ok_pair h in rw (← e, ← f) nothing
batch-Built2 company (x ∷ xs) b out r h =
    let pk = b.next_batch in
    let start = create_batch company Level.org_to_provider b in
    let finish : Totals × Books → Result Error (BuildResult × Books) =
      λ step. finish_batch pk step.0 step.1 >>= λ ready. ok (built pk step.0, ready) in
    let (step, first, rest) =
      >>=-eq-ok (add_layer2_items company pk (x ∷ xs) no_totals start) finish h in
    let close : Books → Result Error (BuildResult × Books) = λ ready. ok (built pk step.0, ready) in
    let (ready, second, last) = >>=-eq-ok (finish_batch pk step.0 step.1) close rest in
    let same_books : ready ≡ out = (ok_pair last).1 in
    batched (items-Grows company pk (x ∷ xs) no_totals step.0 start start step.1 same first)
      (rw same_books at (finish_batch-Writes pk step.0 step.1 ready second))

pub build_layer2-Built2 :
    (company period_start period_end : ℕ) (t : Option TechnicianRow) (b out : Books)
    (r : BuildResult)
    → build_layer2 company period_start period_end t b ≡ ok (r, out)
    → Built2 company b r out
unfolding build_layer2
build_layer2-Built2 company period_start period_end t b out r h =
    let build : Report Layer2PlanningItem → Result Error (BuildResult × Books) =
      λ report. batch_layer2 company report.eligible_items b in
    let h₁ =
      after_check (not (ltb period_start period_end)) Error.bad_period
        (plan_layer2 b company t >>= build) h in
    let (report, first, rest) = >>=-eq-ok (plan_layer2 b company t) build h₁ in
    batch-Built2 company report.eligible_items b out r rest
