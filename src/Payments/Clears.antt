-- ===== src/Payments/Clears.antt =====
-- The cleanup of apps/payments/services_expiration.py and the old payments of its query.
use rasti_kiro_gpt.Common.{
  ℕ, zero, suc, ◌≤◌, ◌≡◌, ◌⊎◌, refl, sym, ◌∙◌, true, false, Option, some, [], ◌∷◌, ◌==◌, ltb,
  is_some, arith, Bool-cases, Option-cases, inl, inr,
}
use rasti_kiro_gpt.Common.Table.{Table, lookup, lookup-save_self}
use rasti_kiro_gpt.Common.Result.{Result, ok, ok_pair, >>=-eq-ok}
use rasti_kiro_gpt.Invoice.MarkPaid.Defs.{Error}
use rasti_kiro_gpt.Payments.Defs.{Status, PaymentRow, Bank, is_paid}
use rasti_kiro_gpt.Payments.Expiration.{
  Counts, no_counts, is_waiting, is_old, insert_by_age, old_payments, take, expire_locked,
  expire_row, expire_rows, expire_old_pending_payments,
}
use rasti_kiro_gpt.Payments.Expired.{GivenUp, Cleans, rows-Cleans}
use rasti_kiro_gpt.Payouts.Escrow.Machine.{length}
use rasti_kiro_gpt.Payments.Cleanup.{old_payments-AreThere, rows-returns}

-- The row under a key is among the rows of a query.
abbrev IsAmong : ℕ → PaymentRow → Table PaymentRow → Type 0
IsAmong k p [] = ⊥
IsAmong k p ((j, x) ∷ rows) = ((j ≡ k) × (x ≡ p)) ⊎ IsAmong k p rows

insert-IsAmong :
    (k : ℕ) (x : PaymentRow) (rows : Table PaymentRow) → IsAmong k x (insert_by_age (k, x) rows)
unfolding insert_by_age
insert-IsAmong k x [] = inl (refl, refl)
insert-IsAmong k x ((j, y) ∷ rows) = elim (Bool-cases (ltb y.created_at x.created_at)) [
  | inl e ↦ rw e (inr (insert-IsAmong k x rows))
  | inr e ↦ rw e (inl (refl, refl))
]

insert-keeps :
    (k j : ℕ) (x y : PaymentRow) (rows : Table PaymentRow)
    → IsAmong k x rows
    → IsAmong k x (insert_by_age (j, y) rows)
unfolding insert_by_age
insert-keeps k j x y [] h = absurd h
insert-keeps k j x y ((i, z) ∷ rows) h = elim (Bool-cases (ltb z.created_at y.created_at)) [
  | inr e ↦ rw e (inr h)
  | inl e ↦ elim h [
    | inl here ↦ rw e (inl here)
    | inr later ↦ rw e (inr (insert-keeps k j x y rows later))
  ]
]

old-IsAmong :
    (now : ℕ) (minutes company : Option ℕ) (k : ℕ) (x : PaymentRow) (payments : Table PaymentRow)
    → lookup k payments ≡ some x
    → is_old now minutes company x ≡ true
    → IsAmong k x (old_payments now minutes company payments)
unfolding old_payments lookup
old-IsAmong now minutes company k x [] found old = absurd (cc)
old-IsAmong now minutes company k x ((j, y) ∷ payments) found old = elim (Bool-cases (k == j)) [
  | inl e ↦
      let this : y ≡ x = let f = rw e at found in cc f in
      let at : k ≡ j = ground arith in
      let old' : is_old now minutes company y ≡ true = rw this old in
      rw old' (rw (← at, this) (insert-IsAmong k x (old_payments now minutes company payments)))
  | inr e ↦
      let rest = old-IsAmong now minutes company k x payments (rw e at found) old in
      elim (Bool-cases (is_old now minutes company y)) [
        | inl f ↦ rw f (insert-keeps k j x y (old_payments now minutes company payments) rest)
        | inr f ↦ rw f rest
      ]
]

take_all : (n : ℕ) (rows : Table PaymentRow) → length rows ≤ n → take n rows ≡ rows
unfolding take
take_all n [] h = refl
take_all zero (x ∷ rows) h = absurd (omega arith)
take_all (suc n) (x ∷ rows) h = rw (take_all n rows (omega arith)) refl

-- A payment that does not wait.
abbrev IsDecided : ℕ → Bank → Type 0
IsDecided k b = (q : PaymentRow) → lookup k b.payments ≡ some q → is_waiting q.status ≡ false

Cleans-IsDecided : (k : ℕ) (b out : Bank) → Cleans b out → IsDecided k b → IsDecided k out
Cleans-IsDecided k b out c h q found = elim (c.each k) [
  | inl same ↦ h q (◌∙◌ (sym same) found)
  | inr g ↦ absurd (let no = h g.payment g.found in let yes_ = g.waiting in cc)
]

locked-IsDecided :
    (pk : ℕ) (c c' : Counts) (b out : Bank) → expire_locked pk c b ≡ ok (c', out) → IsDecided pk out
unfolding expire_locked
locked-IsDecided pk c c' b out h q found = elim (Option-cases (lookup pk b.payments)) [
  | inl e ↦ absurd (let x = rw e at h in cc x)
  | inr (p, e) ↦ elim (Bool-cases (is_paid p.status)) [
    | inl paid ↦
        let (_, f) = ok_pair (rw (e, paid) at h) in
        let same : p ≡ q = let y = rw (← f, e) at found in cc y in
        rw (← same) (ground (arith, paid))
    | inr unpaid ↦ elim (Bool-cases (is_waiting p.status)) [
      | inr done ↦
          let (_, f) = ok_pair (rw (e, unpaid, done) at h) in
          let same : p ≡ q = let y = rw (← f, e) at found in cc y in rw (← same) done
      | inl waiting ↦
          let (_, f) = ok_pair (rw (e, unpaid, waiting) at h) in
          let r = record p { status = Status.needs_reconciliation } in
          let same : r ≡ q = let y = rw (← f, lookup-save_self pk r b.payments) at found in cc y in
          rw (← same) refl
    ]
  ]
]

rows-IsDecided :
    (k : ℕ) (x : PaymentRow) (rows : Table PaymentRow) (c c' : Counts) (b out : Bank)
    → IsAmong k x rows
    → is_paid x.status ≡ false
    → is_some x.gateway ≡ true
    → expire_rows false rows c b ≡ ok (c', out)
    → IsDecided k out
unfolding expire_rows expire_row
rows-IsDecided k x [] c c' b out among unpaid has h = absurd among
rows-IsDecided k x ((j, y) ∷ rows) c c' b out among unpaid has h =
    let next : Counts × Bank → Result Error (Counts × Bank) =
      λ step. expire_rows false rows step.0 step.1 in
    let ((mid_counts, mid), first, rest) = >>=-eq-ok (expire_row false (j, y) c b) next h in
    elim among [
      | inr later ↦ rows-IsDecided k x rows mid_counts c' mid out later unpaid has rest
      | inl (at, this) ↦
          let opened = rw (at, this, unpaid, has) at first in
          Cleans-IsDecided k mid out (rows-Cleans false rows mid_counts c' mid out rest)
            (locked-IsDecided k _ mid_counts b mid opened)
    ]

-- A cleanup that is no dry run and whose limit is not below the number of the old payments returns,
-- and gives every old payment up: one of a gateway in the scope that was PENDING or INITIATED and was
-- created longer ago than the threshold.
pub expire_clears :
    (now : ℕ) (minutes company : Option ℕ) (limit k : ℕ) (x : PaymentRow) (b : Bank)
    → length (old_payments now minutes company b.payments) ≤ limit
    → lookup k b.payments ≡ some x
    → is_old now minutes company x ≡ true
    → (c : Counts) × (out : Bank) × (expire_old_pending_payments now minutes company limit false b
        ≡ ok (c, out))
      × GivenUp k b out
unfolding expire_old_pending_payments
expire_clears now minutes company limit k x b fits found old =
    let all = old_payments now minutes company b.payments in
    let there = old_payments-AreThere now minutes company b.payments in
    let (c, out, ran) = rows-returns false all no_counts b there in
    let cleans = rows-Cleans false all no_counts c b out ran in
    let waiting : is_waiting x.status ≡ true = ground arith in
    let unpaid : is_paid x.status ≡ false = ground arith in
    let has : is_some x.gateway ≡ true = ground arith in
    let decided =
      rows-IsDecided k x all no_counts c b out
        (old-IsAmong now minutes company k x b.payments found old) unpaid has ran in
    (
      c,
      out,
      rw (take_all limit all fits) ran,
      elim (cleans.each k) [
        | inr given_up ↦ given_up
        | inl same ↦ absurd (let no = decided x (◌∙◌ same found) in cc)
      ],
    )
