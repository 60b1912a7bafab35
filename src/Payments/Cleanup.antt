-- ===== src/Payments/Cleanup.antt =====
-- The cleanup of apps/payments/services_expiration.py on its own table.
use rasti_kiro_gpt.Common.{
  ℕ, zero, suc, ◌≡◌, ◌⊎◌, refl, sym, ap, ◌∙◌, Bool, true, false, Option, some, [], ◌∷◌, ◌==◌, ltb,
  is_some, arith, Bool-cases, inl, inr,
}
use rasti_kiro_gpt.Common.Table.{Table, lookup}
use rasti_kiro_gpt.Common.Result.{ok, succeeds, Result-cases}
use rasti_kiro_gpt.Payments.Defs.{PaymentRow, Env, Bank, is_paid, verify}
use rasti_kiro_gpt.Payments.Expiration.{
  Counts, no_counts, is_waiting, is_old, insert_by_age, old_payments, take, expire_locked,
  expire_row, expire_rows, expire_old_pending_payments,
}
use rasti_kiro_gpt.Payments.Expired.{GivenUp, Cleans, row-Cleans, expire_rows-Cleans}

-- The keys of the rows are in the table.
abbrev pub AreThere : Table PaymentRow → Table PaymentRow → Type 0
AreThere payments [] = Unit {0}
AreThere payments ((k, x) ∷ rows) =
    ((p : PaymentRow) × (lookup k payments ≡ some p)) × AreThere payments rows

cons-AreThere :
    (j : ℕ) (x : PaymentRow) (payments rows : Table PaymentRow)
    → AreThere payments rows
    → AreThere ((j, x) ∷ payments) rows
unfolding lookup
cons-AreThere j x payments [] h = tt
cons-AreThere j x payments ((k, y) ∷ rows) ((p, found), h) = elim (Bool-cases (k == j)) [
  | inl e ↦ ((x, rw e refl), cons-AreThere j x payments rows h)
  | inr e ↦ ((p, rw e found), cons-AreThere j x payments rows h)
]

insert-AreThere :
    (k : ℕ) (x p : PaymentRow) (payments rows : Table PaymentRow)
    → lookup k payments ≡ some p
    → AreThere payments rows
    → AreThere payments (insert_by_age (k, x) rows)
unfolding insert_by_age
insert-AreThere k x p payments [] found h = ((p, found), tt)
insert-AreThere k x p payments ((j, y) ∷ rows) found (first, h) =
    elim (Bool-cases (ltb y.created_at x.created_at)) [
      | inl e ↦ rw e (first, insert-AreThere k x p payments rows found h)
      | inr e ↦ rw e ((p, found), (first, h))
    ]

pub old_payments-AreThere :
    (now : ℕ) (minutes company : Option ℕ) (payments : Table PaymentRow)
    → AreThere payments (old_payments now minutes company payments)
unfolding old_payments lookup
old_payments-AreThere now minutes company [] = tt
old_payments-AreThere now minutes company ((k, x) ∷ payments) =
    let rest =
      cons-AreThere k x payments (old_payments now minutes company payments)
        (old_payments-AreThere now minutes company payments) in
    let own : (k == k) ≡ true = ground arith in
    elim (Bool-cases (is_old now minutes company x)) [
      | inl e ↦ rw e (
          insert-AreThere k x x ((k, x) ∷ payments) (old_payments now minutes company payments)
            (rw own refl) rest)
      | inr e ↦ rw e rest
    ]

take-AreThere :
    (n : ℕ) (payments rows : Table PaymentRow)
    → AreThere payments rows
    → AreThere payments (take n rows)
unfolding take
take-AreThere n payments [] h = tt
take-AreThere zero payments (x ∷ rows) h = tt
take-AreThere (suc n) payments ((k, x) ∷ rows) (first, h) = (first, take-AreThere n payments rows h)

Cleans-AreThere :
    (b out : Bank) (rows : Table PaymentRow)
    → Cleans b out
    → AreThere b.payments rows
    → AreThere out.payments rows
Cleans-AreThere b out [] c h = tt
Cleans-AreThere b out ((k, x) ∷ rows) c ((p, found), h) = elim (c.each k) [
  | inl same ↦ ((p, ◌∙◌ same found), Cleans-AreThere b out rows c h)
  | inr given_up ↦ ((_, given_up.now), Cleans-AreThere b out rows c h)
]

locked-returns :
    (pk : ℕ) (p : PaymentRow) (c : Counts) (b : Bank)
    → lookup pk b.payments ≡ some p
    → succeeds (expire_locked pk c b) ≡ true
unfolding expire_locked
locked-returns pk p c b h = elim (Bool-cases (is_paid p.status)) [
  | inl e ↦ rw (h, e) refl
  | inr e ↦ elim (Bool-cases (is_waiting p.status)) [
    | inl f ↦ rw (h, e, f) refl
    | inr f ↦ rw (h, e, f) refl
  ]
]

row-returns :
    (dry_run : Bool) (pk : ℕ) (x p : PaymentRow) (c : Counts) (b : Bank)
    → lookup pk b.payments ≡ some p
    → succeeds (expire_row dry_run (pk, x) c b) ≡ true
unfolding expire_row
row-returns dry_run pk x p c b h = elim (Bool-cases (is_paid x.status)) [
  | inl e ↦ rw e refl
  | inr e ↦ elim (Bool-cases (is_some x.gateway)) [
    | inr g ↦ rw (e, g) refl
    | inl g ↦ elim (Bool-cases dry_run) [
      | inl d ↦ rw (e, g, d) refl
      | inr d ↦ rw (e, g, d) (locked-returns pk p _ b h)
    ]
  ]
]

pub rows-returns :
    (dry_run : Bool) (rows : Table PaymentRow) (c : Counts) (b : Bank)
    → AreThere b.payments rows
    → (c' : Counts) × (out : Bank) × (expire_rows dry_run rows c b ≡ ok (c', out))
unfolding expire_rows
rows-returns dry_run [] c b h = (c, b, refl)
rows-returns dry_run ((k, x) ∷ rows) c b ((p, found), h) =
    elim (Result-cases (expire_row dry_run (k, x) c b)) [
      | inr (e, stops) ↦ absurd (
          let returns = row-returns dry_run k x p c b found in
          let never = ◌∙◌ (sym (ap succeeds stops)) returns in cc never)
      | inl ((c', mid), first) ↦
          let cleans = row-Cleans dry_run k x c c' b mid first in
          let (c'', out, rest) =
            rows-returns dry_run rows c' mid (Cleans-AreThere b mid rows cleans h) in
          (c'', out, rw first rest)
    ]

-- The cleanup always returns. With it only payments are written, and each is as it was, or was
-- PENDING or INITIATED and is now NEEDS_RECONCILIATION; a verification of such a payment, by a
-- callback that comes late, answers no and changes nothing.
pub expire-GivenUp :
    (env : Env) (now : ℕ) (minutes company : Option ℕ) (limit : ℕ) (dry_run : Bool) (b : Bank)
    → (c : Counts) × (out : Bank) × (expire_old_pending_payments now minutes company limit dry_run b
        ≡ ok (c, out))
      × (out ≡ record b { payments = out.payments })
      × ((k : ℕ)
          → (lookup k out.payments ≡ lookup k b.payments)
            ⊎ (GivenUp k b out × ((later : ℕ) → verify env k later out ≡ ok (false, out))))
unfolding expire_old_pending_payments
expire-GivenUp env now minutes company limit dry_run b =
    let rows = take limit (old_payments now minutes company b.payments) in
    let there =
      take-AreThere limit b.payments (old_payments now minutes company b.payments)
        (old_payments-AreThere now minutes company b.payments) in
    let (c, out, ran) = rows-returns dry_run rows no_counts b there in
    let (frame, each) = expire_rows-Cleans env dry_run rows no_counts c b out ran in
    (c, out, ran, frame, each)
