-- ===== src/Payments/Expired.antt =====
-- What the cleanup of apps/payments/services_expiration.py writes, for any rows of its query.
use rasti_kiro_gpt.Common.{
  ℕ, ◌≡◌, ◌⊎◌, refl, sym, ap, ◌∙◌, Bool, true, false, some, [], ◌∷◌, ◌==◌, is_some, arith,
  Bool-cases, Option-cases, inl, inr,
}
use rasti_kiro_gpt.Common.Table.{Table, lookup, lookup-save_self, lookup-save_ne}
use rasti_kiro_gpt.Common.Result.{Result, ok, >>=-eq-ok, ok_pair}
use rasti_kiro_gpt.Invoice.MarkPaid.Defs.{Error}
use rasti_kiro_gpt.Payments.Defs.{Status, PaymentRow, Env, Bank, is_paid, verify}
use rasti_kiro_gpt.Payments.Expiration.{Counts, is_waiting, expire_locked, expire_row, expire_rows}

-- A payment that was PENDING or INITIATED and is given up.
pub record GivenUp (k : ℕ) (b out : Bank) : Type 0 where
  pub payment : PaymentRow
  pub found : lookup k b.payments ≡ some payment
  pub waiting : is_waiting payment.status ≡ true
  pub now : lookup k out.payments ≡ some (record payment { status = Status.needs_reconciliation })

-- Only payments are written, and each is as it was or given up.
pub record Cleans (b out : Bank) : Type 0 where
  pub frame : out ≡ record b { payments = out.payments }
  pub each : (k : ℕ) → (lookup k out.payments ≡ lookup k b.payments) ⊎ GivenUp k b out

same-Cleans : (b : Bank) → Cleans b b
same-Cleans b = record { frame = refl; each = λ k. inl refl }

then-GivenUp :
    (k : ℕ) (b mid out : Bank)
    → (lookup k mid.payments ≡ lookup k b.payments) ⊎ GivenUp k b mid
    → (lookup k out.payments ≡ lookup k mid.payments) ⊎ GivenUp k mid out
    → (lookup k out.payments ≡ lookup k b.payments) ⊎ GivenUp k b out
then-GivenUp k b mid out (inl e) (inl f) = inl (◌∙◌ f e)
then-GivenUp k b mid out (inr g) (inl f) =
    inr (record { payment = g.payment; found = g.found; waiting = g.waiting; now = ◌∙◌ f g.now })
then-GivenUp k b mid out (inl e) (inr g) =
    inr (record {
      payment = g.payment;
      found = ◌∙◌ (sym e) g.found;
      waiting = g.waiting;
      now = g.now;
    })
then-GivenUp k b mid out (inr g) (inr h) =
    let same : some (record g.payment { status = Status.needs_reconciliation }) ≡ some h.payment =
      ◌∙◌ (sym g.now) h.found in
    let row : record g.payment { status = Status.needs_reconciliation } ≡ h.payment = cc in
    absurd (let x : is_waiting Status.needs_reconciliation ≡ true = rw (← row) at h.waiting in cc x)

then-Cleans : (b mid out : Bank) → Cleans b mid → Cleans mid out → Cleans b out
then-Cleans b mid out c d = record {
  frame = ◌∙◌ d.frame (ap (λ (x : Bank). record x { payments = out.payments }) c.frame);
  each = λ k. then-GivenUp k b mid out (c.each k) (d.each k);
}

locked-Cleans :
    (pk : ℕ) (c c' : Counts) (b out : Bank) → expire_locked pk c b ≡ ok (c', out) → Cleans b out
unfolding expire_locked
locked-Cleans pk c c' b out h = elim (Option-cases (lookup pk b.payments)) [
  | inl e ↦ absurd (let x = rw e at h in cc x)
  | inr (p, e) ↦ elim (Bool-cases (is_paid p.status)) [
    | inl paid ↦ let (_, f) = ok_pair (rw (e, paid) at h) in rw (← f) (same-Cleans b)
    | inr unpaid ↦ elim (Bool-cases (is_waiting p.status)) [
      | inr done ↦ let (_, f) = ok_pair (rw (e, unpaid, done) at h) in rw (← f) (same-Cleans b)
      | inl waiting ↦
          let (_, f) = ok_pair (rw (e, unpaid, waiting) at h) in
          let q = record p { status = Status.needs_reconciliation } in
          rw (← f) (record {
            frame = refl;
            each = λ k. elim (Bool-cases (k == pk)) [
              | inr other ↦ inl (lookup-save_ne k pk q b.payments (λ s. absurd (ground arith)))
              | inl same ↦
                  let at : k ≡ pk = ground arith in
                  inr (record {
                    payment = p;
                    found = rw at e;
                    waiting = waiting;
                    now = rw at (lookup-save_self pk q b.payments);
                  })
            ];
          })
    ]
  ]
]

pub row-Cleans :
    (dry_run : Bool) (pk : ℕ) (p : PaymentRow) (c c' : Counts) (b out : Bank)
    → expire_row dry_run (pk, p) c b ≡ ok (c', out)
    → Cleans b out
unfolding expire_row
row-Cleans dry_run pk p c c' b out h = elim (Bool-cases (is_paid p.status)) [
  | inl e ↦ let (_, f) = ok_pair (rw e at h) in rw (← f) (same-Cleans b)
  | inr e ↦ elim (Bool-cases (is_some p.gateway)) [
    | inr g ↦ let (_, f) = ok_pair (rw (e, g) at h) in rw (← f) (same-Cleans b)
    | inl g ↦ elim (Bool-cases dry_run) [
      | inl d ↦ let (_, f) = ok_pair (rw (e, g, d) at h) in rw (← f) (same-Cleans b)
      | inr d ↦ locked-Cleans pk _ c' b out (rw (e, g, d) at h)
    ]
  ]
]

pub rows-Cleans :
    (dry_run : Bool) (rows : Table PaymentRow) (c c' : Counts) (b out : Bank)
    → expire_rows dry_run rows c b ≡ ok (c', out)
    → Cleans b out
unfolding expire_rows
rows-Cleans dry_run [] c c' b out h = let (_, f) = ok_pair h in rw (← f) (same-Cleans b)
rows-Cleans dry_run ((pk, p) ∷ rows) c c' b out h =
    let next : Counts × Bank → Result Error (Counts × Bank) =
      λ step. expire_rows dry_run rows step.0 step.1 in
    let ((mid_counts, mid), first, rest) = >>=-eq-ok (expire_row dry_run (pk, p) c b) next h in
    then-Cleans b mid out (row-Cleans dry_run pk p c mid_counts b mid first)
      (rows-Cleans dry_run rows mid_counts c' mid out rest)

GivenUp-stays :
    (env : Env) (k later : ℕ) (b out : Bank)
    → GivenUp k b out
    → verify env k later out ≡ ok (false, out)
unfolding verify
GivenUp-stays env k later b out g = rw g.now refl

-- The cleanup of payments on any rows, however old its query is: invoices, ledgers and escrow are not
-- touched, and each payment is as it was, or was PENDING or INITIATED and is now
-- NEEDS_RECONCILIATION; a verification of such a payment, by a callback that comes late, answers no
-- and changes nothing.
pub expire_rows-Cleans :
    (env : Env) (dry_run : Bool) (rows : Table PaymentRow) (c c' : Counts) (b out : Bank)
    → expire_rows dry_run rows c b ≡ ok (c', out)
    → (out ≡ record b { payments = out.payments })
      × ((k : ℕ)
          → (lookup k out.payments ≡ lookup k b.payments)
            ⊎ (GivenUp k b out × ((later : ℕ) → verify env k later out ≡ ok (false, out))))
expire_rows-Cleans env dry_run rows c c' b out h =
    let cleans = rows-Cleans dry_run rows c c' b out h in
    (
      cleans.frame,
      λ k. elim (cleans.each k) [
        | inl same ↦ inl same
        | inr given_up ↦ inr (given_up, λ later. GivenUp-stays env k later b out given_up)
      ],
    )
