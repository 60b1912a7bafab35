-- ===== src/Payments/Laws.antt =====
-- What `PaymentVerifyService.verify` does to a payment.
use rasti_kiro_gpt.Common.{
  ℕ, ◌≡◌, refl, sym, ap, ◌∙◌, Bool, true, false, none, some, arith, Bool-cases, Option-cases, inl,
  inr,
}
use rasti_kiro_gpt.Common.Table.{lookup, save, lookup-save_self}
use rasti_kiro_gpt.Common.Result.{Result, ok, Result-cases}
use rasti_kiro_gpt.Invoice.MarkPaid.Defs.{Error, Gateway}
use rasti_kiro_gpt.Payments.Defs.{
  Status, PaymentRow, Response, Env, Bank, is_pending, is_paid, is_payment_expired, add_attempt,
  amount_matches, with_escrow, pay_invoice, settle_split, confirm, on_response, verify_pending,
  verify,
}

-- What a verification does to a payment that it finds PENDING and decides on.
pub data Verdict (env : Env) (now : ℕ) (p : PaymentRow) : Bool → Status → Type 0 where
  confirmed :
      (g : Gateway) (r : Response)
      → is_payment_expired now p ≡ false
      → p.gateway ≡ some g
      → env.verify_payment g p.reference_id p.amount ≡ some r
      → r.success ≡ true
      → amount_matches r.verified_amount p.amount ≡ true
      → Verdict env now p true Status.paid
  refused :
      (g : Gateway) (r : Response)
      → p.gateway ≡ some g
      → env.verify_payment g p.reference_id p.amount ≡ some r
      → r.success ≡ false
      → Verdict env now p false Status.failed
  mismatched :
      (g : Gateway) (r : Response)
      → p.gateway ≡ some g
      → env.verify_payment g p.reference_id p.amount ≡ some r
      → r.success ≡ true
      → amount_matches r.verified_amount p.amount ≡ false
      → Verdict env now p false Status.needs_reconciliation
  expired : is_payment_expired now p ≡ true → Verdict env now p false Status.needs_reconciliation

Verdict-paid :
    (env : Env) (now : ℕ) (p : PaymentRow) (s : Status)
    → Verdict env now p true s
    → is_paid s ≡ true
Verdict-paid env now p s (confirmed g r fresh has said yes_ fits) = refl

-- The outcome of a verification of payment `pk`: nothing has changed, or a PENDING payment got its
-- verdict and no other payment has changed.
pub data Verified (env : Env) (pk now : ℕ) (b : Bank) (answer : Bool) (out : Bank) : Type 0 where
  unchanged :
      (p : PaymentRow)
      → lookup pk b.payments ≡ some p
      → answer ≡ is_paid p.status
      → out ≡ b
      → Verified env pk now b answer out
  decided :
      (p p' : PaymentRow)
      → lookup pk b.payments ≡ some p
      → is_pending p.status ≡ true
      → Verdict env now p answer p'.status
      → p'.amount ≡ p.amount
      → p'.invoice ≡ p.invoice
      → out.payments ≡ save pk p' b.payments
      → Verified env pk now b answer out

pub pair-injective :
    {x y : Bool} {b c : Bank}
    → ◌≡◌ {A = Result Error (Bool × Bank)} (ok (x, b)) (ok (y, c))
    → (y ≡ x) × (c ≡ b)
pair-injective h = (cc, cc)

-- Settling the split leaves the payments.
settle_split-payments :
    (env : Env) (pk : ℕ) (p : PaymentRow) (b : Bank)
    → (settle_split env pk p b).payments ≡ b.payments
unfolding settle_split
settle_split-payments env pk p b = refl

confirm-payments :
    (env : Env) (pk : ℕ) (p : PaymentRow) (now : ℕ) (b : Bank) (answer : Bool) (out : Bank)
    → confirm env pk p now b ≡ ok (answer, out)
    → (answer ≡ true)
      × (out.payments ≡ save pk (record p { status = Status.paid; paid_at = some now }) b.payments)
unfolding confirm settle_split
confirm-payments env pk p now b answer out h =
    let paid = record p { status = Status.paid; paid_at = some now } in
    elim (Result-cases (pay_invoice env pk paid now (with_escrow pk paid b.world))) [
      | inl (w, e) ↦ let (x, y) = pair-injective (rw e at h) in (x, ap (λ d. d.payments) y)
      | inr (e, f) ↦ absurd (let x = rw f at h in cc x)
    ]

on_response-Verified :
    (env : Env) (pk now : ℕ) (p : PaymentRow) (g : Gateway) (r : Response) (b b' : Bank)
    (answer : Bool) (out : Bank)
    → lookup pk b.payments ≡ some p
    → is_pending p.status ≡ true
    → is_payment_expired now p ≡ false
    → p.gateway ≡ some g
    → env.verify_payment g p.reference_id p.amount ≡ some r
    → b'.payments ≡ b.payments
    → on_response env pk p r now b' ≡ ok (answer, out)
    → Verified env pk now b answer out
unfolding on_response
on_response-Verified env pk now p g r b b' answer out found was fresh has said same h =
    elim (Bool-cases r.success) [
      | inr e ↦
          let (x, y) = pair-injective (rw e at h) in
          let p' = record p { status = Status.failed } in
          decided p p' found was (rw x (refused g r has said e)) refl refl
            (◌∙◌ (ap (λ d. d.payments) y) (ap (λ t. save pk p' t) same))
      | inl e ↦ elim (Bool-cases (amount_matches r.verified_amount p.amount)) [
        | inr f ↦
            let (x, y) = pair-injective (rw (e, f) at h) in
            let p' = record p { status = Status.needs_reconciliation } in
            decided p p' found was (rw x (mismatched g r has said e f)) refl refl
              (◌∙◌ (ap (λ d. d.payments) y) (ap (λ t. save pk p' t) same))
        | inl f ↦
            let (x, y) = confirm-payments env pk p now b' answer out (rw (e, f) at h) in
            let p' = record p { status = Status.paid; paid_at = some now } in
            decided p p' found was (rw x (confirmed g r fresh has said e f)) refl refl
              (◌∙◌ y (ap (λ t. save pk p' t) same))
      ]
    ]

unchanged_if :
    (env : Env) (pk now : ℕ) (p : PaymentRow) (b : Bank) (value answer : Bool) (out : Bank)
    → lookup pk b.payments ≡ some p
    → value ≡ is_paid p.status
    → ◌≡◌ {A = Result Error (Bool × Bank)} (ok (value, b)) (ok (answer, out))
    → Verified env pk now b answer out
unchanged_if env pk now p b value answer out found e h =
    let (x, y) = pair-injective h in unchanged p found (◌∙◌ x e) y

pending_unpaid : (s : Status) → is_pending s ≡ true → false ≡ is_paid s
pending_unpaid s h = ground arith

pub verify_pending_unasked :
    (env : Env) (pk now : ℕ) (p : PaymentRow) (g : Gateway) (b : Bank)
    → p.gateway ≡ some g
    → env.verify_payment g p.reference_id p.amount ≡ none
    → verify_pending env pk p now b ≡ ok (false, b)
unfolding verify_pending
verify_pending_unasked env pk now p g b e f = ground arith

pub verify_pending_answered :
    (env : Env) (pk now : ℕ) (p : PaymentRow) (g : Gateway) (r : Response) (b : Bank)
    → p.gateway ≡ some g
    → env.verify_payment g p.reference_id p.amount ≡ some r
    → verify_pending env pk p now b ≡ on_response env pk p r now (add_attempt pk r.success b)
unfolding verify_pending
verify_pending_answered env pk now p g r b e f = ground arith

verify_pending-Verified :
    (env : Env) (pk now : ℕ) (p : PaymentRow) (b : Bank) (answer : Bool) (out : Bank)
    → lookup pk b.payments ≡ some p
    → is_pending p.status ≡ true
    → is_payment_expired now p ≡ false
    → verify_pending env pk p now b ≡ ok (answer, out)
    → Verified env pk now b answer out
unfolding verify_pending
verify_pending-Verified env pk now p b answer out found was fresh h =
    elim (Option-cases p.gateway) [
      | inl e ↦
          unchanged_if env pk now p b false answer out found (pending_unpaid p.status was)
            (rw e at h)
      | inr (g, e) ↦ elim (Option-cases (env.verify_payment g p.reference_id p.amount)) [
        | inl f ↦
            unchanged_if env pk now p b false answer out found (pending_unpaid p.status was)
              (◌∙◌ (sym (verify_pending_unasked env pk now p g b e f)) h)
        | inr (r, f) ↦
            on_response-Verified env pk now p g r b (add_attempt pk r.success b) answer out found
              was fresh e f refl (◌∙◌ (sym (verify_pending_answered env pk now p g r b e f)) h)
      ]
    ]

-- A verification that returns leaves every payment as it is and answers whether the payment is PAID,
-- or finds the payment PENDING and gives it its verdict: PAID with the answer yes if it is not expired
-- and the provider confirms it with no other amount, FAILED if the provider refuses it, and
-- NEEDS_RECONCILIATION if it is expired or the provider confirms another amount; amount and invoice
-- stay, and so does every other payment.
pub verify-Verified :
    (env : Env) (pk now : ℕ) (b : Bank) (answer : Bool) (out : Bank)
    → verify env pk now b ≡ ok (answer, out)
    → Verified env pk now b answer out
unfolding verify
verify-Verified env pk now b answer out h = elim (Option-cases (lookup pk b.payments)) [
  | inl e ↦ absurd (let x = rw e at h in cc x)
  | inr (p, found) ↦ elim (Bool-cases (is_paid p.status)) [
    | inl paid ↦
        unchanged_if env pk now p b true answer out found (sym paid) (rw (found, paid) at h)
    | inr unpaid ↦ elim (Bool-cases (is_pending p.status)) [
      | inr other ↦
          unchanged_if env pk now p b false answer out found (sym unpaid)
            (rw (found, unpaid, other) at h)
      | inl was ↦ elim (Bool-cases (is_payment_expired now p)) [
        | inl late ↦
            let (x, y) = pair-injective (rw (found, unpaid, was, late) at h) in
            let p' = record p { status = Status.needs_reconciliation } in
            decided p p' found was (rw x (expired late)) refl refl (ap (λ d. d.payments) y)
        | inr fresh ↦
            verify_pending-Verified env pk now p b answer out found was fresh
              (rw (found, unpaid, was, fresh) at h)
      ]
    ]
  ]
]

-- A payment is verified once: after a verification that answers yes, every later one answers yes
-- again and changes nothing, ledger, escrow and invoices included.
pub verify_again :
    (env : Env) (pk now later : ℕ) (b out : Bank)
    → verify env pk now b ≡ ok (true, out)
    → verify env pk later out ≡ ok (true, out)
unfolding verify
verify_again env pk now later b out h = elim (verify-Verified env pk now b true out h) [
  | unchanged p found paid e ↦ rw (e, found, ← paid) refl
  | decided p p' found was verdict amount invoice saved ↦
      let here : lookup pk out.payments ≡ some p' = rw saved (lookup-save_self pk p' b.payments) in
      rw (here, Verdict-paid env now p p'.status verdict) refl
]
