-- ===== src/Payments/Paid.antt =====
-- What `PaymentVerifyService.verify` does to the invoice of a payment.
use rasti_kiro_gpt.Common.{
  ℕ, ◌≡◌, sym, ap, ◌∙◌, Bool, true, false, some, [], arith, Bool-cases, Option-cases, inl, inr,
}
use rasti_kiro_gpt.Common.Table.{lookup}
use rasti_kiro_gpt.Common.Result.{Result, ok, Result-cases}
use rasti_kiro_gpt.Invoice.Status.{is_issued, Status as InvoiceStatus}
use rasti_kiro_gpt.Invoice.MarkPaid.Defs.{Error, World, Bill, mark_paid}
use rasti_kiro_gpt.Invoice.MarkPaid.Laws.{AreNumbered, mark_paid-settles}
use rasti_kiro_gpt.Payments.Defs.{
  Status, PaymentRow, Response, Env, Bank, is_pending, is_paid, is_payment_expired, add_attempt,
  amount_matches, with_escrow, pay_invoice, settle_split, confirm, on_response, verify_pending,
  verify, paying,
}
use rasti_kiro_gpt.Payments.Laws.{pair-injective, verify_pending_unasked, verify_pending_answered}

-- The row of a payment that is confirmed at `now`.
abbrev confirmed_row : ℕ → PaymentRow → PaymentRow
confirmed_row now p = record p { status = Status.paid; paid_at = some now }

-- A verification that answers yes has come to `confirm`, with what `mark_paid` changes as it was.
data Confirms (env : Env) (pk now : ℕ) (p : PaymentRow) (w : World) (out : Bank) : Type 0 where
  confirms :
      (w' : World)
      → pay_invoice env pk (confirmed_row now p) now (with_escrow pk (confirmed_row now p) w)
        ≡ ok w'
      → out.world.bills ≡ w'.bills
      → Confirms env pk now p w out

confirm-Confirms :
    (env : Env) (pk now : ℕ) (p : PaymentRow) (b out : Bank)
    → confirm env pk p now b ≡ ok (true, out)
    → Confirms env pk now p b.world out
unfolding confirm settle_split
confirm-Confirms env pk now p b out h =
    elim (Result-cases (
      pay_invoice env pk (confirmed_row now p) now
        (with_escrow pk (confirmed_row now p) b.world))) [
          | inl (w, e) ↦
              let (x, y) = pair-injective (rw e at h) in confirms w e (ap (λ d. d.world.bills) y)
          | inr (e, f) ↦ absurd (let x = rw f at h in cc x)
        ]

never_yes :
    {A : Type 0} {b out : Bank}
    → ◌≡◌ {A = Result Error (Bool × Bank)} (ok (false, b)) (ok (true, out))
    → A
never_yes h = absurd (let (x, y) = pair-injective h in cc x)

response-Confirms :
    (env : Env) (pk now : ℕ) (p : PaymentRow) (r : Response) (b out : Bank)
    → on_response env pk p r now b ≡ ok (true, out)
    → Confirms env pk now p b.world out
unfolding on_response
response-Confirms env pk now p r b out h = elim (Bool-cases r.success) [
  | inr e ↦ never_yes (rw e at h)
  | inl e ↦ elim (Bool-cases (amount_matches r.verified_amount p.amount)) [
    | inr f ↦ never_yes (rw (e, f) at h)
    | inl f ↦ confirm-Confirms env pk now p b out (rw (e, f) at h)
  ]
]

pending-Confirms :
    (env : Env) (pk now : ℕ) (p : PaymentRow) (b out : Bank)
    → verify_pending env pk p now b ≡ ok (true, out)
    → Confirms env pk now p b.world out
unfolding verify_pending
pending-Confirms env pk now p b out h = elim (Option-cases p.gateway) [
  | inl e ↦ never_yes (rw e at h)
  | inr (g, e) ↦ elim (Option-cases (env.verify_payment g p.reference_id p.amount)) [
    | inl f ↦ never_yes (◌∙◌ (sym (verify_pending_unasked env pk now p g b e f)) h)
    | inr (r, f) ↦
        response-Confirms env pk now p r (add_attempt pk r.success b) out
          (◌∙◌ (sym (verify_pending_answered env pk now p g r b e f)) h)
  ]
]

not_paid : (s : Status) → is_pending s ≡ true → is_paid s ≡ false
not_paid s h = ground arith

verify-Confirms :
    (env : Env) (pk now : ℕ) (p : PaymentRow) (b out : Bank)
    → lookup pk b.payments ≡ some p
    → is_pending p.status ≡ true
    → verify env pk now b ≡ ok (true, out)
    → Confirms env pk now p b.world out
unfolding verify
verify-Confirms env pk now p b out found was h =
    let unpaid : is_paid p.status ≡ false = not_paid p.status was in
    elim (Bool-cases (is_payment_expired now p)) [
      | inl late ↦ never_yes (rw (found, unpaid, was, late) at h)
      | inr fresh ↦ pending-Confirms env pk now p b out (rw (found, unpaid, was, fresh) at h)
    ]

-- A PENDING payment whose verification answers yes pays its invoice: an invoice of the payment that
-- was ISSUED, in a table of invoices under their own ids, is PAID afterwards.
pub verify_pays :
    (env : Env) (pk now invoice : ℕ) (p : PaymentRow) (bill : Bill) (b out : Bank)
    → AreNumbered b.world.bills
    → lookup pk b.payments ≡ some p
    → is_pending p.status ≡ true
    → p.invoice ≡ some invoice
    → lookup invoice b.world.bills ≡ some bill
    → is_issued bill.wage_data.status ≡ true
    → verify env pk now b ≡ ok (true, out)
    → (paid : Bill) × (lookup invoice out.world.bills ≡ some paid)
      × (paid.wage_data.status ≡ InvoiceStatus.paid)
unfolding pay_invoice
verify_pays env pk now invoice p bill b out numbered found was of there issued h =
    elim (verify-Confirms env pk now p b out found was h) [
      | confirms w' e same ↦
          let marked : mark_paid env.policy invoice (some (paying pk (confirmed_row now p))) [] now
                (with_escrow pk (confirmed_row now p) b.world)
              ≡ ok w' =
            ground (arith, e, of, there, issued) in
          let (before, paid, s, f1, f2, f3, f4, saved, is_paid_, f5, f6, f7, f8) =
            mark_paid-settles env.policy invoice (some (paying pk (confirmed_row now p))) [] now
              (with_escrow pk (confirmed_row now p) b.world) w' numbered marked in
          (paid, rw same saved, is_paid_)
    ]
