-- ===== src/Payments/Defs.antt =====
-- `PaymentVerifyService` and `PaymentCallbackService` of apps/payments/services.py. What the gateway's
-- provider answers over the network is a parameter, and so is what is read of an invoice's order and
-- of the technician's verification.
use rasti_kiro_gpt.Common.{
  ℕ, ◌+◌, ◌*◌, Bool, true, false, not, ◌&&◌, Option, none, some, List, [], ◌∷◌, ◌==◌, ltb,
  if◌then◌else◌,
}
use rasti_kiro_gpt.Common.Text.{strip, same_text}
use rasti_kiro_gpt.Common.Table.{Table, lookup, save}
use rasti_kiro_gpt.Common.Result.{Result, ok, ◌>>=◌, or_raise}
use rasti_kiro_gpt.Invoice.Status.{is_issued}
use rasti_kiro_gpt.Invoice.MarkPaid.Defs.{
  Policy, Gateway, Payment, World, Error, mark_paid, owner_of, wage_of, does_not_exist,
}
use rasti_kiro_gpt.Payouts.Split.{
  PayoutStrategy, TechnicianInfo, Decision, Policy as SplitPolicy, compute,
}
use rasti_kiro_gpt.Payouts.Ledger.Posting.{OrderLink, PaymentLink, post_for_payment}
use rasti_kiro_gpt.Payouts.Escrow.Defs.{PaymentInfo, create_for_payment}

-- `Payment.Status`
pub data Status : Type 0 where
  initiated pending paid failed cancelled needs_reconciliation : Status

abbrev pub is_pending : Status → Bool
is_pending Status.pending = true
is_pending _ = false

abbrev pub is_paid : Status → Bool
is_paid Status.paid = true
is_paid _ = false

-- The row of a payment. `created_at` is in seconds.
pub record PaymentRow : Type 0 where
  pub company : ℕ
  pub invoice : Option ℕ
  pub gateway : Option Gateway
  pub amount : ℕ
  pub status : Status
  pub reference_id : List ℕ
  pub created_at : ℕ
  pub paid_at : Option ℕ

-- `VerificationResponse`
pub record Response : Type 0 where
  pub success : Bool
  pub verified_amount : Option ℕ

-- The company's policies, the answer of the provider to a reference and an amount (`none` where the
-- gateway's type has no provider), and what is read of an invoice's order and technician.
pub record Env : Type 0 where
  pub policy : Policy
  pub payout_strategy : PayoutStrategy
  pub verify_payment : Gateway → List ℕ → ℕ → Option Response
  pub order_link : ℕ → Option OrderLink
  pub technician_info : ℕ → Option TechnicianInfo

-- The payments with their attempts (newest first, with what the provider answered), the split
-- snapshots by payment, and what `mark_paid` changes.
pub record Bank : Type 0 where
  pub payments : Table PaymentRow
  pub attempts : List (ℕ × Bool)
  pub snapshots : Table Decision
  pub world : World

-- `_is_payment_expired`, with the default of `PAYMENT_EXPIRATION_MINUTES`
unfoldable pub is_payment_expired : ℕ → PaymentRow → Bool
is_payment_expired now p = ltb (p.created_at + 60 * 30) now

abbrev pub set_status : ℕ → PaymentRow → Status → Bank → Bank
set_status pk p status b = record b { payments = save pk (record p { status = status }) b.payments }

abbrev pub add_attempt : ℕ → Bool → Bank → Bank
add_attempt pk success b = record b { attempts = (pk, success) ∷ b.attempts }

-- Whether the provider's amount, if it gives one, is the payment's.
abbrev pub amount_matches : Option ℕ → ℕ → Bool
amount_matches none amount = true
amount_matches (some verified) amount = verified == amount

-- The payment as `mark_paid` reads it; a payment of this service has no metadata.
abbrev pub paying : ℕ → PaymentRow → Payment
paying pk p = record {
  payment_id = pk;
  company = p.company;
  invoice = p.invoice;
  amount = p.amount;
  gateway = p.gateway;
  is_paid = true;
  method = [];
  cash_received = false;
  technician_id = none;
}

abbrev pub escrow_payment : ℕ → PaymentRow → PaymentInfo
escrow_payment pk p = record {
  payment_id = pk;
  company = p.company;
  gateway = owner_of p.gateway;
  invoice = p.invoice;
  amount = p.amount;
}

abbrev pub with_escrow : ℕ → PaymentRow → World → World
with_escrow pk p w = record w {
  escrows = (create_for_payment (escrow_payment pk p) p.invoice w.escrows).1;
}

-- `mark_paid`, if the payment's invoice is there and ISSUED
unfoldable pub pay_invoice : Env → ℕ → PaymentRow → ℕ → World → Result Error World
pay_invoice env pk p now w = elim p.invoice [
  | none ↦ ok w
  | some invoice ↦ elim (lookup invoice w.bills) [
    | none ↦ ok w
    | some bill ↦
        if is_issued bill.wage_data.status
        then mark_paid env.policy invoice (some (paying pk p)) [] now w
        else ok w
  ]
]

abbrev pub split_policy : Env → SplitPolicy
split_policy env = record {
  payout_strategy = env.payout_strategy;
  platform_fee_percent = env.policy.platform_fee_percent;
}

-- `PaymentSplitDecisionService.create_snapshot`, on the invoice as it is by then
unfoldable pub create_snapshot : Env → ℕ → PaymentRow → World → Table Decision → Table Decision
create_snapshot env pk p w snapshots = elim (lookup pk snapshots) [
  | some d ↦ snapshots
  | none ↦ elim p.invoice [
    | none ↦ snapshots
    | some invoice ↦ elim (lookup invoice w.bills) [
      | none ↦ snapshots
      | some bill ↦
          save pk
            (compute (split_policy env) (env.technician_info invoice) bill.total_amount
              (wage_of bill.settlement) (some (owner_of p.gateway)))
            snapshots
    ]
  ]
]

abbrev pub invoice_link : Env → Option ℕ → Option (ℕ × Option OrderLink)
invoice_link env none = none
invoice_link env (some invoice) = some (invoice, env.order_link invoice)

abbrev pub payment_link : Env → ℕ → PaymentRow → PaymentLink
payment_link env pk p = record {
  payment_id = pk;
  company = p.company;
  gateway = owner_of p.gateway;
  invoice = invoice_link env p.invoice;
}

-- The split snapshot, and the debit of the direct settlement.
unfoldable pub settle_split : Env → ℕ → PaymentRow → Bank → Bank
settle_split env pk p b =
    let snapshots = create_snapshot env pk p b.world b.snapshots in
    record b {
      snapshots = snapshots;
      world = record b.world {
        ledger = (post_for_payment (payment_link env pk p) (lookup pk snapshots) b.world.ledger).1;
      };
    }

-- The provider has confirmed the payment. An exception of `mark_paid` passes through, and rolls
-- everything back.
unfoldable pub confirm : Env → ℕ → PaymentRow → ℕ → Bank → Result Error (Bool × Bank)
confirm env pk p now b = do
  let paid = record p { status = Status.paid; paid_at = some now }
  w ← pay_invoice env pk paid now (with_escrow pk paid b.world)
  ok (true, settle_split env pk paid (record b { payments = save pk paid b.payments; world = w }))

unfoldable pub on_response : Env → ℕ → PaymentRow → Response → ℕ → Bank → Result Error (Bool × Bank)
on_response env pk p r now b =
    if not r.success
    then ok (false, set_status pk p Status.failed b)
    else if not (amount_matches r.verified_amount p.amount)
    then ok (false, set_status pk p Status.needs_reconciliation b)
    else confirm env pk p now b

-- The call of the provider for a PENDING payment that is not expired.
unfoldable pub verify_pending : Env → ℕ → PaymentRow → ℕ → Bank → Result Error (Bool × Bank)
verify_pending env pk p now b = elim p.gateway [
  | none ↦ ok (false, b)
  | some g ↦ elim (env.verify_payment g p.reference_id p.amount) [
    | none ↦ ok (false, b)
    | some r ↦ on_response env pk p r now (add_attempt pk r.success b)
  ]
]

-- `PaymentVerifyService.verify`: whether it succeeded, and the database
unfoldable pub verify : Env → ℕ → ℕ → Bank → Result Error (Bool × Bank)
verify env pk now b = do
  p ← or_raise (lookup pk b.payments) does_not_exist
  if is_paid p.status
      then ok (true, b)
      else if not (is_pending p.status)
      then ok (false, b)
      else if is_payment_expired now p
      then ok (false, set_status pk p Status.needs_reconciliation b)
      else verify_pending env pk p now b

-- `filter(company=..., reference_id=...).first()`
unfoldable pub find_reference : ℕ → List ℕ → Table PaymentRow → Option (ℕ × PaymentRow)
find_reference company reference_id [] = none
find_reference company reference_id ((pk, p) ∷ payments) =
    if p.company == company && same_text p.reference_id reference_id
    then some (pk, p)
    else find_reference company reference_id payments

abbrev pub is_blank : List ℕ → Bool
is_blank [] = true
is_blank (c ∷ cs) = false

-- `PaymentCallbackService.handle_callback`
unfoldable pub handle_callback : Env → ℕ → List ℕ → ℕ → Bank → Result Error (Bool × Bank)
handle_callback env company reference_id now b =
    if is_blank (strip reference_id)
    then ok (false, b)
    else elim (find_reference company reference_id b.payments) [
      | none ↦ ok (false, b)
      | some (pk, p) ↦
          if is_paid p.status
          then ok (true, b)
          else if not (is_pending p.status)
          then ok (false, b)
          else verify env pk now b
    ]
