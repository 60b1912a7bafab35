-- ===== src/Payouts/Ledger/Settlement.antt =====
-- What the postings of an order and of a direct settlement do to the ledger.
use rasti_kiro_gpt.Common.{
  ℕ, ◌<◌, ◌≡◌, ◌≢◌, refl, Bool, true, false, ◌&&◌, Option, none, some, List, [], ◌==◌, leb,
  if◌then◌else◌, not, arith,
}
use rasti_kiro_gpt.Common.Int.{ℤ, pos, ◌+ℤ◌, ◌-ℤ◌, int_laws}
use rasti_kiro_gpt.Common.Result.{ok}
use rasti_kiro_gpt.Payouts.Split.{OwnerType, Decision, Policy, TechnicianInfo, compute}
use rasti_kiro_gpt.Payouts.Split.Conservation.{compute_direct}
use rasti_kiro_gpt.Payouts.Ledger.Entry.{
  EntryType, Key, Request, Entry, Ledger, get_balance, has_key,
}
use rasti_kiro_gpt.Payouts.Ledger.Write.{
  balance_with, write_entry, create_credit, create_debit, InvoiceInfo, PaymentInfo,
  create_invoice_entries, payment_collected_by_technician, record_manual_settlement, Direction,
  manual_request, key_or_fresh, to_list,
}
use rasti_kiro_gpt.Payouts.Ledger.Posting.{
  Rate, OrderInfo, total_wage, post_for_order, service_wage_request, post_wage, PaymentLink,
  post_for_payment, settlement_request, direct_request, post_request, is_platform_gateway,
}
use rasti_kiro_gpt.Payouts.Ledger.Balance.{
  IsValid, write_entry-IsValid, has_key-write_entry, write_entry_again, get_balance-write_entry,
}
use rasti_kiro_gpt.Payouts.Ledger.Invoices.{
  create_invoice_entries-balance, create_invoice_entries-other_keys,
}

-- A posting of one request: what it leaves, and that a second one changes nothing.
pub record IsPosted (f : Ledger → List Entry × Ledger) (l : Ledger) : Type 0 where
  pub again : f (f l).1 ≡ ([], (f l).1)
  pub valid : IsValid l → IsValid (f l).1

abbrev post : Request → Ledger → List Entry × Ledger
post r l = (to_list (write_entry r l).0, (write_entry r l).1)

post-IsPosted : (r : Request) (l : Ledger) → IsPosted (post r) l
post-IsPosted r l = record {
  again = rw (write_entry_again r (write_entry r l).1 (has_key-write_entry r l)) refl;
  valid = write_entry-IsValid r l;
}

nothing-IsPosted : (l : Ledger) → IsPosted (λ k. ([], k)) l
nothing-IsPosted l = record { again = refl; valid = λ v. v }

branch-IsPosted :
    (b : Bool) {f g : Ledger → List Entry × Ledger} {l : Ledger}
    → IsPosted f l
    → IsPosted g l
    → IsPosted (λ k. if b then f k else g k) l
branch-IsPosted true p q = p
branch-IsPosted false p q = q

post_wage-IsPosted :
    (order : OrderInfo) (t amount : ℕ) (l : Ledger) → IsPosted (post_wage order t amount) l
unfolding create_credit
post_wage-IsPosted order t amount l =
    branch-IsPosted (leb amount 0) (nothing-IsPosted l)
      (post-IsPosted (service_wage_request order t amount) l)

wage_of_order-IsPosted :
    (order : OrderInfo) (amount : ℕ → ℕ) (o : Option ℕ) (l : Ledger)
    → IsPosted (λ k. elim o [ none ↦ ([], k) | some t ↦ post_wage order t (amount t) k ]) l
wage_of_order-IsPosted order amount none l = nothing-IsPosted l
wage_of_order-IsPosted order amount (some t) l = post_wage-IsPosted order t (amount t) l

-- Completing an order posts its service wage once: a repeated call changes nothing, and keys stay
-- unique and running balances right.
pub post_for_order-IsPosted :
    (rates : List Rate) (order : OrderInfo) (l : Ledger) → IsPosted (post_for_order rates order) l
unfolding post_for_order
post_for_order-IsPosted rates order l =
    wage_of_order-IsPosted order (λ t. total_wage order.company t rates order.item_values)
      order.technician l

post_request-IsPosted : (o : Option Request) (l : Ledger) → IsPosted (post_request o) l
unfolding create_debit
post_request-IsPosted none l = nothing-IsPosted l
post_request-IsPosted (some r) l = post-IsPosted (record r { entry_type = EntryType.debit }) l

-- A direct settlement at the gateway is posted once: a repeated call changes nothing, and keys stay
-- unique and running balances right.
pub post_for_payment-IsPosted :
    (p : PaymentLink) (snapshot : Option Decision) (l : Ledger)
    → IsPosted (post_for_payment p snapshot) l
unfolding post_for_payment
post_for_payment-IsPosted p none l = nothing-IsPosted l
post_for_payment-IsPosted p (some snapshot) l =
    branch-IsPosted (not snapshot.should_split_with_technician) (nothing-IsPosted l) (
      branch-IsPosted (leb snapshot.technician_direct_amount 0) (nothing-IsPosted l) (
        branch-IsPosted (not (is_platform_gateway p.gateway)) (nothing-IsPosted l) (
          post_request-IsPosted (settlement_request p snapshot.technician_direct_amount p.invoice)
            l)))

-- The balance after the wage of an order is posted for the first time.
pub post_for_order-balance :
    (rates : List Rate) (order : OrderInfo) (t c o : ℕ) (l : Ledger)
    → order.technician ≡ some t
    → has_key (Key.technician_service_wage order.order_id) l ≡ false
    → get_balance c o (post_for_order rates order l).1 ≡ (
        if order.company == c && t == o
        then get_balance c o l +ℤ pos (total_wage order.company t rates order.item_values)
        else get_balance c o l)
unfolding post_for_order create_credit balance_with
post_for_order-balance rates order t c o l e h = grind (
  int_laws,
  get_balance-write_entry c o
      (service_wage_request order t (total_wage order.company t rates order.item_values)) l,
)

-- The balance after a manual settlement of `amount`: what the company pays lowers it, what the
-- technician pays in raises it, and a correction goes the way that its name says.
abbrev pub settled_balance : Direction → ℕ → ℤ → ℤ
settled_balance Direction.company_paid_technician amount balance = balance -ℤ pos amount
settled_balance Direction.technician_paid_company amount balance = balance +ℤ pos amount
settled_balance Direction.adjustment_credit amount balance = balance +ℤ pos amount
settled_balance Direction.adjustment_debit amount balance = balance -ℤ pos amount
settled_balance Direction.unknown amount balance = balance

-- A manual settlement of a positive amount in a known direction, under a key that is not in the
-- ledger, succeeds, keeps the ledger valid, and moves the technician's balance by the amount.
pub record_manual_settlement-balance :
    (c t amount : ℕ) (d : Direction) (key : Option Key) (fresh : ℕ) (l : Ledger)
    → IsValid l
    → 0 < amount
    → d ≢ Direction.unknown
    → has_key (key_or_fresh key fresh) l ≡ false
    → (out : Option Entry × Ledger) × (record_manual_settlement c t (pos amount) d key fresh l
        ≡ ok out)
      × IsValid out.1
      × (get_balance c t out.1 ≡ settled_balance d amount (get_balance c t l))
unfolding record_manual_settlement balance_with
record_manual_settlement-balance c t amount Direction.company_paid_technician key fresh l v p known
      new =
    let r =
      manual_request c t (pos amount) Direction.company_paid_technician EntryType.debit
        (key_or_fresh key fresh) in
    (
      write_entry r l,
      ground arith,
      write_entry-IsValid r l v,
      ground (arith, get_balance-write_entry c t r l),
    )
record_manual_settlement-balance c t amount Direction.technician_paid_company key fresh l v p known
      new =
    let r =
      manual_request c t (pos amount) Direction.technician_paid_company EntryType.credit
        (key_or_fresh key fresh) in
    (
      write_entry r l,
      ground arith,
      write_entry-IsValid r l v,
      ground (arith, get_balance-write_entry c t r l),
    )
record_manual_settlement-balance c t amount Direction.adjustment_credit key fresh l v p known new =
    let r =
      manual_request c t (pos amount) Direction.adjustment_credit EntryType.credit
        (key_or_fresh key fresh) in
    (
      write_entry r l,
      ground arith,
      write_entry-IsValid r l v,
      ground (arith, get_balance-write_entry c t r l),
    )
record_manual_settlement-balance c t amount Direction.adjustment_debit key fresh l v p known new =
    let r =
      manual_request c t (pos amount) Direction.adjustment_debit EntryType.debit
        (key_or_fresh key fresh) in
    (
      write_entry r l,
      ground arith,
      write_entry-IsValid r l v,
      ground (arith, get_balance-write_entry c t r l),
    )
record_manual_settlement-balance c t amount Direction.unknown key fresh l v p known new =
    absurd (known refl)

-- A payment through a platform gateway for an invoice whose order has technician `t`, all of one
-- company.
abbrev pub platform_payment : ℕ → ℕ → ℕ → ℕ → ℕ → PaymentLink
platform_payment payment company invoice order t = record {
  payment_id = payment;
  company = company;
  gateway = some OwnerType.platform;
  invoice = some (
    invoice,
    some (record { order_id = order; order_company = company; technician = some (t, company) }),
  );
}

platform_payment-post :
    (payment company invoice order t : ℕ) (d : Decision) (l : Ledger)
    → d.should_split_with_technician ≡ true
    → 0 < d.technician_direct_amount
    → (post_for_payment (platform_payment payment company invoice order t) (some d) l).1
      ≡ (write_entry
          (direct_request company t d.technician_direct_amount payment invoice order)
          l).1
unfolding post_for_payment settlement_request create_debit
platform_payment-post payment company invoice order t d l h w = ground arith

-- Money that the gateway has sent to the technician leaves no balance behind. For an online payment
-- through a platform gateway whose split was made, the credit of the invoice's wage and the debit of
-- the direct settlement cancel: after both postings every balance is what it was before, provided
-- that the wage of the decision is the settled wage, that the technician did not take cash, that
-- all are of one company and that none of the keys is in the ledger yet.
pub split_payment_cancels :
    (policy : Policy) (info : Option TechnicianInfo) (inv : InvoiceInfo) (p : Option PaymentInfo)
    (payment order t c o : ℕ) (l : Ledger)
    → inv.technician ≡ some t
    → 0 < inv.settled_technician_wage
    → payment_collected_by_technician p ≡ false
    → (compute policy info inv.total_amount inv.settled_technician_wage
        (some (some OwnerType.platform))).should_split_with_technician
      ≡ true
    → has_key (Key.technician_credit inv.invoice_id) l ≡ false
    → has_key (Key.cash_received_by_technician inv.invoice_id) l ≡ false
    → has_key (Key.direct_gateway_settlement payment) l ≡ false
    → let d =
        compute policy info inv.total_amount inv.settled_technician_wage
          (some (some OwnerType.platform)) in
      get_balance c o
        (post_for_payment
          (platform_payment payment inv.company inv.invoice_id order t)
          (some d)
          (create_invoice_entries inv p l).1).1
      ≡ get_balance c o l
unfolding balance_with
split_payment_cancels policy info inv p payment order t c o l et w cash es k1 k2 k3 =
    let d =
      compute policy info inv.total_amount inv.settled_technician_wage
        (some (some OwnerType.platform)) in
    let direct : d.technician_direct_amount ≡ inv.settled_technician_wage =
      compute_direct policy info inv.total_amount inv.settled_technician_wage
        (some (some OwnerType.platform)) es in
    let posted = (create_invoice_entries inv p l).1 in
    rw (platform_payment-post payment inv.company inv.invoice_id order t d posted es (omega arith))
      (grind (
        int_laws,
        direct,
        get_balance-write_entry c o
            (direct_request inv.company t d.technician_direct_amount payment inv.invoice_id order)
            posted,
        create_invoice_entries-other_keys inv p (Key.direct_gateway_settlement payment) l refl refl,
        create_invoice_entries-balance inv p t c o l et w k1 k2,
      ))
