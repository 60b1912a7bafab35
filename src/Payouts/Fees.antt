-- ===== src/Payouts/Fees.antt =====
-- apps/payouts/services_platform_fee.py: what a company owes to the platform. The ledger is the list
-- of its entries, newest first; descriptions and metadata are left out.
use rasti_kiro_gpt.Common.{
  ℕ, ◌+◌, ◌*◌, ◌/◌, ◌≡◌, refl, Bool, true, false, ◌&&◌, ◌||◌, not, Option, none, some, List, [],
  ◌∷◌, ◌==◌, if◌then◌else◌, arith, Bool-cases, inl, inr,
}
use rasti_kiro_gpt.Common.Int.{ℤ, pos, ◌+ℤ◌, ◌-ℤ◌, int_laws}
use rasti_kiro_gpt.Payouts.Split.{OwnerType, is_platform}
use rasti_kiro_gpt.Payouts.Ledger.Entry.{EntryType, is_credit, is_debit}

-- The keys: that of an invoice's fee, that of a settlement batch, that of an adjustment document, and
-- those that callers give or a new uuid makes.
pub data FeeKey : Type 0 where
  platform_fee settlement_batch adjustment other : ℕ → FeeKey

abbrev pub same_fee_key : FeeKey → FeeKey → Bool
same_fee_key (FeeKey.platform_fee a) (FeeKey.platform_fee b) = a == b
same_fee_key (FeeKey.settlement_batch a) (FeeKey.settlement_batch b) = a == b
same_fee_key (FeeKey.adjustment a) (FeeKey.adjustment b) = a == b
same_fee_key (FeeKey.other a) (FeeKey.other b) = a == b
same_fee_key _ _ = false

-- `CompanyPlatformFeeEntry`
pub record FeeEntry : Type 0 where
  pub company : ℕ
  pub entry_type : EntryType
  pub amount_rial : ℕ
  pub idempotency_key : FeeKey
  pub invoice : Option ℕ
  pub balance_after : ℤ

abbrev pub Fees : Type 0
Fees = List FeeEntry

unfoldable pub fee_sum : (EntryType → Bool) → ℕ → Fees → ℕ
fee_sum counts company [] = 0
fee_sum counts company (e ∷ fees) =
    (if e.company == company && counts e.entry_type then e.amount_rial else 0)
    + fee_sum counts company fees

-- `PlatformFeeService.get_balance`: positive if the company owes
unfoldable pub fee_balance : ℕ → Fees → ℤ
unfolding fee_sum
fee_balance company fees =
    pos (fee_sum is_debit company fees) -ℤ pos (fee_sum is_credit company fees)

unfoldable pub has_fee : FeeKey → Fees → Bool
has_fee key [] = false
has_fee key (e ∷ fees) = same_fee_key key e.idempotency_key || has_fee key fees

unfoldable pub fee_after : EntryType → ℕ → ℤ → ℤ
fee_after EntryType.debit amount balance = balance +ℤ pos amount
fee_after EntryType.credit amount balance = balance -ℤ pos amount

-- `PlatformFeeService._write_entry`
unfoldable pub write_fee : ℕ → EntryType → ℕ → FeeKey → Option ℕ → Fees → Fees
write_fee company entry_type amount key invoice fees =
    if has_fee key fees
    then fees
    else record {
      company = company;
      entry_type = entry_type;
      amount_rial = amount;
      idempotency_key = key;
      invoice = invoice;
      balance_after = fee_after entry_type amount (fee_balance company fees);
    }
      ∷ fees

-- What is read of a payment: its gateway's owner, and whether its status is "paid".
pub record FeePayment : Type 0 where
  pub gateway : Option OwnerType
  pub is_paid : Bool

abbrev pub through_platform : Option FeePayment → Bool
through_platform none = false
through_platform (some p) =
    elim p.gateway [ none ↦ false | some owner ↦ is_platform owner ] && p.is_paid

-- `int(total_amount * fee_pct / 100)`
abbrev pub fee_amount : ℕ → ℕ → ℕ
fee_amount total percent = total * percent / 10000

-- `PlatformFeeService.record_invoice_fee`, for an invoice by its id, company, total and the fee
-- percentage of the company's policy
unfoldable pub record_invoice_fee : ℕ → ℕ → ℕ → ℕ → Option FeePayment → Fees → Fees
record_invoice_fee invoice company total percent payment fees =
    if not (through_platform payment)
    then fees
    else if percent == 0
    then fees
    else if fee_amount total percent == 0
    then fees
    else write_fee company EntryType.debit (fee_amount total percent) (FeeKey.platform_fee invoice)
        (some invoice) fees

-- `PlatformFeeService.record_manual_credit`
unfoldable pub record_manual_credit : ℕ → ℕ → FeeKey → Fees → Fees
record_manual_credit company amount key fees =
    write_fee company EntryType.credit amount key none fees

pub fee_balance_after :
    (c company amount : ℕ) (t : EntryType) (key : FeeKey) (o : Option ℕ) (fees : Fees)
    → has_fee key fees ≡ false
    → fee_balance c (write_fee company t amount key o fees)
      ≡ (if company == c then fee_after t amount (fee_balance c fees) else fee_balance c fees)
unfolding write_fee fee_balance fee_after
fee_balance_after c company amount EntryType.credit key o fees h = rw (h) (grind int_laws)
fee_balance_after c company amount EntryType.debit key o fees h = rw (h) (grind int_laws)

same_fee_key_refl : (k : FeeKey) → same_fee_key k k ≡ true
same_fee_key_refl (FeeKey.platform_fee a) = ground arith
same_fee_key_refl (FeeKey.settlement_batch a) = ground arith
same_fee_key_refl (FeeKey.adjustment a) = ground arith
same_fee_key_refl (FeeKey.other a) = ground arith

write_fee_again :
    (company amount : ℕ) (t : EntryType) (key : FeeKey) (o : Option ℕ) (fees : Fees)
    → write_fee company t amount key o (write_fee company t amount key o fees)
      ≡ write_fee company t amount key o fees
unfolding write_fee has_fee
write_fee_again company amount t key o fees = ground (arith, same_fee_key_refl key)

plus_nothing : (a : ℤ) (n : ℕ) → n ≡ 0 → a +ℤ pos n ≡ a
plus_nothing a n h = grind int_laws

-- The fee of an invoice is recorded once: a repeated call changes nothing. The first one, for a paid
-- payment through a platform gateway, raises what the company owes by the fee, and no other balance
-- moves.
pub record_invoice_fee_once :
    (invoice company total percent c : ℕ) (payment : Option FeePayment) (fees : Fees)
    → has_fee (FeeKey.platform_fee invoice) fees ≡ false
    → let out = record_invoice_fee invoice company total percent payment fees in
      (record_invoice_fee invoice company total percent payment out ≡ out)
      × (fee_balance c out ≡ (
          if through_platform payment && company == c
          then fee_balance c fees +ℤ pos (fee_amount total percent)
          else fee_balance c fees))
unfolding record_invoice_fee fee_after
record_invoice_fee_once invoice company total percent c payment fees h =
    let amount = fee_amount total percent in
    let key = FeeKey.platform_fee invoice in
    elim (Bool-cases (through_platform payment)) [
      | inr e ↦ rw e (refl, refl)
      | inl e ↦ elim (Bool-cases (percent == 0)) [
        | inl z ↦
            rw (e, z) (refl, ground (arith, plus_nothing (fee_balance c fees) amount (grind arith)))
        | inr z ↦ elim (Bool-cases (amount == 0)) [
          | inl w ↦
              rw (e, z, w)
                (refl, ground (arith, plus_nothing (fee_balance c fees) amount (ground arith)))
          | inr w ↦
              rw (e, z, w)
                (
                  write_fee_again company amount EntryType.debit key (some invoice) fees,
                  fee_balance_after c company amount EntryType.debit key (some invoice) fees h,
                )
        ]
      ]
    ]
