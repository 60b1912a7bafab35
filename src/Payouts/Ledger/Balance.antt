-- ===== src/Payouts/Ledger/Balance.antt =====
-- The balances under the writes of TechnicianLedgerService (apps/payouts/services.py).
use rasti_kiro_gpt.Common.{
  ℕ, ◌≡◌, refl, true, false, ◌&&◌, none, [], ◌∷◌, ◌==◌, if◌then◌else◌, arith, Bool-cases, inl, inr,
}
use rasti_kiro_gpt.Common.Int.{ℤ, int_laws}
use rasti_kiro_gpt.Payouts.Ledger.Entry.{
  Key, Request, Ledger, get_balance, has_key, same_idempotency_key,
}
use rasti_kiro_gpt.Payouts.Ledger.Write.{balance_with, entry_for, write_entry}

pub same_idempotency_key_refl : (k : Key) → same_idempotency_key k k ≡ true
same_idempotency_key_refl (Key.technician_credit a) = ground arith
same_idempotency_key_refl (Key.cash_received_by_technician a) = ground arith
same_idempotency_key_refl (Key.technician_service_wage a) = ground arith
same_idempotency_key_refl (Key.direct_gateway_settlement a) = ground arith
same_idempotency_key_refl (Key.settlement_item a i) = ground arith
same_idempotency_key_refl (Key.adjustment_wage a) = ground arith
same_idempotency_key_refl (Key.other a) = ground arith

-- No two rows have one key: the `unique=True` of the column.
abbrev pub HasUniqueKeys : Ledger → Type 0
HasUniqueKeys [] = Unit {0}
HasUniqueKeys (e ∷ l) = (has_key e.idempotency_key l ≡ false) × HasUniqueKeys l

-- Each row holds the balance of its technician at its time.
abbrev pub IsRunning : Ledger → Type 0
IsRunning [] = Unit {0}
IsRunning (e ∷ l) = (e.balance_after ≡ get_balance e.company e.technician (e ∷ l)) × IsRunning l

pub record IsValid (l : Ledger) : Type 0 where
  pub unique : HasUniqueKeys l
  pub running : IsRunning l

-- An entry moves the balance of its own technician, by its amount, and no other's.
pub get_balance-entry_for :
    (c t : ℕ) (r : Request) (balance : ℤ) (l : Ledger)
    → get_balance c t (entry_for r balance ∷ l) ≡ (
        if r.company == c && r.technician == t
        then balance_with r (get_balance c t l)
        else get_balance c t l)
unfolding get_balance entry_for balance_with
get_balance-entry_for c t r balance l = grind int_laws

pub write_entry-IsValid : (r : Request) (l : Ledger) → IsValid l → IsValid (write_entry r l).1
unfolding write_entry
write_entry-IsValid r l v = elim (Bool-cases (has_key r.idempotency_key l)) [
  | inl e ↦ rw e v
  | inr e ↦ rw e (record {
    unique = (e, v.unique);
    running = (
      ground (
        arith,
        get_balance-entry_for r.company r.technician r (get_balance r.company r.technician l) l,
      ),
      v.running,
    );
  })
]

pub has_key-write_entry :
    (r : Request) (l : Ledger) → has_key r.idempotency_key (write_entry r l).1 ≡ true
unfolding write_entry has_key
has_key-write_entry r l = ground (arith, same_idempotency_key_refl r.idempotency_key)

-- A write with a key that is there already does nothing: the same write repeated, at any later
-- time, leaves the ledger as it is and returns no entry.
pub write_entry_again :
    (r : Request) (l : Ledger) → has_key r.idempotency_key l ≡ true → write_entry r l ≡ (none, l)
unfolding write_entry
write_entry_again r l h = rw h

pub has_key-write_entry_mono :
    (k : Key) (r : Request) (l : Ledger) → has_key k l ≡ true → has_key k (write_entry r l).1 ≡ true
unfolding write_entry has_key
has_key-write_entry_mono k r l h = ground arith

pub has_key-write_entry_ne :
    (k : Key) (r : Request) (l : Ledger)
    → same_idempotency_key k r.idempotency_key ≡ false
    → has_key k (write_entry r l).1 ≡ has_key k l
unfolding write_entry has_key
has_key-write_entry_ne k r l h = ground arith

-- The balance of any technician after a write.
pub get_balance-write_entry :
    (c t : ℕ) (r : Request) (l : Ledger)
    → get_balance c t (write_entry r l).1 ≡ (
        if has_key r.idempotency_key l
        then get_balance c t l
        else if r.company == c && r.technician == t
        then balance_with r (get_balance c t l)
        else get_balance c t l)
unfolding write_entry
get_balance-write_entry c t r l = elim (Bool-cases (has_key r.idempotency_key l)) [
  | inl e ↦ rw e refl
  | inr e ↦ rw e (get_balance-entry_for c t r (get_balance r.company r.technician l) l)
]
