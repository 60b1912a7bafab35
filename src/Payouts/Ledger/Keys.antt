-- ===== src/Payouts/Ledger/Keys.antt =====
-- Looking an entry up by its idempotency key, in a ledger where the keys are unique.
use rasti_kiro_gpt.Common.{◌≡◌, true, some, [], ◌∷◌, arith, Bool-cases, inl, inr}
use rasti_kiro_gpt.Payouts.Ledger.Entry.{
  Key, Request, Entry, Ledger, same_idempotency_key, has_key, find_key,
}
use rasti_kiro_gpt.Payouts.Ledger.Write.{write_entry}

pub same_key_eq : (j k : Key) → same_idempotency_key j k ≡ true → j ≡ k
same_key_eq (Key.technician_credit a) k h = ground arith
same_key_eq (Key.cash_received_by_technician a) k h = ground arith
same_key_eq (Key.technician_service_wage a) k h = ground arith
same_key_eq (Key.direct_gateway_settlement a) k h = ground arith
same_key_eq (Key.settlement_item a i) k h = ground arith
same_key_eq (Key.adjustment_wage a) k h = ground arith
same_key_eq (Key.other a) k h = ground arith

find_key-has_key : (k : Key) (l : Ledger) (e : Entry) → find_key k l ≡ some e → has_key k l ≡ true
unfolding find_key has_key
find_key-has_key k [] e h = cc
find_key-has_key k (x ∷ l) e h = ground (arith, find_key-has_key k l e)

-- An entry stays where it is found when another is written.
pub find_key-write_entry :
    (k : Key) (r : Request) (l : Ledger) (e : Entry)
    → find_key k l ≡ some e
    → find_key k (write_entry r l).1 ≡ some e
unfolding write_entry find_key
find_key-write_entry k r l e h = elim (Bool-cases (has_key r.idempotency_key l)) [
  | inl used ↦ rw used h
  | inr free ↦ elim (Bool-cases (same_idempotency_key k r.idempotency_key)) [
    | inl same ↦
        let eq = same_key_eq k r.idempotency_key same in
        let there = find_key-has_key k l e h in absurd (let x = rw eq at there in cc)
    | inr other ↦ rw (free, other) h
  ]
]
