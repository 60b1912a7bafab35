-- ===== src/Settlement/Technician.antt =====
-- One technician, from the build of a Layer 2 batch to its execution.
pub mod Cycle
pub mod Settled
use rasti_kiro_gpt.Common.{
  ℕ, suc, ◌+◌, ◌-◌, ◌<◌, ◌≤◌, ◌≡◌, refl, sym, ap, ◌∙◌, Bool, true, false, not, ◌&&◌, Option, none,
  some, List, [], ◌∷◌, ◌==◌, is_some, if◌then◌else◌, arith, Bool-cases, Option-cases, inl, inr,
}
use rasti_kiro_gpt.Common.Int.{ℤ, pos, negsuc, ◌-ℤ◌, int_laws}
use rasti_kiro_gpt.Payouts.Ledger.Entry.{
  Key, Request, Entry, Ledger, get_balance, has_key, find_key, is_of, same_idempotency_key,
}
use rasti_kiro_gpt.Payouts.Ledger.Balance.{HasUniqueKeys, same_idempotency_key_refl}
use rasti_kiro_gpt.Payouts.Ledger.Keys.{same_key_eq}
use rasti_kiro_gpt.Common.Table.{Table, lookup, save, lookup-save_self}
use rasti_kiro_gpt.Common.Result.{Result, ok, err, ◌>>=◌}
use rasti_kiro_gpt.Payouts.Ledger.Entry.{EntryType}
use rasti_kiro_gpt.Payouts.Ledger.Write.{
  Direction, manual_request, write_entry, create_entry, record_manual_settlement,
}
use rasti_kiro_gpt.Settlement.Books.{Books, Batch, Item, Level, Status, TechnicianRow, exists}
use rasti_kiro_gpt.Settlement.Calculator.{Position, Reason, classify, net_layer2}
use rasti_kiro_gpt.Settlement.Planner.{
  refusal_layer2, by_position, claims_technician, adjusts_technician, is_unresolved_near,
}
use rasti_kiro_gpt.Settlement.Builder.{most_recent_entry}
use rasti_kiro_gpt.Settlement.Builder.Closed.{AreBelow}
use rasti_kiro_gpt.Settlement.Execution.{pay_items, pay_of, pay_item, is_item_of}

-- Without an entry there is no balance.
balance_none : (c t : ℕ) (l : Ledger) → most_recent_entry c t l ≡ none → get_balance c t l ≡ pos 0
unfolding most_recent_entry get_balance
balance_none c t [] h = omega int_laws
balance_none c t (e ∷ l) h = elim (Bool-cases (is_of c t e)) [
  | inl own ↦ absurd (let x = rw own at h in cc x)
  | inr other ↦ let rest = balance_none c t l (rw other at h) in ground (arith, other)
]

position_payable :
    (p : Position)
    → is_some (by_position p) ≡ false
    → (p ≡ Position.payable) × (by_position p ≡ none)
position_payable Position.payable h = (refl, refl)
position_payable Position.receivable h = absurd (cc)
position_payable Position.zero h = absurd (cc)
position_payable Position.blocked h = absurd (cc)

-- The debit of an item of `m + 1` Rials.
abbrev settlement_debit : ℕ → ℕ → ℕ → ℕ → Entry → Request
settlement_debit c n i m e =
    manual_request c e.technician (pos (suc m)) Direction.company_paid_technician EntryType.debit
      (Key.settlement_item n i)

-- The newest entry of a technician is found under its key.
recent-find_key :
    (c t : ℕ) (l : Ledger) (e : Entry)
    → HasUniqueKeys l
    → most_recent_entry c t l ≡ some e
    → (find_key e.idempotency_key l ≡ some e)
      × (is_of c t e ≡ true)
      × (has_key e.idempotency_key l ≡ true)
unfolding most_recent_entry find_key has_key
recent-find_key c t [] e u h = cc
recent-find_key c t (x ∷ l) e u h = elim (Bool-cases (is_of c t x)) [
  | inl own ↦
      let this : x ≡ e = let y = rw own at h in cc y in
      let own_e : is_of c t e ≡ true = rw this at own in
      let hit = same_idempotency_key_refl e.idempotency_key in rw (this, hit) (refl, own_e, refl)
  | inr other ↦
      let (found, own, known) = recent-find_key c t l e u.1 (rw other at h) in
      elim (Bool-cases (same_idempotency_key e.idempotency_key x.idempotency_key)) [
        | inl same ↦
            let eq = same_key_eq e.idempotency_key x.idempotency_key same in
            let twice : has_key x.idempotency_key l ≡ true = rw eq at known in
            absurd (let y = u.0 in cc)
        | inr differ ↦ (rw differ found, own, rw differ known)
      ]
]

payable_positive : (z : ℤ) → classify z ≡ Position.payable → (m : ℕ) × (z ≡ pos (suc m))
unfolding classify
payable_positive (pos n) h = (n - 1, ground arith)
payable_positive (negsuc n) h = cc

-- What the planner lets pass has a positive balance.
eligible_payable :
    (b : Books) (c t : ℕ) (p : Position)
    → is_some (refusal_layer2 b c t p) ≡ false
    → (p ≡ Position.payable) × (refusal_layer2 b c t p ≡ none)
unfolding refusal_layer2
eligible_payable b c t p h =
    elim (Bool-cases (exists (claims_technician b.batches b.ledger c t) b.items)) [
      | inl e ↦ absurd (let x = rw e at h in cc x)
      | inr e ↦ elim (Bool-cases (exists (adjusts_technician b.ledger c t) b.adjustments)) [
        | inl f ↦ absurd (let x = rw (e, f) at h in cc x)
        | inr f ↦ elim (Bool-cases (exists (is_unresolved_near b.ledger c t) b.backfills)) [
          | inl g ↦ absurd (let x = rw (e, f, g) at h in cc x)
          | inr g ↦ rw (e, f, g) (position_payable p (rw (e, f, g) at h))
        ]
      ]
    ]

-- The other items are of other batches.
pay_items-others :
    (c n : ℕ) (items : Table Item) (l : Ledger)
    → AreBelow n items
    → pay_items c n items l ≡ ok (0, l)
unfolding pay_items pay_of
pay_items-others c n [] l h = refl
pay_items-others c n ((k, item) ∷ items) l h =
    let differs : is_item_of c n item ≡ false = ground arith in
    rw (pay_items-others c n items l h.1, differs) refl

-- The payment of one item: a debit of the technician of its entry.
pay_item-eq :
    (c n i m : ℕ) (item : Item) (e : Entry) (l : Ledger)
    → find_key e.idempotency_key l ≡ some e
    → item.amount_rial ≡ pos (suc m)
    → has_key (Key.settlement_item n i) l ≡ false
    → pay_item c n i item e.idempotency_key l
      ≡ ok (1, (write_entry (settlement_debit c n i m e) l).1)
unfolding pay_item record_manual_settlement write_entry create_entry
pay_item-eq c n i m item e l found amount free = ground (arith, found, amount, free)
