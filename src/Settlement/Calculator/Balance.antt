-- ===== src/Settlement/Calculator/Balance.antt =====
-- The Layer 2 position against the balance that the ledger service gives.
use rasti_kiro_gpt.Common.{ℕ, ◌+◌, ◌≡◌, refl, [], ◌∷◌, arith}
use rasti_kiro_gpt.Common.Int.{int_laws}
use rasti_kiro_gpt.Payouts.Ledger.Entry.{Ledger, credits, debits, get_balance}
use rasti_kiro_gpt.Settlement.Calculator.{
  net_layer2, wage_credit, debit_sum, is_manual_settlement, is_direct_settlement, is_other_source,
}

wage_credit-credits : (c t : ℕ) (l : Ledger) → wage_credit c t l ≡ credits c t l
unfolding wage_credit credits
wage_credit-credits c t [] = refl
wage_credit-credits c t (e ∷ l) = ground (arith, wage_credit-credits c t l)

debit_sums :
    (c t : ℕ) (l : Ledger)
    → debit_sum is_manual_settlement c t l
        + debit_sum is_direct_settlement c t l
        + debit_sum is_other_source c t l
      ≡ debits c t l
unfolding debit_sum debits
debit_sums c t [] = omega arith
debit_sums c t (e ∷ l) = ground (arith, debit_sums c t l)

-- The net position of a technician is the ledger's balance: what is credited as wages, less the three
-- kinds of debits, each entry counted once.
pub net_layer2-get_balance : (c t : ℕ) (l : Ledger) → net_layer2 c t l ≡ get_balance c t l
unfolding net_layer2 get_balance
net_layer2-get_balance c t l = omega (int_laws, wage_credit-credits c t l, debit_sums c t l)
