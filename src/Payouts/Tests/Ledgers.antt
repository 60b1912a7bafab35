-- ===== src/Payouts/Tests/Ledgers.antt =====
-- The theorems on the ledger at an empty one, and at one entry.
use rasti_kiro_gpt.Common.{ℕ, ◌≡◌, refl, arith, true, false, none, some, List, [], ◌∷◌}
use rasti_kiro_gpt.Common.Int.{pos, ◌+ℤ◌, ◌-ℤ◌}
use rasti_kiro_gpt.Payouts.Split.{OwnerType, compute, passes_kyc, blocked_by_gateway}
use rasti_kiro_gpt.Payouts.Ledger.Entry.{
  EntryType, Source, Key, Request, Ledger, get_balance, has_key,
}
use rasti_kiro_gpt.Payouts.Ledger.Write.{
  entry_for, InvoiceInfo, PaymentInfo, balance_with, create_invoice_entries,
  payment_collected_by_technician,
}
use rasti_kiro_gpt.Payouts.Ledger.Posting.{Rate, OrderInfo, post_for_payment}
use rasti_kiro_gpt.Payouts.Ledger.Balance.{IsValid, IsRunning}
use rasti_kiro_gpt.Payouts.Ledger.Invoices.{create_invoice_entries-balance}
use rasti_kiro_gpt.Payouts.Ledger.Settlement.{split_payment_cancels, platform_payment}
use rasti_kiro_gpt.Payouts.Ledger.Concurrent.{System, Reach, newest, new_technician_races}
use rasti_kiro_gpt.Payouts.Tests.{policy, verified}

abbrev credit_request : ℕ → ℕ → Request
credit_request key amount = record {
  company = 1;
  technician = 7;
  entry_type = EntryType.credit;
  source = Source.manual_payment;
  amount_rial = amount;
  idempotency_key = Key.other key;
  invoice = none;
  payment = none;
  order = none;
}

nothing-IsValid : IsValid []
nothing-IsValid = record { unique = tt; running = tt }

abbrev invoice : InvoiceInfo
invoice = record {
  invoice_id = 11;
  company = 1;
  order = some 21;
  technician = some 7;
  settled_technician_wage = 400000;
  settled_payment_method = [];
  total_amount = 1000000;
}

abbrev cash : PaymentInfo
cash = record { payment_id = 31; cash_received = true; technician_id = none }

abbrev online : PaymentInfo
online = record { payment_id = 31; cash_received = false; technician_id = none }

create_invoice_entries-balance_example :
    get_balance 1 7 (create_invoice_entries invoice (some cash) []).1
    ≡ get_balance 1 7 [] +ℤ pos 400000 -ℤ pos 1000000
unfolding payment_collected_by_technician has_key
create_invoice_entries-balance_example =
    create_invoice_entries-balance invoice (some cash) 7 1 7 [] refl (omega arith) refl refl

abbrev order : OrderInfo
order = record {
  order_id = 21;
  company = 1;
  technician = some 7;
  item_values =
      record {
        item = 5;
        is_number = true;
        is_technician_wage_applicable = true;
        value_number = some (pos 200);
      }
      ∷ [];
}

abbrev rates : List Rate
rates =
    record {
      company = 1;
      technician = 7;
      item_definition = 5;
      fixed_wage_rial = 90000;
      is_active = true;
    }
    ∷ []

split_payment_cancels_example :
    get_balance 1 7
      (post_for_payment
        (platform_payment 31 1 11 21 7)
        (some (compute policy (some verified) 1000000 400000 (some (some OwnerType.platform))))
        (create_invoice_entries invoice (some online) []).1).1
    ≡ get_balance 1 7 []
unfolding payment_collected_by_technician has_key compute passes_kyc blocked_by_gateway
split_payment_cancels_example =
    split_payment_cancels policy (some verified) invoice (some online) 31 21 7 1 7 [] refl
      (omega arith) refl refl refl refl refl

-- Technician 8 has a row, and technician 7 has none yet.
abbrev other_ledger : Ledger
other_ledger = entry_for (record (credit_request 9 100) { technician = 8 }) (pos 0) ∷ []

new_technician_races_example :
    (out : System) × Reach (record { ledger = other_ledger; pending = [] }) out
    × (out.pending ≡ [])
    × (¬ IsRunning out.ledger)
    × (get_balance 1 7 out.ledger
        ≡ balance_with
            (credit_request 2 300)
            (balance_with (credit_request 1 500) (get_balance 1 7 other_ledger)))
unfolding has_key newest entry_for
new_technician_races_example =
    new_technician_races (credit_request 1 500) (credit_request 2 300) other_ledger refl refl refl
      refl refl refl (omega arith)
