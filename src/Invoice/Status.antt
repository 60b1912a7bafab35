-- ===== src/Invoice/Status.antt =====
-- `Invoice.Status` of apps/invoices/models.py, and the tests of it that the services make.
use rasti_kiro_gpt.Common.{Bool, true, false}

pub data Status : Type 0 where
  draft issued paid cancelled : Status

abbrev pub is_draft : Status → Bool
is_draft Status.draft = true
is_draft _ = false

-- `Invoice.is_payable`
abbrev pub is_issued : Status → Bool
is_issued Status.issued = true
is_issued _ = false

abbrev pub is_cancelled : Status → Bool
is_cancelled Status.cancelled = true
is_cancelled _ = false

-- Draft or issued: the statuses that are not in `InvoiceDuplicateGuard._CLOSED_STATUSES`.
abbrev pub is_open : Status → Bool
is_open Status.draft = true
is_open Status.issued = true
is_open _ = false
