-- ===== src/Payments/Reconciliation.antt =====
-- `PaymentReconciliationService` of apps/payments/services_reconciliation.py, which compares a
-- provider's report with the payments. The messages of the records are left out; records stand newest
-- first; a company is given by its key, and the payments stand in the order of the table.
use rasti_kiro_gpt.Common.{
  ℕ, suc, ◌-◌, Bool, true, false, not, ◌&&◌, ◌||◌, Option, none, some, List, [], ◌∷◌, ◌++◌, ◌==◌,
  ltb, map, is_some, if◌then◌else◌,
}
use rasti_kiro_gpt.Common.Int.{ℤ, pos, same_ℤ}
use rasti_kiro_gpt.Common.Text.{strip, same_text, codes}
use rasti_kiro_gpt.Common.Table.{Table}
use rasti_kiro_gpt.Invoice.MarkPaid.Defs.{Gateway}
use rasti_kiro_gpt.Payouts.Ledger.Write.{lower}
use rasti_kiro_gpt.Payments.Defs.{Status, PaymentRow, is_blank, is_pending, is_paid}

-- `ProviderReportRow`
pub record ProviderReportRow : Type 0 where
  pub provider_reference : List ℕ
  pub amount : ℤ
  pub status : List ℕ

-- A status in the internal vocabulary; `other` is a text that the map does not have.
pub data ProviderStatus : Type 0 where
  paid failed cancelled refunded pending other : ProviderStatus

-- `_PROVIDER_STATUS_MAP`, on a text in lower case
unfoldable pub status_map : List ℕ → ProviderStatus
unfolding same_text
status_map s =
    if same_text s (codes "paid")
      || same_text s (codes "successful")
      || same_text s (codes "success")
      || same_text s (codes "verified")
    then paid
    else if same_text s (codes "failed")
        || same_text s (codes "failure")
        || same_text s (codes "error")
    then failed
    else if same_text s (codes "cancelled") || same_text s (codes "canceled")
    then cancelled
    else if same_text s (codes "refunded")
    then refunded
    else if same_text s (codes "pending")
    then pending
    else other

-- `_normalize_provider_status`
unfoldable pub normalize_provider_status : List ℕ → ProviderStatus
unfolding status_map strip
normalize_provider_status raw = status_map (map lower (strip raw))

-- The issue codes.
pub data Issue : Type 0 where
  empty_reference duplicate_provider_reference missing_in_internal amount_mismatch : Issue
  status_mismatch_provider_paid status_mismatch_provider_failed missing_in_provider : Issue

-- `ReconciliationRecord`
pub record ReconciliationRecord : Type 0 where
  pub provider_reference : List ℕ
  pub issue_code : Issue
  pub payment_id : Option ℕ

-- `ReconciliationSummary`
pub record Summary : Type 0 where
  pub scanned : ℕ
  pub matched : ℕ
  pub missing_in_provider : ℕ
  pub missing_in_internal : ℕ
  pub amount_mismatch : ℕ
  pub status_mismatch : ℕ
  pub duplicate_references : ℕ
  pub errors : ℕ
  pub records : List ReconciliationRecord

abbrev pub no_summary : Summary
no_summary = record {
  scanned = 0;
  matched = 0;
  missing_in_provider = 0;
  missing_in_internal = 0;
  amount_mismatch = 0;
  status_mismatch = 0;
  duplicate_references = 0;
  errors = 0;
  records = [];
}

-- `has_issues`
unfoldable pub has_issues : Summary → Bool
has_issues s =
    ltb 0 s.missing_in_provider
    || ltb 0 s.missing_in_internal
    || ltb 0 s.amount_mismatch
    || ltb 0 s.status_mismatch
    || ltb 0 s.duplicate_references
    || ltb 0 s.errors

abbrev pub issue : List ℕ → Issue → Option ℕ → ReconciliationRecord
issue ref code payment = record {
  provider_reference = ref;
  issue_code = code;
  payment_id = payment;
}

-- `provider_map`: the rows of each reference, in the order in which the references first appear
abbrev pub ProviderMap : Type 0
ProviderMap = List (List ℕ × List ProviderReportRow)

-- `provider_map.setdefault(ref, []).append(row)`
unfoldable pub put : List ℕ → ProviderReportRow → ProviderMap → ProviderMap
put ref row [] = (ref, row ∷ []) ∷ []
put ref row ((r, rows) ∷ m) =
    let rest = put ref row m in
    if same_text r ref then (r, rows ++ row ∷ []) ∷ m else (r, rows) ∷ rest

abbrev pub count_error : Summary → Summary
count_error s = record s {
  errors = suc s.errors;
  records = issue [] Issue.empty_reference none ∷ s.records;
}

-- Step 1: the map, and the rows without a reference
unfoldable pub build_map : List ProviderReportRow → ProviderMap → Summary → ProviderMap × Summary
build_map [] m s = (m, s)
build_map (row ∷ rows) m s =
    let ref = strip row.provider_reference in
    let without = build_map rows m (count_error s) in
    let with_row = build_map rows (put ref row m) s in if is_blank ref then without else with_row

abbrev pub count_duplicate : List ℕ → Summary → Summary
count_duplicate ref s = record s {
  duplicate_references = suc s.duplicate_references;
  records = issue ref Issue.duplicate_provider_reference none ∷ s.records;
}

-- Step 2: the references that appear more than once
unfoldable pub find_duplicates : ProviderMap → Summary → Summary
find_duplicates [] s = s
find_duplicates ((ref, row ∷ again ∷ rows) ∷ m) s = find_duplicates m (count_duplicate ref s)
find_duplicates ((ref, _) ∷ m) s = find_duplicates m s

-- The filters: a company and a type of gateway.
pub record Scope : Type 0 where
  pub company : Option ℕ
  pub gateway_type : Option (List ℕ)

abbrev pub of_type : Option (List ℕ) → Option Gateway → Bool
of_type none gateway = true
of_type (some t) none = false
of_type (some t) (some g) = same_text g.gateway_type t

abbrev pub of_company : Option ℕ → ℕ → Bool
of_company none company = true
of_company (some c) company = company == c

abbrev pub in_scope : Scope → PaymentRow → Bool
in_scope scope p = of_company scope.company p.company && of_type scope.gateway_type p.gateway

-- `Payment.objects.filter(reference_id=ref)`, filtered, and `first()`
unfoldable pub find_payment : Scope → List ℕ → Table PaymentRow → Option (ℕ × PaymentRow)
find_payment scope ref [] = none
find_payment scope ref ((pk, p) ∷ payments) =
    if same_text p.reference_id ref && in_scope scope p
    then some (pk, p)
    else find_payment scope ref payments

abbrev pub is_paid_there : ProviderStatus → Bool
is_paid_there paid = true
is_paid_there _ = false

abbrev pub is_failed_there : ProviderStatus → Bool
is_failed_there failed = true
is_failed_there _ = false

-- The issue of a row with the payment that is found for it, if there is one.
unfoldable pub compare_row : ProviderReportRow → PaymentRow → Option Issue
compare_row row p =
    let status = normalize_provider_status row.status in
    if not (same_ℤ row.amount (pos p.amount))
    then some Issue.amount_mismatch
    else if is_paid_there status && not (is_paid p.status)
    then some Issue.status_mismatch_provider_paid
    else if is_failed_there status && is_pending p.status
    then some Issue.status_mismatch_provider_failed
    else none

abbrev pub count_issue : Issue → Summary → Summary
count_issue Issue.amount_mismatch s = record s { amount_mismatch = suc s.amount_mismatch }
count_issue _ s = record s { status_mismatch = suc s.status_mismatch }

-- What a reference adds to the summary.
unfoldable pub tally : List ℕ → Option (ℕ × PaymentRow) → ProviderReportRow → Summary → Summary
tally ref none row s = record s {
  scanned = suc s.scanned;
  missing_in_internal = suc s.missing_in_internal;
  records = issue ref Issue.missing_in_internal none ∷ s.records;
}
tally ref (some (pk, p)) row s = elim (compare_row row p) [
  | none ↦ record s { scanned = suc s.scanned; matched = suc s.matched }
  | some code ↦
      count_issue code
        (record s { scanned = suc s.scanned; records = issue ref code (some pk) ∷ s.records })
]

abbrev pub add_key : Option (ℕ × PaymentRow) → List ℕ → List ℕ
add_key none ids = ids
add_key (some (pk, p)) ids = pk ∷ ids

-- Step 3: each reference by its first row, with the payments that were found
unfoldable pub match_rows :
    Scope → Table PaymentRow → ProviderMap → List ℕ × Summary → List ℕ × Summary
match_rows scope payments [] (ids, s) = (ids, s)
match_rows scope payments ((ref, []) ∷ m) (ids, s) = match_rows scope payments m (ids, s)
match_rows scope payments ((ref, row ∷ rows) ∷ m) (ids, s) =
    let found = find_payment scope ref payments in
    match_rows scope payments m (add_key found ids, tally ref found row s)

unfoldable pub has_reference : List ℕ → ProviderMap → Bool
has_reference ref [] = false
has_reference ref ((r, rows) ∷ m) = same_text r ref || has_reference ref m

unfoldable pub has_id : ℕ → List ℕ → Bool
has_id pk [] = false
has_id pk (k ∷ ids) = pk == k || has_id pk ids

-- The statuses that step 4 looks at.
abbrev pub is_reportable : Status → Bool
is_reportable Status.pending = true
is_reportable Status.paid = true
is_reportable Status.needs_reconciliation = true
is_reportable _ = false

abbrev pub is_scanned : Scope → List ℕ → ℕ × PaymentRow → Bool
is_scanned scope ids (pk, p) =
    is_some p.gateway && is_reportable p.status && not (has_id pk ids) && in_scope scope p

-- `payment.reference_id and payment.reference_id.strip() not in provider_map`
unfoldable pub is_unreported : ProviderMap → PaymentRow → Bool
is_unreported m p = not (is_blank p.reference_id) && not (has_reference (strip p.reference_id) m)

abbrev pub count_missing : ℕ → PaymentRow → Summary → Summary
count_missing pk p s = record s {
  missing_in_provider = suc s.missing_in_provider;
  records = issue p.reference_id Issue.missing_in_provider (some pk) ∷ s.records;
}

-- Step 4: the payments that the report does not have, `limit` of the scanned ones at most
unfoldable pub find_missing :
    Scope → ProviderMap → List ℕ → ℕ → Table PaymentRow → Summary → Summary
find_missing scope m ids limit [] s = s
find_missing scope m ids limit ((pk, p) ∷ payments) s =
    let skipped = find_missing scope m ids limit payments s in
    let passed = find_missing scope m ids (limit - 1) payments s in
    let counted = find_missing scope m ids (limit - 1) payments (count_missing pk p s) in
    if limit == 0
    then s
    else if not (is_scanned scope ids (pk, p))
    then skipped
    else if is_unreported m p
    then counted
    else passed

-- `reconcile`
unfoldable pub reconcile : List ProviderReportRow → Scope → ℕ → Table PaymentRow → Summary
reconcile provider_rows scope limit payments =
    let (m, s) = build_map provider_rows [] no_summary in
    let (ids, matched) = match_rows scope payments m ([], find_duplicates m s) in
    find_missing scope m ids limit payments matched
