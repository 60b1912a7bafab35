-- ===== src/Payments/Issues.antt =====
-- The counts of issues in the summary of `PaymentReconciliationService.reconcile`.
use rasti_kiro_gpt.Common.{
  ℕ, suc, ◌+◌, ◌-◌, ◌≤◌, ◌≡◌, ◌⊎◌, refl, false, none, some, List, [], ◌∷◌, ◌==◌, arith, Bool-cases,
  Option-cases, inl, inr,
}
use rasti_kiro_gpt.Common.Table.{Table}
use rasti_kiro_gpt.Payments.Defs.{PaymentRow}
use rasti_kiro_gpt.Payments.Reconciliation.{
  ProviderReportRow, ProviderMap, Scope, Issue, Summary, has_issues, find_duplicates,
  count_duplicate, find_payment, compare_row, tally, match_rows, find_missing, is_scanned,
  is_unreported, count_issue, count_missing, add_key,
}

-- The number of issues.
abbrev pub issues : Summary → ℕ
issues s =
    s.missing_in_provider + s.missing_in_internal + s.amount_mismatch + s.status_mismatch
    + s.duplicate_references + s.errors

pub has_issues-issues : (s : Summary) → has_issues s ≡ false → issues s ≡ 0
unfolding has_issues
has_issues-issues s h = ground arith

pub find_missing-issues :
    (scope : Scope) (m : ProviderMap) (ids : List ℕ) (limit : ℕ) (payments : Table PaymentRow)
    (s : Summary)
    → issues s ≤ issues (find_missing scope m ids limit payments s)
unfolding find_missing
find_missing-issues scope m ids limit [] s = omega arith
find_missing-issues scope m ids limit ((pk, p) ∷ payments) s =
    let skipped = find_missing-issues scope m ids limit payments s in
    let passed = find_missing-issues scope m ids (limit - 1) payments s in
    let counted = find_missing-issues scope m ids (limit - 1) payments (count_missing pk p s) in
    elim (Bool-cases (limit == 0)) [
      | inl e ↦ rw e (omega arith)
      | inr e ↦ elim (Bool-cases (is_scanned scope ids (pk, p))) [
        | inr f ↦ rw (e, f) skipped
        | inl f ↦ elim (Bool-cases (is_unreported m p)) [
          | inl g ↦ rw (e, f, g) (omega arith)
          | inr g ↦ rw (e, f, g) passed
        ]
      ]
    ]

count_issue-issues : (code : Issue) (s : Summary) → issues (count_issue code s) ≡ suc (issues s)
count_issue-issues code s = ground arith

-- A row that agrees with the payment that is found for it.
pub record Agrees (scope : Scope) (payments : Table PaymentRow) (ref : List ℕ)
    (row : ProviderReportRow) : Type 0 where
  pub pk : ℕ
  pub payment : PaymentRow
  pub found : find_payment scope ref payments ≡ some (pk, payment)
  pub agreed : compare_row row payment ≡ none

tally-issues :
    (scope : Scope) (payments : Table PaymentRow) (ref : List ℕ) (row : ProviderReportRow)
    (s : Summary)
    → (Agrees scope payments ref row
        × (issues (tally ref (find_payment scope ref payments) row s) ≡ issues s))
      ⊎ (issues (tally ref (find_payment scope ref payments) row s) ≡ suc (issues s))
unfolding tally
tally-issues scope payments ref row s = elim (Option-cases (find_payment scope ref payments)) [
  | inl e ↦ inr (rw e (omega arith))
  | inr ((pk, p), e) ↦ elim (Option-cases (compare_row row p)) [
    | inl f ↦ inl (record { pk = pk; payment = p; found = e; agreed = f }, rw (e, f, tally) refl)
    | inr (code, f) ↦ inr (rw (e, f, tally) (count_issue-issues code _))
  ]
]

pub match_rows-issues :
    (scope : Scope) (payments : Table PaymentRow) (m : ProviderMap) (ids : List ℕ) (s : Summary)
    → issues s ≤ issues (match_rows scope payments m (ids, s)).1
unfolding match_rows
match_rows-issues scope payments [] ids s = omega arith
match_rows-issues scope payments ((ref, []) ∷ m) ids s = match_rows-issues scope payments m ids s
match_rows-issues scope payments ((ref, row ∷ rows) ∷ m) ids s =
    let found = find_payment scope ref payments in
    let rest = match_rows-issues scope payments m (add_key found ids) (tally ref found row s) in
    elim (tally-issues scope payments ref row s) [ inl (_, e) ↦ omega arith | inr e ↦ omega arith ]

-- Every reference has one row, which agrees.
unfoldable pub AreAgreed : Scope → Table PaymentRow → ProviderMap → Type 0
AreAgreed scope payments [] = Unit {0}
AreAgreed scope payments ((ref, []) ∷ m) = AreAgreed scope payments m
AreAgreed scope payments ((ref, row ∷ rows) ∷ m) =
    Agrees scope payments ref row × (rows ≡ []) × AreAgreed scope payments m

pub find_duplicates-issues :
    (m : ProviderMap) (s : Summary) → issues s ≤ issues (find_duplicates m s)
unfolding find_duplicates
find_duplicates-issues [] s = omega arith
find_duplicates-issues ((ref, []) ∷ m) s = find_duplicates-issues m s
find_duplicates-issues ((ref, row ∷ []) ∷ m) s = find_duplicates-issues m s
find_duplicates-issues ((ref, row ∷ again ∷ rows) ∷ m) s =
    let rest = find_duplicates-issues m (count_duplicate ref s) in omega arith

pub agreed_all :
    (scope : Scope) (payments : Table PaymentRow) (m : ProviderMap) (ids : List ℕ) (s t : Summary)
    → issues (find_duplicates m t) ≡ 0
    → issues (match_rows scope payments m (ids, s)).1 ≡ 0
    → AreAgreed scope payments m
unfolding find_duplicates match_rows AreAgreed
agreed_all scope payments [] ids s t d h = tt
agreed_all scope payments ((ref, []) ∷ m) ids s t d h = agreed_all scope payments m ids s t d h
agreed_all scope payments ((ref, row ∷ again ∷ rows) ∷ m) ids s t d h =
    let more = find_duplicates-issues m (count_duplicate ref t) in absurd (omega arith)
agreed_all scope payments ((ref, row ∷ []) ∷ m) ids s t d h =
    let found = find_payment scope ref payments in
    let grown = match_rows-issues scope payments m (add_key found ids) (tally ref found row s) in
    elim (tally-issues scope payments ref row s) [
      | inl (agrees, e) ↦ (
        agrees,
        refl,
        agreed_all scope payments m (add_key found ids) (tally ref found row s) t d h,
      )
      | inr e ↦ absurd (omega arith)
    ]
