-- ===== src/Payments/Reconciled.antt =====
-- The rows of a provider's report against the summary of `PaymentReconciliationService.reconcile`.
use rasti_kiro_gpt.Common.{
  ℕ, ◌≤◌, ◌≡◌, ◌⊎◌, refl, true, false, none, some, List, [], ◌∷◌, ◌++◌, arith, Bool-cases, inl, inr,
}
use rasti_kiro_gpt.Common.Int.{ℤ, pos, negsuc, same_ℤ}
use rasti_kiro_gpt.Common.Text.{strip, same_text}
use rasti_kiro_gpt.Common.Table.{Table}
use rasti_kiro_gpt.Payments.Defs.{PaymentRow, is_blank, is_pending, is_paid}
use rasti_kiro_gpt.Payments.Reconciliation.{
  ProviderReportRow, ProviderMap, Scope, Summary, no_summary, has_issues, put, build_map,
  find_duplicates, count_error, find_payment, compare_row, match_rows, reconcile,
  normalize_provider_status, is_paid_there, is_failed_there,
}
use rasti_kiro_gpt.Payments.Issues.{
  issues, has_issues-issues, find_missing-issues, Agrees, match_rows-issues, AreAgreed,
  find_duplicates-issues, agreed_all,
}

-- A row is one of a list.
abbrev pub IsReported : ProviderReportRow → List ProviderReportRow → Type 0
IsReported row [] = ⊥
IsReported row (x ∷ rows) = (x ≡ row) ⊎ IsReported row rows

-- A row stands under its reference.
pub Holds : List ℕ → ProviderReportRow → ProviderMap → Type 0
Holds ref row [] = ⊥
Holds ref row ((r, rows) ∷ m) = ((r ≡ ref) × IsReported row rows) ⊎ Holds ref row m

same_text-eq : (s t : List ℕ) → same_text s t ≡ true → s ≡ t
unfolding same_text
same_text-eq [] [] h = refl
same_text-eq (c ∷ s) (d ∷ t) h =
    let rest = same_text-eq s t (ground arith) in
    let first : c ≡ d = ground arith in rw (first, rest) refl
same_text-eq [] (d ∷ t) h = absurd (cc)
same_text-eq (c ∷ s) [] h = absurd (cc)

at_end :
    (row : ProviderReportRow) (rows : List ProviderReportRow) → IsReported row (rows ++ row ∷ [])
at_end row [] = inl refl
at_end row (x ∷ rows) = inr (at_end row rows)

not_lost :
    (x row : ProviderReportRow) (rows : List ProviderReportRow)
    → IsReported x rows
    → IsReported x (rows ++ row ∷ [])
not_lost x row [] h = absurd h
not_lost x row (y ∷ rows) h = elim h [
  | inl here ↦ inl here
  | inr later ↦ inr (not_lost x row rows later)
]

put-Holds :
    (ref : List ℕ) (row : ProviderReportRow) (m : ProviderMap) → Holds ref row (put ref row m)
unfolding put Holds
put-Holds ref row [] = inl (refl, inl refl)
put-Holds ref row ((r, rows) ∷ m) = elim (Bool-cases (same_text r ref)) [
  | inl e ↦ rw e (inl (same_text-eq r ref e, at_end row rows))
  | inr e ↦ rw e (inr (put-Holds ref row m))
]

put-keeps :
    (ref at : List ℕ) (row x : ProviderReportRow) (m : ProviderMap)
    → Holds at x m
    → Holds at x (put ref row m)
unfolding put Holds
put-keeps ref at row x [] h = absurd h
put-keeps ref at row x ((r, rows) ∷ m) h = elim (Bool-cases (same_text r ref)) [
  | inl e ↦ elim h [
    | inl (same, there) ↦ rw e (inl (same, not_lost x row rows there))
    | inr later ↦ rw e (inr later)
  ]
  | inr e ↦ elim h [
    | inl here ↦ rw e (inl here)
    | inr later ↦ rw e (inr (put-keeps ref at row x m later))
  ]
]

build_map-issues :
    (rows : List ProviderReportRow) (m : ProviderMap) (s : Summary)
    → issues s ≤ issues (build_map rows m s).1
unfolding build_map
build_map-issues [] m s = omega arith
build_map-issues (row ∷ rows) m s = elim (Bool-cases (is_blank (strip row.provider_reference))) [
  | inl e ↦ let rest = build_map-issues rows m (count_error s) in rw e (omega arith)
  | inr e ↦ rw e (build_map-issues rows (put (strip row.provider_reference) row m) s)
]

build_map-keeps :
    (at : List ℕ) (x : ProviderReportRow) (rows : List ProviderReportRow) (m : ProviderMap)
    (s : Summary)
    → Holds at x m
    → Holds at x (build_map rows m s).0
unfolding build_map
build_map-keeps at x [] m s h = h
build_map-keeps at x (row ∷ rows) m s h =
    elim (Bool-cases (is_blank (strip row.provider_reference))) [
      | inl e ↦ rw e (build_map-keeps at x rows m (count_error s) h)
      | inr e ↦ rw e (
          build_map-keeps at x rows (put (strip row.provider_reference) row m) s
            (put-keeps (strip row.provider_reference) at row x m h))
    ]

build_map-Holds :
    (x : ProviderReportRow) (rows : List ProviderReportRow) (m : ProviderMap) (s : Summary)
    → issues (build_map rows m s).1 ≡ 0
    → IsReported x rows
    → Holds (strip x.provider_reference) x (build_map rows m s).0
unfolding build_map
build_map-Holds x [] m s h there = absurd there
build_map-Holds x (row ∷ rows) m s h there =
    elim (Bool-cases (is_blank (strip row.provider_reference))) [
      | inl e ↦
          let grown = build_map-issues rows m (count_error s) in
          absurd (let h' = rw e at h in omega arith)
      | inr e ↦
          let m' = put (strip row.provider_reference) row m in
          elim there [
            | inl same ↦
                rw (e, ← same)
                  (build_map-keeps (strip row.provider_reference) row rows m' s
                    (put-Holds (strip row.provider_reference) row m))
            | inr later ↦ rw e (build_map-Holds x rows m' s (rw e at h) later)
          ]
    ]

held-Agrees :
    (scope : Scope) (payments : Table PaymentRow) (ref : List ℕ) (row : ProviderReportRow)
    (m : ProviderMap)
    → AreAgreed scope payments m
    → Holds ref row m
    → Agrees scope payments ref row
unfolding AreAgreed Holds
held-Agrees scope payments ref row [] a h = absurd h
held-Agrees scope payments ref row ((r, []) ∷ m) a h = elim h [
  | inl (same, there) ↦ absurd there
  | inr later ↦ held-Agrees scope payments ref row m a later
]
held-Agrees scope payments ref row ((r, x ∷ rows) ∷ m) (agrees, alone, a) h = elim h [
  | inl (same, there) ↦ elim there [
    | inl this ↦ rw (same, this) at agrees
    | inr more ↦ absurd (let gone : IsReported row [] = rw alone at more in gone)
  ]
  | inr later ↦ held-Agrees scope payments ref row m a later
]

same_ℤ-eq : (a : ℤ) (n : ℕ) → same_ℤ a (pos n) ≡ true → a ≡ pos n
same_ℤ-eq (pos m) n h = ground arith
same_ℤ-eq (negsuc m) n h = absurd (cc)

-- What a row that agrees says.
agreed_row :
    (row : ProviderReportRow) (p : PaymentRow)
    → compare_row row p ≡ none
    → (row.amount ≡ pos p.amount)
      × (is_paid_there (normalize_provider_status row.status) ≡ true → is_paid p.status ≡ true)
      × (is_failed_there (normalize_provider_status row.status) ≡ true
          → is_pending p.status ≡ false)
unfolding compare_row
agreed_row row p h = elim (Bool-cases (same_ℤ row.amount (pos p.amount))) [
  | inr e ↦ absurd (let x = rw e at h in cc x)
  | inl e ↦ (same_ℤ-eq row.amount p.amount e, ground (arith, e), ground (arith, e))
]

-- A reconciliation that reports no issue: every row of the provider's report has a payment in scope
-- under its reference, with the same amount; what the provider calls paid is PAID, and what it calls
-- failed is not PENDING.
pub reconcile-agrees :
    (provider_rows : List ProviderReportRow) (scope : Scope) (limit : ℕ)
    (payments : Table PaymentRow) (row : ProviderReportRow)
    → has_issues (reconcile provider_rows scope limit payments) ≡ false
    → IsReported row provider_rows
    → (pk : ℕ) × (p : PaymentRow) × (find_payment scope (strip row.provider_reference) payments
        ≡ some (pk, p))
      × (row.amount ≡ pos p.amount)
      × (is_paid_there (normalize_provider_status row.status) ≡ true → is_paid p.status ≡ true)
      × (is_failed_there (normalize_provider_status row.status) ≡ true
          → is_pending p.status ≡ false)
unfolding reconcile
reconcile-agrees provider_rows scope limit payments row h there =
    let built = build_map provider_rows [] no_summary in
    let counted = find_duplicates built.0 built.1 in
    let matched = match_rows scope payments built.0 ([], counted) in
    let none_left = has_issues-issues (reconcile provider_rows scope limit payments) h in
    let last = find_missing-issues scope built.0 matched.0 limit payments matched.1 in
    let third = match_rows-issues scope payments built.0 [] counted in
    let second = find_duplicates-issues built.0 built.1 in
    let agreed = agreed_all scope payments built.0 [] counted built.1 (omega arith) (omega arith) in
    let held = build_map-Holds row provider_rows [] no_summary (omega arith) there in
    let agrees =
      held-Agrees scope payments (strip row.provider_reference) row built.0 agreed held in
    let (amount, paid_there, failed_there) = agreed_row row agrees.payment agrees.agreed in
    (agrees.pk, agrees.payment, agrees.found, amount, paid_there, failed_there)
