-- ===== src/Invoice/Cancelling/Requests.antt =====
-- The requests of apps/invoices/services_cancel_request.py: which are pending, and their approval.
use rasti_kiro_gpt.Common.{
  ℕ, suc, ◌+◌, ◌≤◌, ◌<◌, ◌≡◌, refl, true, false, ◌&&◌, none, some, [], ◌∷◌, ◌==◌, if◌then◌else◌,
  arith, Bool-cases, Option-cases, inl, inr,
}
use rasti_kiro_gpt.Common.Table.{Table, lookup, save, lookup-save}
use rasti_kiro_gpt.Common.Result.{Result, ok}
use rasti_kiro_gpt.Invoice.Status.{Status as InvoiceStatus, is_open}
use rasti_kiro_gpt.Invoice.Cancelling.{
  Status, Request, Desk, Error, is_pending, pending_count, has_pending_request, cancel, request,
  review, approve, reject,
}

-- No invoice has two PENDING requests, and the next key is free.
pub record IsValid (d : Desk) : Type 0 where
  pub one : (invoice : ℕ) → pending_count invoice d.requests ≤ 1
  pub free : (k : ℕ) (r : Request) → lookup k d.requests ≡ some r → k < d.next_request

-- Saving a row that was not there, or that stood as `r`.
count-save_new :
    (invoice k : ℕ) (r : Request) (t : Table Request)
    → lookup k t ≡ none
    → pending_count invoice (save k r t)
      ≡ (if r.invoice == invoice && is_pending r.status then 1 else 0) + pending_count invoice t
unfolding lookup save pending_count
count-save_new invoice k r [] h = ground arith
count-save_new invoice k r ((j, x) ∷ t) h = ground (arith, count-save_new invoice k r t)

count-save_le :
    (invoice k : ℕ) (r x : Request) (t : Table Request)
    → lookup k t ≡ some x
    → is_pending r.status ≡ false
    → pending_count invoice (save k r t) ≤ pending_count invoice t
unfolding lookup save pending_count
count-save_le invoice k r x [] h p = ground arith
count-save_le invoice k r x ((j, y) ∷ t) h p = ground (arith, count-save_le invoice k r x t)

-- One call of the services, by the invoice's id or the request's.
pub data Call : Type 0 where
  requests approves rejects : ℕ → Call

unfoldable pub call : Call → Desk → Result Error Desk
call (requests invoice) = request invoice
call (approves pk) = approve pk
call (rejects pk) = reject pk

lookup_next : (d : Desk) → IsValid d → lookup d.next_request d.requests ≡ none
lookup_next d v = elim (Option-cases (lookup d.next_request d.requests)) [
  | inl e ↦ e
  | inr (r, e) ↦ absurd (let lt = v.free d.next_request r e in omega arith)
]

review-IsValid :
    (pk : ℕ) (r : Request) (s : Status) (d : Desk)
    → lookup pk d.requests ≡ some r
    → is_pending s ≡ false
    → IsValid d
    → IsValid (review pk r s d)
review-IsValid pk r s d found done v = record {
  one = λ invoice.
      let le = count-save_le invoice pk (record r { status = s }) r d.requests found done in
      let one = v.one invoice in omega arith;
  free = λ k x h. elim (Bool-cases (k == pk)) [
    | inl e ↦ let key : k ≡ pk = ground arith in rw key (v.free pk r found)
    | inr e ↦ v.free k x (ground (arith, h, lookup-save k pk (record r { status = s }) d.requests))
  ];
}

inserted-IsValid :
    (invoice : ℕ) (d : Desk)
    → has_pending_request invoice d ≡ false
    → IsValid d
    → IsValid (record d {
      requests =
          save d.next_request (record { invoice = invoice; status = Status.pending }) d.requests;
      next_request = suc d.next_request;
    })
unfolding has_pending_request
inserted-IsValid invoice d h v =
    let row : Request = record { invoice = invoice; status = Status.pending } in
    record {
      one = λ i.
          ground (arith, v.one i, count-save_new i d.next_request row d.requests (lookup_next d v));
      free = λ k x f. elim (Bool-cases (k == d.next_request)) [
        | inl e ↦ ground arith
        | inr e ↦
            let lt = v.free k x (ground (arith, f, lookup-save k d.next_request row d.requests)) in
            omega arith
      ];
    }

-- Request `pk` was pending, and its invoice a draft or issued; the invoice is then CANCELLED and the
-- request APPROVED, and nothing else has changed.
pub record Approves (pk : ℕ) (d out : Desk) : Type 0 where
  pub row : Request
  pub status : InvoiceStatus
  pub found : lookup pk d.requests ≡ some row
  pub was_pending : is_pending row.status ≡ true
  pub invoice_found : lookup row.invoice d.invoices ≡ some status
  pub was_open : is_open status ≡ true
  pub after :
      out
      ≡ review pk row Status.approved
          (record d { invoices = save row.invoice InvoiceStatus.cancelled d.invoices })

-- An approval that succeeds is of a PENDING request for a draft or issued invoice, and cancels that
-- invoice and approves that request, and nothing else.
pub approve-Approves : (pk : ℕ) (d out : Desk) → approve pk d ≡ ok out → Approves pk d out
unfolding approve cancel
approve-Approves pk d out h = elim (Option-cases (lookup pk d.requests)) [
  | inl e ↦ absurd (ground arith)
  | inr (r, e) ↦ elim (Option-cases (lookup r.invoice d.invoices)) [
    | inl f ↦ absurd (ground arith)
    | inr (s, f) ↦ record {
      row = r;
      status = s;
      found = e;
      was_pending = ground arith;
      invoice_found = f;
      was_open = ground arith;
      after = ground arith;
    }
  ]
]

reject-eq-ok :
    (pk : ℕ) (d out : Desk)
    → reject pk d ≡ ok out
    → (r : Request) × (lookup pk d.requests ≡ some r) × (out ≡ review pk r Status.rejected d)
unfolding reject
reject-eq-ok pk d out h = elim (Option-cases (lookup pk d.requests)) [
  | inl e ↦ absurd (ground arith)
  | inr (r, e) ↦ (r, e, ground arith)
]

-- Every call of the request service that succeeds keeps the desk valid: no invoice has two PENDING
-- requests, and the next key is free.
pub call-IsValid : (c : Call) (d out : Desk) → call c d ≡ ok out → IsValid d → IsValid out
unfolding call request
call-IsValid (requests invoice) d out h v = elim (Option-cases (lookup invoice d.invoices)) [
  | inl e ↦ absurd (ground arith)
  | inr (s, e) ↦ elim (Bool-cases (has_pending_request invoice d)) [
    | inl p ↦ absurd (ground arith)
    | inr p ↦ let same : out ≡ _ = ground arith in rw same (inserted-IsValid invoice d p v)
  ]
]
call-IsValid (approves pk) d out h v =
    let a = approve-Approves pk d out h in
    rw (a.after) (
      review-IsValid pk a.row Status.approved
        (record d { invoices = save a.row.invoice InvoiceStatus.cancelled d.invoices }) a.found refl
        (record { one = v.one; free = v.free }))
call-IsValid (rejects pk) d out h v =
    let (r, found, after) = reject-eq-ok pk d out h in
    rw after (review-IsValid pk r Status.rejected d found refl v)
