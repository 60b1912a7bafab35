-- ===== src/Payouts/Escrow/Table.antt =====
-- The table of escrow records (apps/payouts/services_escrow.py) under each operation.
use rasti_kiro_gpt.Common.{
  ℕ, suc, ◌≤◌, ◌<◌, ◌≡◌, ◌≢◌, refl, true, false, Option, none, some, [], ◌∷◌, ◌==◌, arith, inl, inr,
  Bool-cases, Option-cases,
}
use rasti_kiro_gpt.Common.Table.{Table, lookup, save, lookup-save}
use rasti_kiro_gpt.Common.Result.{Result, ok, Result-cases}
use rasti_kiro_gpt.Payouts.Escrow.Defs.{
  EscrowRecord, Error, Escrows, PaymentInfo, update, find_by_payment, create_for_payment,
  new_record, is_eligible_for_escrow,
}
use rasti_kiro_gpt.Payouts.Escrow.Machine.{IsConsistent, Call, call, call-IsConsistent}

-- Primary keys are below the next one and differ, payments differ, and each record is consistent.
abbrev pub AreRows : ℕ → Table EscrowRecord → Type 0
AreRows n [] = Unit {0}
AreRows n ((pk, e) ∷ rows) =
    (pk < n)
    × (lookup pk rows ≡ none)
    × (find_by_payment e.payment rows ≡ none)
    × IsConsistent e
    × AreRows n rows

abbrev pub IsValid : Escrows → Type 0
IsValid db = AreRows db.next_pk db.rows

find-save-none :
    (q pk : ℕ) (e f : EscrowRecord) (rows : Table EscrowRecord)
    → lookup pk rows ≡ some e
    → f.payment ≡ e.payment
    → find_by_payment q rows ≡ none
    → find_by_payment q (save pk f rows) ≡ none
unfolding lookup save find_by_payment
find-save-none q pk e f [] l p h = cc
find-save-none q pk e f ((k, x) ∷ rows) l p h = ground (arith, find-save-none q pk e f rows)

lookup-save-none :
    (j pk : ℕ) (e f : EscrowRecord) (rows : Table EscrowRecord)
    → lookup pk rows ≡ some e
    → lookup j rows ≡ none
    → lookup j (save pk f rows) ≡ none
lookup-save-none j pk e f rows l h = ground (arith, lookup-save j pk f rows)

pub save-AreRows :
    (n pk : ℕ) (e f : EscrowRecord) (rows : Table EscrowRecord)
    → lookup pk rows ≡ some e
    → f.payment ≡ e.payment
    → IsConsistent f
    → AreRows n rows
    → AreRows n (save pk f rows)
unfolding lookup save
save-AreRows n pk e f [] l p c v = cc
save-AreRows n pk e f ((k, x) ∷ rows) l p c v = ground (
  arith,
  lookup-save-none k pk e f rows,
  find-save-none x.payment pk e f rows,
  save-AreRows n pk e f rows,
)

pub rows-IsConsistent :
    (n pk : ℕ) (e : EscrowRecord) (rows : Table EscrowRecord)
    → AreRows n rows
    → lookup pk rows ≡ some e
    → IsConsistent e
unfolding lookup
rows-IsConsistent n pk e [] v h = cc
rows-IsConsistent n pk e ((k, x) ∷ rows) v h = elim (Bool-cases (pk == k)) [
  | inl same ↦ let this : x ≡ e = ground arith in rw this at v.3
  | inr other ↦ rows-IsConsistent n pk e rows v.4 (ground arith)
]

pub find-lookup :
    (n q pk : ℕ) (e : EscrowRecord) (rows : Table EscrowRecord)
    → AreRows n rows
    → find_by_payment q rows ≡ some (pk, e)
    → (lookup pk rows ≡ some e) × (e.payment ≡ q)
unfolding lookup find_by_payment
find-lookup n q pk e [] v h = cc
find-lookup n q pk e ((k, x) ∷ rows) v h = ground (arith, find-lookup n q pk e rows v.4)

-- After a save of the row with the payment, the payment finds the saved row.
pub find-save :
    (n q pk : ℕ) (e f : EscrowRecord) (rows : Table EscrowRecord)
    → AreRows n rows
    → find_by_payment q rows ≡ some (pk, e)
    → f.payment ≡ e.payment
    → find_by_payment q (save pk f rows) ≡ some (pk, f)
unfolding lookup save find_by_payment
find-save n q pk e f [] v h p = cc
find-save n q pk e f ((k, x) ∷ rows) v h p =
    ground (arith, find-lookup n q pk e rows v.4, find-save n q pk e f rows v.4)

-- What an operation that succeeds has done.
pub update-eq-ok :
    (pk : ℕ) (body : EscrowRecord → Result Error EscrowRecord) (db : Escrows) (out : EscrowRecord)
    (db' : Escrows)
    → update pk body db ≡ ok (out, db')
    → (e : EscrowRecord) × (lookup pk db.rows ≡ some e)
      × (body e ≡ ok out)
      × (db' ≡ record db { rows = save pk out db.rows })
unfolding update
update-eq-ok pk body db out db' h = elim (Option-cases (lookup pk db.rows)) [
  | inl missing ↦ absurd (ground arith)
  | inr (e, found) ↦ elim (Result-cases (body e)) [
    | inl (f, done) ↦ (e, found, ground arith, ground arith)
    | inr (x, failed) ↦ absurd (ground arith)
  ]
]

-- Every call of the service on a stored record keeps the table valid.
pub update-IsValid :
    (c : Call) (pk : ℕ) (db : Escrows) (out : EscrowRecord) (db' : Escrows)
    → update pk (call c) db ≡ ok (out, db')
    → IsValid db
    → IsValid db'
update-IsValid c pk db out db' h v =
    let (e, found, done, saved) = update-eq-ok pk (call c) db out db' h in
    let (consistent, _, payment, _) =
      call-IsConsistent c e out done (rows-IsConsistent db.next_pk pk e db.rows v found) in
    rw saved (save-AreRows db.next_pk pk e out db.rows found payment consistent v)

AreRows-mono : (n m : ℕ) (rows : Table EscrowRecord) → n ≤ m → AreRows n rows → AreRows m rows
AreRows-mono n m [] h v = tt
AreRows-mono n m ((k, x) ∷ rows) h v = (omega arith, v.1, v.2, v.3, AreRows-mono n m rows h v.4)

lookup_fresh : (n : ℕ) (rows : Table EscrowRecord) → AreRows n rows → lookup n rows ≡ none
unfolding lookup
lookup_fresh n [] v = refl
lookup_fresh n ((k, x) ∷ rows) v = ground (arith, lookup_fresh n rows v.4)

find-save_other :
    (q pk : ℕ) (f : EscrowRecord) (rows : Table EscrowRecord)
    → lookup pk rows ≡ none
    → f.payment ≢ q
    → find_by_payment q (save pk f rows) ≡ find_by_payment q rows
unfolding lookup save find_by_payment
find-save_other q pk f [] l p = ground arith
find-save_other q pk f ((k, x) ∷ rows) l p = ground (arith, find-save_other q pk f rows)

insert-AreRows :
    (n pk : ℕ) (f : EscrowRecord) (rows : Table EscrowRecord)
    → lookup pk rows ≡ none
    → pk < n
    → find_by_payment f.payment rows ≡ none
    → IsConsistent f
    → AreRows n rows
    → AreRows n (save pk f rows)
unfolding lookup save find_by_payment
insert-AreRows n pk f [] l lt p c v = (lt, refl, refl, c, tt)
insert-AreRows n pk f ((k, x) ∷ rows) l lt p c v = ground (
  arith,
  lookup-save k pk f rows,
  find-save_other x.payment pk f rows,
  insert-AreRows n pk f rows,
)

find-insert :
    (pk : ℕ) (f : EscrowRecord) (rows : Table EscrowRecord)
    → lookup pk rows ≡ none
    → find_by_payment f.payment rows ≡ none
    → find_by_payment f.payment (save pk f rows) ≡ some (pk, f)
unfolding lookup save find_by_payment
find-insert pk f [] l h = ground arith
find-insert pk f ((k, x) ∷ rows) l h = ground (arith, find-insert pk f rows)

new_record-IsConsistent :
    (p : PaymentInfo) (invoice : Option ℕ) → IsConsistent (new_record p invoice)
unfolding new_record
new_record-IsConsistent p invoice = ground arith

create_existing :
    (p : PaymentInfo) (invoice : Option ℕ) (x : ℕ × EscrowRecord) (db : Escrows)
    → find_by_payment p.payment_id db.rows ≡ some x
    → create_for_payment p invoice db ≡ (some x, db)
unfolding create_for_payment
create_existing p invoice x db h = ground arith

create_refused :
    (p : PaymentInfo) (invoice : Option ℕ) (db : Escrows)
    → find_by_payment p.payment_id db.rows ≡ none
    → is_eligible_for_escrow p ≡ false
    → create_for_payment p invoice db ≡ (none, db)
unfolding create_for_payment
create_refused p invoice db h k = ground arith

module _ (p : PaymentInfo) (invoice : Option ℕ) (db : Escrows) where
  abbrev inserted : Escrows
  inserted = record {
    rows = save db.next_pk (new_record p invoice) db.rows;
    next_pk = suc db.next_pk;
  }

  module _ (v : IsValid db) (absent : find_by_payment p.payment_id db.rows ≡ none)
      (eligible : is_eligible_for_escrow p ≡ true) where
    create_new :
        create_for_payment p invoice db ≡ (some (db.next_pk, new_record p invoice), inserted)
    unfolding create_for_payment
    create_new = ground arith

    inserted-IsValid : IsValid inserted
    unfolding new_record
    inserted-IsValid =
        insert-AreRows (suc db.next_pk) db.next_pk (new_record p invoice) db.rows
          (lookup_fresh db.next_pk db.rows v) (omega arith) absent
          (new_record-IsConsistent p invoice)
          (AreRows-mono db.next_pk (suc db.next_pk) db.rows (omega arith) v)

    inserted_found :
        find_by_payment p.payment_id inserted.rows ≡ some (db.next_pk, new_record p invoice)
    unfolding new_record
    inserted_found =
        find-insert db.next_pk (new_record p invoice) db.rows (lookup_fresh db.next_pk db.rows v)
          absent

-- What `create_for_payment` does on a valid table.
pub record Creates (p : PaymentInfo) (invoice : Option ℕ) (db : Escrows) : Type 0 where
  pub valid : IsValid (create_for_payment p invoice db).1
  pub found :
      find_by_payment p.payment_id (create_for_payment p invoice db).1.rows
      ≡ (create_for_payment p invoice db).0
  pub again :
      (invoice' : Option ℕ)
      → create_for_payment p invoice' (create_for_payment p invoice db).1
        ≡ create_for_payment p invoice db
  pub ineligible :
      is_eligible_for_escrow p ≡ false
      → find_by_payment p.payment_id db.rows ≡ none
      → create_for_payment p invoice db ≡ (none, db)

-- On a valid table, creating a record for a payment keeps the table valid, so no payment ever has two;
-- the payment then finds what was returned; a second call returns that and changes nothing; and a
-- payment that is not eligible and has no record gets none.
pub create_for_payment-Creates :
    (p : PaymentInfo) (invoice : Option ℕ) (db : Escrows) → IsValid db → Creates p invoice db
create_for_payment-Creates p invoice db v =
    elim (Option-cases (find_by_payment p.payment_id db.rows)) [
      | inr (existing, e) ↦ record {
        valid = rw (create_existing p invoice existing db e) v;
        found = rw (create_existing p invoice existing db e) e;
        again = λ invoice'.
            rw (create_existing p invoice existing db e) (create_existing p invoice' existing db e);
        ineligible = λ h k. cc;
      }
      | inl e ↦ elim (Bool-cases (is_eligible_for_escrow p)) [
        | inr refused ↦ record {
          valid = rw (create_refused p invoice db e refused) v;
          found = rw (create_refused p invoice db e refused) e;
          again = λ invoice'.
              rw (create_refused p invoice db e refused) (create_refused p invoice' db e refused);
          ineligible = λ h k. create_refused p invoice db e refused;
        }
        | inl eligible ↦ record {
          valid =
              rw (create_new p invoice db v e eligible)
                (inserted-IsValid p invoice db v e eligible);
          found =
              rw (create_new p invoice db v e eligible) (inserted_found p invoice db v e eligible);
          again = λ invoice'. rw (create_new p invoice db v e eligible) (
              create_existing p invoice' (db.next_pk, new_record p invoice) (inserted p invoice db)
                (inserted_found p invoice db v e eligible));
          ineligible = λ h k. cc;
        }
      ]
    ]
