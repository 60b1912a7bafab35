-- ===== src/Orders/Machine.antt =====
-- What one call of a service does to the orders and to their log: one order changes its status along
-- the workflow, every other order stays, and the change is logged.
use rasti_kiro_gpt.Common.{
  ℕ, ◌≡◌, ◌≢◌, refl, Bool, true, false, Option, some, List, ◌∷◌, arith, Option-cases, inl, inr,
}
use rasti_kiro_gpt.Common.Table.{Table, lookup, save, lookup-save_self, lookup-save_ne}
use rasti_kiro_gpt.Common.Result.{Result, ok, err, ◌>>=◌, ◌>>◌, raise_if, >>=-eq-ok}
use rasti_kiro_gpt.Orders.Model.{
  Status, Order, StatusLog, Db, Error, get_locked, transition, log_for, add_log, same_status,
}

-- The status of order `pk` goes from `old` to `target`.
pub record Moved (pk : ℕ) (old target : Status) (orders : Table Order) (logs : List StatusLog)
    (next : ℕ) (orders' : Table Order) (logs' : List StatusLog) (next' : ℕ) : Type 0 where
  pub row : Order
  pub row' : Order
  pub log : StatusLog
  pub before : lookup pk orders ≡ some row
  pub was : row.status ≡ old
  pub after : lookup pk orders' ≡ some row'
  pub becomes : row'.status ≡ target
  pub same_pk : row'.pk ≡ row.pk
  pub others : (j : ℕ) → j ≢ pk → lookup j orders' ≡ lookup j orders
  pub logged : logs' ≡ log ∷ logs
  pub log_order : log.order ≡ pk
  pub log_old : log.old_status ≡ some old
  pub log_new : log.new_status ≡ target
  pub same_next : next' ≡ next

-- Each row is stored under its own key.
abbrev pub AreKeyed : Table Order → Type 0
AreKeyed orders = (k : ℕ) (o : Order) → lookup k orders ≡ some o → o.pk ≡ k

-- The caller's object is the row.
abbrev pub IsFresh : Order → Db → Type 0
IsFresh order db = lookup order.pk db.orders ≡ some order

abbrev pub moved_db : Order → (Order → Order) → Order → Status → Status → Option ℕ → Db → Db
moved_db order write row old target by db =
    add_log (log_for order (some old) target by)
      (record db { orders = save order.pk (write row) db.orders })

pub transition_found :
    (order row : Order) (write : Order → Order) (old target : Status) (by : Option ℕ) (db : Db)
    → lookup order.pk db.orders ≡ some row
    → transition order write old target by db ≡ ok (moved_db order write row old target by db)
unfolding transition
transition_found order row write old target by db h = rw (h, get_locked) refl

pub moved_db-Moved :
    (order row : Order) (write : Order → Order) (old target : Status) (by : Option ℕ) (db : Db)
    → lookup order.pk db.orders ≡ some row
    → row.status ≡ old
    → (write row).status ≡ target
    → (write row).pk ≡ row.pk
    → let db' = moved_db order write row old target by db in
      Moved order.pk old target db.orders db.logs db.next_order db'.orders db'.logs db'.next_order
moved_db-Moved order row write old target by db h e f k = record {
  row = row;
  row' = write row;
  log = log_for order (some old) target by;
  before = h;
  was = e;
  after = lookup-save_self order.pk (write row) db.orders;
  becomes = f;
  same_pk = k;
  others = λ j ne. lookup-save_ne j order.pk (write row) db.orders ne;
  logged = refl;
  log_order = refl;
  log_old = refl;
  log_new = refl;
  same_next = refl;
}

pub get_locked-eq-ok :
    (pk : ℕ) (db : Db) (row : Order) → get_locked pk db ≡ ok row → lookup pk db.orders ≡ some row
unfolding get_locked
get_locked-eq-ok pk db row h = elim (Option-cases (lookup pk db.orders)) [
  | inl e ↦ absurd (ground arith)
  | inr (o, e) ↦ ground arith
]

-- The row that a step has locked, and the rest of the step.
pub data Lock {ℓ} (pk : ℕ) (db : Db) {B : Type ℓ} (k : Order → Result Error B) (out : B)
    : Type ℓ where
  locks : (row : Order) → lookup pk db.orders ≡ some row → k row ≡ ok out → Lock pk db k out

-- A step that succeeds after the row is locked has found the row.
pub get_locked-Lock {ℓ} :
    (pk : ℕ) (db : Db) {B : Type ℓ} (k : Order → Result Error B) {out : B}
    → (get_locked pk db >>= k) ≡ ok out
    → Lock pk db k out
get_locked-Lock pk db k h =
    let (row, e, rest) = >>=-eq-ok (get_locked pk db) k h in
    locks row (get_locked-eq-ok pk db row e) rest

-- A step that succeeds after a check passed the check.
pub raise_if-eq-ok {ε κ} :
    {E : Type ε} {B : Type κ} (b : Bool) (e : E) (k : Result E B) {out : B}
    → (raise_if b e >> k) ≡ ok out
    → (b ≡ false) × (k ≡ ok out)
raise_if-eq-ok true e k h = cc
raise_if-eq-ok false e k h = (refl, h)

pub check-eq-ok {κ} :
    {B : Type κ} (m : Result Error (Unit {0})) (k : Result Error B) {out : B}
    → (m >> k) ≡ ok out
    → (m ≡ ok tt) × (k ≡ ok out)
check-eq-ok (ok u) k h = (refl, h)
check-eq-ok (err e) k h = cc

pub same_status_eq : (s t : Status) → same_status s t ≡ true → s ≡ t
same_status_eq Status.pending_review t h = ground arith
same_status_eq Status.new t h = ground arith
same_status_eq Status.waiting t h = ground arith
same_status_eq Status.in_progress t h = ground arith
same_status_eq Status.done t h = ground arith
same_status_eq Status.cancel_requested t h = ground arith
same_status_eq Status.cancelled t h = ground arith

-- A call of `transition` on an order whose row is there, followed by `k`, has come to `k` with the
-- changed tables.
pub transition_then {ℓ} :
    {B : Type ℓ} (order row : Order) (write : Order → Order) (old target : Status) (by : Option ℕ)
    (db : Db) (k : Db → Result Error B) {out : B}
    → lookup order.pk db.orders ≡ some row
    → (transition order write old target by db >>= k) ≡ ok out
    → k (moved_db order write row old target by db) ≡ ok out
transition_then order row write old target by db k found h =
    rw (transition_found order row write old target by db found) at h

pub ok-injective {ε ℓ} :
    {E : Type ε} {A : Type ℓ} {a b : A} → ◌≡◌ {A = Result E A} (ok a) (ok b) → a ≡ b
ok-injective h = cc
