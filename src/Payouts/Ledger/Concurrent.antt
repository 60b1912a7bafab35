-- ===== src/Payouts/Ledger/Concurrent.antt =====
-- Writers of `_write_entry` that run at the same time. A writer checks its key, locks the technician's
-- newest row if there is one, and computes the balance (`check`); it inserts later (`insert`), and
-- writers whose lock is free may come between.
use rasti_kiro_gpt.Common.{
  ℕ, ◌<◌, ◌≡◌, ◌≢◌, refl, Bool, true, false, not, ◌&&◌, ◌||◌, ◌==◌, if◌then◌else◌, Option, none,
  some, List, [], ◌∷◌, ◌++◌, arith, Bool-cases, inl, inr, ◌∙◌,
}
use rasti_kiro_gpt.Common.Int.{ℤ, int_laws}
use rasti_kiro_gpt.Payouts.Ledger.Entry.{
  Key, Request, Entry, Ledger, get_balance, has_key, find_key, same_idempotency_key,
}
use rasti_kiro_gpt.Payouts.Ledger.Write.{balance_with, entry_for, create_entry}
use rasti_kiro_gpt.Payouts.Ledger.Balance.{IsRunning, get_balance-entry_for}

-- A writer that has passed its check, with the row that it locked, if there was one to lock, and the
-- balance that it computed.
pub record Pending : Type 0 where
  pub request : Request
  pub locked : Option Key
  pub current_balance : ℤ

pub record System : Type 0 where
  pub ledger : Ledger
  pub pending : List Pending

-- The technician's newest row, by its key: `.order_by("-id")[:1]`
unfoldable pub newest : ℕ → ℕ → Ledger → Option Key
newest company technician [] = none
newest company technician (e ∷ l) =
    if e.company == company && e.technician == technician
    then some e.idempotency_key
    else newest company technician l

abbrev has_locked : Key → Pending → Bool
has_locked k w = elim w.locked [ none ↦ false | some k' ↦ same_idempotency_key k k' ]

unfoldable pub is_locked : Key → List Pending → Bool
is_locked k [] = false
is_locked k (w ∷ ws) = has_locked k w || is_locked k ws

-- `select_for_update`: a row that another writer has locked makes the writer wait; no row, no lock.
abbrev pub can_lock : Option Key → List Pending → Bool
can_lock none ws = true
can_lock (some k) ws = not (is_locked k ws)

-- One step of one writer, which a writer that must wait for a lock takes later. A check that finds
-- the key ends its writer and changes nothing. The insert commits, which releases the lock.
pub data Step (s : System) : System → Type 0 where
  check :
      (r : Request)
      → has_key r.idempotency_key s.ledger ≡ false
      → can_lock (newest r.company r.technician s.ledger) s.pending ≡ true
      → Step s (record {
        ledger = s.ledger;
        pending =
            record {
              request = r;
              locked = newest r.company r.technician s.ledger;
              current_balance = get_balance r.company r.technician s.ledger;
            }
            ∷ s.pending;
      })
  insert :
      (before after : List Pending) (w : Pending)
      → s.pending ≡ before ++ w ∷ after
      → Step s (record {
        ledger = (create_entry w.request w.current_balance s.ledger).1;
        pending = before ++ after;
      })

pub data Reach (s : System) : System → Type 0 where
  here : Reach s s
  next : {t u : System} → Reach s t → Step t u → Reach s u

find_known :
    (k : Key) (l : Ledger)
    → has_key k l ≡ true
    → (e : Entry) × (find_key k l ≡ some e) × (same_idempotency_key k e.idempotency_key ≡ true)
unfolding find_key has_key
find_known k [] h = cc
find_known k (e ∷ l) h = elim (Bool-cases (same_idempotency_key k e.idempotency_key)) [
  | inl hit ↦ (e, ground arith, hit)
  | inr miss ↦ let (f, found, same) = find_known k l (ground arith) in (f, ground arith, same)
]

-- The writer whose insert is refused gets the row that is there, and the ledger stays as it is.
pub insert_lost_race :
    (r : Request) (b : ℤ) (l : Ledger)
    → has_key r.idempotency_key l ≡ true
    → (e : Entry) × (create_entry r b l ≡ (some e, l))
      × (same_idempotency_key r.idempotency_key e.idempotency_key ≡ true)
unfolding create_entry
insert_lost_race r b l h =
    let (e, found, same) = find_known r.idempotency_key l h in (e, rw (h, found) refl, same)

create_entry_new :
    (r : Request) (b : ℤ) (l : Ledger)
    → has_key r.idempotency_key l ≡ false
    → (create_entry r b l).1 ≡ entry_for r b ∷ l
unfolding create_entry
create_entry_new r b l h = rw h refl

wrong_balance :
    (r q : Request) (balance : ℤ)
    → 0 < r.amount_rial
    → balance_with q balance ≢ balance_with q (balance_with r balance)
unfolding balance_with
wrong_balance r q balance p e = grind int_laws

head_balance :
    (r : Request) (b : ℤ) (l : Ledger)
    → IsRunning (entry_for r b ∷ l)
    → balance_with r b ≡ get_balance r.company r.technician (entry_for r b ∷ l)
unfolding entry_for
head_balance r b l h = h.0

-- Two entries for one technician whose balances were both computed before either was inserted: the
-- second does not count the first.
both_checked :
    (r q : Request) (l : Ledger)
    → has_key r.idempotency_key l ≡ false
    → has_key q.idempotency_key l ≡ false
    → same_idempotency_key q.idempotency_key r.idempotency_key ≡ false
    → q.company ≡ r.company
    → q.technician ≡ r.technician
    → 0 < r.amount_rial
    → let first = (create_entry r (get_balance r.company r.technician l) l).1 in
      ¬ IsRunning (create_entry q (get_balance q.company q.technician l) first).1
      × (get_balance r.company r.technician
            (create_entry q (get_balance q.company q.technician l) first).1
          ≡ balance_with q (balance_with r (get_balance r.company r.technician l)))
unfolding has_key
both_checked r q l hr hq hd ec et p =
    let b = get_balance r.company r.technician l in
    let first = entry_for r b ∷ l in
    let new : has_key q.idempotency_key first ≡ false = unfold entry_for in rw (hd, hq) refl in
    let both : get_balance r.company r.technician (entry_for q b ∷ first)
        ≡ balance_with q (balance_with r b) =
      ground (
        arith,
        get_balance-entry_for r.company r.technician q b first,
        get_balance-entry_for r.company r.technician r b l,
      ) in
    let own : get_balance q.company q.technician (entry_for q b ∷ first)
        ≡ balance_with q (balance_with r b) =
      cc both in
    let same : get_balance q.company q.technician l ≡ b = cc in
    rw (same, create_entry_new r b l hr, create_entry_new q b first new)
      (λ running. wrong_balance r q b p (head_balance q b first running ∙ own), both)

-- For a technician without a row in the ledger there is nothing to lock: two writers with different
-- new keys, the first with a positive amount, can both check before either inserts. The run ends with
-- both entries in the ledger and a running balance that is wrong, as the second entry does not count
-- the first; the balance that `get_balance` sums up counts both.
pub new_technician_races :
    (r q : Request) (l : Ledger)
    → newest r.company r.technician l ≡ none
    → has_key r.idempotency_key l ≡ false
    → has_key q.idempotency_key l ≡ false
    → same_idempotency_key q.idempotency_key r.idempotency_key ≡ false
    → q.company ≡ r.company
    → q.technician ≡ r.technician
    → 0 < r.amount_rial
    → (out : System) × Reach (record { ledger = l; pending = [] }) out
      × (out.pending ≡ [])
      × (¬ IsRunning out.ledger)
      × (get_balance r.company r.technician out.ledger
          ≡ balance_with q (balance_with r (get_balance r.company r.technician l)))
new_technician_races r q l none_yet hr hq hd ec et p =
    let w : Pending = record {
      request = r;
      locked = newest r.company r.technician l;
      current_balance = get_balance r.company r.technician l;
    } in
    let v : Pending = record {
      request = q;
      locked = newest q.company q.technician l;
      current_balance = get_balance q.company q.technician l;
    } in
    let none_for_q : newest q.company q.technician l ≡ none = cc in
    let one = next here (check r hr (rw none_yet refl)) in
    let two = next one (check q hq (rw none_for_q refl)) in
    let three = next two (insert (v ∷ []) [] w refl) in
    let four = next three (insert [] [] v refl) in
    let (wrong, total) = both_checked r q l hr hq hd ec et p in (_, four, refl, wrong, total)
