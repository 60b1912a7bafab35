-- ===== src/Orders/Effect.antt =====
-- The effects that a service call has on the orders: none, one order moved, or one order replaced.
-- Each keeps the table in order, the finished orders as they are, and the log true.
use rasti_kiro_gpt.Common.{
  ℕ, ◌≡◌, ◌≢◌, sym, ◌∙◌, ap, true, false, Option, none, some, List, [], ◌∷◌, ◌==◌, arith,
  if◌then◌else◌, Bool-cases, inl, inr,
}
use rasti_kiro_gpt.Common.Table.{lookup}
use rasti_kiro_gpt.Orders.Model.{Status, Order, Details, Db, Env, StatusLog, is_terminal}
use rasti_kiro_gpt.Orders.Recycling.{replacement}
use rasti_kiro_gpt.Orders.Steps.{Moves}
use rasti_kiro_gpt.Orders.Replacing.{Replaced, IsValid}

pub data Effect (db out : Db) : Type 0 where
  unchanged : out ≡ db → Effect db out
  moves :
      (pk : ℕ) (old target : Status)
      → is_terminal old ≡ false
      → Moves pk old target db out
      → Effect db out
  replaces :
      (env : Env) (pk : ℕ) (locked closed : Order) (details : Details) (now : ℕ) (by : Option ℕ)
      (new_pk : ℕ)
      → is_terminal locked.status ≡ false
      → closed.pk ≡ locked.pk
      → closed.status ≡ Status.cancelled
      → Replaced env pk locked closed details now by db new_pk out
      → Effect db out

-- The status that the newest log entry of an order has.
unfoldable pub last_status : ℕ → List StatusLog → Option Status
last_status pk [] = none
last_status pk (l ∷ logs) = if l.order == pk then some l.new_status else last_status pk logs

-- The log tells the status of every order.
abbrev pub IsAudited : Db → Type 0
IsAudited db =
    (k : ℕ) (o : Order) → lookup k db.orders ≡ some o → last_status k db.logs ≡ some o.status

some-injective : {o o' : Order} → ◌≡◌ {A = Option Order} (some o) (some o') → o ≡ o'
some-injective h = cc

same_row : {o o' : Order} {m n : Option Order} → m ≡ some o → n ≡ some o' → m ≡ n → o ≡ o'
same_row h h' e = some-injective (cc)

module _ (db out : Db) (valid : IsValid db) where
  -- One order moved: the table stays in order.
  pub moved-IsValid : (pk : ℕ) (old target : Status) → Moves pk old target db out → IsValid out
  moved-IsValid pk old target m k o h = elim (Bool-cases (k == pk)) [
    | inl e ↦
        let key : k ≡ pk = ground arith in
        let same = same_row h m.after (ap (λ j. lookup j out.orders) key) in
        let (own, below) = valid pk m.row m.before in
        (◌∙◌ (ap (λ r. r.pk) same) (◌∙◌ m.same_pk (◌∙◌ own (sym key))), rw (key, m.same_next) below)
    | inr e ↦
        let (own, below) = valid k o (◌∙◌ (sym (m.others k (ground arith))) h) in
        (own, rw (m.same_next) below)
  ]

  pub moved_keeps :
      (pk : ℕ) (old target : Status)
      → is_terminal old ≡ false
      → Moves pk old target db out
      → (k : ℕ) (o : Order) → lookup k db.orders ≡ some o
      → is_terminal o.status ≡ true
      → lookup k out.orders ≡ some o
  moved_keeps pk old target live m k o h t = elim (Bool-cases (k == pk)) [
    | inl e ↦
        let key : k ≡ pk = ground arith in
        let same = same_row h m.before (ap (λ j. lookup j db.orders) key) in
        let dead : is_terminal old ≡ true =
          ◌∙◌ (ap is_terminal (sym (◌∙◌ (ap (λ r. r.status) same) m.was))) t in
        absurd (cc)
    | inr e ↦ ◌∙◌ (m.others k (ground arith)) h
  ]

  pub moved-IsAudited :
      (pk : ℕ) (old target : Status) → Moves pk old target db out → IsAudited db → IsAudited out
  unfolding last_status
  moved-IsAudited pk old target m audited k o h = elim (Bool-cases (k == pk)) [
    | inl e ↦
        let key : k ≡ pk = ground arith in
        let same = same_row h m.after (ap (λ j. lookup j out.orders) key) in
        let here : (m.log.order == k) ≡ true = ground (arith, m.log_order) in
        rw (m.logged, here)
          (ap (λ s. some s) (◌∙◌ m.log_new (◌∙◌ (sym m.becomes) (ap (λ r. r.status) (sym same)))))
    | inr e ↦
        let away : (m.log.order == k) ≡ false = ground (arith, m.log_order) in
        rw (m.logged, away) (audited k o (◌∙◌ (sym (m.others k (ground arith))) h))
  ]

  -- One order replaced, by an order under the next key.
  module _ (env : Env) (pk : ℕ) (locked closed : Order) (details : Details) (now : ℕ)
      (by : Option ℕ) (new_pk : ℕ)
      (r : Replaced env pk locked closed details now by db new_pk out) where
    new_row_is :
        (k : ℕ) (o : Order)
        → k ≡ new_pk
        → lookup k out.orders ≡ some o
        → o ≡ replacement env locked details new_pk now
    new_row_is k o key h = same_row h r.new_row (ap (λ j. lookup j out.orders) key)

    old_row_is : (k : ℕ) (o : Order) → k ≡ pk → lookup k out.orders ≡ some o → o ≡ closed
    old_row_is k o key h = same_row h r.old_row (ap (λ j. lookup j out.orders) key)

    other_row :
        (k : ℕ) (o : Order)
        → k ≢ pk
        → k ≢ new_pk
        → lookup k out.orders ≡ some o
        → lookup k db.orders ≡ some o
    other_row k o ne ne' h = ◌∙◌ (sym (r.others k ne ne')) h

    pub replaced-IsValid : closed.pk ≡ locked.pk → IsValid out
    unfolding replacement
    replaced-IsValid same k o h = elim (Bool-cases (k == new_pk)) [
      | inl e ↦
          let key : k ≡ new_pk = ground arith in
          (
            ◌∙◌ (ap (λ x. x.pk) (new_row_is k o key h)) (sym key),
            grind (arith, r.next, r.next_after),
          )
      | inr e ↦ elim (Bool-cases (k == pk)) [
        | inl f ↦
            let key : k ≡ pk = ground arith in
            let (own, below) = valid pk locked r.found in
            (
              ◌∙◌ (ap (λ x. x.pk) (old_row_is k o key h)) (◌∙◌ same (◌∙◌ own (sym key))),
              grind (arith, r.next_after),
            )
        | inr f ↦
            let (own, below) = valid k o (other_row k o (ground arith) (ground arith) h) in
            (own, grind (arith, r.next_after))
      ]
    ]

    pub replaced_keeps :
        is_terminal locked.status ≡ false
        → (k : ℕ) (o : Order) → lookup k db.orders ≡ some o
        → is_terminal o.status ≡ true
        → lookup k out.orders ≡ some o
    replaced_keeps live k o h t =
        let (own, below) = valid k o h in
        elim (Bool-cases (k == pk)) [
          | inl e ↦
              let same = same_row h r.found (ap (λ j. lookup j db.orders) (ground arith)) in
              let dead : is_terminal locked.status ≡ true =
                ◌∙◌ (ap (λ x. is_terminal x.status) (sym same)) t in
              absurd (cc)
          | inr e ↦ ◌∙◌ (r.others k (ground arith) (grind (arith, r.next))) h
        ]

    pub replaced-IsAudited : closed.status ≡ Status.cancelled → IsAudited db → IsAudited out
    unfolding last_status replacement
    replaced-IsAudited becomes audited k o h =
        let (own, below) = valid pk locked r.found in
        elim (Bool-cases (k == new_pk)) [
          | inl e ↦
              let key : k ≡ new_pk = ground arith in
              let here : (new_pk == k) ≡ true = ground arith in
              rw (r.logged, here) (ap (λ x. some x.status) (sym (new_row_is k o key h)))
          | inr e ↦
              let away : (new_pk == k) ≡ false = ground arith in
              elim (Bool-cases (k == pk)) [
                | inl f ↦
                    let here : (locked.pk == k) ≡ true = ground arith in
                    rw (r.logged, away, here)
                      (ap (λ s. some s)
                        (◌∙◌ (sym becomes)
                          (ap (λ x. x.status) (sym (old_row_is k o (ground arith) h)))))
                | inr f ↦
                    let far : (locked.pk == k) ≡ false = ground arith in
                    rw (r.logged, away, far)
                      (audited k o (other_row k o (ground arith) (ground arith) h))
              ]
        ]
