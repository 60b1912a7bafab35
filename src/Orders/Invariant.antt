-- ===== src/Orders/Invariant.antt =====
-- What every history of order service calls keeps: the table in order, the finished orders, and the
-- audit log.
use rasti_kiro_gpt.Common.{ℕ, ◌≡◌, true, some}
use rasti_kiro_gpt.Common.Table.{lookup}
use rasti_kiro_gpt.Orders.Model.{Order, Db, Env, is_terminal}
use rasti_kiro_gpt.Orders.Replacing.{IsValid}
use rasti_kiro_gpt.Orders.Effect.{
  Effect, unchanged, moves, replaces, IsAudited, moved-IsValid, moved_keeps, moved-IsAudited,
  replaced-IsValid, replaced_keeps, replaced-IsAudited,
}
use rasti_kiro_gpt.Orders.History.{Reach, begin, then, Step-Effect}

Effect-IsValid : (db out : Db) → Effect db out → IsValid db → IsValid out
Effect-IsValid db out (unchanged e) valid = rw (e) valid
Effect-IsValid db out (moves pk old target live m) valid =
    moved-IsValid db out valid pk old target m
Effect-IsValid db out (replaces env pk locked closed d now by new_pk live same becomes r) valid =
    replaced-IsValid db out valid env pk locked closed d now by new_pk r same

Effect-IsAudited : (db out : Db) → Effect db out → IsValid db → IsAudited db → IsAudited out
Effect-IsAudited db out (unchanged e) valid audited = rw (e) audited
Effect-IsAudited db out (moves pk old target live m) valid audited =
    moved-IsAudited db out valid pk old target m audited
Effect-IsAudited db out (replaces env pk locked closed d now by new_pk live same becomes r) valid
      audited =
    replaced-IsAudited db out valid env pk locked closed d now by new_pk r becomes audited

Effect-keeps :
    (db out : Db)
    → Effect db out
    → IsValid db
    → (k : ℕ) (o : Order) → lookup k db.orders ≡ some o
    → is_terminal o.status ≡ true
    → lookup k out.orders ≡ some o
Effect-keeps db out (unchanged e) valid k o h t = rw (e) h
Effect-keeps db out (moves pk old target live m) valid k o h t =
    moved_keeps db out valid pk old target live m k o h t
Effect-keeps db out (replaces env pk locked closed d now by new_pk live same becomes r) valid k o h
      t =
    replaced_keeps db out valid env pk locked closed d now by new_pk r live k o h t

pub Reach-IsValid : (env : Env) (start db : Db) → Reach env start db → IsValid start → IsValid db
Reach-IsValid env start db begin valid = valid
Reach-IsValid env start db (then {db = mid} r s) valid =
    let before = Reach-IsValid env start mid r valid in
    Effect-IsValid mid db (Step-Effect env mid db before s) before

-- Along every history of calls that starts at an order table in order (each row under its own key,
-- the next key above them all), an order that is DONE or CANCELLED keeps its whole row.
pub Reach-keeps_finished :
    (env : Env) (start db : Db)
    → Reach env start db
    → IsValid start
    → (k : ℕ) (o : Order) → lookup k start.orders ≡ some o
    → is_terminal o.status ≡ true
    → lookup k db.orders ≡ some o
Reach-keeps_finished env start db begin valid k o h t = h
Reach-keeps_finished env start db (then {db = mid} r s) valid k o h t =
    let before = Reach-IsValid env start mid r valid in
    Effect-keeps mid db (Step-Effect env mid db before s) before k o
      (Reach-keeps_finished env start mid r valid k o h t) t

-- Along every history of calls that starts at an order table in order whose log is true, the log is
-- true: the newest entry of every order has the order's status.
pub Reach-IsAudited :
    (env : Env) (start db : Db)
    → Reach env start db
    → IsValid start
    → IsAudited start
    → IsAudited db
Reach-IsAudited env start db begin valid audited = audited
Reach-IsAudited env start db (then {db = mid} r s) valid audited =
    let before = Reach-IsValid env start mid r valid in
    Effect-IsAudited mid db (Step-Effect env mid db before s) before
      (Reach-IsAudited env start mid r valid audited)
