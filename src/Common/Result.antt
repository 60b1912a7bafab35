-- ===== src/Common/Result.antt =====
-- The outcome of a service call: its value, or the exception that it raises. `@transaction.atomic`
-- rolls a raised exception back, so an error carries no state.
use mathlib.Core.Path.{◌≡◌, refl}
use mathlib.Core.Logic.{◌⊎◌, inl, inr}
use mathlib.Core.Bool.{Bool, true, false}
use mathlib.Core.Option.{Option, none, some}

pub data Result {ℓ κ} (E : Type ℓ) (A : Type κ) : Type (ℓ ⊔ κ) where
  ok : A → Result E A
  err : E → Result E A

infixl 5 ◌>>=◌ ◌>>◌
abbrev pub ◌>>=◌ {ε ℓ κ} :
    {E : Type ε} {A : Type ℓ} {B : Type κ} → Result E A → (A → Result E B) → Result E B
err e >>= step = err e
ok value >>= step = step value

abbrev pub ◌>>◌ {ε κ} : {E : Type ε} {B : Type κ} → Result E (Unit {0}) → Result E B → Result E B
m >> k = m >>= λ _. k

-- `if c: raise e`
abbrev pub raise_if {ε} : {E : Type ε} → Bool → E → Result E (Unit {0})
raise_if true e = err e
raise_if false e = ok tt

abbrev pub or_raise {ε ℓ} : {E : Type ε} {A : Type ℓ} → Option A → E → Result E A
or_raise none e = err e
or_raise (some a) e = ok a

-- Whether a call returns.
abbrev pub succeeds {ε ℓ} : {E : Type ε} {A : Type ℓ} → Result E A → Bool
succeeds (ok a) = true
succeeds (err e) = false

-- A successful chain, taken apart.
pub >>=-eq-ok {ε ℓ κ} :
    {E : Type ε} {A : Type ℓ} {B : Type κ} (first : Result E A) (rest : A → Result E B) {out : B}
    → (first >>= rest) ≡ ok out
    → (x : A) × (first ≡ ok x) × (rest x ≡ ok out)
>>=-eq-ok (err e) rest h = cc
>>=-eq-ok (ok x) rest h = (x, refl, h)

pub Result-cases {ε ℓ} :
    {E : Type ε} {A : Type ℓ} (m : Result E A) → ((a : A) × (m ≡ ok a)) ⊎ ((e : E) × (m ≡ err e))
Result-cases (ok a) = inl (a, refl)
Result-cases (err e) = inr (e, refl)

-- A test that a successful call has passed.
pub after_check {ε κ} :
    {E : Type ε} {A : Type κ} (c : Bool) (e : E) (k : Result E A) {out : A}
    → (raise_if c e >> k) ≡ ok out
    → k ≡ ok out
after_check true e k h = absurd (cc)
after_check false e k h = h

-- The value and the state of a call that returns both.
pub ok_pair {ε ℓ κ} :
    {E : Type ε} {A : Type ℓ} {B : Type κ} {x y : A} {b c : B}
    → ◌≡◌ {A = Result E (A × B)} (ok (x, b)) (ok (y, c))
    → (x ≡ y) × (b ≡ c)
ok_pair h = (cc, cc)
