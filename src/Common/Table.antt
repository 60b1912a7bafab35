-- ===== src/Common/Table.antt =====
-- A database table: rows by primary key. `save` overwrites the row with the key, or adds it.
use Prim.Native.Nat.{ℕ}
use mathlib.Core.Path.{◌≡◌}
use mathlib.Core.Logic.{◌≢◌}
use mathlib.Core.Option.{Option, none, some}
use mathlib.Core.List.{List, [], ◌∷◌}
use native.Mathlib.Omega.{arith}
use rasti_kiro_gpt.Common.Tests.{◌==◌, if◌then◌else◌}

abbrev pub Table {ℓ} : Type ℓ → Type ℓ
Table A = List (ℕ × A)

module _ {ℓ} {A : Type ℓ} where
  -- `objects.get(pk=k)`, or `filter(pk=k).first()`
  unfoldable pub lookup : ℕ → Table A → Option A
  lookup k [] = none
  lookup k ((j, a) ∷ t) = if k == j then some a else lookup k t

  unfoldable pub save : ℕ → A → Table A → Table A
  save k a [] = (k, a) ∷ []
  save k a (e ∷ t) = if k == e.0 then (k, a) ∷ t else e ∷ save k a t

  pub lookup-save :
      (j k : ℕ) (a : A) (t : Table A)
      → lookup j (save k a t) ≡ (if j == k then some a else lookup j t)
  unfolding lookup save
  lookup-save j k a [] = ground arith
  lookup-save j k a (e ∷ t) = ground (arith, lookup-save j k a t)

  pub lookup-save_self : (k : ℕ) (a : A) (t : Table A) → lookup k (save k a t) ≡ some a
  lookup-save_self k a t = ground (arith, lookup-save k k a t)

  pub lookup-save_ne : (j k : ℕ) (a : A) (t : Table A) → j ≢ k → lookup j (save k a t) ≡ lookup j t
  lookup-save_ne j k a t h = ground (arith, lookup-save j k a t)

  pub save-save : (k : ℕ) (a c : A) (t : Table A) → save k a (save k c t) ≡ save k a t
  unfolding save
  save-save k a c [] = ground arith
  save-save k a c (e ∷ t) = ground (arith, save-save k a c t)
