-- ===== src/Base/Table.antt =====
-- A database table: rows under their identifiers. `lookup` is a SELECT by primary key, `modify` an
-- UPDATE of the row with that key, which does nothing when there is none.
use Prim.Native.Nat.{ℕ}
use mathlib.Core.Path.{◌≡◌, refl}
use mathlib.Core.Option
use mathlib.Core.Option.{Option, none, some}
use mathlib.Core.List.{List, [], ◌∷◌, ◌++◌}
use native.Mathlib.Omega.{arith}
use vpn_control_api.Base.Tests.{◌==◌, ==_iff, if◌then◌else◌}

abbrev pub Table : Type 0 → Type 0
Table R = List (ℕ × R)

module _ {R : Type 0} where
  unfoldable pub lookup : ℕ → Table R → Option R
  lookup k [] = none
  lookup k ((j, r) ∷ t) = if k == j then some r else lookup k t

  unfoldable pub modify : ℕ → (R → R) → Table R → Table R
  modify k f [] = []
  modify k f ((j, r) ∷ t) = (if k == j then (j, f r) else (j, r)) ∷ modify k f t

  -- An update is seen at its own key, and at no other.
  pub lookup-modify :
      (j k : ℕ) (f : R → R) (t : Table R)
      → lookup j (modify k f t) ≡ (if j == k then Option.map f (lookup j t) else lookup j t)
  unfolding lookup modify
  lookup-modify j k f [] = ground arith
  lookup-modify j k f ((i, r) ∷ t) = ground (arith, lookup-modify j k f t)

  -- An update that takes another one back.
  pub modify_back :
      (j k : ℕ) (f g : R → R) (t : Table R) {r : R}
      → lookup k t ≡ some r
      → g (f r) ≡ r
      → lookup j (modify k g (modify k f t)) ≡ lookup j t
  modify_back j k f g t found back =
      ground (arith, lookup-modify j k g (modify k f t), lookup-modify j k f t, ==_iff j k)

  -- No two rows share a key.
  abbrev pub Distinct : Table R → Type 0
  Distinct [] = Unit
  Distinct ((k, r) ∷ t) = (lookup k t ≡ none) × Distinct t

  -- A DELETE of the rows with a key.
  unfoldable pub remove : ℕ → Table R → Table R
  remove k [] = []
  remove k ((j, r) ∷ t) = let rest = remove k t in if k == j then rest else (j, r) ∷ rest

  -- A new row is found under its key, unless the key was there before; other keys keep their rows.
  pub lookup-append :
      (j k : ℕ) (r : R) (t : Table R)
      → lookup j (t ++ (k, r) ∷ [])
        ≡ elim (lookup j t) [ some x ↦ some x | none ↦ if j == k then some r else none ]
  unfolding lookup
  lookup-append j k r [] = refl
  lookup-append j k r ((i, x) ∷ t) = ground (arith, lookup-append j k r t)
