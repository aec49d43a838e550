-- ===== src/Prelude/Rows.antt =====
-- Tables as lists of rows, and the queries on them.
use mathlib.Core.Path.{◌≡◌, refl}
use mathlib.Core.Logic.{inl, inr}
use mathlib.Core.Bool.{Bool, true, false}
use mathlib.Core.List.{List, [], ◌∷◌}
use mathlib.Core.Option.{Option, none, some}
use native.Mathlib.Omega.{arith}
use spark_bridge_backend.Prelude.Tests.{if◌then◌else◌, Bool-cases}

-- `SELECT ... WHERE test`, of which there is at most one row
unfoldable pub find {ℓ} : {A : Type ℓ} → (A → Bool) → List A → Option A
find test [] = none
find test (row ∷ rows) = let rest = find test rows in if test row then some row else rest

-- `UPDATE ... SET change WHERE test`
unfoldable pub update {ℓ} : {A : Type ℓ} → (A → Bool) → (A → A) → List A → List A
update test change [] = []
update test change (row ∷ rows) =
    let rest = update test change rows in if test row then change row ∷ rest else row ∷ rest

-- `DELETE ... WHERE test`
unfoldable pub delete {ℓ} : {A : Type ℓ} → (A → Bool) → List A → List A
delete test [] = []
delete test (row ∷ rows) = let rest = delete test rows in if test row then rest else row ∷ rest

module _ {ℓ} {A : Type ℓ} where
  -- No row is found for a test that a change makes false and that fails elsewhere.
  pub find-update-none :
      (test found : A → Bool) (change : A → A) (rows : List A)
      → ((row : A) → test row ≡ true → found (change row) ≡ false)
      → ((row : A) → test row ≡ false → found row ≡ false)
      → find found (update test change rows) ≡ none
  unfolding find update
  find-update-none test found change [] here away = refl
  find-update-none test found change (row ∷ rows) here away = elim (Bool-cases (test row)) [
    | inl same ↦
        ground (arith, same, here row same, find-update-none test found change rows here away)
    | inr other ↦
        ground (arith, other, away row other, find-update-none test found change rows here away)
  ]
