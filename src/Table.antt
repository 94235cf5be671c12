-- ===== src/Table.antt =====
-- A SQLite table: its rows in the order of their row ids, with the statements that the store
-- executes on it. `key` is the column of the PRIMARY KEY.
pub mod Laws
pub mod Keyed
pub mod Order
use hermes_managed_network.Prelude.{
  ℕ, suc, String, ◌≡◌, Bool, false, ◌&&◌, ◌||◌, Option, none, some, List, [], ◌∷◌, ◌++◌, ◌==◌,
  if◌then◌else◌,
}

module _ {ℓ} {A : Type ℓ} where
  -- SELECT ... WHERE p LIMIT 1
  unfoldable pub find : (A → Bool) → List A → Option A
  find p [] = none
  find p (x ∷ xs) = if p x then some x else find p xs

  -- SELECT ... WHERE p
  unfoldable pub select : (A → Bool) → List A → List A
  select p [] = []
  select p (x ∷ xs) = let rest = select p xs in if p x then x ∷ rest else rest

  -- UPDATE ... SET f WHERE p
  unfoldable pub update : (A → Bool) → (A → A) → List A → List A
  update p f [] = []
  update p f (x ∷ xs) = (if p x then f x else x) ∷ update p f xs

  -- the number of rows that an UPDATE with this condition changes
  unfoldable pub rowcount : (A → Bool) → List A → ℕ
  rowcount p [] = 0
  rowcount p (x ∷ xs) = let rest = rowcount p xs in if p x then suc rest else rest

  -- INSERT ... ON CONFLICT(...) DO UPDATE SET every other column; `same` tells the row in conflict
  unfoldable pub upsert_where : (A → Bool) → A → List A → List A
  upsert_where same r [] = r ∷ []
  upsert_where same r (x ∷ xs) = if same x then r ∷ xs else x ∷ upsert_where same r xs

  -- the same on a PRIMARY KEY of one column
  unfoldable pub upsert : (A → String) → A → List A → List A
  unfolding upsert_where
  upsert key r rows = upsert_where (λ x. key x == key r) r rows

  -- SELECT ... WHERE key = k
  unfoldable pub lookup : (A → String) → String → List A → Option A
  unfolding find
  lookup key k rows = find (λ x. key x == k) rows

  -- INSERT; `none` is the IntegrityError of a key that is taken
  unfoldable pub insert : (A → String) → A → List A → Option (List A)
  insert key r rows = elim (lookup key (key r) rows) [
    | none ↦ some (rows ++ r ∷ [])
    | some _ ↦ none
  ]

  -- ORDER BY, for the order `le`; rows that are alike keep the order of their row ids
  place : (A → A → Bool) → A → List A → List A
  place le x [] = x ∷ []
  place le x (y ∷ ys) = if le x y then x ∷ y ∷ ys else y ∷ place le x ys

  unfoldable pub order_by : (A → A → Bool) → List A → List A
  unfolding place
  order_by le [] = []
  order_by le (x ∷ xs) = place le x (order_by le xs)

  -- one UPDATE ... SET f WHERE key = k AND q for each k of a list
  unfoldable pub update_each : (A → String) → (A → Bool) → (A → A) → List String → List A → List A
  update_each key q f [] rows = rows
  update_each key q f (k ∷ ks) rows =
      update_each key q f ks (update (λ x. key x == k && q x) f rows)

  -- the PRIMARY KEY: no two rows share a key
  abbrev pub IsKeyed : (A → String) → List A → Type ℓ
  IsKeyed key [] = Unit
  IsKeyed key (x ∷ xs) = (lookup key (key x) xs ≡ none) × IsKeyed key xs

unfoldable pub contains : List String → String → Bool
contains [] k = false
contains (j ∷ js) k = j == k || contains js k
