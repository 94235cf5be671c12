-- ===== src/Table/Laws.antt =====
-- What a statement on a table does to the row under a key.
use mathlib.Core.Option
use hermes_managed_network.Prelude.{
  ℕ, suc, ◌∙◌, Option, ◌&&◌, inl, inr, String, ◌≡◌, refl, Bool, true, none, some, List, [], ◌∷◌,
  ◌++◌, arith, ◌==◌, eq_iff, eq→path, Bool-cases, if◌then◌else◌,
}
use hermes_managed_network.Table.{rowcount, find, update, upsert, insert, lookup}

module _ {ℓ} {A : Type ℓ} where
  -- What `find` returns satisfies the condition.
  pub find_holds : (p : A → Bool) (rows : List A) (r : A) → find p rows ≡ some r → p r ≡ true
  unfolding find
  find_holds p [] r h = cc
  find_holds p (x ∷ xs) r h = ground (arith, find_holds p xs r)

  pub find-append :
      (p : A → Bool) (rows : List A) (r : A)
      → find p (rows ++ r ∷ [])
        ≡ elim (find p rows) [ some x ↦ some x | none ↦ (if p r then some r else none) ]
  unfolding find
  find-append p [] r = refl
  find-append p (x ∷ xs) r = ground (arith, find-append p xs r)

  module _ (key : A → String) where
    pub key-lookup : (k : String) (rows : List A) (r : A) → lookup key k rows ≡ some r → key r ≡ k
    unfolding lookup
    key-lookup k rows r h = eq→path (key r) k (find_holds (λ x. key x == k) rows r h)

    -- An upsert is seen under its own key only.
    pub lookup-upsert :
        (k : String) (r : A) (rows : List A)
        → lookup key k (upsert key r rows) ≡ (if key r == k then some r else lookup key k rows)
    unfolding lookup upsert
    lookup-upsert k r [] = refl
    lookup-upsert k r (x ∷ xs) =
        ground
          (arith, eq_iff (key x) (key r), eq_iff (key x) k, eq_iff (key r) k, lookup-upsert k r xs)

    -- An UPDATE that leaves the key alone changes the row under a key exactly if it meets the
    -- condition.
    pub lookup-update :
        (k : String) (p : A → Bool) (f : A → A)
        → ((x : A) → key (f x) ≡ key x)
        → (rows : List A)
        → lookup key k (update p f rows)
          ≡ Option.map (λ x. if p x then f x else x) (lookup key k rows)
    unfolding lookup update
    lookup-update k p f keep [] = refl
    lookup-update k p f keep (x ∷ xs) =
        ground (arith, keep x, lookup-update k p f keep xs, Bool-cases (p x))

    pub lookup-append :
        (k : String) (r : A) (rows : List A)
        → lookup key k (rows ++ r ∷ []) ≡ elim (lookup key k rows) [
          | some x ↦ some x
          | none ↦ (if key r == k then some r else none)
        ]
    unfolding lookup
    lookup-append k r rows = find-append (λ x. key x == k) rows r

    update_at :
        (k j : String) (p : A → Bool) (f : A → A) (o : Option A)
        → ((x : A) → o ≡ some x → key x ≡ k)
        → Option.map (λ x. if key x == j && p x then f x else x) o
          ≡ (if j == k then Option.map (λ x. if p x then f x else x) o else o)
    update_at k j p f none under = ground arith
    update_at k j p f (some x) under = ground (arith, under x refl, eq_iff (key x) j, eq_iff j k)

    -- An UPDATE of the row under one key.
    pub lookup-update_key :
        (k j : String) (p : A → Bool) (f : A → A)
        → ((x : A) → key (f x) ≡ key x)
        → (rows : List A)
        → lookup key k (update (λ x. key x == j && p x) f rows) ≡ (
            if j == k
            then Option.map (λ x. if p x then f x else x) (lookup key k rows)
            else lookup key k rows)
    lookup-update_key k j p f keep rows =
        lookup-update k (λ x. key x == j && p x) f keep rows
        ∙ update_at k j p f (lookup key k rows) (λ x e. key-lookup k rows x e)

    -- An UPDATE by key and condition changes a row if the row under the key meets the condition.
    pub rowcount-suc :
        (k : String) (p : A → Bool) (rows : List A) (r : A)
        → lookup key k rows ≡ some r
        → p r ≡ true
        → (n : ℕ) × (rowcount (λ x. key x == k && p x) rows ≡ suc n)
    unfolding lookup rowcount
    rowcount-suc k p [] r h pr = cc
    rowcount-suc k p (x ∷ xs) r h pr = elim (Bool-cases (key x == k && p x)) [
      | inl e ↦ (rowcount (λ x. key x == k && p x) xs, rw e)
      | inr e ↦ let (n, q) = rowcount-suc k p xs r (ground arith) pr in (n, rw e q)
    ]

    -- A row that an INSERT adds stands under a key that was free.
    pub insert-eq-some :
        (r : A) (rows rows' : List A)
        → insert key r rows ≡ some rows'
        → (lookup key (key r) rows ≡ none) × (rows' ≡ rows ++ r ∷ [])
    unfolding insert
    insert-eq-some r rows rows' h = ground arith

    -- An INSERT under a free key appends the row.
    pub insert-none :
        (r : A) (rows : List A)
        → lookup key (key r) rows ≡ none
        → insert key r rows ≡ some (rows ++ r ∷ [])
    unfolding insert
    insert-none r rows h = ground arith
