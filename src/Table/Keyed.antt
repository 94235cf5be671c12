-- ===== src/Table/Keyed.antt =====
-- The PRIMARY KEY under the statements, and batches of updates by key.
use mathlib.Core.Option
use hermes_managed_network.Prelude.{
  String, ◌≡◌, refl, ap, ◌∙◌, Bool, true, false, Option, none, some, List, [], ◌∷◌, ◌++◌, ◌&&◌,
  ◌||◌, map, arith, ◌==◌, eq_iff, eq→path, eq_sym, Bool-cases, inl, inr, ◌⊎◌, if◌then◌else◌,
}
use hermes_managed_network.Table.{
  select, update, update_each, upsert, lookup, order_by, place, IsKeyed, contains,
}
use hermes_managed_network.Table.Laws.{lookup-update, lookup-upsert, lookup-append, key-lookup}

module _ {ℓ} {A : Type ℓ} (key : A → String) where
  pub upsert-IsKeyed : (r : A) (rows : List A) → IsKeyed key rows → IsKeyed key (upsert key r rows)
  unfolding upsert
  upsert-IsKeyed r [] h = (unfold lookup in refl, tt)
  upsert-IsKeyed r (x ∷ xs) h = elim (Bool-cases (key x == key r)) [
    | inl same ↦ rw same (rw (eq→path (key x) (key r) same) at h.0, h.1)
    | inr other ↦ rw other (
      lookup-upsert key (key x) r xs ∙ rw (eq_sym (key r) (key x), other) h.0,
      upsert-IsKeyed r xs h.1,
    )
  ]

  pub update-IsKeyed :
      (p : A → Bool) (f : A → A)
      → ((x : A) → key (f x) ≡ key x)
      → (rows : List A) → IsKeyed key rows
      → IsKeyed key (update p f rows)
  unfolding update
  update-IsKeyed p f keep [] h = tt
  update-IsKeyed p f keep (x ∷ xs) h = (
    lookup-update key (key (if p x then f x else x)) p f keep xs ∙ same_key (Bool-cases (p x)),
    update-IsKeyed p f keep xs h.1,
  )
    where
      same_key :
          (p x ≡ true) ⊎ (p x ≡ false)
          → Option.map (λ y. if p y then f y else y) (lookup key (key (if p x then f x else x)) xs)
            ≡ none
      same_key (inl e) = rw (e, keep, h.0)
      same_key (inr e) = rw (e, h.0)

  pub update_each-IsKeyed :
      (q : A → Bool) (f : A → A)
      → ((x : A) → key (f x) ≡ key x)
      → (ks : List String) (rows : List A) → IsKeyed key rows
      → IsKeyed key (update_each key q f ks rows)
  unfolding update_each
  update_each-IsKeyed q f keep [] rows h = h
  update_each-IsKeyed q f keep (k ∷ ks) rows h =
      update_each-IsKeyed q f keep ks (update (λ x. key x == k && q x) f rows)
        (update-IsKeyed (λ x. key x == k && q x) f keep rows h)

  pub append-IsKeyed :
      (r : A) (rows : List A)
      → lookup key (key r) rows ≡ none
      → IsKeyed key rows
      → IsKeyed key (rows ++ r ∷ [])
  append-IsKeyed r [] free h = (unfold lookup in refl, tt)
  append-IsKeyed r (x ∷ xs) free h = (
    rw lookup-append (
        unfold lookup in ground (arith, h.0, free, eq_iff (key x) (key r), eq_iff (key r) (key x))),
    append-IsKeyed r xs (unfold lookup in ground arith) h.1,
  )

  contains-place :
      (k : String) (le : A → A → Bool) (x : A) (ys : List A)
      → contains (map key (place le x ys)) k ≡ (key x == k || contains (map key ys) k)
  unfolding contains place
  contains-place k le x [] = refl
  contains-place k le x (y ∷ ys) = ground (arith, contains-place k le x ys)

  -- Sorting keeps the keys.
  pub contains-order_by :
      (k : String) (le : A → A → Bool) (rows : List A)
      → contains (map key (order_by le rows)) k ≡ contains (map key rows) k
  unfolding contains order_by
  contains-order_by k le [] = refl
  contains-order_by k le (x ∷ xs) =
      contains-place k le x (order_by le xs) ∙ ap (λ b. key x == k || b) (contains-order_by k le xs)

  contains-select_free :
      (k : String) (p : A → Bool) (rows : List A)
      → lookup key k rows ≡ none
      → contains (map key (select p rows)) k ≡ false
  unfolding contains select lookup
  contains-select_free k p [] h = refl
  contains-select_free k p (x ∷ xs) h = ground (arith, contains-select_free k p xs)

  -- A key is selected exactly if the row under it meets the condition.
  pub contains-select :
      (k : String) (p : A → Bool) (rows : List A)
      → IsKeyed key rows
      → contains (map key (select p rows)) k
        ≡ elim (lookup key k rows) [ none ↦ false | some x ↦ p x ]
  unfolding contains select lookup
  contains-select k p [] h = refl
  contains-select k p (x ∷ xs) h = ground (
    arith,
    h.0,
    eq_iff (key x) k,
    contains-select_free k p xs,
    contains-select k p xs h.1,
    Bool-cases (p x),
  )

  update_each_step :
      (k j : String) (js : List String) (q : A → Bool) (f : A → A)
      → ((x : A) → (if q (f x) then f (f x) else f x) ≡ f x)
      → (o : Option A) → ((x : A) → o ≡ some x → key x ≡ k)
      → Option.map
          (λ x. if contains js k && q x then f x else x)
          (Option.map (λ x. if key x == j && q x then f x else x) o)
        ≡ Option.map (λ x. if contains (j ∷ js) k && q x then f x else x) o
  unfolding contains
  update_each_step k j js q f once none under = refl
  update_each_step k j js q f once (some x) under =
      ground (arith, once x, under x refl, eq_iff (key x) j, eq_iff j k)

  -- A batch of updates acts once on each row whose key it names.
  pub lookup-update_each :
      (k : String) (q : A → Bool) (f : A → A)
      → ((x : A) → key (f x) ≡ key x)
      → ((x : A) → (if q (f x) then f (f x) else f x) ≡ f x)
      → (ks : List String) (rows : List A)
      → lookup key k (update_each key q f ks rows)
        ≡ Option.map (λ x. if contains ks k && q x then f x else x) (lookup key k rows)
  unfolding update_each contains
  lookup-update_each k q f keep once [] rows = ground arith
  lookup-update_each k q f keep once (j ∷ js) rows =
      lookup-update_each k q f keep once js (update (λ x. key x == j && q x) f rows)
      ∙ ap (λ o. Option.map (λ x. if contains js k && q x then f x else x) o)
          (lookup-update key k (λ x. key x == j && q x) f keep rows)
      ∙ update_each_step k j js q f once (lookup key k rows) (λ x h. key-lookup key k rows x h)
