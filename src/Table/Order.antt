-- ===== src/Table/Order.antt =====
-- The first row of an ORDER BY.
use mathlib.Core.List.{head?}
use hermes_managed_network.Prelude.{
  String, ◌≡◌, ◌⊎◌, inl, inr, Bool, true, false, none, some, List, [], ◌∷◌, ◌==◌, Bool-cases, ap,
  ◌∙◌, eq→path, eq_refl,
}
use mathlib.Core.Path.{subst}
use mathlib.Core.Option.{some-injective}
use hermes_managed_network.Table.{select, lookup, order_by, place, IsKeyed}

-- every row
abbrev pub All {ℓ κ} : {A : Type ℓ} → (A → Type κ) → List A → Type κ
All P [] = Unit
All P (x ∷ xs) = P x × All P xs

module _ {ℓ} {A : Type ℓ} where
  pub All-head {κ} :
      (P : A → Type κ) (rows : List A) (r : A) → head? rows ≡ some r → All P rows → P r
  All-head P [] r h a = cc
  All-head P (x ∷ xs) r h a = subst P (some-injective x r h) a.0

  pub All-map {κ μ} :
      (P : A → Type κ) (Q : A → Type μ)
      → ((x : A) → P x → Q x)
      → (rows : List A) → All P rows
      → All Q rows
  All-map P Q f [] a = tt
  All-map P Q f (x ∷ xs) a = (f x a.0, All-map P Q f xs a.1)

  pub All-select {κ} :
      (P : A → Type κ) (p : A → Bool) (rows : List A) → All P rows → All P (select p rows)
  unfolding select
  All-select P p [] a = tt
  All-select P p (x ∷ xs) a = elim (Bool-cases (p x)) [
    | inl e ↦ rw e (a.0, All-select P p xs a.1)
    | inr e ↦ rw e (All-select P p xs a.1)
  ]

  pub All-select_holds : (p : A → Bool) (rows : List A) → All (λ x. p x ≡ true) (select p rows)
  unfolding select
  All-select_holds p [] = tt
  All-select_holds p (x ∷ xs) = elim (Bool-cases (p x)) [
    | inl e ↦ rw e (e, All-select_holds p xs)
    | inr e ↦ rw e (All-select_holds p xs)
  ]

  module _ (le : A → A → Bool) where
    All-place {κ} : (P : A → Type κ) (x : A) (ys : List A) → P x → All P ys → All P (place le x ys)
    unfolding place
    All-place P x [] px a = (px, tt)
    All-place P x (y ∷ ys) px a = elim (Bool-cases (le x y)) [
      | inl e ↦ rw e (px, a)
      | inr e ↦ rw e (a.0, All-place P x ys px a.1)
    ]

    All-unplace {κ} :
        (P : A → Type κ) (x : A) (ys : List A) → All P (place le x ys) → P x × All P ys
    unfolding place
    All-unplace P x [] a = a
    All-unplace P x (y ∷ ys) a = elim (Bool-cases (le x y)) [
      | inl e ↦ rw e at a
      | inr e ↦
          let b : P y × All P (place le x ys) = rw e at a in
          let c : P x × All P ys = All-unplace P x ys b.1 in (c.0, (b.0, c.1))
    ]

    pub All-order_by {κ} : (P : A → Type κ) (rows : List A) → All P rows → All P (order_by le rows)
    unfolding order_by
    All-order_by P [] a = tt
    All-order_by P (x ∷ xs) a = All-place P x (order_by le xs) a.0 (All-order_by P xs a.1)

    All-of_order_by {κ} : (P : A → Type κ) (rows : List A) → All P (order_by le rows) → All P rows
    unfolding order_by
    All-of_order_by P [] a = tt
    All-of_order_by P (x ∷ xs) a =
        let b : P x × All P (order_by le xs) = All-unplace P x (order_by le xs) a in
        (b.0, All-of_order_by P xs b.1)

    All-none {κ} : (P : A → Type κ) (rows : List A) → head? rows ≡ none → All P rows
    All-none P [] h = tt
    All-none P (x ∷ xs) h = cc

    -- If there is no first row, there is none.
    pub All-no_first {κ} :
        (P : A → Type κ) (rows : List A) → head? (order_by le rows) ≡ none → All P rows
    All-no_first P rows h = All-of_order_by P rows (All-none P (order_by le rows) h)

    -- every row is below the later ones, for an order that `le` refines
    module _ (weak : A → A → Bool) where
      abbrev pub IsOrdered : List A → Type 0
      IsOrdered [] = Unit
      IsOrdered (x ∷ xs) = All (λ y. weak x y ≡ true) xs × IsOrdered xs

      module _ (up : (x y : A) → le x y ≡ true → weak x y ≡ true)
          (down : (x y : A) → le x y ≡ false → weak y x ≡ true)
          (trans : (x y z : A) → weak x y ≡ true → weak y z ≡ true → weak x z ≡ true) where
        place-IsOrdered : (x : A) (ys : List A) → IsOrdered ys → IsOrdered (place le x ys)
        unfolding place
        place-IsOrdered x [] o = (tt, tt)
        place-IsOrdered x (y ∷ ys) o = elim (Bool-cases (le x y)) [
          | inl e ↦ rw e (
            (
              up x y e,
              All-map (λ z. weak y z ≡ true) (λ z. weak x z ≡ true)
                  (λ z h. trans x y z (up x y e) h) ys o.0,
            ),
            o,
          )
          | inr e ↦
              rw e
                (All-place (λ z. weak y z ≡ true) x ys (down x y e) o.0, place-IsOrdered x ys o.1)
        ]

        pub order_by-IsOrdered : (rows : List A) → IsOrdered (order_by le rows)
        unfolding order_by
        order_by-IsOrdered [] = tt
        order_by-IsOrdered (x ∷ xs) = place-IsOrdered x (order_by le xs) (order_by-IsOrdered xs)

        itself : (x : A) → weak x x ≡ true
        itself x = elim (Bool-cases (le x x)) [ inl e ↦ up x x e | inr e ↦ down x x e ]

        head_least :
            (l : List A) (r : A) → IsOrdered l → head? l ≡ some r → All (λ x. weak r x ≡ true) l
        head_least [] r o h = tt
        head_least (x ∷ xs) r o h =
            subst (λ z. All (λ y. weak z y ≡ true) (x ∷ xs)) (some-injective x r h) (itself x, o.0)

        -- The first row is below every row.
        pub first_below :
            (rows : List A) (r : A)
            → head? (order_by le rows) ≡ some r
            → All (λ x. weak r x ≡ true) rows
        first_below rows r h =
            All-of_order_by (λ x. weak r x ≡ true) rows
              (head_least (order_by le rows) r (order_by-IsOrdered rows) h)

    -- The same where `le` is itself a total order.
    pub first_least :
        ((x y : A) → (le x y ≡ true) ⊎ (le y x ≡ true))
        → ((x y z : A) → le x y ≡ true → le y z ≡ true → le x z ≡ true)
        → (rows : List A) (r : A) → head? (order_by le rows) ≡ some r
        → All (λ x. le r x ≡ true) rows
    first_least total trans =
        first_below le (λ x y e. e) (λ x y e. elim (total x y) [ inl p ↦ cc | inr q ↦ q ]) trans

  module _ (key : A → String) where
    other_key :
        (x : A) (xs : List A)
        → lookup key (key x) xs ≡ none
        → (y : A) → lookup key (key y) xs ≡ some y
        → lookup key (key y) (x ∷ xs) ≡ some y
    other_key x xs free y h = elim (Bool-cases (key x == key y)) [
      | inl e ↦
          let p : key x ≡ key y = eq→path (key x) (key y) e in
          cc (free, h, ap (λ k. lookup key k xs) p)
      | inr e ↦ unfold lookup in rw e h
    ]

    -- A row that is not selected apart from the others stands under its key.
    pub All-lookup :
        (rows : List A) → IsKeyed key rows → All (λ x. lookup key (key x) rows ≡ some x) rows
    All-lookup [] k = tt
    All-lookup (x ∷ xs) k = (
      unfold lookup in rw eq_refl,
      All-map (λ y. lookup key (key y) xs ≡ some y) (λ y. lookup key (key y) (x ∷ xs) ≡ some y)
          (λ y h. other_key x xs k.0 y h) xs (All-lookup xs k.1),
    )

    -- What holds of every selected row holds of a row under a key that meets the condition.
    pub All-at {κ} :
        (P : A → Type κ) (p : A → Bool) (k : String) (rows : List A) (x : A)
        → All P (select p rows)
        → lookup key k rows ≡ some x
        → p x ≡ true
        → P x
    unfolding select lookup
    All-at P p k [] x a h px = cc
    All-at P p k (y ∷ ys) x a h px = elim (Bool-cases (key y == k)) [
      | inl e ↦ at_head (some-injective y x (rw e at h))
      | inr e ↦
          All-at P p k ys x
            (elim (Bool-cases (p y)) [
              | inl f ↦ let b : All P (y ∷ select p ys) = rw f at a in b.1
              | inr f ↦ rw f at a
            ])
            (rw e at h) px
    ]
      where
        at_head : y ≡ x → P x
        at_head q =
            let f : p y ≡ true = ap p q ∙ px in
            let b : All P (y ∷ select p ys) = rw f at a in subst P q b.0
