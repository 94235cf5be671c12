-- ===== src/Json.antt =====
-- The JSON values that the store keeps in its `*_json` columns (`dict[str, Any]` in the source),
-- with Python's truth value, `str`, `dict.get` and `{**d, k: v}`. Numbers are integers.
use hermes_managed_network.Prelude.{
  ℕ, zero, suc, String, List, [], ◌∷◌, ◌≡◌, Bool, true, false, Option, none, some, arith, ◌==◌,
  eq_iff, not, if◌then◌else◌,
}

pub data ℤ : Type 0 where
  pos : ℕ → ℤ
  negsuc : ℕ → ℤ

unfoldable pub is_zero : ℤ → Bool
is_zero (pos zero) = true
is_zero (pos (suc n)) = false
is_zero (negsuc n) = false

mutual
  pub data Json : Type 0 where
    null : Json
    bool : Bool → Json
    num : ℤ → Json
    string : String → Json
    arr : Items → Json
    obj : Fields → Json

  pub data Items : Type 0 where
    nil : Items
    cons : Json → Items → Items

  pub data Fields : Type 0 where
    end : Fields
    field : String → Json → Fields → Fields

-- d.get(key)
unfoldable pub get : String → Fields → Option Json
get key end = none
get key (field k v rest) = if k == key then some v else get key rest

-- {**d, key: value}
unfoldable pub put : String → Json → Fields → Fields
put key value end = field key value end
put key value (field k v rest) =
    if k == key then field k value rest else field k v (put key value rest)

-- {**d, **other}
unfoldable pub merge : Fields → Fields → Fields
unfolding put
merge d end = d
merge d (field k v rest) = merge (put k v d) rest

pub get-put :
    (key j : String) (value : Json) (d : Fields)
    → get j (put key value d) ≡ (if key == j then some value else get j d)
unfolding get put
get-put key j value end = ground arith
get-put key j value (field k v rest) =
    ground (arith, eq_iff key j, eq_iff k key, eq_iff k j, get-put key j value rest)

-- bool(value)
unfoldable pub is_truthy : Json → Bool
unfolding is_zero
is_truthy null = false
is_truthy (bool b) = b
is_truthy (num n) = not (is_zero n)
is_truthy (string s) = not (s == "")
is_truthy (arr nil) = false
is_truthy (arr (cons x xs)) = true
is_truthy (obj end) = false
is_truthy (obj (field k v rest)) = true

-- a list of texts
pub texts : List String → Items
texts [] = nil
texts (t ∷ ts) = cons (string t) (texts ts)
