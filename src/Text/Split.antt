-- ===== src/Text/Split.antt =====
-- Splitting at a colon and joining again.
use Prim.Native.Char.{Char}
use Prim.Native.String.append
use Prim.Native.String.{◌++◌ as join}
use hermes_managed_network.Prelude.{
  String, ◌≡◌, refl, ap, ◌∙◌, Bool, true, false, List, [], ◌∷◌, ◌++◌, ◌&&◌, not, arith, inl, inr,
  Bool-cases,
}
use text.Mathlib.TextEquality.{Char-path}
use hermes_managed_network.Text.{is_char, before_first, split, join_with}

-- no colon stands in the text
unfoldable pub lacks_colon : String → Bool
lacks_colon String.[] = true
lacks_colon (String.◌∷◌ c s) = not (is_char ":" c) && lacks_colon s

colon_then : (b : String) → join ":" b ≡ String.◌∷◌ ":" b
colon_then b = append.cons ":" "" b ∙ ap (λ x. String.◌∷◌ ":" x) (append.nil b)

pub split-join :
    (a b : String) → lacks_colon a ≡ true → split ":" (join a (join ":" b)) ≡ a ∷ split ":" b
unfolding lacks_colon split before_first
split-join String.[] b h = rw (append.nil (join ":" b), colon_then b)
split-join (String.◌∷◌ c s) b h =
    rw (append.cons c s (join ":" b)) (elim (Bool-cases (is_char ":" c)) [
      | inl e ↦ absurd (ground arith)
      | inr e ↦ rw (e, split-join s b (rw e at h))
    ])

pub split_lacks : (s : String) → lacks_colon s ≡ true → split ":" s ≡ s ∷ []
unfolding lacks_colon split before_first
split_lacks String.[] h = refl
split_lacks (String.◌∷◌ c s) h = elim (Bool-cases (is_char ":" c)) [
  | inl e ↦ absurd (ground arith)
  | inr e ↦ rw (e, split_lacks s (rw e at h))
]

unfoldable pub is_nil : List String → Bool
is_nil [] = true
is_nil (_ ∷ _) = false

before_nil : (c : Char) (ps : List String) → is_nil (before_first c ps) ≡ false
unfolding before_first is_nil
before_nil c [] = refl
before_nil c (p ∷ ps) = refl

pub split_nil : (s : String) → is_nil (split ":" s) ≡ false
unfolding split before_first is_nil
split_nil String.[] = refl
split_nil (String.◌∷◌ c s) = elim (Bool-cases (is_char ":" c)) [
  | inl e ↦ rw e
  | inr e ↦ rw (e, before_nil c (split ":" s))
]

join_before :
    (c : Char) (ps : List String)
    → join_with ":" (before_first c ps) ≡ String.◌∷◌ c (join_with ":" ps)
unfolding before_first join_with
join_before c [] = refl
join_before c (p ∷ []) = refl
join_before c (p ∷ q ∷ ps) = append.cons c p (join ":" (join_with ":" (q ∷ ps)))

join_empty :
    (ps : List String)
    → is_nil ps ≡ false
    → join_with ":" (String.[] ∷ ps) ≡ String.◌∷◌ ":" (join_with ":" ps)
unfolding join_with is_nil
join_empty [] h = absurd (ground arith)
join_empty (q ∷ ps) h = append.nil _ ∙ colon_then (join_with ":" (q ∷ ps))

is_colon : (c : Char) → is_char ":" c ≡ true → ":" ≡ c
unfolding is_char
is_colon c h = Char-path ":" c (ground arith)

-- Joining what was split gives the text back.
pub join_with-split : (s : String) → join_with ":" (split ":" s) ≡ s
unfolding split join_with
join_with-split String.[] = refl
join_with-split (String.◌∷◌ c s) = elim (Bool-cases (is_char ":" c)) [
  | inl e ↦ rw (e, join_empty (split ":" s) (split_nil s), join_with-split s, is_colon c e)
  | inr e ↦ rw (e, join_before c (split ":" s), join_with-split s)
]

before-append :
    (c : Char) (ps qs : List String)
    → is_nil ps ≡ false
    → before_first c (ps ++ qs) ≡ before_first c ps ++ qs
unfolding before_first is_nil
before-append c [] qs h = cc
before-append c (p ∷ ps) qs h = refl

split_colon : (b : String) → split ":" (String.◌∷◌ ":" b) ≡ "" ∷ split ":" b
unfolding split is_char
split_colon b = refl

-- A text is split at a colon within it, whatever stands before and after.
pub split-append : (a b : String) → split ":" (join a (join ":" b)) ≡ split ":" a ++ split ":" b
unfolding split
split-append String.[] b = rw (append.nil (join ":" b), colon_then b, split_colon b)
split-append (String.◌∷◌ c s) b =
    rw (append.cons c s (join ":" b), split-append s b)
      (elim (Bool-cases (is_char ":" c)) [
        | inl e ↦ rw e
        | inr e ↦ rw (e, before-append c (split ":" s) (split ":" b) (split_nil s))
      ])
