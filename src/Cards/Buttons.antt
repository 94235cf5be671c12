-- ===== src/Cards/Buttons.antt =====
-- The buttons of a card and what is read from their data.
use Prim.Native.String.{◌++◌ as join}
use hermes_managed_network.Prelude.{
  String, ◌≡◌, refl, sym, Bool, true, false, Option, none, some, List, [], ◌∷◌, ◌==◌, ◌||◌, not,
  ◌⊎◌, inl, inr, map, starts_with, eq→path, if◌then◌else◌,
}
use mathlib.Core.Path.{subst}
use mathlib.Core.Option.{some-injective}
use hermes_managed_network.Text.{is_char, split, join_with}
use hermes_managed_network.Text.Split.{lacks_colon, split-join, split_lacks, join_with-split}
use hermes_managed_network.Schema.{ApprovalRequest, Env}
use hermes_managed_network.Cards.{
  Callback, callback_data, callback_of, parse_approval_callback, build_approval_card,
}

split_data :
    (decision approval_id : String)
    → lacks_colon decision ≡ true
    → lacks_colon approval_id ≡ true
    → split ":" (callback_data decision approval_id)
      ≡ "hmn" ∷ "approval" ∷ decision ∷ approval_id ∷ []
unfolding callback_data lacks_colon is_char
split_data decision approval_id hd ha = rw (
  split-join "hmn" (join "approval" (join ":" (join decision (join ":" approval_id)))) refl,
  split-join "approval" (join decision (join ":" approval_id)) refl,
  split-join decision approval_id hd,
  split_lacks approval_id ha,
)

-- what the two buttons of a card mean
abbrev pub pressed : String → List (Option Callback)
pressed approval_id =
    some (record { decision = "approve"; approval_id = approval_id })
    ∷ some (record { decision = "reject"; approval_id = approval_id })
    ∷ []

-- For an approval whose id starts with "appr_" and has no colon, the two buttons of its card are read
-- back, in their order, as the decisions approve and reject on that id.
pub buttons_roundtrip :
    (env : Env) (approval : ApprovalRequest)
    → starts_with approval.approval_id "appr_" ≡ true
    → lacks_colon approval.approval_id ≡ true
    → map (λ b. parse_approval_callback b.1) (build_approval_card env approval).buttons
      ≡ pressed approval.approval_id
unfolding parse_approval_callback callback_of build_approval_card lacks_colon is_char
buttons_roundtrip env approval starts lacks = rw (
  split_data "approve" approval.approval_id refl lacks,
  split_data "reject" approval.approval_id refl lacks,
  starts,
)

-- a decision that a button may carry
pub data Decided (decision : String) : Type 0 where
  approves : decision ≡ "approve" → Decided decision
  rejects : decision ≡ "reject" → Decided decision

-- what data that is accepted must be
pub record Means (data_text : String) (c : Callback) : Type 0 where
  pub decided : Decided c.decision
  pub on : starts_with c.approval_id "appr_" ≡ true
  pub exact : data_text ≡ callback_data c.decision c.approval_id

-- what the guards leave
passed :
    (a b d e k : Bool) (x c : Callback)
    → (if not a || not b || not (d || e) then none else if not k then none else some x) ≡ some c
    → (a ≡ true) × (b ≡ true) × ((d ≡ true) ⊎ (e ≡ true)) × (k ≡ true) × (x ≡ c)
passed true true true e true x c h = (refl, refl, inl refl, refl, some-injective x c h)
passed true true false true true x c h = (refl, refl, inr refl, refl, some-injective x c h)
passed true true false false k x c h = cc
passed true true true e false x c h = cc
passed true true false true false x c h = cc
passed true false d e k x c h = cc
passed false b d e k x c h = cc

which :
    (decision : String)
    → ((decision == "approve") ≡ true) ⊎ ((decision == "reject") ≡ true)
    → Decided decision
which decision (inl e) = approves (eq→path decision "approve" e)
which decision (inr e) = rejects (eq→path decision "reject" e)

of_parts : (ps : List String) (c : Callback) → callback_of ps ≡ some c → Means (join_with ":" ps) c
unfolding callback_of callback_data join_with
of_parts [] c h = cc
of_parts (_ ∷ []) c h = cc
of_parts (_ ∷ _ ∷ []) c h = cc
of_parts (_ ∷ _ ∷ _ ∷ []) c h = cc
of_parts (_ ∷ _ ∷ _ ∷ _ ∷ _ ∷ _) c h = cc
of_parts (prefix ∷ category ∷ decision ∷ approval_id ∷ []) c h =
    let (a, b, d, k, x) =
      passed (prefix == "hmn") (category == "approval") (decision == "approve")
        (decision == "reject") (starts_with approval_id "appr_")
        (record { decision = decision; approval_id = approval_id }) c h in
    subst (Means (join_with ":" (prefix ∷ category ∷ decision ∷ approval_id ∷ []))) x (record {
      decided = which decision d;
      on = k;
      exact = rw (eq→path prefix "hmn" a, eq→path category "approval" b);
    })

-- Data that is accepted as a callback carries the decision approve or reject and an id that starts with
-- "appr_", and is exactly the data of the button for that decision on that id.
pub parse-Means :
    (data_text : String) (c : Callback)
    → parse_approval_callback data_text ≡ some c
    → Means data_text c
unfolding parse_approval_callback
parse-Means data_text c h =
    rw (sym (join_with-split data_text)) (of_parts (split ":" data_text) c h)
