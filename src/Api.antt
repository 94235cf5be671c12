-- ===== src/Api.antt =====
-- The HTTP API of the control plane, src/hermes_managed_network/api.py: its answers, the requests of
-- the nodes and the test of a node's fingerprint that the handlers share. A handler runs to its end
-- before the next one starts.
pub mod Join
pub mod Work
pub mod Decide
pub mod Session
use hermes_managed_network.Prelude.{
  ℕ, String, ◌≡◌, sym, ap, ◌∙◌, Bool, true, false, Option, none, some, ◌==◌, not, arith, eq_iff,
  eq→path, inl, inr, Bool-cases, if◌then◌else◌,
}
use hermes_managed_network.Schema.{Node, Error}

-- What a handler gives: an answer, an HTTPException, or another exception, which is a status 500.
pub data Reply {ℓ} (A : Type ℓ) : Type ℓ where
  answer : A → Reply A
  http : ℕ → String → Reply A
  crash : Error → Reply A

-- the node of a request, or the status and the detail of the refusal
pub data Caller : Type 0 where
  known : Node → Caller
  refused : ℕ → String → Caller

-- the tests that the heartbeat, the task claim and the task result share
unfoldable pub managed_caller : Option Node → String → Caller
managed_caller none fingerprint = refused 404 "node not found"
managed_caller (some node) fingerprint =
    if node.status == "revoked"
    then refused 403 "node is revoked"
    else if not (node.status == "managed")
    then refused 403 "node is not managed"
    else if not (node.fingerprint == fingerprint)
    then refused 403 "node fingerprint mismatch"
    else known node

-- A caller that passes is the node, managed, with the fingerprint of the request.
pub caller_known :
    (o : Option Node) (fingerprint : String) (node : Node)
    → managed_caller o fingerprint ≡ known node
    → (o ≡ some node) × (node.status ≡ "managed") × (node.fingerprint ≡ fingerprint)
unfolding managed_caller
caller_known none fingerprint node h = cc
caller_known (some n) fingerprint node h = elim (Bool-cases (n.status == "managed")) [
  | inl e ↦ elim (Bool-cases (n.fingerprint == fingerprint)) [
    | inl f ↦
        let status : n.status ≡ "managed" = eq→path n.status "managed" e in
        let same : n ≡ node = ground (arith, eq_iff n.status "managed") in
        (
          ap (λ x. some x) same,
          ap (λ x. x.status) (sym same) ∙ status,
          ap (λ x. x.fingerprint) (sym same) ∙ eq→path n.fingerprint fingerprint f,
        )
    | inr f ↦ absurd (ground (arith, eq_iff n.status "managed"))
  ]
  | inr e ↦ absurd (ground arith)
]
