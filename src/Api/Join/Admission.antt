-- ===== src/Api/Join/Admission.antt =====
-- What a join over HTTP requires and leaves behind.
use mathlib.Core.Option.{some-injective}
use hermes_managed_network.Prelude.{
  ℕ, String, ◌≡◌, refl, ap, ◌∙◌, true, false, Option, none, some, List, ◌==◌, arith, eq_refl,
  path→eq, eq→path, ltb, inl, inr, Bool-cases, if◌then◌else◌,
}
use hermes_managed_network.Table.{lookup, upsert}
use hermes_managed_network.Table.Laws.{lookup-upsert}
use hermes_managed_network.Schema.{JoinToken, Node, Store, Env, now}
use hermes_managed_network.Audit.{record_audit, insert_audit_event}
use hermes_managed_network.Tokens.{load_token, consume_loaded, consume_token, as_used}
use hermes_managed_network.Tokens.Outcome.{admitted, written, consume_token_outcome}
use hermes_managed_network.Nodes.{node_key, load_node, save_node, register_pending_node}
use hermes_managed_network.Api.{Reply, answer, http}
use hermes_managed_network.Api.Join.{
  JoinRequest, JoinResponse, find_duplicate_join_node, new_node_id, join_response, joined_node,
  registered, joined, after_consume, unless_duplicate, join_found, join,
}

stored_under :
    (id : String) (node : Node) (rows : List Node)
    → node.node_id ≡ id
    → lookup node_key id (upsert node_key node rows) ≡ some node
stored_under id node rows e = lookup-upsert node_key id node rows ∙ rw (path→eq node.node_id id e)

module _ (env : Env) (s : Store) (request : JoinRequest) where
  abbrev consumed : Store × Option JoinToken
  consumed = consume_token env s request.token request.fingerprint

  -- a node that is admitted with a token
  pub record Admission (s' : Store) (response : JoinResponse) : Type 0 where
    pub token : JoinToken
    pub there : load_token s request.token ≡ some token
    pub pending : token.status ≡ "pending"
    pub in_time : ltb token.expires_at (now env s) ≡ false
    pub fresh : find_duplicate_join_node s request ≡ none
    pub used : load_token s' request.token ≡ some (as_used (now env s) request.fingerprint token)
    pub node : Node
    pub stored : load_node s' response.node_id ≡ some node
    pub fingerprint : node.fingerprint ≡ request.fingerprint
    pub trust_level : node.trust_level ≡ token.trust_level
    pub labels : node.labels ≡ token.labels
    pub status : node.status ≡ (if request.auto_confirm then "managed" else "pending")

  -- the two ways in which a join ends
  pub data Joining (r : Store × Reply JoinResponse) : Type 0 where
    turned_away :
        (code : ℕ) (detail : String) → r.1 ≡ http code detail → r.0.nodes ≡ s.nodes → Joining r
    admission :
        (response : JoinResponse) → r.1 ≡ answer response → Admission r.0 response → Joining r

  nodes-consume_loaded :
      (o : Option JoinToken) → (consume_loaded env s o request.fingerprint).0.nodes ≡ s.nodes
  unfolding consume_loaded
  nodes-consume_loaded none = refl
  nodes-consume_loaded (some token) = ground arith

  nodes-consume : consumed.0.nodes ≡ s.nodes
  unfolding consume_token
  nodes-consume = nodes-consume_loaded (load_token s request.token)

  module _ (s' : Store) (token : JoinToken) where
    abbrev joined_store : Store
    joined_store = (joined env s' request token).0

    tokens-joined : (value : String) → load_token joined_store value ≡ load_token s' value
    unfolding joined registered record_audit insert_audit_event save_node register_pending_node
        load_token
    tokens-joined value = elim (Bool-cases request.auto_confirm) [ inl e ↦ rw e | inr e ↦ rw e ]

    node-joined :
        load_node joined_store (new_node_id env s') ≡ some (joined_node env s' request token)
    unfolding joined registered record_audit insert_audit_event save_node register_pending_node
        load_node
    node-joined = elim (Bool-cases request.auto_confirm) [
      | inl e ↦ rw e (stored_under (new_node_id env s') _ _ refl)
      | inr e ↦ rw e (stored_under (new_node_id env s') _ _ refl)
    ]

    answer-joined :
        (joined env s' request token).1 ≡ answer (join_response (joined_node env s' request token))
    unfolding joined
    answer-joined = refl

    id-joined : (joined_node env s' request token).node_id ≡ new_node_id env s'
    unfolding register_pending_node
    id-joined = ground arith

    fingerprint-joined : (joined_node env s' request token).fingerprint ≡ request.fingerprint
    unfolding register_pending_node
    fingerprint-joined = ground arith

    trust-joined : (joined_node env s' request token).trust_level ≡ token.trust_level
    unfolding register_pending_node
    trust-joined = ground arith

    labels-joined : (joined_node env s' request token).labels ≡ token.labels
    unfolding register_pending_node
    labels-joined = ground arith

    status-joined :
        (joined_node env s' request token).status
        ≡ (if request.auto_confirm then "managed" else "pending")
    unfolding register_pending_node
    status-joined = ground arith

  after_none :
      (r : Store × Option JoinToken)
      → r.1 ≡ none
      → (detail : String) × (after_consume env request r ≡ (r.0, http 409 detail))
  unfolding after_consume
  after_none (s', none) e = (_, refl)
  after_none (s', some t) e = cc

  after_some :
      (r : Store × Option JoinToken) (t : JoinToken)
      → r.1 ≡ some t
      → after_consume env request r ≡ joined env r.0 request t
  unfolding after_consume
  after_some (s', none) t e = cc
  after_some (s', some u) t e = ap (λ x. joined env s' request x) (some-injective u t e)

  module _ (token : JoinToken) (there : load_token s request.token ≡ some token)
      (fresh : find_duplicate_join_node s request ≡ none) where
    abbrev outcome :
        ((consume_token env s request.token request.fingerprint).1
          ≡ admitted env s request.fingerprint (load_token s request.token))
        × (load_token (consume_token env s request.token request.fingerprint).0 request.token ≡ (
            if request.token == request.token
            then written env s request.fingerprint (load_token s request.token)
            else load_token s request.token))
    outcome = consume_token_outcome env s request.token request.token request.fingerprint

    abbrev used : JoinToken
    used = as_used (now env s) request.fingerprint token

    of_admitted :
        (token.status == "pending") ≡ true
        → ltb token.expires_at (now env s) ≡ false
        → Joining (after_consume env request consumed)
    unfolding admitted written
    of_admitted e f =
        let at : consumed.1 ≡ some used = outcome.0 ∙ rw (there, e, f) in
        let saved : load_token consumed.0 request.token ≡ some used =
          outcome.1 ∙ rw (eq_refl, there, e, f) in
        rw (after_some consumed used at) (
          admission (join_response (joined_node env consumed.0 request used))
            (answer-joined consumed.0 used)
            (record {
              token = token;
              there = there;
              pending = eq→path token.status "pending" e;
              in_time = f;
              fresh = fresh;
              used = tokens-joined consumed.0 used request.token ∙ saved;
              node = joined_node env consumed.0 request used;
              stored =
                  ap (λ k. load_node (joined_store consumed.0 used) k) (id-joined consumed.0 used)
                  ∙ node-joined consumed.0 used;
              fingerprint = fingerprint-joined consumed.0 used;
              trust_level = trust-joined consumed.0 used;
              labels = labels-joined consumed.0 used;
              status = status-joined consumed.0 used;
            }))

    of_refused : consumed.1 ≡ none → Joining (after_consume env request consumed)
    of_refused e =
        let (detail, p) = after_none consumed e in rw p (turned_away 409 detail refl nodes-consume)

    of_token : Joining (after_consume env request consumed)
    unfolding admitted
    of_token = elim (Bool-cases (token.status == "pending")) [
      | inr e ↦ of_refused (outcome.0 ∙ rw (there, e))
      | inl e ↦ elim (Bool-cases (ltb token.expires_at (now env s))) [
        | inl f ↦ of_refused (outcome.0 ∙ rw (there, e, f))
        | inr f ↦ of_admitted e f
      ]
    ]

  of_duplicate :
      (token : JoinToken) (o : Option Node)
      → load_token s request.token ≡ some token
      → find_duplicate_join_node s request ≡ o
      → Joining (unless_duplicate env s request o)
  unfolding unless_duplicate
  of_duplicate token (some node) there e = turned_away 409 _ refl refl
  of_duplicate token none there e = of_token token there e

  of_loaded :
      (o : Option JoinToken) → load_token s request.token ≡ o → Joining (join_found env s request o)
  unfolding join_found
  of_loaded none e = turned_away 404 _ refl refl
  of_loaded (some token) e = of_duplicate token (find_duplicate_join_node s request) e refl

  -- A join is refused and leaves the nodes as they are, or its token is there, pending and not past its
  -- expiry, and no node in use has the fingerprint or the hostname and an address of the request; then
  -- the token is stored as used by that fingerprint, and a node with that fingerprint and the trust
  -- level and labels of the token is stored under the id of the answer, managed if the request asks
  -- for it, else pending.
  pub join-Joining : Joining (join env s request)
  unfolding join
  join-Joining = of_loaded (load_token s request.token) refl
