-- ===== src/Nodes/Revocation.antt =====
-- Nodes of the registry after a revocation.
use hermes_managed_network.Prelude.{
  String, ◌≡◌, refl, Bool, true, false, Option, none, some, List, [], ◌∷◌, arith, eq_iff, path→eq,
  ◌==◌, ◌||◌,
}
use hermes_managed_network.Table.{upsert}
use hermes_managed_network.Table.Laws.{lookup-upsert, key-lookup}
use hermes_managed_network.Schema.{Node}
use hermes_managed_network.Nodes.{node_key, pending_node}
use hermes_managed_network.Nodes.Registry.{
  NodeRegistry, register_pending, get, confirm_found, confirm, revoke_found, revoke,
}

-- one call of the registry
pub data NodeOp : Type 0 where
  register_node : String → String → String → List String → String → List String → NodeOp
  confirm_node : String → List String → NodeOp
  revoke_node : String → NodeOp

unfoldable pub run_node_op : NodeRegistry → NodeOp → NodeRegistry
run_node_op r (register_node node_id fingerprint hostname addresses trust_level labels) =
    (register_pending r node_id fingerprint hostname addresses trust_level labels).0
run_node_op r (confirm_node node_id bundles) = (confirm r node_id bundles).0
run_node_op r (revoke_node node_id) = (revoke r node_id).0

unfoldable pub run_node_ops : NodeRegistry → List NodeOp → NodeRegistry
run_node_ops r [] = r
run_node_ops r (op ∷ ops) = run_node_ops (run_node_op r op) ops

-- the calls that register this node
abbrev registers_node : String → NodeOp → Bool
registers_node v (register_node w _ _ _ _ _) = w == v
registers_node v _ = false

abbrev pub registers : String → List NodeOp → Bool
registers v [] = false
registers v (op ∷ ops) = registers_node v op || registers v ops

abbrev revoked_node : Option Node → Bool
revoked_node none = false
revoked_node (some n) = n.status == "revoked"

-- the node is there, and revoked
abbrev pub is_revoked : NodeRegistry → String → Bool
is_revoked r node_id = revoked_node (get r node_id)

confirm_found_revoked :
    (r : NodeRegistry) (v w : String) (bundles : List String) (o : Option Node)
    → get r w ≡ o
    → ((x : Node) → o ≡ some x → x.node_id ≡ w)
    → is_revoked r v ≡ true
    → is_revoked (confirm_found r o bundles).0 v ≡ true
unfolding confirm_found get
confirm_found_revoked r v w bundles none at under h = h
confirm_found_revoked r v w bundles (some n) at under h = ground (
  arith,
  under n refl,
  eq_iff w v,
  lookup-upsert node_key v (record n { status = "managed"; permission_bundles = bundles }) r.nodes,
)

revoke_found_revoked :
    (r : NodeRegistry) (v : String) (o : Option Node)
    → is_revoked r v ≡ true
    → is_revoked (revoke_found r o).0 v ≡ true
unfolding revoke_found get
revoke_found_revoked r v none h = h
revoke_found_revoked r v (some n) h =
    ground (arith, lookup-upsert node_key v (record n { status = "revoked" }) r.nodes)

run_node_op_revoked :
    (r : NodeRegistry) (v : String) (op : NodeOp)
    → registers_node v op ≡ false
    → is_revoked r v ≡ true
    → is_revoked (run_node_op r op) v ≡ true
unfolding run_node_op register_pending confirm revoke get
run_node_op_revoked r v (register_node w fp host addresses trust labels) apart h =
    rw (lookup-upsert node_key v (pending_node w fp host addresses trust labels) r.nodes, apart) h
run_node_op_revoked r v (confirm_node w bundles) apart h =
    confirm_found_revoked r v w bundles (get r w) refl (λ x e. key-lookup node_key w r.nodes x e) h
run_node_op_revoked r v (revoke_node w) apart h = revoke_found_revoked r v (get r w) h

run_node_ops_revoked :
    (r : NodeRegistry) (v : String) (ops : List NodeOp)
    → registers v ops ≡ false
    → is_revoked r v ≡ true
    → is_revoked (run_node_ops r ops) v ≡ true
unfolding run_node_ops
run_node_ops_revoked r v [] apart h = h
run_node_ops_revoked r v (op ∷ ops) apart h =
    run_node_ops_revoked (run_node_op r op) v ops (ground arith)
      (run_node_op_revoked r v op (ground arith) h)

revoke_found_revokes :
    (r : NodeRegistry) (v : String) (o : Option Node) (n : Node)
    → ((x : Node) → o ≡ some x → x.node_id ≡ v)
    → (revoke_found r o).1 ≡ some n
    → is_revoked (revoke_found r o).0 v ≡ true
unfolding revoke_found get
revoke_found_revokes r v none n under h = cc
revoke_found_revokes r v (some x) n under h = rw (lookup-upsert, path→eq x.node_id v (under x refl))

abbrev pub as_managed : List String → Node → Node
as_managed bundles n = record n { status = "managed"; permission_bundles = bundles }

confirms_pending :
    (r : NodeRegistry) (v : String) (bundles : List String) (n : Node)
    → n.node_id ≡ v
    → n.status ≡ "pending"
    → (confirm (record r { nodes = upsert node_key n r.nodes }) v bundles).1
      ≡ some (as_managed bundles n)
unfolding confirm get confirm_found
confirms_pending r v bundles n own pending =
    rw (lookup-upsert node_key v n r.nodes, path→eq n.node_id v own, pending)

revoked_refuses :
    (r : NodeRegistry) (o : Option Node) (bundles : List String)
    → revoked_node o ≡ true
    → (confirm_found r o bundles).1 ≡ none
unfolding confirm_found
revoked_refuses r none bundles h = refl
revoked_refuses r (some n) bundles h = ground arith

-- Once a node was revoked, it cannot be confirmed, whatever calls for this and for other nodes come in
-- between, as long as none of them registers it again; registering it again makes it pending, so that
-- it can be confirmed, with the data of that registration.
pub revoke_final :
    (r : NodeRegistry) (v : String) (n : Node) (ops : List NodeOp) (bundles : List String)
    (fingerprint hostname trust_level : String) (addresses labels : List String)
    → (revoke r v).1 ≡ some n
    → registers v ops ≡ false
    → let r' = run_node_ops (revoke r v).0 ops in
      let again = register_pending r' v fingerprint hostname addresses trust_level labels in
      ((confirm r' v bundles).1 ≡ none)
      × ((confirm again.0 v bundles).1 ≡ some (as_managed bundles again.1))
unfolding confirm revoke get register_pending
revoke_final r v n ops bundles fingerprint hostname trust_level addresses labels h apart =
    let r' = run_node_ops (revoke r v).0 ops in
    let node = pending_node v fingerprint hostname addresses trust_level labels in
    (
      revoked_refuses r' (get r' v) bundles (
          run_node_ops_revoked (revoke r v).0 v ops apart
            (revoke_found_revokes r v (get r v) n (λ x e. key-lookup node_key v r.nodes x e) h)),
      unfold confirm get in confirms_pending r' v bundles node refl refl,
    )
