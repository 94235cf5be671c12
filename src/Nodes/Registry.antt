-- ===== src/Nodes/Registry.antt =====
-- NodeRegistry of src/hermes_managed_network/inventory.py: the nodes in a dict by their id.
use hermes_managed_network.Prelude.{String, Option, none, some, List, ◌==◌, if◌then◌else◌}
use hermes_managed_network.Table.{lookup, upsert}
use hermes_managed_network.Schema.{Node}
use hermes_managed_network.Nodes.{node_key, pending_node}

pub record NodeRegistry : Type 0 where
  pub nodes : List Node

unfoldable pub register_pending :
    NodeRegistry
    → String
    → String
    → String
    → List String
    → String
    → List String
    → NodeRegistry × Node
register_pending r node_id fingerprint hostname addresses trust_level labels =
    let node = pending_node node_id fingerprint hostname addresses trust_level labels in
    (record r { nodes = upsert node_key node r.nodes }, node)

unfoldable pub get : NodeRegistry → String → Option Node
get r node_id = lookup node_key node_id r.nodes

unfoldable pub confirm_found : NodeRegistry → Option Node → List String → NodeRegistry × Option Node
confirm_found r none permission_bundles = (r, none)
confirm_found r (some node) permission_bundles =
    let managed = record node { status = "managed"; permission_bundles = permission_bundles } in
    if node.status == "revoked"
    then (r, none)
    else (record r { nodes = upsert node_key managed r.nodes }, some managed)

unfoldable pub confirm : NodeRegistry → String → List String → NodeRegistry × Option Node
unfolding get
confirm r node_id permission_bundles = confirm_found r (get r node_id) permission_bundles

unfoldable pub revoke_found : NodeRegistry → Option Node → NodeRegistry × Option Node
revoke_found r none = (r, none)
revoke_found r (some node) =
    let revoked = record node { status = "revoked" } in
    (record r { nodes = upsert node_key revoked r.nodes }, some revoked)

unfoldable pub revoke : NodeRegistry → String → NodeRegistry × Option Node
unfolding get
revoke r node_id = revoke_found r (get r node_id)
