-- ===== src/Nodes.antt =====
-- The nodes: the operations of SQLiteStore on the table nodes (src/hermes_managed_network/storage.py).
pub mod Registry
pub mod Rotation
pub mod Revocation
use hermes_managed_network.Prelude.{
  String, text_le, Bool, true, false, Option, none, some, List, [], not, ◌==◌, ◌&&◌, if◌then◌else◌,
}
use hermes_managed_network.Json.{string, field, end}
use hermes_managed_network.Table.{lookup, upsert, order_by}
use hermes_managed_network.Schema.{Node, Store, Env}
use hermes_managed_network.Audit.{record_audit}

abbrev pub node_key : Node → String
node_key n = n.node_id

unfoldable pub save_node : Store → Node → Store
save_node s node = record s { nodes = upsert node_key node s.nodes }

unfoldable pub load_node : Store → String → Option Node
load_node s node_id = lookup node_key node_id s.nodes

-- Node(...) with the defaults of the dataclass
abbrev pub pending_node : String → String → String → List String → String → List String → Node
pending_node node_id fingerprint hostname addresses trust_level labels = record {
  node_id = node_id;
  fingerprint = fingerprint;
  hostname = hostname;
  addresses = addresses;
  trust_level = trust_level;
  labels = labels;
  status = "pending";
  permission_bundles = [];
  ssh_host = "";
  ssh_user = "";
  ssh_port = 22;
  network_provider = "";
  network_node_id = "";
  network_ip = "";
  network_tags = [];
  network_online = false;
}

unfoldable pub register_pending_node :
    Store → String → String → String → List String → String → List String → Store × Node
unfolding save_node
register_pending_node s node_id fingerprint hostname addresses trust_level labels =
    let node = pending_node node_id fingerprint hostname addresses trust_level labels in
    (save_node s node, node)

-- node_row is not None and node_row["status"] == "managed"
abbrev pub is_managed : Option Node → Bool
is_managed none = false
is_managed (some node) = node.status == "managed"

unfoldable pub list_nodes : Store → List Node
list_nodes s = order_by (λ a b. text_le a.hostname b.hostname) s.nodes

module _ (env : Env) where
  -- current_fingerprint is not None and node.fingerprint != current_fingerprint
  abbrev wrong_fingerprint : Option String → Node → Bool
  wrong_fingerprint none node = false
  wrong_fingerprint (some fingerprint) node = not (node.fingerprint == fingerprint)

  -- current_fingerprint or "operator-forced"
  abbrev old_fingerprint : Option String → String
  old_fingerprint none = "operator-forced"
  old_fingerprint (some fingerprint) = if fingerprint == "" then "operator-forced" else fingerprint

  unfoldable pub rotate_loaded : Store → Option Node → Option String → String → Store × Option Node
  unfolding save_node record_audit
  rotate_loaded s none current new = (s, none)
  rotate_loaded s (some node) current new =
      let rotated = record node { fingerprint = new } in
      if wrong_fingerprint current node then (s, none) else (
        record_audit env (save_node s rotated) "node" "node" node.node_id "rotate_fingerprint" "ok"
            (field "old_fingerprint_sha256" (string (old_fingerprint current))
              (field "new_fingerprint_sha256" (string new) end)),
        some rotated,
      )

  unfoldable pub rotate_node_fingerprint :
      Store → String → Option String → String → Store × Option Node
  unfolding load_node rotate_loaded
  rotate_node_fingerprint s node_id current new = rotate_loaded s (load_node s node_id) current new
