-- ===== src/Nodes/Rotation.antt =====
-- Rotating the fingerprint of a node.
use hermes_managed_network.Prelude.{
  String, ◌≡◌, refl, Option, none, some, arith, eq_iff, ◌==◌, if◌then◌else◌,
}
use hermes_managed_network.Table.Laws.{lookup-upsert, key-lookup}
use hermes_managed_network.Schema.{Node, Store, Env}
use hermes_managed_network.Nodes.{node_key, load_node, rotate_loaded, rotate_node_fingerprint}

module _ (env : Env) where
  -- the node after the rotation that an agent or operator asked for
  pub rotated : Option String → String → Option Node → Option Node
  rotated current new none = none
  rotated none new (some n) = some (record n { fingerprint = new })
  rotated (some fp) new (some n) =
      if n.fingerprint == fp then some (record n { fingerprint = new }) else none

  pub or_kept : Option Node → Option Node → Option Node
  or_kept none old = old
  or_kept (some n) old = some n

  rotate_loaded_outcome :
      (s : Store) (node_id w new : String) (current : Option String) (o : Option Node)
      → ((x : Node) → o ≡ some x → x.node_id ≡ node_id)
      → load_node s node_id ≡ o
      → ((rotate_loaded env s o current new).1 ≡ rotated current new o)
        × (load_node (rotate_loaded env s o current new).0 w
            ≡ (if node_id == w then or_kept (rotated current new o) o else load_node s w))
  unfolding rotate_loaded rotated load_node or_kept
  rotate_loaded_outcome s node_id w new current none under e =
      (refl, ground (arith, eq_iff node_id w))
  rotate_loaded_outcome s node_id w new none (some n) under e = (
    refl,
    ground (
      arith,
      under n refl,
      eq_iff node_id w,
      lookup-upsert node_key w (record n { fingerprint = new }) s.nodes,
    ),
  )
  rotate_loaded_outcome s node_id w new (some fp) (some n) under e = (
    ground arith,
    ground (
      arith,
      under n refl,
      eq_iff node_id w,
      lookup-upsert node_key w (record n { fingerprint = new }) s.nodes,
    ),
  )

  -- A rotation succeeds exactly if the node exists and, where a current fingerprint is given, has
  -- that fingerprint; then only the fingerprint of that node changes. Where it fails no node changes.
  pub rotate_node_fingerprint_outcome :
      (s : Store) (node_id w new : String) (current : Option String)
      → ((rotate_node_fingerprint env s node_id current new).1
          ≡ rotated current new (load_node s node_id))
        × (load_node (rotate_node_fingerprint env s node_id current new).0 w ≡ (
            if node_id == w
            then or_kept (rotated current new (load_node s node_id)) (load_node s node_id)
            else load_node s w))
  unfolding rotate_node_fingerprint load_node
  rotate_node_fingerprint_outcome s node_id w new current =
      rotate_loaded_outcome s node_id w new current (load_node s node_id)
        (λ x e. key-lookup node_key node_id s.nodes x e) refl
