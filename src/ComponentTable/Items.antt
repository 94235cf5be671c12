-- ===== src/ComponentTable/Items.antt =====
-- The row of a component on a node after it was stored.
use hermes_managed_network.Prelude.{
  String, ◌≡◌, refl, some, List, [], ◌∷◌, arith, eq_iff, if◌then◌else◌,
}
use hermes_managed_network.Table.{find, upsert_where}
use hermes_managed_network.Schema.{NodeComponent, Store}
use hermes_managed_network.ComponentTable.{is_item, save_node_component, find_node_component}

find-upsert_item :
    (n c : String) (item : NodeComponent) (rows : List NodeComponent)
    → find (is_item n c) (upsert_where (is_item item.node_id item.component_id) item rows)
      ≡ (if is_item n c item then some item else find (is_item n c) rows)
unfolding find upsert_where
find-upsert_item n c item [] = refl
find-upsert_item n c item (x ∷ xs) = ground (
  arith,
  eq_iff x.node_id item.node_id,
  eq_iff x.component_id item.component_id,
  eq_iff x.node_id n,
  eq_iff x.component_id c,
  eq_iff item.node_id n,
  eq_iff item.component_id c,
  find-upsert_item n c item xs,
)

-- A stored row is found under its own node and component only.
pub find-save_node_component :
    (s : Store) (n c : String) (item : NodeComponent)
    → find_node_component (save_node_component s item) n c
      ≡ (if is_item n c item then some item else find_node_component s n c)
unfolding find_node_component save_node_component
find-save_node_component s n c item = find-upsert_item n c item s.node_components
