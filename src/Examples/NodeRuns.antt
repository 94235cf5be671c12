-- ===== src/Examples/NodeRuns.antt =====
-- Runs of the nodes.
use hermes_managed_network.Prelude.{◌≡◌, refl, none, some, List, [], ◌∷◌}
use hermes_managed_network.Table.{lookup}
use hermes_managed_network.Nodes.Registry.{
  NodeRegistry, register_pending, get, confirm, revoke, revoke_found,
}
use hermes_managed_network.Nodes.Revocation.{NodeOp, run_node_ops, as_managed, revoke_final}
use hermes_managed_network.Examples.{edge}

abbrev registry : NodeRegistry
registry = record { nodes = edge ∷ [] }

revokes_edge : (revoke registry "n1").1 ≡ some (record edge { status = "revoked" })
unfolding revoke revoke_found get lookup
revokes_edge = refl

-- between the revocation and the confirmation another node registers and this one is confirmed
abbrev calls : List NodeOp
calls =
    NodeOp.register_node "n2" "fp9" "spare" [] "untrusted" []
    ∷ NodeOp.confirm_node "n1" ("shell" ∷ [])
    ∷ []

abbrev after_calls : NodeRegistry
after_calls = run_node_ops (revoke registry "n1").0 calls

revoke_final_example :
    ((confirm after_calls "n1" []).1 ≡ none)
    × ((confirm (register_pending after_calls "n1" "fp7" "edge" [] "trusted" []).0 "n1" []).1
        ≡ some (as_managed [] (register_pending after_calls "n1" "fp7" "edge" [] "trusted" []).1))
revoke_final_example =
    revoke_final registry "n1" (record edge { status = "revoked" }) calls [] "fp7" "edge" "trusted"
      [] [] revokes_edge refl
