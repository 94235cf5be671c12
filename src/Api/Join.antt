-- ===== src/Api/Join.antt =====
-- POST /api/v1/join of src/hermes_managed_network/api.py: a node that shows a join token is registered.
pub mod Admission
use Prim.Native.String.{◌++◌ as join_text}
use hermes_managed_network.Prelude.{
  String, Bool, true, false, Option, none, some, List, [], ◌∷◌, ◌==◌, ◌&&◌, ◌||◌, not,
  if◌then◌else◌,
}
use hermes_managed_network.Json.{bool, string, arr, field, end, texts}
use hermes_managed_network.Table.{find, contains}
use hermes_managed_network.Schema.{JoinToken, Node, Store, Env, draw_id}
use hermes_managed_network.Audit.{record_audit}
use hermes_managed_network.Tokens.{load_token, consume_token}
use hermes_managed_network.Nodes.{list_nodes, register_pending_node, save_node}
use hermes_managed_network.Api.{Reply, answer, http}

pub record JoinRequest : Type 0 where
  pub token : String
  pub fingerprint : String
  pub hostname : String
  pub addresses : List String
  pub auto_confirm : Bool

pub record JoinResponse : Type 0 where
  pub node_id : String
  pub status : String
  pub trust_level : String
  pub labels : List String

-- {address for address in addresses if address}.intersection(known)
shares_address : List String → List String → Bool
shares_address [] known = false
shares_address (a ∷ rest) known = not (a == "") && contains known a || shares_address rest known

-- the node is in use, and is the one that asks
unfoldable pub is_duplicate : JoinRequest → Node → Bool
unfolding shares_address
is_duplicate request node =
    not (node.status == "revoked")
    && (node.fingerprint == request.fingerprint
        || node.hostname == request.hostname && shares_address request.addresses node.addresses)

unfoldable pub find_duplicate_join_node : Store → JoinRequest → Option Node
find_duplicate_join_node s request = find (is_duplicate request) (list_nodes s)

-- the status that the refusal of a token names
status_of : Option JoinToken → String
status_of none = "unknown"
status_of (some token) = token.status

abbrev bundles_of : Bool → List String
bundles_of auto_confirm = if auto_confirm then "observe" ∷ "task" ∷ [] else []

abbrev pub join_response : Node → JoinResponse
join_response node = record {
  node_id = node.node_id;
  status = node.status;
  trust_level = node.trust_level;
  labels = node.labels;
}

module _ (env : Env) where
  abbrev pub new_node_id : Store → String
  new_node_id s = join_text "node_" (env.hex12 s.draws)

  -- the node as the handler leaves it
  abbrev pub joined_node : Store → JoinRequest → JoinToken → Node
  joined_node s request token =
      let node =
        (register_pending_node s (new_node_id s) request.fingerprint request.hostname
          request.addresses token.trust_level token.labels).1 in
      if request.auto_confirm
      then record node { status = "managed"; permission_bundles = bundles_of true }
      else node

  -- register_pending_node, and save_node of the node that is confirmed at once
  unfoldable pub registered : Store → JoinRequest → JoinToken → Store
  registered s request token =
      let s' =
        (register_pending_node (draw_id s) (new_node_id s) request.fingerprint request.hostname
          request.addresses token.trust_level token.labels).0 in
      if request.auto_confirm then save_node s' (joined_node s request token) else s'

  unfoldable pub joined : Store → JoinRequest → JoinToken → Store × Reply JoinResponse
  joined s request token =
      let node = joined_node s request token in
      (
        record_audit env (registered s request token) "node" "node" node.node_id "join" "ok" (
            field "hostname" (string node.hostname) (
              field "addresses" (arr (texts node.addresses)) (
                field "trust_level" (string node.trust_level) (
                  field "labels" (arr (texts node.labels)) (
                    field "auto_confirm" (bool request.auto_confirm) (
                      field "permission_bundles" (arr (texts (bundles_of request.auto_confirm)))
                        end)))))),
        answer (join_response node),
      )

  -- what follows consume_token
  unfoldable pub after_consume : JoinRequest → Store × Option JoinToken → Store × Reply JoinResponse
  unfolding status_of
  after_consume request (s, none) =
      (s, http 409 (join_text "join token is " (status_of (load_token s request.token))))
  after_consume request (s, some token) = joined s request token

  unfoldable pub unless_duplicate : Store → JoinRequest → Option Node → Store × Reply JoinResponse
  unless_duplicate s request (some node) =
      (s, http 409 (join_text "node already exists: " node.node_id))
  unless_duplicate s request none =
      after_consume request (consume_token env s request.token request.fingerprint)

  unfoldable pub join_found : Store → JoinRequest → Option JoinToken → Store × Reply JoinResponse
  join_found s request none = (s, http 404 "join token not found")
  join_found s request (some token) =
      unless_duplicate s request (find_duplicate_join_node s request)

  unfoldable pub join : Store → JoinRequest → Store × Reply JoinResponse
  join s request = join_found s request (load_token s request.token)
