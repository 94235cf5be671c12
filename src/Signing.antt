-- ===== src/Signing.antt =====
-- The signature of a task: src/hermes_managed_network/signing.py. The hexadecimal HMAC-SHA256 of a
-- message under a key is a parameter.
use Prim.Native.String.{◌++◌ as join}
use hermes_managed_network.Prelude.{String, Bool, ◌==◌}

abbrev signature_prefix : String
signature_prefix = "hmac-sha256:"

abbrev pub task_message : String → String → String → String
task_message task_id command risk = join task_id (join "\n" (join risk (join "\n" command)))

module _ (hmac_sha256 : String → String → String) where
  unfoldable pub sign_task_payload : String → String → String → String → String
  sign_task_payload node_fingerprint task_id command risk =
      join signature_prefix (hmac_sha256 node_fingerprint (task_message task_id command risk))

  unfoldable pub verify_task_signature : String → String → String → String → String → Bool
  verify_task_signature node_fingerprint task_id command risk signature =
      sign_task_payload node_fingerprint task_id command risk == signature
