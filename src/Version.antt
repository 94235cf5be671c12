-- ===== src/Version.antt =====
-- Versions of the worker protocol: src/hermes_managed_network/version.py. The version of the installed
-- package is of its metadata and is not modelled.
use hermes_managed_network.Prelude.{
  String, Bool, true, Option, none, some, List, [], ◌∷◌, ◌==◌, if◌then◌else◌,
}
use hermes_managed_network.Text.{split, join_with}
use hermes_managed_network.Json.{Json, string, is_truthy}

abbrev pub worker_protocol_version : String
worker_protocol_version = "0.1"

first_part : List String → String
first_part [] = ""
first_part (p ∷ _) = p

two_parts : String → List String → String
two_parts version (a ∷ b ∷ _) = join_with "." (a ∷ b ∷ [])
two_parts version _ = version

unfoldable pub major_minor : String → String
unfolding first_part two_parts split
major_minor version = two_parts version (split "." (first_part (split "+" version)))

unfoldable pub is_worker_compatible : String → Option String → Bool
is_worker_compatible master_protocol none = true
is_worker_compatible master_protocol (some worker_protocol) =
    if worker_protocol == ""
    then true
    else major_minor master_protocol == major_minor worker_protocol

-- the same for a protocol that a worker reports as JSON: nothing where the value has no `split`, so
-- that the call raises
unfoldable pub reported_compatible : Option Json → Option Bool
reported_compatible none = some true
reported_compatible (some (string worker_protocol)) =
    some (is_worker_compatible worker_protocol_version (some worker_protocol))
reported_compatible (some v) = if is_truthy v then none else some true
