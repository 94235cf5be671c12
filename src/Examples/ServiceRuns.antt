-- ===== src/Examples/ServiceRuns.antt =====
-- Runs of the classification of a service.
use hermes_managed_network.Prelude.{String, ◌≡◌, refl, ◌≤◌, false, [], ◌∷◌}
use hermes_managed_network.Json.{field, string, end, get, is_truthy}
use hermes_managed_network.Schema.{ok}
use hermes_managed_network.Services.{ServiceRecord, ServiceAsset, is_localhost}
use hermes_managed_network.Services.Classify.{classify_service_asset}
use hermes_managed_network.Services.Scores.{bare, with_domains, domains_never_lower_score}
use hermes_managed_network.Examples.{host}

abbrev shop : ServiceRecord
shop = record {
  name = "shop-web";
  node_id = "n1";
  kind = "docker";
  runtime = "docker";
  domains = [];
  ports = [];
  deploy_path = "/srv/shop";
  health_check_url = "";
  docs_path = "";
  source = "discovery";
  metadata = field "bind_address" (string "0.0.0.0") end;
}

abbrev lowered : String → String
lowered = λ text. text

open_to_all : is_localhost shop.metadata ≡ ok false
unfolding is_localhost get is_truthy
open_to_all = refl

domains_never_lower_score_example :
    (a a' : ServiceAsset) × (classify_service_asset host lowered
        (bare host lowered shop ("shop.example" ∷ []))
      ≡ ok a)
    × (classify_service_asset host lowered (with_domains host lowered shop ("shop.example" ∷ []))
        ≡ ok a')
    × (a.asset_score ≤ a'.asset_score)
    × (a'.asset_score ≤ 100)
domains_never_lower_score_example =
    domains_never_lower_score host lowered shop ("shop.example" ∷ []) false open_to_all
