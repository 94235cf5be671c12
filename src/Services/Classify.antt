-- ===== src/Services/Classify.antt =====
-- The rules of classify_service_asset and what they give (src/hermes_managed_network/storage.py).
use hermes_managed_network.Prelude.{
  ℕ, ◌-◌, ◌*◌, String, Bool, Option, some, List, [], ◌∷◌, ◌++◌, ◌==◌, ◌&&◌, ◌||◌, not, leb,
  starts_with, if◌then◌else◌,
}
use hermes_managed_network.Json.{Json, Items, Fields, string, arr, nil, cons, get}
use hermes_managed_network.Text.{strip_text, split, join_with}
use hermes_managed_network.Table.{select, contains}
use hermes_managed_network.Schema.{Env, Result, ok, raised, str, str_or}
use hermes_managed_network.TaskDispatch.{has}
use hermes_managed_network.Services.{
  ServiceRecord, ServiceAsset, Rule, rule, total, reasons_of, is_within, any_within, any_prefix,
  any_set, is_filled, size, capped, all_below, system_prefixes, noisy_suffixes, business_kinds,
  system_names, is_localhost, is_manual, stripped,
}

module _ (env : Env) (lower : String → String) where
  abbrev texts_of : Items → List String
  texts_of nil = []
  texts_of (cons v rest) = str env v ∷ texts_of rest

  abbrev tags_of_value : Option Json → List String
  tags_of_value (some (string text)) = stripped (stripped (split "," text))
  tags_of_value (some (arr items)) = stripped (texts_of items)
  tags_of_value _ = []

  unfoldable pub service_asset_tags : Fields → List String
  service_asset_tags d = tags_of_value (if has "tags" d then get "tags" d else get "labels" d)

  -- the values that the rules look at
  abbrev pub lowered_of : ServiceRecord → String
  lowered_of s = lower (strip_text s.name)

  abbrev pub runtime_of : ServiceRecord → String
  runtime_of s = strip_text (lower s.runtime)

  abbrev pub kind_of : ServiceRecord → String
  kind_of s = strip_text (lower s.kind)

  abbrev pub domains_of : ServiceRecord → List String
  domains_of s = select (λ domain. not (domain == "")) s.domains

  unfoldable pub bonuses : ServiceRecord → List Rule
  bonuses s =
      let d = s.metadata in
      let tags = service_asset_tags d in
      rule (is_manual d || strip_text (lower s.source) == "manual") 60 "用户手动标记/登记"
      ∷ rule
          (contains business_kinds (kind_of s)
            || any_within ("compose" ∷ "docker" ∷ "k8s" ∷ "kubernetes" ∷ []) (runtime_of s))
          25 "来自 Docker/Compose/K8s"
      ∷ rule (not (s.node_id == "")) 8 "已绑定运行节点"
      ∷ rule (is_filled (domains_of s)) 15 "存在域名入口"
      ∷ rule (not (s.health_check_url == "")) 8 "存在健康检查入口"
      ∷ rule (not (s.deploy_path == "")) 8 "存在部署路径"
      ∷ rule (not (s.docs_path == "")) 8 "存在服务文档"
      ∷ rule (is_filled tags) (capped 12 (size tags * 4)) "带有标签/备注"
      ∷ rule (any_set ("project" ∷ "project_name" ∷ "project_id" ∷ []) d) 10 "已绑定项目"
      ∷ rule (any_set ("reverse_proxy" ∷ "proxy" ∷ "ingress" ∷ []) d || is_filled (domains_of s)) 10
          "存在反代/入口"
      ∷ rule (any_set ("backup" ∷ "backup_status" ∷ []) d) 6 "有备份信息"
      ∷ []

  unfoldable pub penalties : ServiceRecord → Bool → List Rule
  penalties s localhost =
      rule (any_prefix system_prefixes (lowered_of s)) 35 "systemd/OS 默认服务"
      ∷ rule (any_within noisy_suffixes (lowered_of s)) 20 "辅助组件噪音"
      ∷ rule (s.node_id == "") 10 "未绑定节点"
      ∷ rule (not (is_filled (domains_of s)) && s.health_check_url == "" && s.deploy_path == "") 15
          "无入口/无说明"
      ∷ rule (is_filled s.ports && all_below 1024 s.ports && kind_of s == "port") 8 "仅发现基础端口监听"
      ∷ rule (starts_with s.deploy_path "/usr/") 10 "系统路径特征"
      ∷ rule (contains system_names (lowered_of s)) 30 "系统组件"
      ∷ rule localhost 20 "localhost-only"
      ∷ []

  -- max(0, min(100, score))
  unfoldable pub asset_score : ServiceRecord → Bool → ℕ
  asset_score s localhost = capped 100 (total (bonuses s) - total (penalties s localhost))

  unfoldable pub bucket_of : Bool → ℕ → String
  bucket_of manual score =
      if manual
      then "main"
      else if leb 50 score
      then "main"
      else if leb 20 score
      then "pending"
      else "system"

  unfoldable pub category_of : ServiceRecord → String → String
  category_of s bucket =
      let lowered = lowered_of s in
      if contains business_kinds (kind_of s)
        || starts_with (runtime_of s) "docker"
        || starts_with (runtime_of s) "compose"
      then "业务应用"
      else if is_within "bot" lowered
      then "Bot / 自动化"
      else if any_within ("db" ∷ "postgres" ∷ "mysql" ∷ "redis" ∷ "mongo" ∷ "sql" ∷ []) lowered
      then "数据库 / 中间件"
      else if any_within
          ("nginx" ∷ "caddy" ∷ "traefik" ∷ "gateway" ∷ "proxy" ∷ "panel" ∷ "web" ∷ "site" ∷ "api"
            ∷ [])
          lowered
      then (if is_within "web" lowered || is_filled (domains_of s)
          then "站点 / Web"
          else "网关 / 面板 / 接入层")
      else if any_within ("monitor" ∷ "prometheus" ∷ "grafana" ∷ "exporter" ∷ []) lowered
      then "监控组件"
      else if bucket == "system"
      then "系统资产"
      else "业务应用"

  -- a or b
  abbrev or_text : String → String → String
  or_text a b = if a == "" then b else a

  unfoldable pub deployment_type_of : ServiceRecord → String
  deployment_type_of s = str_or env "deployment_type" s.metadata (
      if contains business_kinds (kind_of s)
        || is_within "docker" (runtime_of s)
        || is_within "compose" (runtime_of s)
      then "docker"
      else or_text (kind_of s) "manual")

  abbrev why_of : List String → List String → List String
  why_of reasons [] = reasons
  why_of reasons taken = reasons ++ join_with "; " taken ∷ []

  unfoldable pub asset_with : ServiceRecord → Bool → ServiceAsset
  asset_with s localhost =
      let d = s.metadata in
      let score = asset_score s localhost in
      let bucket = bucket_of (is_manual d) score in
      record {
        asset_score = score;
        asset_bucket = bucket;
        asset_category = category_of s bucket;
        business_name = str_or env "business_name" d (str_or env "title" d (strip_text s.name));
        business_purpose =
            str_or env "business_purpose" d
              (str_or env "purpose" d (str_or env "description" d ""));
        project_name =
            str_or env "project_name" d (str_or env "project" d (str_or env "project_id" d ""));
        deployment_type = deployment_type_of s;
        run_node = s.node_id;
        public_exposed =
            is_filled (domains_of s)
            || not (s.health_check_url == "")
            || not (all_below 80 s.ports)
            || has "public_exposed" d;
        backup_status =
            str_or env "backup_status" d (if has "backup" d then "enabled" else "unknown");
        tags = service_asset_tags d;
        why_asset = why_of (reasons_of (bonuses s)) (reasons_of (penalties s localhost));
        manual_business_asset = is_manual d;
      }

  unfoldable pub asset_of : ServiceRecord → Result Bool → Result ServiceAsset
  asset_of s (raised e) = raised e
  asset_of s (ok localhost) = ok (asset_with s localhost)

  unfoldable pub classify_service_asset : ServiceRecord → Result ServiceAsset
  classify_service_asset s = asset_of s (is_localhost s.metadata)
