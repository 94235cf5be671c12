-- ===== src/Services.antt =====
-- classify_service_asset of src/hermes_managed_network/storage.py: what a service record counts for. `str.lower`
-- is a parameter. The score is kept as the points given and the points taken, so that it stays a natural
-- number. The ports are numbers, as their field declares.
pub mod Classify
pub mod Scores
use Prim.Native.String.{◌++◌ as join}
use hermes_managed_network.Prelude.{
  ℕ, zero, suc, ◌+◌, ◌-◌, ◌*◌, String, Bool, true, false, Option, none, some, List, [], ◌∷◌, ◌++◌,
  ◌==◌, ◌&&◌, ◌||◌, not, leb, starts_with, if◌then◌else◌,
}
use hermes_managed_network.Json.{
  ℤ, pos, negsuc, Json, Items, Fields, string, arr, obj, nil, cons, get, is_truthy,
}
use hermes_managed_network.Text.{strip_text, split, join_with}
use hermes_managed_network.Table.{select, contains}
use hermes_managed_network.Schema.{Env, Result, ok, raised, type_error, str, str_or}
use hermes_managed_network.TaskDispatch.{has}

-- the fields of ServiceRecord that the classification reads
pub record ServiceRecord : Type 0 where
  pub name : String
  pub node_id : String
  pub kind : String
  pub runtime : String
  pub domains : List String
  pub ports : List ℤ
  pub deploy_path : String
  pub health_check_url : String
  pub docs_path : String
  pub source : String
  pub metadata : Fields

pub record ServiceAsset : Type 0 where
  pub asset_score : ℕ
  pub asset_bucket : String
  pub asset_category : String
  pub business_name : String
  pub business_purpose : String
  pub project_name : String
  pub deployment_type : String
  pub run_node : String
  pub public_exposed : Bool
  pub backup_status : String
  pub tags : List String
  pub why_asset : List String
  pub manual_business_asset : Bool

-- a test, its points and its reason
pub record Rule : Type 0 where
  pub holds : Bool
  pub points : ℕ
  pub reason : String

abbrev pub rule : Bool → ℕ → String → Rule
rule holds points reason = record { holds = holds; points = points; reason = reason }

unfoldable pub total : List Rule → ℕ
total [] = 0
total (r ∷ rs) = (if r.holds then r.points else 0) + total rs

unfoldable pub reasons_of : List Rule → List String
reasons_of [] = []
reasons_of (r ∷ rs) = let rest = reasons_of rs in if r.holds then r.reason ∷ rest else rest

-- sub in s
unfoldable pub is_within : String → String → Bool
is_within sub String.[] = starts_with String.[] sub
is_within sub (String.◌∷◌ c s) = starts_with (String.◌∷◌ c s) sub || is_within sub s

unfoldable pub any_within : List String → String → Bool
any_within [] s = false
any_within (token ∷ rest) s = is_within token s || any_within rest s

unfoldable pub any_prefix : List String → String → Bool
any_prefix [] s = false
any_prefix (prefix ∷ rest) s = starts_with s prefix || any_prefix rest s

unfoldable pub any_set : List String → Fields → Bool
any_set [] d = false
any_set (key ∷ rest) d = has key d || any_set rest d

abbrev pub is_filled : {A : Type 0} → List A → Bool
is_filled [] = false
is_filled (_ ∷ _) = true

abbrev pub size : {A : Type 0} → List A → ℕ
size [] = 0
size (_ ∷ rest) = suc (size rest)

-- min(12, n)
abbrev pub capped : ℕ → ℕ → ℕ
capped limit n = if leb n limit then n else limit

abbrev below : ℕ → ℤ → Bool
below limit (pos n) = leb (suc n) limit
below limit (negsuc n) = true

unfoldable pub all_below : ℕ → List ℤ → Bool
all_below limit [] = true
all_below limit (p ∷ rest) = below limit p && all_below limit rest

-- value == text
abbrev is_text : String → Option Json → Bool
is_text text (some (string t)) = t == text
is_text text _ = false

abbrev pub manual_flags : List String
manual_flags =
    "asset_marked_business" ∷ "asset_business" ∷ "business_asset" ∷ "business_marked"
    ∷ "manual_business_asset" ∷ []

abbrev pub system_prefixes : List String
system_prefixes =
    "apt" ∷ "auditd" ∷ "apparmor" ∷ "dbus" ∷ "systemd" ∷ "rsyslog" ∷ "udev" ∷ "polkit" ∷ "ssh-agent"
    ∷ "getty" ∷ "unattended-upgrades" ∷ "cron" ∷ "networkmanager" ∷ []

abbrev pub noisy_suffixes : List String
noisy_suffixes =
    "agent" ∷ "agentctl" ∷ "exporter" ∷ "collector" ∷ "ctl" ∷ "monitor" ∷ "watchdog" ∷ "probe"
    ∷ "sidecar" ∷ []

abbrev pub business_kinds : List String
business_kinds = "docker" ∷ "compose" ∷ "k8s" ∷ "kubernetes" ∷ []

abbrev pub system_names : List String
system_names =
    "ssh" ∷ "cron" ∷ "dbus" ∷ "auditd" ∷ "apparmor" ∷ "rsyslog" ∷ "systemd-journald"
    ∷ "systemd-resolved" ∷ "systemd-timesyncd" ∷ []

-- metadata.get("localhost_only") or metadata.get("bind_address") in {...}; a list or a dict has no hash
abbrev bound_to : Option Json → Result Bool
bound_to (some (string t)) = ok (t == "127.0.0.1" || t == "localhost")
bound_to (some (arr _)) = raised type_error
bound_to (some (obj _)) = raised type_error
bound_to _ = ok false

unfoldable pub is_localhost : Fields → Result Bool
is_localhost d = if has "localhost_only" d then ok true else bound_to (get "bind_address" d)

unfoldable pub is_manual : Fields → Bool
is_manual d =
    any_set manual_flags d
    || is_text "main" (get "asset_bucket" d)
    || is_text "business" (get "asset_state" d)
    || is_text "business" (get "asset_category" d)

-- [x.strip() for x in ... if x.strip()]
unfoldable pub stripped : List String → List String
stripped [] = []
stripped (t ∷ rest) =
    let others = stripped rest in if strip_text t == "" then others else strip_text t ∷ others
