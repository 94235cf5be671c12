-- ===== src/Examples/CardRuns.antt =====
-- Runs of the cards, of decisions over Telegram and over HTTP, and of an apply of an ACL.
use hermes_managed_network.Text.Split.{lacks_colon}
use hermes_managed_network.Text.{split, is_char}
use hermes_managed_network.Prelude.{◌≡◌, refl, some, [], ◌∷◌, map, ◌==◌, if◌then◌else◌}
use hermes_managed_network.Json.{pos, field, string, end}
use hermes_managed_network.Schema.{ApprovalRequest}
use hermes_managed_network.ApprovalTable.{load_approval_request}
use hermes_managed_network.Cards.{
  Callback, parse_approval_callback, build_approval_card, callback_of,
}
use hermes_managed_network.Cards.Buttons.{Means, pressed, buttons_roundtrip, parse-Means}
use hermes_managed_network.NetworkAcl.{
  Host, World, absent, file, dispatch_approved_network_acl_apply,
}
use hermes_managed_network.NetworkAcl.Guards.{Applying, dispatch-Applying}
use hermes_managed_network.Telegram.{handle_telegram_approval_callback}
use hermes_managed_network.Telegram.Callbacks.{Handled, handle-Handled}
use hermes_managed_network.Api.Decide.{ApprovalDecisionRequest, resolve_approval}
use hermes_managed_network.Api.Decide.Decision.{Decided, resolve_approval-Decided}
use hermes_managed_network.Examples.{host, asked, asked_store}

buttons_roundtrip_example :
    map (λ b. parse_approval_callback b.1) (build_approval_card host asked).buttons
    ≡ pressed "appr_1"
unfolding lacks_colon is_char
buttons_roundtrip_example = buttons_roundtrip host asked refl refl

abbrev approving : Callback
approving = record { decision = "approve"; approval_id = "appr_1" }

reads_approving : parse_approval_callback "hmn:approval:approve:appr_1" ≡ some approving
unfolding parse_approval_callback callback_of split
reads_approving = refl

parse-Means_example : Means "hmn:approval:approve:appr_1" approving
parse-Means_example = parse-Means "hmn:approval:approve:appr_1" approving reads_approving

abbrev acl_request : ApprovalRequest
acl_request = record asked {
  subject_type = "network_acl";
  action = "network.acl.apply";
  status = "approved";
  details =
      field "current_path" (string "/acl")
        (field "proposed_path" (string "/new") (field "reload_command" (string "reload") end));
}

-- a machine whose commands end well and leave the files as they are
abbrev machine : Host
machine = record {
  full_path = λ path. path;
  parent = λ _. "/";
  make_dirs = λ d _. some d;
  sha256 = λ text. text;
  run = λ d _ _. (d, some (record { returncode = pos 0; out = ""; err = "" }));
}

abbrev asked_world : World
asked_world = record { store = asked_store; disk = λ _. absent }

abbrev acl_world : World
acl_world = record {
  store = record asked_store { approval_requests = acl_request ∷ [] };
  disk =
      λ path. if path == "/acl" then file "old" else if path == "/new" then file "new" else absent;
}

dispatch-Applying_example :
    Applying host machine acl_world
      (load_approval_request acl_world.store "appr_1")
      (dispatch_approved_network_acl_apply host machine acl_world "appr_1")
dispatch-Applying_example = dispatch-Applying host machine acl_world "appr_1"

handle-Handled_example :
    Handled host asked_world (parse_approval_callback "hmn:approval:reject:appr_1") "telegram:ops" (
      handle_telegram_approval_callback host machine asked_world "hmn:approval:reject:appr_1"
        "telegram:ops")
handle-Handled_example =
    handle-Handled host machine asked_world "hmn:approval:reject:appr_1" "telegram:ops"

abbrev by_admin : ApprovalDecisionRequest
by_admin = record { decided_by = "admin" }

resolve_approval-Decided_example :
    Decided asked_world "appr_1" "approved" by_admin
      (resolve_approval host machine asked_world "appr_1" "approved" by_admin)
resolve_approval-Decided_example =
    resolve_approval-Decided host machine asked_world "appr_1" "approved" by_admin refl
