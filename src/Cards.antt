-- ===== src/Cards.antt =====
-- The cards that ask for a decision: src/hermes_managed_network/approval_notifications.py (the card is
-- the ApprovalCard of approval_gateway.py).
pub mod Buttons
use Prim.Native.String.{◌++◌ as join}
use hermes_managed_network.Prelude.{
  ℕ, String, Bool, true, false, Option, none, some, List, [], ◌∷◌, ◌++◌, map, leb, ◌==◌, ◌&&◌, ◌||◌,
  not, starts_with, if◌then◌else◌,
}
use hermes_managed_network.Json.{Json, Fields, get}
use hermes_managed_network.Text.{
  strip_text, words, split, join_with, has_upper, count_chars, take_chars,
}
use hermes_managed_network.Schema.{ApprovalRequest, Env, str}

pub record ApprovalCard : Type 0 where
  pub text : String
  pub buttons : List (String × String)

pub record Callback : Type 0 where
  pub decision : String
  pub approval_id : String

-- the head of a list of texts
first_of : List String → String
first_of [] = ""
first_of (p ∷ _) = p

unfoldable pub redact_part : String → String
unfolding first_of
redact_part part =
    if has_upper "TOKEN=" part
      || has_upper "SECRET=" part
      || has_upper "PASSWORD=" part
      || has_upper "API_KEY=" part
    then join (first_of (split "=" part)) "…"
    else part

-- text[:n - 1] + "…", if it is longer than n
abbrev shorten : ℕ → ℕ → String → String
shorten limit kept text =
    if leb (count_chars text) limit then text else join (take_chars kept text) "…"

unfoldable pub redact_command : String → String
redact_command command = shorten 80 79 (join_with " " (map redact_part (words command)))

-- the data of a button
unfoldable pub callback_data : String → String → String
callback_data decision approval_id =
    join "hmn" (join ":" (join "approval" (join ":" (join decision (join ":" approval_id)))))

-- {"decision": ..., "approval_id": ...} of the four parts of the data
unfoldable pub callback_of : List String → Option Callback
callback_of (prefix ∷ category ∷ decision ∷ approval_id ∷ []) =
    if not (prefix == "hmn")
      || not (category == "approval")
      || not (decision == "approve" || decision == "reject")
    then none
    else if not (starts_with approval_id "appr_")
    then none
    else some (record { decision = decision; approval_id = approval_id })
callback_of _ = none

unfoldable pub parse_approval_callback : String → Option Callback
parse_approval_callback data_text = callback_of (split ":" data_text)

-- a line, if the text is not empty
abbrev line_if : String → String → String → List String
line_if before text after = if text == "" then [] else join before (join text after) ∷ []

abbrev between : String → String → String → String
between before text after = join before (join text after)

module _ (env : Env) where
  -- str(d.get(key, default))
  text_or : Option Json → String → String
  text_or none default = default
  text_or (some v) default = str env v

  unfoldable pub card_lines : ApprovalRequest → List String
  unfolding text_or
  card_lines approval =
      let d = approval.details in
      let at = λ (key : String). text_or (get key d) "" in
      let command = redact_command (at "command") in
      let diff = shorten 900 899 (at "diff") in
      ("⚠\u{fe0f} 高风险审批"
        ∷ between "审批: `" approval.approval_id "`"
        ∷ between "风险: `" approval.risk "`"
        ∷ between "动作: `" approval.action "`"
        ∷ [])
      ++ (line_if "任务: `" (strip_text (at "task_name")) "`"
          ++ (line_if "说明: `" (strip_text (at "task_description")) "`"
              ++ (if approval.subject_type == "network_acl"
                    && approval.action == "network.acl.apply"
                  then between "ACL: `" (text_or (get "current_path" d) approval.subject_id) "`"
                    ∷ "Diff:"
                    ∷ (if diff == "" then "`(无 diff)`" else between "```diff\n" diff "\n```")
                    ∷ []
                  else between "节点: `" (text_or (get "node_id" d) "未知节点") "`"
                    ∷ (if command == "" then "命令: `(无)`" else between "命令: `" command "`")
                    ∷ [])))

  unfoldable pub build_approval_card : ApprovalRequest → ApprovalCard
  build_approval_card approval = record {
    text = join_with "\n" (card_lines approval);
    buttons =
        ("✅ 批准", callback_data "approve" approval.approval_id)
        ∷ ("❌ 拒绝", callback_data "reject" approval.approval_id)
        ∷ [];
  }
