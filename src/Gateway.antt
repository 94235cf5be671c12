-- ===== src/Gateway.antt =====
-- process_telegram_callbacks of src/hermes_managed_network/approval_gateway.py, which hands the pressed
-- buttons on. The servers that it calls are a parameter, over a state of their own; a call may raise. So is
-- `int` of a JSON value.
pub mod Counts
pub mod Offsets
pub mod Handed
pub mod Polls
use Prim.Native.String.{◌++◌ as join}
use hermes_managed_network.Prelude.{
  ℕ, zero, suc, ◌+◌, String, Bool, true, false, Option, none, some, List, [], ◌∷◌, ◌==◌, ◌||◌, not,
  starts_with, if◌then◌else◌,
}
use hermes_managed_network.Json.{
  ℤ, pos, negsuc, Json, Items, Fields, null, string, num, obj, arr, nil, end, get, is_truthy,
}
use hermes_managed_network.Text.{take_chars}
use hermes_managed_network.Schema.{Env, Error, Result, ok, raised, attribute_error, str, str_or}
use hermes_managed_network.Orchestrator.{int_leb}

pub record TelegramUpdateResult : Type 0 where
  pub processed : ℕ
  pub approved : ℕ
  pub rejected : ℕ
  pub failed : ℕ
  pub next_offset : Option ℤ

-- the API of the control plane and the Telegram client: `none`, `false` and `raised` are an exception
pub record Remote (W : Type 0) : Type 0 where
  pub handle_callback : W → String → String → W × Option Json
  pub answer_callback_query : W → String → Option String → W × Bool
  pub clear_inline_keyboard : W → Json → Json → W × Bool
  pub get_updates : W → Option ℤ → W × Result (List Fields)
  pub int_of : Json → Result ℤ

-- x + 1
unfoldable pub next_int : ℤ → ℤ
next_int (pos n) = pos (suc n)
next_int (negsuc zero) = pos zero
next_int (negsuc (suc n)) = negsuc n

-- max(a, b)
unfoldable pub int_max : ℤ → ℤ → ℤ
int_max a b = if int_leb a b then b else a

-- value or 0
abbrev pub or_zero : Option ℤ → ℤ
or_zero none = pos zero
or_zero (some n) = n

-- the dict of `value or {}`; `.get` of another value that is true raises AttributeError
abbrev pub dict_of : Option Json → Option Fields
dict_of none = some end
dict_of (some (obj fields)) = some fields
dict_of (some v) = if is_truthy v then none else some end

abbrev pub count_processed : TelegramUpdateResult → TelegramUpdateResult
count_processed c = record c { processed = c.processed + 1 }

abbrev pub count_status : String → TelegramUpdateResult → TelegramUpdateResult
count_status status c =
    if status == "approved"
    then record c { approved = c.approved + 1 }
    else if status == "rejected"
    then record c { rejected = c.rejected + 1 }
    else c

abbrev pub count_failed : TelegramUpdateResult → TelegramUpdateResult
count_failed c = record c { failed = c.failed + 1 }

abbrev pub is_none_json : Option Json → Bool
is_none_json none = true
is_none_json (some null) = true
is_none_json (some _) = false

abbrev value_of : Option Json → Json
value_of none = null
value_of (some v) = v

abbrev pub no_counts : Option ℤ → TelegramUpdateResult
no_counts offset = record {
  processed = 0;
  approved = 0;
  rejected = 0;
  failed = 0;
  next_offset = offset;
}

module _ (env : Env) {W : Type 0} (remote : Remote W) where
  -- what follows `except Exception`
  unfoldable pub failure : String → W × TelegramUpdateResult → W × TelegramUpdateResult
  failure callback_id (w, c) = (
    if callback_id == ""
        then w
        else (remote.answer_callback_query w callback_id (some "审批处理失败，请查看 HMN 日志。")).0,
    count_failed c,
  )

  unfoldable pub clear_keyboard :
      W → TelegramUpdateResult → Option Json → Option Json → W × TelegramUpdateResult
  clear_keyboard w c chat_id message_id =
      if is_none_json chat_id || is_none_json message_id
      then (w, c)
      else ((remote.clear_inline_keyboard w (value_of chat_id) (value_of message_id)).0, c)

  unfoldable pub clear_in_chat :
      String → W → TelegramUpdateResult → Fields → Option Fields → W × TelegramUpdateResult
  clear_in_chat callback_id w c msg none = failure callback_id (w, c)
  clear_in_chat callback_id w c msg (some chat) =
      clear_keyboard w c (get "id" chat) (get "message_id" msg)

  unfoldable pub clear_in_message :
      String → W → TelegramUpdateResult → Option Fields → W × TelegramUpdateResult
  clear_in_message callback_id w c none = failure callback_id (w, c)
  clear_in_message callback_id w c (some msg) =
      clear_in_chat callback_id w c msg (dict_of (get "chat" msg))

  unfoldable pub after_answer :
      String → Fields → TelegramUpdateResult → W × Bool → W × TelegramUpdateResult
  after_answer callback_id callback c (w, false) = failure callback_id (w, c)
  after_answer callback_id callback c (w, true) =
      clear_in_message callback_id w c (dict_of (get "message" callback))

  unfoldable pub with_result :
      String → Fields → TelegramUpdateResult → W → Option Fields → W × TelegramUpdateResult
  with_result callback_id callback c w none = failure callback_id (w, c)
  with_result callback_id callback c w (some result) =
      after_answer callback_id callback (count_status (str_or env "status" result "") c) (
        remote.answer_callback_query w callback_id (
          if callback_id == ""
          then none
          else some (take_chars 180 (str_or env "message" result "已处理。"))))

  -- `result.get` of a body that is no dict raises
  abbrev pub fields_of : Json → Option Fields
  fields_of (obj fields) = some fields
  fields_of _ = none

  unfoldable pub after_handle :
      String → Fields → TelegramUpdateResult → W × Option Json → W × TelegramUpdateResult
  after_handle callback_id callback c (w, none) = failure callback_id (w, c)
  after_handle callback_id callback c (w, some body) =
      with_result callback_id callback c w (fields_of body)

  unfoldable pub process_data :
      String → W → TelegramUpdateResult → Fields → Fields → W × TelegramUpdateResult
  process_data decided_by_prefix w c callback user =
      let callback_data = str_or env "data" callback "" in
      let username = str_or env "username" user (str_or env "id" user "unknown") in
      if not (starts_with callback_data "hmn:approval:")
      then (w, c)
      else after_handle (str_or env "id" callback "") callback (count_processed c)
          (remote.handle_callback w callback_data (join decided_by_prefix (join ":" username)))

  unfoldable pub process_user :
      String → W → TelegramUpdateResult → Fields → Option Fields → W × Result TelegramUpdateResult
  process_user decided_by_prefix w c callback none = (w, raised attribute_error)
  process_user decided_by_prefix w c callback (some user) =
      let r = process_data decided_by_prefix w c callback user in (r.0, ok r.1)

  unfoldable pub process_callback :
      String → W → TelegramUpdateResult → Option Fields → W × Result TelegramUpdateResult
  process_callback decided_by_prefix w c none = (w, raised attribute_error)
  process_callback decided_by_prefix w c (some callback) =
      process_user decided_by_prefix w c callback (dict_of (get "from" callback))

  -- int(update.get("update_id", 0))
  abbrev pub update_id_of : Fields → Result ℤ
  update_id_of update = elim (get "update_id" update) [
    | none ↦ ok (pos zero)
    | some v ↦ remote.int_of v
  ]

  unfoldable pub process_update :
      String → W → TelegramUpdateResult → Fields → Result ℤ → W × Result TelegramUpdateResult
  process_update decided_by_prefix w c update (raised e) = (w, raised e)
  process_update decided_by_prefix w c update (ok update_id) =
      process_callback decided_by_prefix w
        (record c { next_offset = some (int_max (or_zero c.next_offset) (next_int update_id)) })
        (dict_of (get "callback_query" update))

  -- for update in telegram.get_updates(offset=offset)
  unfoldable pub process_updates :
      String → List Fields → W × Result TelegramUpdateResult → W × Result TelegramUpdateResult
  process_updates decided_by_prefix [] x = x
  process_updates decided_by_prefix (update ∷ rest) (w, raised e) = (w, raised e)
  process_updates decided_by_prefix (update ∷ rest) (w, ok c) =
      process_updates decided_by_prefix rest
        (process_update decided_by_prefix w c update (update_id_of update))

  -- what get_updates gives, or raises
  unfoldable pub process_polled :
      String → TelegramUpdateResult → W × Result (List Fields) → W × Result TelegramUpdateResult
  process_polled decided_by_prefix c (w, raised e) = (w, raised e)
  process_polled decided_by_prefix c (w, ok updates) =
      process_updates decided_by_prefix updates (w, ok c)

  unfoldable pub process_telegram_callbacks :
      W → Option ℤ → String → W × Result TelegramUpdateResult
  process_telegram_callbacks w offset decided_by_prefix =
      process_polled decided_by_prefix (no_counts offset) (remote.get_updates w offset)
