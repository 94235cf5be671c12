-- ===== src/Examples/GatewayRuns.antt =====
-- A run of the poll of pressed buttons, where Telegram takes no answer.
use hermes_managed_network.Prelude.{String, ◌≡◌, refl, true, false, some, List, [], ◌∷◌, ◌++◌}
use hermes_managed_network.Json.{pos, Json, ℤ, Fields, num, string, obj, field, end, get, is_truthy}
use hermes_managed_network.Schema.{Result, ok, raised, type_error, str_or, str}
use hermes_managed_network.Orchestrator.{int_leb}
use hermes_managed_network.Gateway.{
  Remote, next_int, int_max, failure, after_answer, with_result, after_handle, process_data,
  process_user, process_callback, process_update, process_updates, process_polled,
  process_telegram_callbacks,
}
use hermes_managed_network.Gateway.Handed.{Hands}
use hermes_managed_network.Gateway.Polls.{Polled, process_telegram_callbacks-Polled}
use hermes_managed_network.Examples.{host}

abbrev int_or_raise : Json → Result ℤ
int_or_raise (num n) = ok n
int_or_raise _ = raised type_error

abbrev pressed : Fields
pressed =
    field "data" (string "hmn:approval:approve:appr_1")
      (field "id" (string "q1") (field "from" (obj (field "username" (string "ops") end)) end))

abbrev update : Fields
update = field "update_id" (num (pos 41)) (field "callback_query" (obj pressed) end)

-- the state is the data that the API was handed; every answer to a button raises
abbrev servers : Remote (List String)
servers = record {
  handle_callback =
      λ w text _. (w ++ text ∷ [], some (obj (field "status" (string "approved") end)));
  answer_callback_query = λ w _ _. (w, false);
  clear_inline_keyboard = λ w _ _. (w, true);
  get_updates = λ w _. (w, ok (update ∷ []));
  int_of = λ v. int_or_raise v;
}

servers-Hands : Hands servers (λ w. w)
servers-Hands = record {
  on_handle = λ w t d. refl;
  on_answer = λ w i t. refl;
  on_clear = λ w a b. refl;
}

process_telegram_callbacks-Polled_example :
    Polled host servers
      (λ w. w)
      servers-Hands
      (some (pos 7))
      ([], ok (update ∷ []))
      (process_telegram_callbacks host servers [] (some (pos 7)) "telegram")
process_telegram_callbacks-Polled_example =
    process_telegram_callbacks-Polled host servers (λ w. w) servers-Hands [] (some (pos 7))
      "telegram"

-- that poll hands the button on and counts it as approved and as failed
poll_of_update : process_telegram_callbacks host servers [] (some (pos 7)) "telegram" ≡ (
  "hmn:approval:approve:appr_1" ∷ [],
  ok (record {
    processed = 1;
    approved = 1;
    rejected = 0;
    failed = 1;
    next_offset = some (pos 42);
  }),
)
unfolding process_telegram_callbacks process_polled process_updates process_update process_callback
    process_user process_data after_handle with_result after_answer failure get int_max next_int
    int_leb str_or str is_truthy
poll_of_update = refl
