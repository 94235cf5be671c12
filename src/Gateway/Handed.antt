-- ===== src/Gateway/Handed.antt =====
-- The calls of the API of the control plane that one update makes.
use hermes_managed_network.Prelude.{
  ℕ, suc, ◌+◌, String, ◌≡◌, refl, ◌∙◌, Bool, true, false, Option, none, some, List, [], ◌∷◌, ◌++◌,
  ◌==◌, ◌||◌, arith, inl, inr, Bool-cases, starts_with, if◌then◌else◌, append-nil,
}
use hermes_managed_network.Json.{Json, Fields}
use hermes_managed_network.Schema.{Env, str_or}
use hermes_managed_network.Gateway.{
  TelegramUpdateResult, Remote, count_status, count_processed, is_none_json, failure,
  clear_keyboard, clear_in_chat, clear_in_message, after_answer, with_result, after_handle,
  process_data,
}

-- `handed` reads from the state of the servers the callback data that the API was handed, in order:
-- neither an answer to a button nor the removal of the buttons changes it.
pub record Hands {W : Type 0} (remote : Remote W) (handed : W → List String) : Type 0 where
  pub on_handle :
      (w : W) (data_text decided_by : String)
      → handed (remote.handle_callback w data_text decided_by).0 ≡ handed w ++ data_text ∷ []
  pub on_answer :
      (w : W) (id : String) (text : Option String)
      → handed (remote.answer_callback_query w id text).0 ≡ handed w
  pub on_clear :
      (w : W) (chat_id message_id : Json)
      → handed (remote.clear_inline_keyboard w chat_id message_id).0 ≡ handed w

abbrev pub length {ℓ} : {A : Type ℓ} → List A → ℕ
length [] = 0
length (x ∷ xs) = suc (length xs)

module _ (env : Env) where
  -- the data of a pressed button, if it is one of an approval
  abbrev pub button_of : Fields → List String
  button_of callback =
      let text = str_or env "data" callback "" in
      if starts_with text "hmn:approval:" then text ∷ [] else []

  module _ {W : Type 0} (remote : Remote W) (handed : W → List String)
      (hands : Hands remote handed) where
    -- no call of the API, and no update counted as processed
    abbrev Quiet : W → TelegramUpdateResult → W × TelegramUpdateResult → Type 0
    Quiet w c x = (handed x.0 ≡ handed w) × (x.1.processed ≡ c.processed)

    failure-Quiet :
        (id : String) (w : W) (c : TelegramUpdateResult) → Quiet w c (failure env remote id (w, c))
    unfolding failure
    failure-Quiet id w c = elim (Bool-cases (id == "")) [
      | inl e ↦ rw e (refl, refl)
      | inr e ↦ rw e (hands.on_answer w id _, refl)
    ]

    keyboard-Quiet :
        (w : W) (c : TelegramUpdateResult) (a b : Option Json)
        → Quiet w c (clear_keyboard env remote w c a b)
    unfolding clear_keyboard
    keyboard-Quiet w c a b = elim (Bool-cases (is_none_json a || is_none_json b)) [
      | inl e ↦ rw e (refl, refl)
      | inr e ↦ rw e (hands.on_clear w _ _, refl)
    ]

    chat-Quiet :
        (id : String) (w : W) (c : TelegramUpdateResult) (msg : Fields) (o : Option Fields)
        → Quiet w c (clear_in_chat env remote id w c msg o)
    unfolding clear_in_chat
    chat-Quiet id w c msg none = failure-Quiet id w c
    chat-Quiet id w c msg (some chat) = keyboard-Quiet w c _ _

    message-Quiet :
        (id : String) (w : W) (c : TelegramUpdateResult) (o : Option Fields)
        → Quiet w c (clear_in_message env remote id w c o)
    unfolding clear_in_message
    message-Quiet id w c none = failure-Quiet id w c
    message-Quiet id w c (some msg) = chat-Quiet id w c msg _

    answer-Quiet :
        (id : String) (callback : Fields) (c : TelegramUpdateResult) (x : W × Bool)
        → Quiet x.0 c (after_answer env remote id callback c x)
    unfolding after_answer
    answer-Quiet id callback c (w, false) = failure-Quiet id w c
    answer-Quiet id callback c (w, true) = message-Quiet id w c _

    processed_status :
        (status : String) (c : TelegramUpdateResult)
        → (count_status status c).processed ≡ c.processed
    processed_status status c = elim (Bool-cases (status == "approved")) [
      | inl e ↦ rw e
      | inr e ↦ elim (Bool-cases (status == "rejected")) [ inl k ↦ rw (e, k) | inr k ↦ rw (e, k) ]
    ]

    result-Quiet :
        (id : String) (callback : Fields) (c : TelegramUpdateResult) (w : W) (o : Option Fields)
        → Quiet w c (with_result env remote id callback c w o)
    unfolding with_result
    result-Quiet id callback c w none = failure-Quiet id w c
    result-Quiet id callback c w (some result) =
        let status = str_or env "status" result "" in
        let (same, count) = answer-Quiet id callback (count_status status c) _ in
        (same ∙ hands.on_answer w id _, count ∙ processed_status status c)

    handle-Quiet :
        (id : String) (callback : Fields) (c : TelegramUpdateResult) (x : W × Option Json)
        → Quiet x.0 c (after_handle env remote id callback c x)
    unfolding after_handle
    handle-Quiet id callback c (w, none) = failure-Quiet id w c
    handle-Quiet id callback c (w, some body) = result-Quiet id callback c w _

    -- the button of an approval is handed on once, and counted once; another is passed over
    pub data-Handed :
        (prefix : String) (w : W) (c : TelegramUpdateResult) (callback user : Fields)
        → let x = process_data env remote prefix w c callback user in
          (handed x.0 ≡ handed w ++ button_of callback)
          × (x.1.processed ≡ c.processed + length (button_of callback))
    unfolding process_data
    data-Handed prefix w c callback user =
        elim (Bool-cases (starts_with (str_or env "data" callback "") "hmn:approval:")) [
          | inr e ↦ rw e (rw append-nil refl, omega arith)
          | inl e ↦
              let (same, count) = handle-Quiet _ callback (count_processed c) _ in
              rw e (same ∙ hands.on_handle w _ _, count)
        ]
