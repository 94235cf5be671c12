-- ===== src/Gateway/Counts.antt =====
-- The counts that one update changes, and its offset.
use hermes_managed_network.Prelude.{
  ℕ, ◌+◌, ◌≤◌, String, ◌≡◌, refl, ◌∙◌, Bool, true, false, Option, none, some, ◌==◌, ◌||◌, arith,
  inl, inr, Bool-cases, starts_with,
}
use mathlib.Core.Path.{subst}
use hermes_managed_network.Json.{ℤ, pos, negsuc, Json, Fields, get}
use hermes_managed_network.Schema.{Env, ok, str_or}
use hermes_managed_network.Orchestrator.{int_leb}
use hermes_managed_network.Orchestrator.Priority.{int_total}
use hermes_managed_network.Gateway.{
  TelegramUpdateResult, Remote, next_int, int_max, or_zero, dict_of, count_status, count_failed,
  count_processed, is_none_json, failure, clear_keyboard, clear_in_chat, clear_in_message,
  after_answer, with_result, after_handle, process_data, process_user, process_callback,
  process_update,
}

-- No update is counted twice as decided or twice as failed.
pub record IsCounted (c : TelegramUpdateResult) : Type 0 where
  pub failures : c.failed ≤ c.processed
  pub decisions : c.approved + c.rejected ≤ c.processed

-- how many may still be counted, for the update at hand
abbrev Room : ℕ → ℕ → TelegramUpdateResult → Type 0
Room f d c = (c.failed + f ≤ c.processed) × (c.approved + c.rejected + d ≤ c.processed)

Room-IsCounted : (f d : ℕ) (c : TelegramUpdateResult) → Room f d c → IsCounted c
Room-IsCounted f d c h = record { failures = ground (arith, h.0); decisions = ground (arith, h.1) }

failed-IsCounted : (c : TelegramUpdateResult) → Room 1 0 c → IsCounted (count_failed c)
failed-IsCounted c h = record { failures = h.0; decisions = ground (arith, h.1) }

status-Room :
    (status : String) (c : TelegramUpdateResult) → Room 1 1 c → Room 1 0 (count_status status c)
status-Room status c h = elim (Bool-cases (status == "approved")) [
  | inl e ↦ rw e (h.0, ground (arith, h.1))
  | inr e ↦ elim (Bool-cases (status == "rejected")) [
    | inl k ↦ rw (e, k) (h.0, ground (arith, h.1))
    | inr k ↦ rw (e, k) (h.0, ground (arith, h.1))
  ]
]

offset_status :
    (status : String) (c : TelegramUpdateResult)
    → (count_status status c).next_offset ≡ c.next_offset
offset_status status c = elim (Bool-cases (status == "approved")) [
  | inl e ↦ rw e
  | inr e ↦ elim (Bool-cases (status == "rejected")) [ inl k ↦ rw (e, k) | inr k ↦ rw (e, k) ]
]

-- an offset that is at least a number
pub data Reaches (k : ℤ) (o : Option ℤ) : Type 0 where
  reaches : (n : ℤ) → o ≡ some n → int_leb k n ≡ true → Reaches k o

int_refl : (a : ℤ) → int_leb a a ≡ true
unfolding int_leb
int_refl (pos n) = ground arith
int_refl (negsuc n) = ground arith

pub max_left : (a b : ℤ) → int_leb a (int_max a b) ≡ true
unfolding int_max
max_left a b = elim (Bool-cases (int_leb a b)) [ inl e ↦ rw e e | inr e ↦ rw e (int_refl a) ]

pub max_right : (a b : ℤ) → int_leb b (int_max a b) ≡ true
unfolding int_max
max_right a b = elim (Bool-cases (int_leb a b)) [
  | inl e ↦ rw e (int_refl b)
  | inr e ↦ rw e (int_total a b e)
]

-- the counts of one update, and its offset
abbrev pub Good : Option ℤ → TelegramUpdateResult → Type 0
Good o c = IsCounted c × (c.next_offset ≡ o)

module _ (env : Env) {W : Type 0} (remote : Remote W) where
  Good-failure :
      (id : String) (w : W) (c : TelegramUpdateResult)
      → Room 1 0 c
      → Good c.next_offset (failure env remote id (w, c)).1
  unfolding failure
  Good-failure id w c h = (failed-IsCounted c h, refl)

  Good-keyboard :
      (w : W) (c : TelegramUpdateResult) (a b : Option Json)
      → Room 1 0 c
      → Good c.next_offset (clear_keyboard env remote w c a b).1
  unfolding clear_keyboard
  Good-keyboard w c a b h = elim (Bool-cases (is_none_json a || is_none_json b)) [
    | inl e ↦ rw e (Room-IsCounted 1 0 c h, refl)
    | inr e ↦ rw e (Room-IsCounted 1 0 c h, refl)
  ]

  Good-chat :
      (id : String) (w : W) (c : TelegramUpdateResult) (msg : Fields) (o : Option Fields)
      → Room 1 0 c
      → Good c.next_offset (clear_in_chat env remote id w c msg o).1
  unfolding clear_in_chat
  Good-chat id w c msg none h = Good-failure id w c h
  Good-chat id w c msg (some chat) h = Good-keyboard w c _ _ h

  Good-message :
      (id : String) (w : W) (c : TelegramUpdateResult) (o : Option Fields)
      → Room 1 0 c
      → Good c.next_offset (clear_in_message env remote id w c o).1
  unfolding clear_in_message
  Good-message id w c none h = Good-failure id w c h
  Good-message id w c (some msg) h = Good-chat id w c msg _ h

  Good-answer :
      (id : String) (callback : Fields) (c : TelegramUpdateResult) (x : W × Bool)
      → Room 1 0 c
      → Good c.next_offset (after_answer env remote id callback c x).1
  unfolding after_answer
  Good-answer id callback c (w, false) h = Good-failure id w c h
  Good-answer id callback c (w, true) h = Good-message id w c _ h

  Good-result :
      (id : String) (callback : Fields) (c : TelegramUpdateResult) (w : W) (o : Option Fields)
      → Room 1 1 c
      → Good c.next_offset (with_result env remote id callback c w o).1
  unfolding with_result
  Good-result id callback c w none h = Good-failure id w c (h.0, ground (arith, h.1))
  Good-result id callback c w (some result) h =
      let status = str_or env "status" result "" in
      let (counted, offset) =
        Good-answer id callback (count_status status c) _ (status-Room status c h) in
      (counted, offset ∙ offset_status status c)

  Good-handle :
      (id : String) (callback : Fields) (c : TelegramUpdateResult) (x : W × Option Json)
      → Room 1 1 c
      → Good c.next_offset (after_handle env remote id callback c x).1
  unfolding after_handle
  Good-handle id callback c (w, none) h = Good-failure id w c (h.0, ground (arith, h.1))
  Good-handle id callback c (w, some body) h = Good-result id callback c w _ h

  Good-data :
      (prefix : String) (w : W) (c : TelegramUpdateResult) (callback user : Fields)
      → IsCounted c
      → Good c.next_offset (process_data env remote prefix w c callback user).1
  unfolding process_data
  Good-data prefix w c callback user h =
      elim (Bool-cases (starts_with (str_or env "data" callback "") "hmn:approval:")) [
        | inr e ↦ rw e (h, refl)
        | inl e ↦ rw e (
            Good-handle _ callback (count_processed c) _
              (ground (arith, h.failures), ground (arith, h.decisions)))
      ]

  -- the offset after an update
  abbrev pub after : TelegramUpdateResult → ℤ → Option ℤ
  after c id = some (int_max (or_zero c.next_offset) (next_int id))

  Good-user :
      (prefix : String) (w : W) (c : TelegramUpdateResult) (callback : Fields) (o : Option Fields)
      (r : TelegramUpdateResult)
      → IsCounted c
      → (process_user env remote prefix w c callback o).1 ≡ ok r
      → Good c.next_offset r
  unfolding process_user
  Good-user prefix w c callback none r h e = cc
  Good-user prefix w c callback (some user) r h e =
      let same : (process_data env remote prefix w c callback user).1 ≡ r = cc e in
      subst (Good c.next_offset) same (Good-data prefix w c callback user h)

  Good-callback :
      (prefix : String) (w : W) (c : TelegramUpdateResult) (o : Option Fields)
      (r : TelegramUpdateResult)
      → IsCounted c
      → (process_callback env remote prefix w c o).1 ≡ ok r
      → Good c.next_offset r
  unfolding process_callback
  Good-callback prefix w c none r h e = cc
  Good-callback prefix w c (some callback) r h e =
      Good-user prefix w c callback (dict_of (get "from" callback)) r h e

  pub Good-update :
      (prefix : String) (w : W) (c : TelegramUpdateResult) (update : Fields) (id : ℤ)
      (r : TelegramUpdateResult)
      → IsCounted c
      → (process_update env remote prefix w c update (ok id)).1 ≡ ok r
      → Good (after c id) r
  unfolding process_update
  Good-update prefix w c update id r h e =
      Good-callback prefix w (record c { next_offset = after c id })
        (dict_of (get "callback_query" update)) r
        (record { failures = h.failures; decisions = h.decisions }) e
