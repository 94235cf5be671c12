-- ===== src/Gateway/Polls.antt =====
-- A whole poll of the pressed buttons.
use hermes_managed_network.Prelude.{
  ◌+◌, String, ◌≡◌, refl, sym, ap, ◌∙◌, Option, none, some, List, [], ◌∷◌, ◌++◌, arith,
  append_assoc, append-nil,
}
use hermes_managed_network.Json.{ℤ, Fields, get}
use hermes_managed_network.Table.Order.{All}
use hermes_managed_network.Schema.{Env, Error, Result, ok, raised, attribute_error}
use hermes_managed_network.Gateway.{
  TelegramUpdateResult, Remote, dict_of, process_data, process_user, process_callback, update_id_of,
  process_update, process_updates, process_polled, no_counts, process_telegram_callbacks,
}
use hermes_managed_network.Gateway.Counts.{after}
use hermes_managed_network.Gateway.Offsets.{IsReadable, IsDone, IsDone-updates}
use hermes_managed_network.Gateway.Handed.{Hands, length, button_of, data-Handed}

module _ (env : Env) {W : Type 0} (remote : Remote W) (handed : W → List String)
    (hands : Hands remote handed) where
  abbrev button_in : Option Fields → List String
  button_in none = []
  button_in (some callback) = button_of env callback

  -- the data of the buttons of approvals in the updates
  abbrev pub buttons : List Fields → List String
  buttons [] = []
  buttons (update ∷ rest) = button_in (dict_of (get "callback_query" update)) ++ buttons rest

  -- the ways in which the loop over the updates ends
  data Looped (updates : List Fields) (w : W) (c : TelegramUpdateResult)
      (x : W × Result TelegramUpdateResult) : Type 0 where
    broken :
        (before : List Fields) (update : Fields) (after : List Fields) (e : Error)
        → updates ≡ before ++ update ∷ after
        → All (IsReadable env remote) before
        → (IsReadable env remote update → ⊥)
        → x.1 ≡ raised e
        → handed x.0 ≡ handed w ++ buttons before
        → Looped updates w c x
    through :
        (r : TelegramUpdateResult)
        → All (IsReadable env remote) updates
        → x.1 ≡ ok r
        → handed x.0 ≡ handed w ++ buttons updates
        → r.processed ≡ c.processed + length (buttons updates)
        → Looped updates w c x

  -- what one update does
  data One (update : Fields) (w : W) (c : TelegramUpdateResult)
      (x : W × Result TelegramUpdateResult) : Type 0 where
    unreadable :
        (e : Error) → (IsReadable env remote update → ⊥) → x ≡ (w, raised e) → One update w c x
    read :
        (w' : W) (c' : TelegramUpdateResult)
        → IsReadable env remote update
        → x ≡ (w', ok c')
        → handed w' ≡ handed w ++ button_in (dict_of (get "callback_query" update))
        → c'.processed ≡ c.processed + length (button_in (dict_of (get "callback_query" update)))
        → One update w c x

  length-append : (xs ys : List String) → length (xs ++ ys) ≡ length xs + length ys
  length-append [] ys = omega arith
  length-append (x ∷ xs) ys = omega (arith, length-append xs ys)

  raised_stays :
      (prefix : String) (updates : List Fields) (w : W) (e : Error)
      → process_updates env remote prefix updates (w, raised e) ≡ (w, raised e)
  unfolding process_updates
  raised_stays prefix [] w e = refl
  raised_stays prefix (u ∷ us) w e = refl

  module _ (prefix : String) (u : Fields) (w : W) (c : TelegramUpdateResult) where
    One-user :
        (id : ℤ) (callback : Fields) (o : Option Fields)
        → update_id_of env remote u ≡ ok id
        → dict_of (get "callback_query" u) ≡ some callback
        → dict_of (get "from" callback) ≡ o
        → One u w c (process_update env remote prefix w c u (update_id_of env remote u))
    unfolding process_update process_callback process_user
    One-user id callback none named called from =
        unreadable attribute_error
          (λ h.
            let same : callback ≡ h.callback = cc (called, h.callback_is_dict) in
            cc (ap (λ z. dict_of (get "from" z)) same, from, h.user_is_dict))
          (rw (named, called, from))
    One-user id callback (some user) named called from =
        let h : IsReadable env remote u = record {
          id = id;
          named = named;
          callback = callback;
          callback_is_dict = called;
          user = user;
          user_is_dict = from;
        } in
        let (same, count) =
          data-Handed env remote handed hands prefix w
            (record c { next_offset = after env remote c id }) callback user in
        let x =
          process_data env remote prefix w (record c { next_offset = after env remote c id })
            callback user in
        read x.0 x.1 h (rw (named, called, from)) (same ∙ rw called) (count ∙ rw called)

    One-callback :
        (id : ℤ) (o : Option Fields)
        → update_id_of env remote u ≡ ok id
        → dict_of (get "callback_query" u) ≡ o
        → One u w c (process_update env remote prefix w c u (update_id_of env remote u))
    unfolding process_update process_callback
    One-callback id none named called =
        unreadable attribute_error (λ h. cc (called, h.callback_is_dict)) (rw (named, called))
    One-callback id (some callback) named called = One-user id callback _ named called refl

    One-update :
        (o : Result ℤ)
        → update_id_of env remote u ≡ o
        → One u w c (process_update env remote prefix w c u (update_id_of env remote u))
    unfolding process_update
    One-update (raised e) named = unreadable e (λ h. cc (named, h.named)) (rw named)
    One-update (ok id) named = One-callback id _ named refl

  -- the loop over the rest, after an update that was read
  Looped-on :
      (u : Fields) (us : List Fields) (w w' : W) (c c' : TelegramUpdateResult)
      (y : W × Result TelegramUpdateResult)
      → IsReadable env remote u
      → handed w' ≡ handed w ++ button_in (dict_of (get "callback_query" u))
      → c'.processed ≡ c.processed + length (button_in (dict_of (get "callback_query" u)))
      → Looped us w' c' y
      → Looped (u ∷ us) w c y
  Looped-on u us w w' c c' y h on counted (broken before v after e split all not_readable r hd) =
      broken (u ∷ before) v after e (ap (λ z. u ∷ z) split) (h, all) not_readable r
        (hd ∙ rw (on, append_assoc))
  Looped-on u us w w' c c' y h on counted (through r all returned hd count) =
      through r (h, all) returned (hd ∙ rw (on, append_assoc))
        (omega (
          arith,
          count,
          counted,
          length-append (button_in (dict_of (get "callback_query" u))) (buttons us),
        ))

  Looped-after :
      (prefix : String) (u : Fields) (us : List Fields) (w : W) (c : TelegramUpdateResult)
      → ((w' : W) (c' : TelegramUpdateResult)
          → Looped us w' c' (process_updates env remote prefix us (w', ok c')))
      → (x : W × Result TelegramUpdateResult) → One u w c x
      → Looped (u ∷ us) w c (process_updates env remote prefix us x)
  Looped-after prefix u us w c others x (unreadable e not_readable same) =
      rw (same, raised_stays prefix us w e)
        (broken [] u us e refl tt not_readable refl (sym (append-nil (handed w))))
  Looped-after prefix u us w c others x (read w' c' h same on counted) =
      rw same (Looped-on u us w w' c c' _ h on counted (others w' c'))

  Looped-updates :
      (prefix : String) (updates : List Fields) (w : W) (c : TelegramUpdateResult)
      → Looped updates w c (process_updates env remote prefix updates (w, ok c))
  unfolding process_updates
  Looped-updates prefix [] w c = through c tt refl (sym (append-nil (handed w))) (omega arith)
  Looped-updates prefix (u ∷ us) w c =
      Looped-after prefix u us w c (λ w' c'. Looped-updates prefix us w' c') _
        (One-update prefix u w c _ refl)

  -- how a poll ends, for what get_updates gave
  pub data Polled (offset : Option ℤ) (got : W × Result (List Fields))
      (x : W × Result TelegramUpdateResult) : Type 0 where
    refused : (w : W) (e : Error) → got ≡ (w, raised e) → x ≡ (w, raised e) → Polled offset got x
    stopped :
        (w : W) (before : List Fields) (update : Fields) (after : List Fields) (e : Error)
        → got ≡ (w, ok (before ++ update ∷ after))
        → All (IsReadable env remote) before
        → (IsReadable env remote update → ⊥)
        → x.1 ≡ raised e
        → handed x.0 ≡ handed w ++ buttons before
        → Polled offset got x
    finished :
        (w : W) (updates : List Fields) (r : TelegramUpdateResult)
        → got ≡ (w, ok updates)
        → All (IsReadable env remote) updates
        → x.1 ≡ ok r
        → handed x.0 ≡ handed w ++ buttons updates
        → r.processed ≡ length (buttons updates)
        → IsDone env remote updates (no_counts offset) r
        → Polled offset got x

  Polled-of_Looped :
      (prefix : String) (offset : Option ℤ) (w : W) (updates : List Fields)
      → Looped updates w
          (no_counts offset)
          (process_updates env remote prefix updates (w, ok (no_counts offset)))
      → Polled offset
          (w, ok updates)
          (process_updates env remote prefix updates (w, ok (no_counts offset)))
  Polled-of_Looped prefix offset w updates (broken before u after e split all not_readable r hd) =
      stopped w before u after e (ap (λ z. (w, ok z)) split) all not_readable r hd
  Polled-of_Looped prefix offset w updates (through r all returned hd count) =
      finished w updates r refl all returned hd (omega (arith, count)) (
        IsDone-updates env remote prefix updates w (no_counts offset) r
          (record { failures = omega arith; decisions = omega arith }) returned)

  Polled-of :
      (prefix : String) (offset : Option ℤ) (got : W × Result (List Fields))
      → Polled offset got (process_polled env remote prefix (no_counts offset) got)
  unfolding process_polled
  Polled-of prefix offset (w, raised e) = refused w e refl refl
  Polled-of prefix offset (w, ok updates) =
      Polled-of_Looped prefix offset w updates (Looped-updates prefix updates w (no_counts offset))

  -- Let `handed` read from the state of the servers the callback data that the API was handed, which the
  -- answers to the buttons and their removal leave as it is. A poll raises at once if get_updates
  -- raises. Else it hands the button of each approval in the updates to the API exactly once, in their
  -- order, whatever these calls, the answers and the removals raise. It stops, raising, only at an update
  -- that cannot be read: `int` refuses its id, or its callback or user is neither empty nor a dict. After
  -- the last update it returns, having counted as processed exactly those buttons, at most that many as
  -- decided and at most that many as failed, with an offset that is beyond the id of each update and not
  -- below the offset that it was given.
  pub process_telegram_callbacks-Polled :
      (w : W) (offset : Option ℤ) (prefix : String)
      → Polled offset
          (remote.get_updates w offset)
          (process_telegram_callbacks env remote w offset prefix)
  unfolding process_telegram_callbacks
  process_telegram_callbacks-Polled w offset prefix =
      Polled-of prefix offset (remote.get_updates w offset)
