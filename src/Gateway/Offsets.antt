-- ===== src/Gateway/Offsets.antt =====
-- The offset that a poll ends with.
use hermes_managed_network.Prelude.{String, ◌≡◌, refl, sym, true, some, List, [], ◌∷◌}
use mathlib.Core.Path.{subst}
use hermes_managed_network.Json.{ℤ, Fields, get}
use hermes_managed_network.Table.Order.{All}
use hermes_managed_network.Schema.{Env, Result, ok, raised}
use hermes_managed_network.Orchestrator.{int_leb}
use hermes_managed_network.Orchestrator.Priority.{int_trans}
use hermes_managed_network.Gateway.{
  TelegramUpdateResult, Remote, next_int, int_max, or_zero, dict_of, process_data, process_user,
  process_callback, update_id_of, process_update, process_updates,
}
use hermes_managed_network.Gateway.Counts.{
  IsCounted, Reaches, reaches, max_left, max_right, Good, after, Good-update,
}

module _ (env : Env) {W : Type 0} (remote : Remote W) where
  -- what was reached stays so, and the update at hand is passed
  after_keeps :
      (c : TelegramUpdateResult) (id k : ℤ)
      → Reaches k c.next_offset
      → Reaches k (after env remote c id)
  after_keeps c id k (reaches n e p) = reaches _ refl (
      int_trans k n _ p (
        subst (λ o. int_leb n (int_max (or_zero o) (next_int id)) ≡ true) (sym e)
          (max_left n (next_int id))))

  after_passes : (c : TelegramUpdateResult) (id : ℤ) → Reaches (next_int id) (after env remote c id)
  after_passes c id = reaches _ refl (max_right (or_zero c.next_offset) (next_int id))

  -- the next offset is beyond each update
  abbrev pub Passed : TelegramUpdateResult → Fields → Type 0
  Passed r update =
      (id : ℤ) → update_id_of env remote update ≡ ok id → Reaches (next_int id) r.next_offset

  pub record IsDone (updates : List Fields) (c r : TelegramUpdateResult) : Type 0 where
    pub counted : IsCounted r
    pub passed : All (Passed r) updates
    pub kept : (k : ℤ) → Reaches k c.next_offset → Reaches k r.next_offset

  done_raised :
      (prefix : String) (updates : List Fields) (w : W) (e : _) (r : TelegramUpdateResult)
      → (process_updates env remote prefix updates (w, raised e)).1 ≡ ok r
      → ⊥
  unfolding process_updates
  done_raised prefix [] w e r h = cc
  done_raised prefix (u ∷ us) w e r h = cc

  -- one update and those after it
  IsDone-after :
      (prefix : String) (u : Fields) (us : List Fields) (c r : TelegramUpdateResult) (id : ℤ)
      → ((w : W) (c' : TelegramUpdateResult)
          → IsCounted c'
          → (process_updates env remote prefix us (w, ok c')).1 ≡ ok r
          → IsDone us c' r)
      → update_id_of env remote u ≡ ok id
      → (x : W × Result TelegramUpdateResult)
      → ((c' : TelegramUpdateResult) → x.1 ≡ ok c' → Good (after env remote c id) c')
      → (process_updates env remote prefix us x).1 ≡ ok r
      → IsDone (u ∷ us) c r
  IsDone-after prefix u us c r id others named (w, raised e) good h =
      absurd (done_raised prefix us w e r h)
  IsDone-after prefix u us c r id others named (w, ok c') good h =
      let (counted, offset) = good c' refl in
      let rest = others w c' counted h in
      record {
        counted = rest.counted;
        passed = (
          λ id' named'.
              let same : id ≡ id' = cc (named, named') in
              subst (λ k. Reaches (next_int k) r.next_offset) same
                (rest.kept (next_int id)
                  (subst (Reaches (next_int id)) (sym offset) (after_passes c id))),
          rest.passed,
        );
        kept = λ k p. rest.kept k (subst (Reaches k) (sym offset) (after_keeps c id k p));
      }

  IsDone-named :
      (prefix : String) (u : Fields) (us : List Fields) (w : W) (c r : TelegramUpdateResult)
      → IsCounted c
      → ((w : W) (c' : TelegramUpdateResult)
          → IsCounted c'
          → (process_updates env remote prefix us (w, ok c')).1 ≡ ok r
          → IsDone us c' r)
      → (o : Result ℤ) → update_id_of env remote u ≡ o
      → (process_updates env remote prefix us (process_update env remote prefix w c u o)).1 ≡ ok r
      → IsDone (u ∷ us) c r
  IsDone-named prefix u us w c r h others (raised e) named k =
      absurd (done_raised prefix us w e r (unfold process_update in k))
  IsDone-named prefix u us w c r h others (ok id) named k =
      IsDone-after prefix u us c r id others named (process_update env remote prefix w c u (ok id))
        (λ c' e. Good-update env remote prefix w c u id c' h e) k

  pub IsDone-updates :
      (prefix : String) (updates : List Fields) (w : W) (c r : TelegramUpdateResult)
      → IsCounted c
      → (process_updates env remote prefix updates (w, ok c)).1 ≡ ok r
      → IsDone updates c r
  unfolding process_updates
  IsDone-updates prefix [] w c r h e =
      subst (IsDone [] c) (cc e) (record { counted = h; passed = tt; kept = λ k p. p })
  IsDone-updates prefix (u ∷ us) w c r h e =
      IsDone-named prefix u us w c r h (λ w' c' h' e'. IsDone-updates prefix us w' c' r h' e')
        (update_id_of env remote u) refl e

  -- an update whose id is a number and whose callback and user are dicts, or missing
  pub record IsReadable (update : Fields) : Type 0 where
    pub id : ℤ
    pub named : update_id_of env remote update ≡ ok id
    pub callback : Fields
    pub callback_is_dict : dict_of (get "callback_query" update) ≡ some callback
    pub user : Fields
    pub user_is_dict : dict_of (get "from" callback) ≡ some user

  pub one_goes_on :
      (prefix : String) (w : W) (c : TelegramUpdateResult) (u : Fields)
      → IsReadable u
      → (x : W × TelegramUpdateResult) × (process_update env remote prefix w c u
            (update_id_of env remote u)
          ≡ (x.0, ok x.1))
  unfolding process_update process_callback process_user
  one_goes_on prefix w c u h = (
    process_data env remote prefix w (record c { next_offset = after env remote c h.id }) h.callback
        h.user,
    rw (h.named, h.callback_is_dict, h.user_is_dict),
  )
