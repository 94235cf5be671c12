-- ===== src/Tokens/Expiry.antt =====
-- The sweep of overdue tokens, and consumptions after it.
use mathlib.Core.Option
use hermes_managed_network.Prelude.{
  ℕ, ◌≤◌, String, ◌≡◌, refl, ap, ◌∙◌, Bool, true, false, Option, some, none, arith, ◌&&◌,
  if◌then◌else◌, leb,
}
use hermes_managed_network.Table.{lookup, contains, select, IsKeyed}
use hermes_managed_network.Table.Keyed.{lookup-update_each, contains-order_by, contains-select}
use hermes_managed_network.Schema.{JoinToken, Store, Env, now}
use hermes_managed_network.Tokens.{
  token_key, as_expired, is_overdue, load_token, consume_loaded, consume_token,
  expire_pending_tokens_at,
}

-- the token is in the sweep
pub overdue_at : ℕ → Option JoinToken → Bool
overdue_at at none = false
overdue_at at (some t) = is_overdue at t

-- what the sweep leaves of the token
unfoldable pub swept : ℕ → Option JoinToken → Option JoinToken
swept at none = none
swept at (some t) = some (if is_overdue at t then as_expired t else t)

overdue_at_elim :
    (at : ℕ) (o : Option JoinToken)
    → elim o [ none ↦ false | some t ↦ is_overdue at t ] ≡ overdue_at at o
unfolding overdue_at
overdue_at_elim at none = refl
overdue_at_elim at (some t) = refl

swept-map :
    (at : ℕ) (b : Bool) (o : Option JoinToken)
    → b ≡ overdue_at at o
    → Option.map (λ t. if b && true then as_expired t else t) o ≡ swept at o
unfolding overdue_at swept
swept-map at b none h = refl
swept-map at true (some t) h = rw (← h)
swept-map at false (some t) h = rw (← h)

module _ (at : ℕ) (s : Store) (keyed : IsKeyed token_key s.join_tokens) (value : String) where
  returned : contains (expire_pending_tokens_at at s).1 value ≡ overdue_at at (load_token s value)
  unfolding expire_pending_tokens_at load_token
  returned =
      contains-order_by token_key value (λ a b. leb b.created_at a.created_at)
        (select (is_overdue at) s.join_tokens)
      ∙ contains-select token_key value (is_overdue at) s.join_tokens keyed
      ∙ overdue_at_elim at (lookup token_key value s.join_tokens)

  -- In a table whose values are unique, a sweep at the time `at` returns exactly the values of the
  -- tokens that are pending and expired before `at`, marks these expired and leaves every other
  -- token as it was.
  pub expire_pending_tokens_exact :
      (contains (expire_pending_tokens_at at s).1 value ≡ overdue_at at (load_token s value))
      × (load_token (expire_pending_tokens_at at s).0 value ≡ swept at (load_token s value))
  unfolding expire_pending_tokens_at load_token
  expire_pending_tokens_exact = (
    returned,
    lookup-update_each token_key value (λ _. true) as_expired (λ _. refl) (λ _. refl)
          (expire_pending_tokens_at at s).1 s.join_tokens
        ∙ swept-map at (contains (expire_pending_tokens_at at s).1 value)
            (lookup token_key value s.join_tokens) returned,
  )

module _ (env : Env) (at : ℕ) (s : Store) where
  sweep_admits :
      (s' : Store) (f : String) (o : Option JoinToken)
      → s'.reads ≡ s.reads
      → at ≤ now env s
      → (consume_loaded env s' (swept at o) f).1 ≡ (consume_loaded env s o f).1
  unfolding consume_loaded swept
  sweep_admits s' f none e h = refl
  sweep_admits s' f (some t) e h = ground (arith, ap env.now e)

  -- In a table whose values are unique, a sweep at a time that the clock has reached changes no
  -- admission: a consumption after it answers what it would have answered without it.
  pub consume_token_after_sweep :
      (value f : String)
      → IsKeyed token_key s.join_tokens
      → at ≤ now env s
      → (consume_token env (expire_pending_tokens_at at s).0 value f).1
        ≡ (consume_token env s value f).1
  unfolding consume_token
  consume_token_after_sweep value f keyed h = rw (expire_pending_tokens_exact at s keyed value).1 (
      sweep_admits (expire_pending_tokens_at at s).0 f (load_token s value)
        (unfold expire_pending_tokens_at in refl) h)
