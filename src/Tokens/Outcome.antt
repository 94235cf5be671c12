-- ===== src/Tokens/Outcome.antt =====
-- What one call of `consume_token` answers and writes.
use hermes_managed_network.Prelude.{
  String, ◌≡◌, refl, Option, none, some, arith, ltb, ◌==◌, eq_iff, if◌then◌else◌,
}
use hermes_managed_network.Table.{lookup}
use hermes_managed_network.Table.Laws.{lookup-upsert, key-lookup}
use hermes_managed_network.Schema.{JoinToken, Store, Env, now}
use hermes_managed_network.Tokens.{
  token_key, as_used, as_expired, load_token, consume_loaded, consume_token,
}

module _ (env : Env) where
  -- the two clauses of the contract: who is admitted, and what is written
  unfoldable pub admitted : Store → String → Option JoinToken → Option JoinToken
  admitted s f none = none
  admitted s f (some t) =
      if t.status == "pending"
      then (if ltb t.expires_at (now env s) then none else some (as_used (now env s) f t))
      else none

  unfoldable pub written : Store → String → Option JoinToken → Option JoinToken
  written s f none = none
  written s f (some t) =
      if t.status == "pending"
      then (if ltb t.expires_at (now env s)
          then some (as_expired t)
          else some (as_used (now env s) f t))
      else some t

  outcome_loaded :
      (s : Store) (value w f : String) (o : Option JoinToken)
      → ((x : JoinToken) → o ≡ some x → x.value ≡ value)
      → lookup token_key value s.join_tokens ≡ o
      → ((consume_loaded env s o f).1 ≡ admitted s f o)
        × (load_token (consume_loaded env s o f).0 w
            ≡ (if value == w then written s f o else load_token s w))
  unfolding consume_loaded load_token admitted written
  outcome_loaded s value w f none under at = (refl, ground (arith, eq_iff value w))
  outcome_loaded s value w f (some t) under at = (
    ground arith,
    ground (
      arith,
      under t refl,
      eq_iff value w,
      lookup-upsert token_key w (as_used (now env s) f t) s.join_tokens,
      lookup-upsert token_key w (as_expired t) s.join_tokens,
    ),
  )

  -- A consumption admits exactly a token that is pending and not past its expiry, and then returns it
  -- as used, at the time of the call, by that fingerprint. Under its value the table then holds the
  -- used token, or the token as expired if it was pending and overdue, or what it held before; under
  -- every other value it holds what it held.
  pub consume_token_outcome :
      (s : Store) (value w f : String)
      → ((consume_token env s value f).1 ≡ admitted s f (load_token s value))
        × (load_token (consume_token env s value f).0 w
            ≡ (if value == w then written s f (load_token s value) else load_token s w))
  unfolding consume_token load_token
  consume_token_outcome s value w f =
      outcome_loaded s value w f (load_token s value)
        (λ x e. key-lookup token_key value s.join_tokens x e) refl
