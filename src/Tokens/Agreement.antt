-- ===== src/Tokens/Agreement.antt =====
-- The in-memory store of tokens.py beside the SQLite store.
use hermes_managed_network.Prelude.{◌+◌, String, ◌≡◌, refl, ap, Option, none, some, arith}
use mathlib.Core.Path.{subst}
use hermes_managed_network.Table.{lookup}
use hermes_managed_network.Schema.{JoinToken, Store, Env}
use hermes_managed_network.Tokens.{token_key, load_token, consume_loaded, consume_token}
use hermes_managed_network.Tokens.Memory
use hermes_managed_network.Tokens.Memory.{JoinTokenStore, refresh, use_token}

module _ (env : Env) (s : Store) (m : JoinTokenStore) (same : m.tokens ≡ s.join_tokens)
    (reads : m.reads ≡ s.reads) (still : env.now (s.reads + 1) ≡ env.now s.reads) where
  agree_loaded :
      (f : String) (o : Option JoinToken)
      → let (m', got) = refresh env m o in
        let r = use_token env f m' got in
        (r.1 ≡ (consume_loaded env s o f).1)
        × (r.0.tokens ≡ (consume_loaded env s o f).0.join_tokens)
  unfolding refresh use_token consume_loaded
  agree_loaded f none = (refl, same)
  agree_loaded f (some t) = (ground arith, ground arith)

  -- If the clock gives the same time at two readings, a consumption of the in-memory store and
  -- one of the SQLite store that hold the same tokens, and have read the clock as often, answer
  -- the same and hold the same tokens afterwards.
  pub consume_agrees :
      (value f : String)
      → ((Memory.consume env m value f).1 ≡ (consume_token env s value f).1)
        × ((Memory.consume env m value f).0.tokens ≡ (consume_token env s value f).0.join_tokens)
  unfolding Memory.consume consume_token load_token
  consume_agrees value f =
      subst
        (λ o.
          let (m', got) = refresh env m (lookup token_key value m.tokens) in
          let r = use_token env f m' got in
          (r.1 ≡ (consume_loaded env s o f).1)
          × (r.0.tokens ≡ (consume_loaded env s o f).0.join_tokens))
        (ap (λ l. lookup token_key value l) same) (agree_loaded f (lookup token_key value m.tokens))
