-- ===== src/Tokens/Single.antt =====
-- What happens to a token after it was consumed.
use hermes_managed_network.Prelude.{
  ℕ, String, ◌≡◌, refl, Bool, true, false, Option, none, some, ◌&&◌, List, [], ◌∷◌, arith, ◌==◌,
  eq_iff, if◌then◌else◌,
}
use hermes_managed_network.Table.{lookup}
use hermes_managed_network.Table.Laws.{lookup-upsert, key-lookup}
use hermes_managed_network.Table.Keyed.{lookup-update_each}
use mathlib.Core.Option
use hermes_managed_network.Schema.{JoinToken, Store, Env, now, read_clock}
use hermes_managed_network.Tokens.{
  token_key, as_used, as_expired, load_token, consume_loaded, consume_token,
  expire_pending_tokens_at, expire_pending_tokens, list_tokens,
}

abbrev pub open_token : Option JoinToken → Bool
open_token none = false
open_token (some token) = token.status == "pending"

-- the token is there and can still be used
abbrev pub is_open : Store → String → Bool
is_open s value = open_token (load_token s value)

-- what other holders of the database may do to the tokens in the meantime
pub data TokenOp : Type 0 where
  consume : String → String → TokenOp
  expire : ℕ → TokenOp
  list : TokenOp

module _ (env : Env) where
  unfoldable pub run_op : Store → TokenOp → Store
  run_op s (consume value node_fingerprint) = (consume_token env s value node_fingerprint).0
  run_op s (expire at) = (expire_pending_tokens_at at s).0
  run_op s list = (list_tokens env s).0

  unfoldable pub run_ops : Store → List TokenOp → Store
  run_ops s [] = s
  run_ops s (op ∷ ops) = run_ops (run_op s op) ops

  consume_loaded_closed :
      (s : Store) (value : String) (o : Option JoinToken) (f : String)
      → is_open s value ≡ false
      → is_open (consume_loaded env s o f).0 value ≡ false
  unfolding consume_loaded load_token
  consume_loaded_closed s value none f h = h
  consume_loaded_closed s value (some t) f h = ground (
    arith,
    lookup-upsert token_key value (as_used (now env s) f t) s.join_tokens,
    lookup-upsert token_key value (as_expired t) s.join_tokens,
  )

  consume_token_closed :
      (s : Store) (value w f : String)
      → is_open s value ≡ false
      → is_open (consume_token env s w f).0 value ≡ false
  unfolding consume_token
  consume_token_closed s value w f h = consume_loaded_closed s value (load_token s w) f h

  expired_closed :
      (b : Bool) (o : Option JoinToken)
      → open_token o ≡ false
      → open_token (Option.map (λ t. if b && true then as_expired t else t) o) ≡ false
  expired_closed b none h = refl
  expired_closed true (some t) h = refl
  expired_closed false (some t) h = h

  expire_closed :
      (at : ℕ) (s : Store) (value : String)
      → is_open s value ≡ false
      → is_open (expire_pending_tokens_at at s).0 value ≡ false
  unfolding expire_pending_tokens_at load_token
  expire_closed at s value h =
      rw (lookup-update_each token_key value (λ _. true) as_expired (λ _. refl) (λ _. refl))
        (expired_closed _ (lookup token_key value s.join_tokens) h)

  list_closed :
      (s : Store) (value : String)
      → is_open s value ≡ false
      → is_open (list_tokens env s).0 value ≡ false
  unfolding list_tokens expire_pending_tokens load_token
  list_closed s value h = expire_closed (now env s) (read_clock s) value h

  run_ops_closed :
      (s : Store) (value : String) (ops : List TokenOp)
      → is_open s value ≡ false
      → is_open (run_ops s ops) value ≡ false
  unfolding run_ops run_op
  run_ops_closed s value [] h = h
  run_ops_closed s value (consume w f ∷ ops) h =
      run_ops_closed (consume_token env s w f).0 value ops (consume_token_closed s value w f h)
  run_ops_closed s value (expire at ∷ ops) h =
      run_ops_closed (expire_pending_tokens_at at s).0 value ops (expire_closed at s value h)
  run_ops_closed s value (list ∷ ops) h =
      run_ops_closed (list_tokens env s).0 value ops (list_closed s value h)

  closed_refuses_loaded :
      (s : Store) (o : Option JoinToken) (f : String)
      → open_token o ≡ false
      → (consume_loaded env s o f).1 ≡ none
  unfolding consume_loaded
  closed_refuses_loaded s none f h = refl
  closed_refuses_loaded s (some t) f h = ground arith

  closed_refuses :
      (s : Store) (value f : String)
      → is_open s value ≡ false
      → (consume_token env s value f).1 ≡ none
  unfolding consume_token
  closed_refuses s value f h = closed_refuses_loaded s (load_token s value) f h

  consume_loaded_closes :
      (s : Store) (value : String) (o : Option JoinToken) (f : String) (t : JoinToken)
      → ((x : JoinToken) → o ≡ some x → x.value ≡ value)
      → (consume_loaded env s o f).1 ≡ some t
      → is_open (consume_loaded env s o f).0 value ≡ false
  unfolding consume_loaded load_token
  consume_loaded_closes s value none f t under h = cc
  consume_loaded_closes s value (some x) f t under h = ground (
    arith,
    under x refl,
    eq_iff x.value value,
    lookup-upsert token_key value (as_used (now env s) f x) s.join_tokens,
    lookup-upsert token_key value (as_expired x) s.join_tokens,
  )

  consume_token_closes :
      (s : Store) (value f : String) (t : JoinToken)
      → (consume_token env s value f).1 ≡ some t
      → is_open (consume_token env s value f).0 value ≡ false
  unfolding consume_token load_token
  consume_token_closes s value f t h =
      consume_loaded_closes s value (load_token s value) f t
        (λ x e. key-lookup token_key value s.join_tokens x e) h

  -- Once a token was consumed, every later attempt to consume it is refused, whatever
  -- consumptions, sweeps and listings come in between, each as a whole.
  pub consume_token_once :
      (s : Store) (value f g : String) (t : JoinToken) (ops : List TokenOp)
      → (consume_token env s value f).1 ≡ some t
      → (consume_token env (run_ops (consume_token env s value f).0 ops) value g).1 ≡ none
  consume_token_once s value f g t ops h =
      closed_refuses (run_ops (consume_token env s value f).0 ops) value g (
        run_ops_closed (consume_token env s value f).0 value ops
          (consume_token_closes s value f t h))
