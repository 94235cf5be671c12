-- ===== src/Tokens.antt =====
-- Join tokens: the operations of SQLiteStore on the table join_tokens
-- (src/hermes_managed_network/storage.py). `consume_token` reads the row and writes it back in two
-- transactions, so what follows the read is a function of its own.
pub mod Memory
pub mod Single
pub mod Outcome
pub mod Race
pub mod Expiry
pub mod Agreement
pub mod Refinement
use hermes_managed_network.Prelude.{
  ℕ, String, Bool, Option, none, some, List, ◌&&◌, map, ltb, leb, not, ◌==◌, true, if◌then◌else◌,
}
use hermes_managed_network.Table.{lookup, upsert, select, order_by, update_each}
use hermes_managed_network.Schema.{JoinToken, Store, Env, now, read_clock}

abbrev pub token_key : JoinToken → String
token_key t = t.value

unfoldable pub save_token : Store → JoinToken → Store
save_token s token = record s { join_tokens = upsert token_key token s.join_tokens }

unfoldable pub load_token : Store → String → Option JoinToken
load_token s value = lookup token_key value s.join_tokens

abbrev pub as_expired : JoinToken → JoinToken
as_expired token = record token { status = "expired" }

abbrev pub as_used : ℕ → String → JoinToken → JoinToken
as_used used_at node_fingerprint token = record token {
  status = "used";
  used_at = some used_at;
  node_fingerprint = some node_fingerprint;
}

-- status = 'pending' AND expires_at < now
abbrev pub is_overdue : ℕ → JoinToken → Bool
is_overdue at token = token.status == "pending" && ltb token.expires_at at

-- expire_pending_tokens(now=at)
unfoldable pub expire_pending_tokens_at : ℕ → Store → Store × List String
expire_pending_tokens_at at s =
    let rows =
      order_by (λ a b. leb b.created_at a.created_at) (select (is_overdue at) s.join_tokens) in
    let values = map token_key rows in
    (
      record s { join_tokens = update_each token_key (λ _. true) as_expired values s.join_tokens },
      values,
    )

module _ (env : Env) where
  -- what consume_token does with the token that it loaded
  unfoldable pub consume_loaded : Store → Option JoinToken → String → Store × Option JoinToken
  unfolding save_token
  consume_loaded s none node_fingerprint = (s, none)
  consume_loaded s (some token) node_fingerprint =
      let at = now env s in
      let s' = read_clock s in
      let used = as_used at node_fingerprint token in
      if token.status == "pending" && ltb token.expires_at at
      then (save_token s' (as_expired token), none)
      else if not (token.status == "pending")
      then (s', none)
      else (save_token s' used, some used)

  unfoldable pub consume_token : Store → String → String → Store × Option JoinToken
  unfolding load_token
  consume_token s value node_fingerprint = consume_loaded s (load_token s value) node_fingerprint

  unfoldable pub expire_pending_tokens : Store → Store × List String
  unfolding expire_pending_tokens_at
  expire_pending_tokens s = expire_pending_tokens_at (now env s) (read_clock s)

  unfoldable pub list_tokens : Store → Store × List JoinToken
  unfolding expire_pending_tokens
  list_tokens s =
      let s' = (expire_pending_tokens s).0 in
      (s', order_by (λ a b. leb b.created_at a.created_at) s'.join_tokens)
