-- ===== src/Tokens/Memory.antt =====
-- JoinTokenStore of src/hermes_managed_network/tokens.py: the tokens in a dict by their value. A token
-- that a method changes is the object in the dict.
use hermes_managed_network.Prelude.{
  ℕ, ◌+◌, String, Bool, Option, none, some, List, ltb, ◌==◌, ◌||◌, if◌then◌else◌,
}
use Prim.Native.String.{◌++◌ as join}
use hermes_managed_network.Table.{lookup, upsert}
use hermes_managed_network.Schema.{JoinToken, Env, Result, ok, raised, value_error}
use hermes_managed_network.Tokens.{token_key, as_expired, as_used}

pub record JoinTokenStore : Type 0 where
  pub tokens : List JoinToken
  pub reads : ℕ
  pub draws : ℕ

abbrev valid_trust_level : String → Bool
valid_trust_level level = level == "A" || level == "B" || level == "C"

module _ (env : Env) where
  -- `token_urlsafe` gives the texts that the store draws
  unfoldable pub create :
      (ℕ → String) → JoinTokenStore → String → List String → ℕ → JoinTokenStore × Result JoinToken
  create token_urlsafe m trust_level labels ttl =
      let created_at = env.now m.reads in
      let token : JoinToken = record {
        value = join "j_" (token_urlsafe m.draws);
        trust_level = trust_level;
        labels = labels;
        expires_at = created_at + ttl;
        status = "pending";
        created_at = created_at;
        used_at = none;
        node_fingerprint = none;
      } in
      if valid_trust_level trust_level
      then (
        record {
          tokens = upsert token_key token m.tokens;
          reads = m.reads + 1;
          draws = m.draws + 1;
        },
        ok token,
      )
      else (m, raised value_error)

  -- what `get` does with the token in the dict
  unfoldable pub refresh : JoinTokenStore → Option JoinToken → JoinTokenStore × Option JoinToken
  refresh m none = (m, none)
  refresh m (some token) =
      let expired = as_expired token in
      if token.status == "pending"
      then (if ltb token.expires_at (env.now m.reads)
          then (
            record m { tokens = upsert token_key expired m.tokens; reads = m.reads + 1 },
            some expired,
          )
          else (record m { reads = m.reads + 1 }, some token))
      else (m, some token)

  unfoldable pub get : JoinTokenStore → String → JoinTokenStore × Option JoinToken
  unfolding refresh
  get m value = refresh m (lookup token_key value m.tokens)

  -- what `consume` does with the token that `get` returned
  unfoldable pub use_token :
      String → JoinTokenStore → Option JoinToken → JoinTokenStore × Option JoinToken
  use_token node_fingerprint m none = (m, none)
  use_token node_fingerprint m (some token) =
      let used = as_used (env.now m.reads) node_fingerprint token in
      if token.status == "pending"
      then (record m { tokens = upsert token_key used m.tokens; reads = m.reads + 1 }, some used)
      else (m, none)

  unfoldable pub consume : JoinTokenStore → String → String → JoinTokenStore × Option JoinToken
  unfolding get use_token
  consume m value node_fingerprint =
      let (m', token) = get m value in use_token node_fingerprint m' token
