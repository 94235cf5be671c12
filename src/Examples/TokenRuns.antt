-- ===== src/Examples/TokenRuns.antt =====
-- Runs of the join tokens.
use hermes_managed_network.Prelude.{◌≡◌, refl, String, none, some, List, [], ◌∷◌, arith}
use hermes_managed_network.Table.{IsKeyed, lookup}
use hermes_managed_network.Schema.{Env}
use hermes_managed_network.Tokens.{token_key, as_used, load_token, consume_loaded, consume_token}
use hermes_managed_network.Tokens.Memory
use hermes_managed_network.Tokens.Memory.{JoinTokenStore}
use hermes_managed_network.Tokens.Single.{TokenOp, run_ops, consume_token_once}
use hermes_managed_network.Tokens.Agreement.{consume_agrees}
use hermes_managed_network.Tokens.Race.{
  Caller, first, second, start, race, Ends, racing_consumers_both_admitted,
}
use hermes_managed_network.Tokens.Refinement.{
  Call, issue, consume, sweep, call_all, Ledger, replay, Refines, call_all-Refines,
}
use hermes_managed_network.Examples.{host, open_token, old_token, tokens_store}

abbrev later : List TokenOp
later = TokenOp.consume "j_b" "fp3" ∷ TokenOp.expire 2000 ∷ TokenOp.list ∷ []

admits_open : (consume_token host tokens_store "j_a" "fp1").1 ≡ some (as_used 1000 "fp1" open_token)
unfolding consume_token consume_loaded load_token lookup
admits_open = refl

unique_tokens : IsKeyed token_key tokens_store.join_tokens
unfolding lookup
unique_tokens = (refl, (refl, tt))

found_open : load_token tokens_store "j_a" ≡ some open_token
unfolding load_token lookup
found_open = refl

consume_token_once_example :
    (consume_token host
      (run_ops host (consume_token host tokens_store "j_a" "fp1").0 later)
      "j_a"
      "fp2").1
    ≡ none
consume_token_once_example =
    consume_token_once host tokens_store "j_a" "fp1" "fp2" (as_used 1000 "fp1" open_token) later
      admits_open

-- a clock that stands still
abbrev still : Env
still = record host { now = λ _. 1000 }

abbrev memory : JoinTokenStore
memory = record { tokens = open_token ∷ old_token ∷ []; reads = 0; draws = 0 }

consume_agrees_example :
    ((Memory.consume still memory "j_a" "fp1").1 ≡ (consume_token still tokens_store "j_a" "fp1").1)
    × ((Memory.consume still memory "j_a" "fp1").0.tokens
        ≡ (consume_token still tokens_store "j_a" "fp1").0.join_tokens)
consume_agrees_example = consume_agrees still tokens_store memory refl refl refl "j_a" "fp1"

prints : Caller → String
prints first = "fp1"
prints second = "fp2"

racing_consumers_both_admitted_example :
    Ends host "j_a" prints
      (race host "j_a" prints (start tokens_store) (first ∷ first ∷ second ∷ second ∷ []))
      first
      (some (as_used 1000 (prints first) open_token))
      none
      (some (as_used 1000 (prints first) open_token))
    × Ends host "j_a" prints
        (race host "j_a" prints (start tokens_store) (first ∷ second ∷ first ∷ second ∷ []))
        first
        (some (as_used 1000 (prints first) open_token))
        (some (as_used 1001 (prints second) open_token))
        (some (as_used 1001 (prints second) open_token))
    × Ends host "j_a" prints
        (race host "j_a" prints (start tokens_store) (first ∷ second ∷ second ∷ first ∷ []))
        first
        (some (as_used 1001 (prints first) open_token))
        (some (as_used 1000 (prints second) open_token))
        (some (as_used 1001 (prints first) open_token))
racing_consumers_both_admitted_example =
    racing_consumers_both_admitted host "j_a" prints tokens_store open_token found_open refl
      (omega arith) (omega arith) first

-- the ledger of the two tokens
abbrev ledger : Ledger
ledger = record { token = λ w. load_token tokens_store w; reads = 0 }

abbrev calls : List Call
calls = consume "j_a" "fp1" ∷ sweep ∷ consume "j_a" "fp2" ∷ issue open_token ∷ []

call_all-Refines_example :
    ((call_all host tokens_store calls).1 ≡ (replay host ledger calls).1)
    × Refines (call_all host tokens_store calls).0 (replay host ledger calls).0
call_all-Refines_example =
    call_all-Refines host tokens_store ledger calls
      (record { keyed = unique_tokens; same = λ w. refl; clock = refl })
