-- ===== src/Tokens/Race.antt =====
-- Two calls of `consume_token` (src/hermes_managed_network/storage.py) on one token, whose reads and
-- writes come in any order: the read and the write are two transactions.
use hermes_managed_network.Prelude.{
  ◌+◌, ◌≤◌, ℕ, String, ◌≡◌, refl, ◌∙◌, Option, none, some, List, [], ◌∷◌, arith, eq_iff, eq_refl,
}
use hermes_managed_network.Table.Laws.{lookup-upsert, key-lookup}
use hermes_managed_network.Schema.{JoinToken, Store, Env, read_clock}
use hermes_managed_network.Tokens.{token_key, as_used, save_token, load_token, consume_loaded}

pub data Caller : Type 0 where
  first : Caller
  second : Caller

abbrev pub other : Caller → Caller
other first = second
other second = first

-- before the read; between the read and the write, with what was read; after the return
pub data Phase : Type 0 where
  called : Phase
  holding : Option JoinToken → Phase
  returned : Option JoinToken → Phase

pub record Race : Type 0 where
  pub store : Store
  pub first_phase : Phase
  pub second_phase : Phase

abbrev pub phase_of : Race → Caller → Phase
phase_of r first = r.first_phase
phase_of r second = r.second_phase

abbrev move : Race → Caller → Store → Phase → Race
move r first s p = record r { store = s; first_phase = p }
move r second s p = record r { store = s; second_phase = p }

abbrev pub start : Store → Race
start s = record { store = s; first_phase = called; second_phase = called }

module _ (env : Env) (value : String) (fingerprint : Caller → String) where
  -- the next transaction of a caller, by its phase
  unfoldable pub transact : Race → Caller → Phase → Race
  transact r c called = move r c r.store (holding (load_token r.store value))
  transact r c (holding loaded) =
      let (s, answer) = consume_loaded env r.store loaded (fingerprint c) in
      move r c s (returned answer)
  transact r c (returned answer) = r

  -- the transactions of both callers, in the order of the schedule
  unfoldable pub race : Race → List Caller → Race
  race r [] = r
  race r (c ∷ schedule) = race (transact r c (phase_of r c)) schedule

  -- what the two callers were given, and the row of the token after them
  pub record Ends (r : Race) (c : Caller) (mine others row : Option JoinToken) : Type 0 where
    pub of_caller : phase_of r c ≡ returned mine
    pub of_other : phase_of r (other c) ≡ returned others
    pub of_table : load_token r.store value ≡ row

  module _ (s : Store) (t : JoinToken) (there : load_token s value ≡ some t)
      (pending : t.status ≡ "pending") (early : env.now s.reads ≤ t.expires_at)
      (late : env.now (s.reads + 1) ≤ t.expires_at) where
    -- the token as the first of the two writes, and as the second, stores it for a caller
    abbrev used_first : Caller → JoinToken
    used_first c = as_used (env.now s.reads) (fingerprint c) t

    abbrev used_second : Caller → JoinToken
    used_second c = as_used (env.now (s.reads + 1)) (fingerprint c) t

    abbrev once : Caller → Store
    once c = save_token (read_clock s) (used_first c)

    first_write :
        (c : Caller) → consume_loaded env s (some t) (fingerprint c) ≡ (once c, some (used_first c))
    unfolding consume_loaded
    first_write c = ground (arith, eq_iff t.status "pending")

    reload :
        (s' : Store) (at : ℕ) (c : Caller)
        → load_token (save_token s' (as_used at (fingerprint c) t)) value
          ≡ some (as_used at (fingerprint c) t)
    unfolding load_token save_token
    reload s' at c =
        lookup-upsert token_key value (as_used at (fingerprint c) t) s'.join_tokens
        ∙ rw (key-lookup token_key value s.join_tokens t there, eq_refl value)

    second_write :
        (c d : Caller)
        → consume_loaded env (once c) (some t) (fingerprint d)
          ≡ (save_token (read_clock (once c)) (used_second d), some (used_second d))
    unfolding consume_loaded save_token
    second_write c d = ground (arith, eq_iff t.status "pending")

    refused :
        (c d : Caller)
        → consume_loaded env (once c) (some (used_first c)) (fingerprint d)
          ≡ (read_clock (once c), none)
    unfolding consume_loaded
    refused c d = refl

    -- the race when both have returned
    abbrev over : Caller → Store → Option JoinToken → Option JoinToken → Race
    over c s' mine others =
        move (move (start s') c s' (returned mine)) (other c) s' (returned others)

    abbrev twice : Caller → Caller → Store
    twice c d = save_token (read_clock (once c)) (used_second d)

    one_by_one :
        (c : Caller)
        → race (start s) (c ∷ c ∷ other c ∷ other c ∷ [])
          ≡ over c (read_clock (once c)) (some (used_first c)) none
    unfolding race transact
    one_by_one first = rw (
      there,
      first_write first,
      reload (read_clock s) (env.now s.reads) first,
      refused first second,
    )
    one_by_one second = rw (
      there,
      first_write second,
      reload (read_clock s) (env.now s.reads) second,
      refused second first,
    )

    both_read :
        (c : Caller)
        → (race (start s) (c ∷ other c ∷ c ∷ other c ∷ [])
            ≡ over c (twice c (other c)) (some (used_first c)) (some (used_second (other c))))
          × (race (start s) (c ∷ other c ∷ other c ∷ c ∷ [])
              ≡ over c (twice (other c) c) (some (used_second c)) (some (used_first (other c))))
    unfolding race transact
    both_read first = (
      rw (there, first_write first, second_write first second),
      rw (there, first_write second, second_write second first),
    )
    both_read second = (
      rw (there, first_write second, second_write second first),
      rw (there, first_write first, second_write first second),
    )

    over-Ends :
        (c : Caller) (r : Race) (s' : Store) (mine others row : Option JoinToken)
        → r ≡ over c s' mine others
        → load_token s' value ≡ row
        → Ends r c mine others row
    over-Ends first r s' mine others row e h =
        rw e (record { of_caller = refl; of_other = refl; of_table = h })
    over-Ends second r s' mine others row e h =
        rw e (record { of_caller = refl; of_other = refl; of_table = h })

    reload_once : (c : Caller) → load_token (read_clock (once c)) value ≡ some (used_first c)
    unfolding load_token
    reload_once c = unfold load_token in reload (read_clock s) (env.now s.reads) c

    -- A token that is pending and that has not passed its expiry at either write is consumed by two
    -- callers. If one has written before the other reads, it is admitted, the other is refused, and the
    -- row names the first. If both have read before either writes, both are admitted, in either order
    -- of the writes, and the row names only the one that wrote last.
    pub racing_consumers_both_admitted :
        (c : Caller)
        → Ends
            (race (start s) (c ∷ c ∷ other c ∷ other c ∷ []))
            c
            (some (used_first c))
            none
            (some (used_first c))
          × Ends
              (race (start s) (c ∷ other c ∷ c ∷ other c ∷ []))
              c
              (some (used_first c))
              (some (used_second (other c)))
              (some (used_second (other c)))
          × Ends
              (race (start s) (c ∷ other c ∷ other c ∷ c ∷ []))
              c
              (some (used_second c))
              (some (used_first (other c)))
              (some (used_second c))
    racing_consumers_both_admitted c = (
      over-Ends c _ (read_clock (once c)) _ _ _ (one_by_one c) (reload_once c),
      over-Ends c _ (twice c (other c)) _ _ _ (both_read c).0
          (reload (read_clock (once c)) (env.now (s.reads + 1)) (other c)),
      over-Ends c _ (twice (other c) c) _ _ _ (both_read c).1
          (reload (read_clock (once (other c))) (env.now (s.reads + 1)) c),
    )
