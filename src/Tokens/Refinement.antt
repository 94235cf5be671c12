-- ===== src/Tokens/Refinement.antt =====
-- The table of the join tokens as a map from values to tokens.
use hermes_managed_network.Prelude.{
  ℕ, ◌+◌, String, ◌≡◌, refl, ap, ◌∙◌, true, Option, none, some, List, [], ◌∷◌, arith, ◌==◌, ◌&&◌,
  not, ltb, inl, inr, Bool-cases, if◌then◌else◌,
}
use hermes_managed_network.Table.{IsKeyed}
use hermes_managed_network.Table.Laws.{lookup-upsert}
use hermes_managed_network.Table.Keyed.{upsert-IsKeyed, update_each-IsKeyed}
use hermes_managed_network.Schema.{JoinToken, Store, Env, now, read_clock}
use hermes_managed_network.Tokens.{
  token_key, as_expired, as_used, save_token, load_token, consume_loaded, consume_token,
  expire_pending_tokens_at, expire_pending_tokens,
}
use hermes_managed_network.Tokens.Outcome.{admitted, written, consume_token_outcome}
use hermes_managed_network.Tokens.Expiry.{swept, expire_pending_tokens_exact}

-- a call of the store
pub data Call : Type 0 where
  issue : JoinToken → Call
  consume : String → String → Call
  sweep : Call

-- what the store does on a call, and what consume_token returns of it
abbrev pub call_store : Env → Store → Call → Store × Option JoinToken
call_store env s (issue token) = (save_token s token, none)
call_store env s (consume value f) = consume_token env s value f
call_store env s sweep = ((expire_pending_tokens env s).0, none)

abbrev pub call_all : Env → Store → List Call → Store × List (Option JoinToken)
call_all env s [] = (s, [])
call_all env s (c ∷ cs) =
    let rest = call_all env (call_store env s c).0 cs in (rest.0, (call_store env s c).1 ∷ rest.1)

-- The contract: the token of each value, and how often the clock was read.
pub record Ledger : Type 0 where
  pub token : String → Option JoinToken
  pub reads : ℕ

abbrev pub is_there : Option JoinToken → ℕ
is_there none = 0
is_there (some _) = 1

-- who is admitted at a time
abbrev pub admitted_at : ℕ → String → Option JoinToken → Option JoinToken
admitted_at at f none = none
admitted_at at f (some t) =
    if t.status == "pending" && not (ltb t.expires_at at) then some (as_used at f t) else none

-- what a consumption at a time leaves of the token
abbrev pub spent_at : ℕ → String → Option JoinToken → Option JoinToken
spent_at at f none = none
spent_at at f (some t) =
    if t.status == "pending"
    then some (if ltb t.expires_at at then as_expired t else as_used at f t)
    else some t

-- what a sweep at a time leaves of the token
abbrev pub lapsed_at : ℕ → Option JoinToken → Option JoinToken
lapsed_at at none = none
lapsed_at at (some t) =
    some (if t.status == "pending" && ltb t.expires_at at then as_expired t else t)

abbrev pub call_ledger : Env → Ledger → Call → Ledger × Option JoinToken
call_ledger env l (issue new) =
    (record l { token = λ w. if new.value == w then some new else l.token w }, none)
call_ledger env l (consume value f) = (
  record {
    token = λ w. if value == w then spent_at (env.now l.reads) f (l.token value) else l.token w;
    reads = l.reads + is_there (l.token value);
  },
  admitted_at (env.now l.reads) f (l.token value),
)
call_ledger env l sweep =
    (record { token = λ w. lapsed_at (env.now l.reads) (l.token w); reads = l.reads + 1 }, none)

abbrev pub replay : Env → Ledger → List Call → Ledger × List (Option JoinToken)
replay env l [] = (l, [])
replay env l (c ∷ cs) =
    let rest = replay env (call_ledger env l c).0 cs in (rest.0, (call_ledger env l c).1 ∷ rest.1)

-- the table holds exactly the tokens of the ledger, each under one value
pub record Refines (s : Store) (l : Ledger) : Type 0 where
  pub keyed : IsKeyed token_key s.join_tokens
  pub same : (w : String) → load_token s w ≡ l.token w
  pub clock : s.reads ≡ l.reads

module _ (env : Env) where
  admitted-admitted_at :
      (s : Store) (f : String) (o : Option JoinToken)
      → admitted env s f o ≡ admitted_at (now env s) f o
  unfolding admitted
  admitted-admitted_at s f none = refl
  admitted-admitted_at s f (some t) = ground arith

  written-spent_at :
      (s : Store) (f : String) (o : Option JoinToken) → written env s f o ≡ spent_at (now env s) f o
  unfolding written
  written-spent_at s f none = refl
  written-spent_at s f (some t) = ground arith

  reads-consume_loaded :
      (s : Store) (o : Option JoinToken) (f : String)
      → (consume_loaded env s o f).0.reads ≡ s.reads + is_there o
  unfolding consume_loaded save_token
  reads-consume_loaded s none f = ground arith
  reads-consume_loaded s (some t) f = ground arith

  reads-consume_token :
      (s : Store) (value f : String)
      → (consume_token env s value f).0.reads ≡ s.reads + is_there (load_token s value)
  unfolding consume_token
  reads-consume_token s value f = reads-consume_loaded s (load_token s value) f

  IsKeyed-consume_loaded :
      (s : Store) (o : Option JoinToken) (f : String)
      → IsKeyed token_key s.join_tokens
      → IsKeyed token_key (consume_loaded env s o f).0.join_tokens
  unfolding consume_loaded save_token
  IsKeyed-consume_loaded s none f k = k
  IsKeyed-consume_loaded s (some t) f k =
      elim (Bool-cases (t.status == "pending" && ltb t.expires_at (now env s))) [
        | inl e ↦ rw e (upsert-IsKeyed token_key (as_expired t) s.join_tokens k)
        | inr e ↦ elim (Bool-cases (t.status == "pending")) [
          | inl p ↦ rw (e, p) (upsert-IsKeyed token_key (as_used (now env s) f t) s.join_tokens k)
          | inr p ↦ rw (e, p) k
        ]
      ]

  swept-lapsed_at : (at : ℕ) (o : Option JoinToken) → swept at o ≡ lapsed_at at o
  unfolding swept
  swept-lapsed_at at none = refl
  swept-lapsed_at at (some t) = refl

  load-read_clock : (s : Store) (w : String) → load_token (read_clock s) w ≡ load_token s w
  unfolding load_token
  load-read_clock s w = refl

  issue-Refines :
      (s : Store) (l : Ledger) (new : JoinToken)
      → Refines s l
      → Refines (save_token s new) (call_ledger env l (issue new)).0
  unfolding save_token load_token
  issue-Refines s l new h = record {
    keyed = upsert-IsKeyed token_key new s.join_tokens h.keyed;
    same = λ w. lookup-upsert token_key w new s.join_tokens ∙ rw (h.same w);
    clock = h.clock;
  }

  consume-Refines :
      (s : Store) (l : Ledger) (value f : String)
      → Refines s l
      → ((consume_token env s value f).1 ≡ (call_ledger env l (consume value f)).1)
        × Refines (consume_token env s value f).0 (call_ledger env l (consume value f)).0
  consume-Refines s l value f h = (
    (consume_token_outcome env s value value f).0
        ∙ admitted-admitted_at s f (load_token s value)
        ∙ rw (h.same value, h.clock),
    record {
      keyed = unfold consume_token in IsKeyed-consume_loaded s (load_token s value) f h.keyed;
      same = λ w.
          (consume_token_outcome env s value w f).1
          ∙ rw (written-spent_at s f (load_token s value), h.same value, h.same w, h.clock);
      clock = reads-consume_token s value f ∙ rw (h.same value, h.clock);
    },
  )

  sweep-Refines :
      (s : Store) (l : Ledger)
      → Refines s l
      → Refines (expire_pending_tokens env s).0 (call_ledger env l sweep).0
  unfolding expire_pending_tokens
  sweep-Refines s l h = record {
    keyed =
        unfold expire_pending_tokens_at in
        update_each-IsKeyed token_key (λ _. true) as_expired (λ _. refl)
          (expire_pending_tokens_at (now env s) (read_clock s)).1 s.join_tokens h.keyed;
    same = λ w.
        (expire_pending_tokens_exact (now env s) (read_clock s) h.keyed w).1
        ∙ swept-lapsed_at (now env s) (load_token (read_clock s) w)
        ∙ rw (load-read_clock s w, h.same w, h.clock);
    clock = unfold expire_pending_tokens_at in ap (λ n. n + 1) h.clock;
  }

  call-Refines :
      (s : Store) (l : Ledger) (c : Call)
      → Refines s l
      → ((call_store env s c).1 ≡ (call_ledger env l c).1)
        × Refines (call_store env s c).0 (call_ledger env l c).0
  call-Refines s l (issue new) h = (refl, issue-Refines s l new h)
  call-Refines s l (consume value f) h = consume-Refines s l value f h
  call-Refines s l sweep h = (refl, sweep-Refines s l h)

  -- A table whose values are unique and which holds the tokens of a ledger, read at the same count of the
  -- clock, refines the ledger under any sequence of issues, consumptions and sweeps: the answers are
  -- those of the ledger, and the table still holds its tokens, each under one value.
  pub call_all-Refines :
      (s : Store) (l : Ledger) (cs : List Call)
      → Refines s l
      → ((call_all env s cs).1 ≡ (replay env l cs).1)
        × Refines (call_all env s cs).0 (replay env l cs).0
  call_all-Refines s l [] h = (refl, h)
  call_all-Refines s l (c ∷ cs) h =
      let (answer, refines) = call-Refines s l c h in
      let (answers, end) =
        call_all-Refines (call_store env s c).0 (call_ledger env l c).0 cs refines in
      (rw (answer, answers), end)
