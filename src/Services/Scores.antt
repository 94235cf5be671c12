-- ===== src/Services/Scores.antt =====
-- The score of a service under more evidence.
use hermes_managed_network.Prelude.{
  ℕ, ◌-◌, ◌≤◌, String, ◌≡◌, Bool, List, [], ◌∷◌, arith, if◌then◌else◌,
}
use hermes_managed_network.Table.{select}
use hermes_managed_network.Schema.{Env, ok}
use hermes_managed_network.Services.{ServiceRecord, ServiceAsset, Rule, total, capped, is_localhost}
use hermes_managed_network.Services.Classify.{
  bonuses, penalties, asset_score, asset_with, asset_of, classify_service_asset,
}

abbrev gain : Rule → ℕ
gain r = if r.holds then r.points else 0

-- each rule gives no more than the one at its place
data IsBelow : List Rule → List Rule → Type 0 where
  no_rules : IsBelow [] []
  both :
      {r q : Rule} {rs qs : List Rule} → gain r ≤ gain q → IsBelow rs qs → IsBelow (r ∷ rs) (q ∷ qs)

total_mono : {rs qs : List Rule} → IsBelow rs qs → total rs ≤ total qs
unfolding total
total_mono no_rules = ground arith
total_mono (both p h) = ground (arith, p, total_mono h)

capped_mono : (a b c d : ℕ) → a ≤ c → d ≤ b → capped 100 (a - b) ≤ capped 100 (c - d)
capped_mono a b c d p q = ground arith

capped_bound : (n : ℕ) → capped 100 n ≤ 100
capped_bound n = ground arith

same_gain : (n : ℕ) → n ≤ n
same_gain n = ground arith

module _ (env : Env) (lower : String → String) (s : ServiceRecord) (domains : List String) where
  abbrev pub bare : ServiceRecord
  bare = record s { domains = [] }

  abbrev pub with_domains : ServiceRecord
  with_domains = record s { domains = domains }

  more_bonuses : IsBelow (bonuses env lower bare) (bonuses env lower with_domains)
  unfolding bonuses select
  more_bonuses = both (same_gain _) (
      both (same_gain _) (
        both (same_gain _) (
          both (ground arith) (
            both (same_gain _) (
              both (same_gain _) (
                both (same_gain _) (
                  both (same_gain _)
                    (both (same_gain _) (both (ground arith) (both (same_gain _) no_rules))))))))))

  fewer_penalties :
      (localhost : Bool)
      → IsBelow (penalties env lower with_domains localhost) (penalties env lower bare localhost)
  unfolding penalties select
  fewer_penalties localhost = both (same_gain _) (
      both (same_gain _) (
        both (same_gain _) (
          both (ground arith) (
            both (same_gain _)
              (both (same_gain _) (both (same_gain _) (both (same_gain _) no_rules)))))))

  -- Where the bind address is no list and no dict, the classification returns, its score is at most 100,
  -- and a service never has a lower score for the domains that it has than it would have without any.
  pub domains_never_lower_score :
      (localhost : Bool)
      → is_localhost s.metadata ≡ ok localhost
      → (a a' : ServiceAsset) × (classify_service_asset env lower bare ≡ ok a)
        × (classify_service_asset env lower with_domains ≡ ok a')
        × (a.asset_score ≤ a'.asset_score)
        × (a'.asset_score ≤ 100)
  unfolding classify_service_asset asset_of asset_with asset_score
  domains_never_lower_score localhost h = (
    asset_with env lower bare localhost,
    asset_with env lower with_domains localhost,
    rw h,
    rw h,
    capped_mono _ _ _ _ (total_mono more_bonuses) (total_mono (fewer_penalties localhost)),
    capped_bound (
        total (bonuses env lower with_domains)
        - total (penalties env lower with_domains localhost)),
  )
