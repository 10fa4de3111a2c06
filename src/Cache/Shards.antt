-- ===== src/Cache/Shards.antt =====
-- DNS_Cache of DNS_Cache.h and DNS_Cache.cpp: a shard for each worker.
use dns_pro.Base.{
  ℕ, zero, suc, ◌+◌, ◌*◌, ◌/◌, ◌%◌, ◌≤◌, ◌<◌, min, ◌≡◌, refl, ap, ◌⊎◌, inl, inr, List, [], ◌∷◌,
  arith, ltb, ◌==◌, if◌then◌else◌, length, get_elem?, All, Outcome, ok, err, ◌>>◌, refuse_if,
  or_fail,
}
use native.Mathlib.Nat.{mod-lt, div-add-mod}
use dns_pro.Cache.Shard.{CacheShard, new_shard}

-- std::invalid_argument, and std::out_of_range of at().
pub data CacheException : Type 0 where
  invalid_argument out_of_range : CacheException

pub record DnsCache : Type 0 where
  pub total_capacity : ℕ
  pub shards : List CacheShard

-- The loop of the constructor, from an index on.
unfoldable pub shards_from : ℕ → ℕ → ℕ → ℕ → List CacheShard
shards_from zero index base_capacity remainder = []
shards_from (suc more) index base_capacity remainder =
    new_shard (base_capacity + (if ltb index remainder then 1 else 0))
    ∷ shards_from more (index + 1) base_capacity remainder

unfoldable pub new_cache : ℕ → ℕ → Outcome CacheException DnsCache
new_cache total_capacity shard_count = do
  refuse_if (shard_count == 0) invalid_argument
  ok (record {
    total_capacity = total_capacity;
    shards =
        shards_from shard_count 0 (total_capacity / shard_count) (total_capacity % shard_count);
  })

unfoldable pub shard : DnsCache → ℕ → Outcome CacheException CacheShard
shard cache worker_id = or_fail (get_elem? cache.shards worker_id) out_of_range

abbrev pub sum_capacities : List CacheShard → ℕ
sum_capacities [] = 0
sum_capacities (s ∷ shards) = s.capacity + sum_capacities shards

-- Shards whose capacities are as even as they can be.
abbrev pub IsEven : ℕ → List CacheShard → Type 0
IsEven base shards =
    All (λ (s : CacheShard). (base ≤ s.capacity) × (s.capacity ≤ base + 1) × (s.entries ≡ []))
      shards

length-shards_from :
    (more index base remainder : ℕ) → length (shards_from more index base remainder) ≡ more
unfolding shards_from
length-shards_from zero index base remainder = refl
length-shards_from (suc more) index base remainder =
    ap suc (length-shards_from more (index + 1) base remainder)

shards_from-IsEven :
    (more index base remainder : ℕ) → IsEven base (shards_from more index base remainder)
unfolding shards_from
shards_from-IsEven zero index base remainder = tt
shards_from-IsEven (suc more) index base remainder =
    ((ground arith, ground arith, refl), shards_from-IsEven more (index + 1) base remainder)

sum_capacities-shards_from :
    (more index base remainder : ℕ)
    → sum_capacities (shards_from more index base remainder) + min index remainder
      ≡ more * base + min (index + more) remainder
unfolding shards_from
sum_capacities-shards_from zero index base remainder = ground arith
sum_capacities-shards_from (suc more) index base remainder =
    ground (arith, sum_capacities-shards_from more (index + 1) base remainder)

zero_lt : (n : ℕ) → 0 < suc n
zero_lt n = omega arith

-- A cache for at least one worker has a shard for each, all empty, with capacities that add up to
-- the total and differ by at most one; for no worker it is an invalid argument.
pub new_cache_lem :
    (total_capacity shard_count : ℕ)
    → ((shard_count ≡ 0) × (new_cache total_capacity shard_count ≡ err invalid_argument))
      ⊎ ((cache : DnsCache) × (new_cache total_capacity shard_count ≡ ok cache)
          × (length cache.shards ≡ shard_count)
          × (sum_capacities cache.shards ≡ total_capacity)
          × IsEven (total_capacity / shard_count) cache.shards)
unfolding new_cache
new_cache_lem total_capacity zero = inl (refl, refl)
new_cache_lem total_capacity (suc n) =
    let base : ℕ = total_capacity / suc n in
    let remainder : ℕ = total_capacity % suc n in
    inr (
      record { total_capacity = total_capacity; shards = shards_from (suc n) 0 base remainder },
      ground arith,
      length-shards_from (suc n) 0 base remainder,
      omega (
        arith,
        sum_capacities-shards_from (suc n) 0 base remainder,
        mod-lt total_capacity (zero_lt n),
        div-add-mod total_capacity (suc n),
      ),
      shards_from-IsEven (suc n) 0 base remainder,
    )
